-- ===== src/Termio/Dispatch.antt =====
-- libposix/vfs/vfs_termio.c, libposix/vfs/pdo/pdo_termio.c and libposix/vfs/char/char_termio.c: which
-- kind of file and of device does what for a terminal.
use minc.Prelude.{ℕ, Bool, true, Option, none, some, List, [], get_or, set, if◌then◌else◌}
use minc.Descriptor.{VNode, FsType, fs_char, fs_pipe, fs_pdo}
use minc.Screen.{screen_mode}
use minc.Termio.{
  WinSize, Attribs, Tty, Device, DevKind, dev_console, dev_input, dev_screen, dev_pty, dev_tty,
  kind_of, set_console_mode, Windows, Terms, error_ctx_not_console, error_bad_device, input_mode,
  refused, call, screen_tiocgwinsz, screen_tiocswinsz, input_tiocflush, screen_tiocdrain,
  con_tiocgwinsz, con_tiocswinsz, con_tiocseta,
}

-- A terminal outside the table reads as one of zeros.
abbrev pub no_size : WinSize
no_size = record { row = 0; column = 0; x_pixel = 0; y_pixel = 0 }

abbrev pub no_tty : Tty
no_tty = record {
  index = 0;
  group_id = 0;
  session_id = 0;
  win_size = no_size;
  attribs = record {
    i_flags = 0;
    o_flags = 0;
    c_flags = 0;
    l_flags = 0;
    control = [];
    i_speed = 0;
    o_speed = 0;
  };
  flags = 0;
}

-- __Terminals[i]
unfoldable pub tty_at : ℕ → Terms → Tty
tty_at i s = get_or s.ttys i no_tty

unfoldable pub put_tty : ℕ → Tty → Terms → Terms
put_tty i t s = record s { ttys = set s.ttys i t }

-- The task that takes a terminal: the fields of WIN_TASK that are read and written.
pub record Leader : Type 0 where
  pub session_id : ℕ
  pub group_id : ℕ
  pub has_terminal : Bool
  pub terminal : ℕ
  pub nodes : List VNode

module _ (windows : Windows) where
  unfoldable pub pdo_size : DevKind → Device → Terms → Terms × Option WinSize
  unfolding con_tiocgwinsz screen_tiocgwinsz tty_at
  pdo_size dev_pty d s = con_tiocgwinsz windows d s
  pdo_size dev_console d s = con_tiocgwinsz windows d s
  pdo_size dev_screen d s = screen_tiocgwinsz windows d.output s
  pdo_size dev_tty d s = (s, some (tty_at d.index s).win_size)
  pdo_size _ d s = (record s { last_error = error_bad_device }, none)

  unfoldable pub char_size : DevKind → VNode → Terms → Terms × Option WinSize
  unfolding con_tiocgwinsz screen_tiocgwinsz
  char_size dev_console n s = con_tiocgwinsz windows (s.devices n.device_id) s
  char_size dev_pty n s = con_tiocgwinsz windows (s.devices n.device_id) s
  char_size dev_screen n s = screen_tiocgwinsz windows n.handle s
  char_size _ n s = (record s { last_error = error_bad_device }, none)

  -- pdo_TIOCGWINSZ, char_TIOCGWINSZ and vfs_TIOCGWINSZ, by the kind of file of the node.
  unfoldable pub size_by : FsType → VNode → Terms → Terms × Option WinSize
  unfolding pdo_size char_size kind_of tty_at
  size_by fs_pdo n s = let d = s.devices n.device_id in pdo_size (kind_of d.device_type) d s
  size_by fs_char n s = char_size (kind_of n.device_type) n s
  size_by fs_pipe n s = (s, some (tty_at n.index s).win_size)
  size_by _ n s = (record s { last_error = error_ctx_not_console }, none)

  unfoldable pub vfs_tiocgwinsz : VNode → Terms → Terms × Option WinSize
  unfolding size_by
  vfs_tiocgwinsz n s = size_by n.fs_type n s

  -- With the size that *WinSize holds afterwards.
  unfoldable pub pdo_set_size : DevKind → Device → WinSize → Terms → (Terms × Bool) × WinSize
  unfolding con_tiocswinsz screen_tiocswinsz tty_at refused
  pdo_set_size dev_pty d w s = (con_tiocswinsz windows d w s, w)
  pdo_set_size dev_console d w s = (con_tiocswinsz windows d w s, w)
  pdo_set_size dev_screen d w s = (screen_tiocswinsz windows d.output w s, w)
  pdo_set_size dev_tty d w s = ((s, true), (tty_at d.index s).win_size)
  pdo_set_size _ d w s = (refused error_bad_device s, w)

  unfoldable pub char_set_size : DevKind → VNode → WinSize → Terms → Terms × Bool
  unfolding con_tiocswinsz screen_tiocswinsz refused
  char_set_size dev_console n w s = con_tiocswinsz windows (s.devices n.device_id) w s
  char_set_size dev_pty n w s = con_tiocswinsz windows (s.devices n.device_id) w s
  char_set_size dev_screen n w s = screen_tiocswinsz windows n.handle w s
  char_set_size _ n w s = refused error_bad_device s

  unfoldable pub set_size_by : FsType → VNode → WinSize → Terms → (Terms × Bool) × WinSize
  unfolding pdo_set_size char_set_size kind_of tty_at put_tty refused
  set_size_by fs_pdo n w s =
      let d = s.devices n.device_id in pdo_set_size (kind_of d.device_type) d w s
  set_size_by fs_char n w s = (char_set_size (kind_of n.device_type) n w s, w)
  set_size_by fs_pipe n w s =
      ((put_tty n.index (record (tty_at n.index s) { win_size = w }) s, true), w)
  set_size_by _ n w s = (refused error_ctx_not_console s, w)

  unfoldable pub vfs_tiocswinsz : VNode → WinSize → Terms → (Terms × Bool) × WinSize
  unfolding set_size_by
  vfs_tiocswinsz n w s = set_size_by n.fs_type n w s

  -- TRUE for the files that are terminals.
  unfoldable pub vfs_tiocgeta : FsType → Terms → Terms × Bool
  unfolding refused
  vfs_tiocgeta fs_pdo s = (s, true)
  vfs_tiocgeta fs_char s = (s, true)
  vfs_tiocgeta _ s = refused error_ctx_not_console s

  unfoldable pub pdo_tiocflush : DevKind → Device → Terms → Terms × Bool
  unfolding input_tiocflush refused
  pdo_tiocflush dev_pty d s = input_tiocflush windows d.input s
  pdo_tiocflush dev_console d s = input_tiocflush windows d.input s
  pdo_tiocflush dev_tty d s = (s, true)
  pdo_tiocflush _ d s = refused error_bad_device s

  unfoldable pub char_tiocflush : DevKind → VNode → Terms → Terms × Bool
  unfolding input_tiocflush refused
  char_tiocflush dev_input n s = input_tiocflush windows n.handle s
  char_tiocflush _ n s = refused error_bad_device s

  unfoldable pub vfs_tiocflush : FsType → VNode → Terms → Terms × Bool
  unfolding pdo_tiocflush char_tiocflush kind_of refused
  vfs_tiocflush fs_pdo n s =
      let d = s.devices n.device_id in pdo_tiocflush (kind_of d.device_type) d s
  vfs_tiocflush fs_char n s = char_tiocflush (kind_of n.device_type) n s
  vfs_tiocflush _ n s = refused error_ctx_not_console s

  unfoldable pub pdo_tiocdrain : DevKind → Device → Terms → Terms × Bool
  unfolding screen_tiocdrain refused
  pdo_tiocdrain dev_pty d s = screen_tiocdrain windows d.output s
  pdo_tiocdrain dev_console d s = screen_tiocdrain windows d.output s
  pdo_tiocdrain dev_tty d s = (s, true)
  pdo_tiocdrain _ d s = refused error_bad_device s

  unfoldable pub char_tiocdrain : DevKind → VNode → Terms → Terms × Bool
  unfolding screen_tiocdrain refused
  char_tiocdrain dev_screen n s = screen_tiocdrain windows n.handle s
  char_tiocdrain _ n s = refused error_bad_device s

  unfoldable pub vfs_tiocdrain : FsType → VNode → Terms → Terms × Bool
  unfolding pdo_tiocdrain char_tiocdrain kind_of refused
  vfs_tiocdrain fs_pdo n s =
      let d = s.devices n.device_id in pdo_tiocdrain (kind_of d.device_type) d s
  vfs_tiocdrain fs_char n s = char_tiocdrain (kind_of n.device_type) n s
  vfs_tiocdrain _ n s = refused error_ctx_not_console s

  unfoldable pub pdo_tiocseta : DevKind → Device → Attribs → Terms → Terms × Bool
  unfolding con_tiocseta refused
  pdo_tiocseta dev_pty d a s = con_tiocseta windows d a s
  pdo_tiocseta dev_console d a s = con_tiocseta windows d a s
  pdo_tiocseta dev_tty d a s = (s, true)
  pdo_tiocseta _ d a s = refused error_bad_device s

  -- What char_TIOCSETA asks of the console; the function returns TRUE whatever comes of it.
  unfoldable pub char_seta_call : DevKind → VNode → Attribs → Terms → Terms × Bool
  unfolding con_tiocseta call input_mode screen_mode refused
  char_seta_call dev_console n a s = con_tiocseta windows (s.devices n.device_id) a s
  char_seta_call dev_pty n a s = con_tiocseta windows (s.devices n.device_id) a s
  char_seta_call dev_input n a s = call windows (set_console_mode n.handle (input_mode a)) s
  char_seta_call dev_screen n a s =
      call windows (set_console_mode n.handle (screen_mode a.o_flags)) s
  char_seta_call _ n a s = refused error_bad_device s

  unfoldable pub char_tiocseta : DevKind → VNode → Attribs → Terms → Terms × Bool
  unfolding char_seta_call
  char_tiocseta k n a s = ((char_seta_call k n a s).0, true)

  unfoldable pub seta_by : FsType → VNode → Attribs → Terms → Terms × Bool
  unfolding pdo_tiocseta char_tiocseta kind_of refused
  seta_by fs_pdo n a s = let d = s.devices n.device_id in pdo_tiocseta (kind_of d.device_type) d a s
  seta_by fs_char n a s = char_tiocseta (kind_of n.device_type) n a s
  seta_by _ n a s = refused error_ctx_not_console s

  unfoldable pub vfs_tiocseta : VNode → Attribs → Bool → Bool → Terms → Terms × Bool
  unfolding vfs_tiocdrain seta_by vfs_tiocflush
  vfs_tiocseta n a flush drain s =
      let s1 = if drain then (vfs_tiocdrain n.fs_type n s).0 else s in
      let (s2, done) = seta_by n.fs_type n a s1 in
      (if flush then (vfs_tiocflush n.fs_type n s2).0 else s2, done)
