-- ===== src/Termio/Ioctl.antt =====
-- The rest of libposix/vfs/vfs_termio.c, and term_ioctl with its functions (libposix/sys/termio.c). A
-- request carries the value that its argument points at; what is stored through the pointer is part
-- of the result.
use minc.Prelude.{
  ℕ, Bool, true, false, Option, none, some, List, [], take, bit_and, bit_or, ◌==◌, if◌then◌else◌,
}
use minc.Errno.{errno_posix, ebadf, eopnotsupp}
use minc.Descriptor.{VNode, FsType, fs_char, fs_pdo, fs_pipe, empty}
use minc.Descriptor.Table.{Reply, value, error, negated, fd_posix}
use minc.Termio.{
  WinSize, Attribs, PipeEnd, Windows, Terms, error_ctx_not_console, error_logon_session_exists,
  refused, char_tiocsctty,
}
use minc.Termio.Dispatch.{
  Leader, tty_at, put_tty, vfs_tiocgwinsz, vfs_tiocswinsz, vfs_tiocgeta, vfs_tiocflush,
  vfs_tiocdrain, vfs_tiocseta,
}

-- TIOCFLUSH and the other requests of term_ioctl; any other number is `unknown`.
pub data Request : Type 0 where
  flush drain take_terminal get_attribs get_size get_group get_discipline get_flags get_pair
        unknown :
      Request
  set_size : WinSize → Request
  set_attribs : Attribs → Bool → Bool → Request
  set_group : ℕ → Request
  set_flags : ℕ → Request

-- What the call stores through its pointer; for PTMGET the two descriptors, as fd_posix returned
-- them, and the name of the device, which is stored twice.
pub data Stored : Type 0 where
  nothing : Stored
  size : WinSize → Stored
  attribs : Attribs → Stored
  number : ℕ → Stored
  pair : Reply → Reply → List ℕ → Stored

-- The terminals, the calling task, what is stored, and the int returned.
pub record Result : Type 0 where
  pub terms : Terms
  pub leader : Leader
  pub stored : Stored
  pub reply : Reply

-- The table's entry for the groups that may read a terminal.
unfoldable pub vfs_tiocgpgrp : FsType → ℕ → Terms → Terms × Option ℕ
unfolding tty_at
vfs_tiocgpgrp fs_pdo i s = (s, some (tty_at i s).group_id)
vfs_tiocgpgrp fs_char i s = (s, some (tty_at i s).group_id)
vfs_tiocgpgrp _ i s = (record s { last_error = error_ctx_not_console }, none)

unfoldable pub vfs_tiocspgrp : FsType → ℕ → ℕ → Terms → Terms × Bool
unfolding tty_at put_tty refused
vfs_tiocspgrp fs_pdo i group s = (put_tty i (record (tty_at i s) { group_id = group }) s, true)
vfs_tiocspgrp fs_char i group s = (put_tty i (record (tty_at i s) { group_id = group }) s, true)
vfs_tiocspgrp _ i group s = refused error_ctx_not_console s

unfoldable pub vfs_tiocgflags : ℕ → Terms → Terms × Option ℕ
unfolding tty_at
vfs_tiocgflags i s =
    let f = (tty_at i s).flags in
    if f == 0
    then (record s { last_error = error_ctx_not_console }, none)
    else (s, some (bit_and f 0xFFFF))

unfoldable pub vfs_tiocsflags : ℕ → ℕ → Terms → Terms × Bool
unfolding tty_at put_tty refused
vfs_tiocsflags i flags s =
    let t = tty_at i s in
    if t.flags == 0
    then refused error_ctx_not_console s
    else (put_tty i (record t { flags = bit_or (bit_and t.flags 0xFFFF0000) flags }) s, true)

-- PipeCreateFile and PipeOpenFile, with what vfs_PTMGET puts into their nodes.
unfoldable pub pipe_node : ℕ → VNode → PipeEnd → VNode
pipe_node options n made = record empty {
  handle = made.handle;
  event = n.event;
  fs_type = fs_pipe;
  attribs = options;
  access = made.access;
  flags = made.flags;
  index = n.index;
  file_type = n.file_type;
  device_type = n.device_type;
  device_id = n.device_id;
}

-- Where both ends are made; FILE_ATTRIBUTE_NORMAL is 0x80, and PIPE_READMODE_BYTE is 0.
unfoldable pub pair_made : VNode → Option PipeEnd → Option PipeEnd → Option (VNode × VNode)
unfolding pipe_node
pair_made n none slave = none
pair_made n (some master) none = none
pair_made n (some master) (some slave) = some (pipe_node 0 n master, pipe_node 0x80 n slave)

-- fd_posix(Task, node, 0)
unfoldable pub placed : VNode → Leader → Leader × Reply
unfolding fd_posix
placed n l =
    let (f, r) = fd_posix (record { nodes = l.nodes; calls = []; last_error = 0 }) n 0 in
    (record l { nodes = f.nodes }, r)

module _ (windows : Windows) where
  unfoldable pub pair_answer : Terms → Option (VNode × VNode) → Terms × Option (VNode × VNode)
  pair_answer s none = (record s { last_error = windows.failure_error }, none)
  pair_answer s (some p) = (s, some p)

  unfoldable pub vfs_ptmget : VNode → Terms → Terms × Option (VNode × VNode)
  unfolding pair_made pair_answer
  vfs_ptmget n s = pair_answer s (pair_made n windows.creates_pipe windows.opens_pipe)

  unfoldable pub pdo_tiocsctty : FsType → ℕ → Terms → Terms × Bool
  unfolding char_tiocsctty refused
  pdo_tiocsctty fs_char id s = char_tiocsctty windows id s
  pdo_tiocsctty _ id s = refused error_ctx_not_console s

  -- The terminal of the node becomes that of the task's session.
  unfoldable pub terminal_taken : ℕ → Leader → Terms × Bool → Terms × Leader × Bool
  unfolding tty_at put_tty
  terminal_taken i l (s, false) = (s, l, false)
  terminal_taken i l (s, true) =
      let t = record (tty_at i s) { session_id = l.session_id; group_id = l.group_id } in
      (put_tty i t s, record l { has_terminal = true; terminal = t.index }, true)

  unfoldable pub vfs_tiocsctty : VNode → Leader → Terms → Terms × Leader × Bool
  unfolding pdo_tiocsctty terminal_taken
  vfs_tiocsctty n l s =
      if l.has_terminal
      then (record s { last_error = error_logon_session_exists }, l, false)
      else terminal_taken n.index l (pdo_tiocsctty (s.devices n.device_id).fs_type n.device_id s)

  -- 0, or result -= errno_posix(GetLastError())
  unfoldable pub term_reply : Terms × Bool → Reply
  term_reply (s, true) = value 0
  term_reply (s, false) = negated (errno_posix s.last_error)

  unfoldable pub told : Leader → Terms × Bool → Result
  unfolding term_reply
  told l r = record { terms = r.0; leader = l; stored = nothing; reply = term_reply r }

  unfoldable pub stored_if {ℓ} : {A : Type ℓ} → (A → Stored) → Leader → Terms × Option A → Result
  unfolding term_reply
  stored_if f l (s, none) = record {
    terms = s;
    leader = l;
    stored = nothing;
    reply = term_reply (s, false);
  }
  stored_if f l (s, some a) = record { terms = s; leader = l; stored = f a; reply = value 0 }

  unfoldable pub term_tiocgeta : VNode → Leader → Terms × Bool → Result
  unfolding term_reply tty_at
  term_tiocgeta n l (s, true) = record {
    terms = s;
    leader = l;
    stored = attribs (tty_at n.index s).attribs;
    reply = value 0;
  }
  term_tiocgeta n l (s, false) = record {
    terms = s;
    leader = l;
    stored = nothing;
    reply = term_reply (s, false);
  }

  -- term_TIOCSETA, term_TIOCSETAW and term_TIOCSETAF, after vfs_TIOCSETA
  unfoldable pub term_tiocseta : VNode → Attribs → Leader → Terms × Bool → Result
  unfolding term_reply tty_at put_tty told
  term_tiocseta n a l (s, true) =
      told l (put_tty n.index (record (tty_at n.index s) { attribs = a }) s, true)
  term_tiocseta n a l (s, false) = told l (s, false)

  -- The name is copied by win_strncpy, of 16 characters with the 0.
  unfoldable pub term_ptmget : VNode → Leader → Terms × Option (VNode × VNode) → Result
  unfolding term_reply placed
  term_ptmget n l (s, none) = record {
    terms = s;
    leader = l;
    stored = nothing;
    reply = term_reply (s, false);
  }
  term_ptmget n l (s, some (master, slave)) =
      let (l1, cfd) = placed master l in
      let (l2, sfd) = placed slave l1 in
      record {
        terms = s;
        leader = l2;
        stored = pair cfd sfd (take 15 (s.devices n.device_id).name);
        reply = value 0;
      }

  unfoldable pub term_request : VNode → Leader → Request → Terms → Result
  unfolding told stored_if term_reply term_tiocgeta term_tiocseta vfs_tiocgwinsz vfs_tiocswinsz
      vfs_tiocgeta vfs_tiocflush vfs_tiocdrain vfs_tiocseta vfs_tiocsctty vfs_tiocgpgrp
      vfs_tiocspgrp vfs_tiocgflags vfs_tiocsflags vfs_ptmget term_ptmget
  term_request n l flush s = told l (vfs_tiocflush windows n.fs_type n s)
  term_request n l drain s = told l (vfs_tiocdrain windows n.fs_type n s)
  term_request n l take_terminal s = let (s', l', done) = vfs_tiocsctty n l s in told l' (s', done)
  term_request n l get_attribs s = term_tiocgeta n l (vfs_tiocgeta windows n.fs_type s)
  term_request n l get_size s = stored_if size l (vfs_tiocgwinsz windows n s)
  term_request n l (set_size w) s =
      let (r, w') = vfs_tiocswinsz windows n w s in record (told l r) { stored = size w' }
  term_request n l (set_attribs a flushed drained) s =
      term_tiocseta n a l (vfs_tiocseta windows n a flushed drained s)
  term_request n l (set_group g) s = told l (vfs_tiocspgrp n.fs_type n.index g s)
  term_request n l get_group s = stored_if number l (vfs_tiocgpgrp n.fs_type n.index s)
  term_request n l get_discipline s = told l (s, true)
  term_request n l (set_flags f) s = told l (vfs_tiocsflags n.index f s)
  term_request n l get_flags s = stored_if number l (vfs_tiocgflags n.index s)
  term_request n l get_pair s = term_ptmget n l (vfs_ptmget n s)
  term_request n l unknown s = record {
    terms = s;
    leader = l;
    stored = nothing;
    reply = error eopnotsupp;
  }

  unfoldable pub term_ioctl : VNode → Leader → Request → Terms → Result
  unfolding term_request
  term_ioctl n l request s =
      if n.access == 0
      then record { terms = s; leader = l; stored = nothing; reply = error ebadf }
      else term_request n l request s
