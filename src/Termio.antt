-- ===== src/Termio.antt =====
-- Terminal control: the data of libposix/sys/termio.c, libposix/vfs/vfs_termio.c,
-- libposix/vfs/pdo/pdo_termio.c and libposix/vfs/char (include/vfs_types.h), with the input and
-- output modes of a console. What Windows answers about a console is a parameter.
pub mod Dispatch
pub mod Ioctl
pub mod Keeps
pub mod Attributes
pub mod Refusal
pub mod Size
use minc.Prelude.{
  ℕ, suc, ◌+◌, ◌%◌, Bool, true, false, Option, none, some, List, [], ◌∷◌, bit_or, ◌==◌, get_or, set,
  if◌then◌else◌,
}
use minc.Prelude.Int.{ℤ, pos, ◌+ℤ◌, ◌-ℤ◌}
use minc.Prelude.Words.{to_word, to_short, short_of_word}
use minc.Console.{ScreenInfo, SmallRect}
use minc.Screen.{screen_mode}
use minc.Descriptor.{FsType}
use minc.Descriptor.Flags.{has}

-- WIN_WINSIZE, of four USHORTs
pub record WinSize : Type 0 where
  pub row : ℕ
  pub column : ℕ
  pub x_pixel : ℕ
  pub y_pixel : ℕ

-- WIN_TERMIO; `control` has WIN_NCCS characters.
pub record Attribs : Type 0 where
  pub i_flags : ℕ
  pub o_flags : ℕ
  pub c_flags : ℕ
  pub l_flags : ℕ
  pub control : List ℕ
  pub i_speed : ℕ
  pub o_speed : ℕ

-- The fields of WIN_TTY that terminal control reads and writes.
pub record Tty : Type 0 where
  pub index : ℕ
  pub group_id : ℕ
  pub session_id : ℕ
  pub win_size : WinSize
  pub attribs : Attribs
  pub flags : ℕ

-- The fields of WIN_DEVICE that do.
pub record Device : Type 0 where
  pub device_type : ℕ
  pub fs_type : FsType
  pub event : ℕ
  pub input : ℕ
  pub output : ℕ
  pub index : ℕ
  pub name : List ℕ

-- DEV_TYPE_CONSOLE, and the others that have a case.
pub data DevKind : Type 0 where
  dev_console dev_input dev_screen dev_pty dev_tty dev_other : DevKind

unfoldable pub kind_of : ℕ → DevKind
kind_of t =
    if t == 0x501
    then dev_console
    else if t == 0x504
    then dev_input
    else if t == 0x505
    then dev_screen
    else if t == 0x508
    then dev_pty
    else if t == 0x518
    then dev_tty
    else dev_other

-- Calls of Windows that change a console.
pub data TermCall : Type 0 where
  set_console_mode : ℕ → ℕ → TermCall
  set_buffer_size : ℕ → ℕ → ℕ → TermCall
  set_window_info : ℕ → ℤ → ℤ → TermCall
  flush_input : ℕ → TermCall
  set_colors : ℕ → TermCall
  set_output_code_page : ℕ → TermCall

-- One end of a pipe that Windows made: its handle, the access that it grants, and its flags.
pub record PipeEnd : Type 0 where
  pub handle : ℕ
  pub access : ℕ
  pub flags : ℕ

-- What Windows answers: whether such a call succeeds, what it knows of a screen, the last error
-- that a failure leaves, the handles of CONIN$ and CONOUT$, and the two ends of a new pipe
-- (CreateNamedPipeW, and CreateFileW on its name).
pub record Windows : Type 0 where
  pub accepts : TermCall → Bool
  pub screen_info : ℕ → Option ScreenInfo
  pub failure_error : ℕ
  pub con_in : ℕ
  pub con_out : ℕ
  pub creates_pipe : Option PipeEnd
  pub opens_pipe : Option PipeEnd

-- __Terminals, __Devices, the calls made so far, the latest first, and the last error.
pub record Terms : Type 0 where
  pub ttys : List Tty
  pub devices : ℕ → Device
  pub calls : List TermCall
  pub last_error : ℕ

abbrev pub error_ctx_not_console : ℕ
error_ctx_not_console = 7038

abbrev pub error_bad_device : ℕ
error_bad_device = 1200

abbrev pub error_logon_session_exists : ℕ
error_logon_session_exists = 1363

-- InputMode; the bits are ENABLE_WINDOW_INPUT and its kin.
unfoldable pub input_mode : Attribs → ℕ
input_mode a =
    let mode : ℕ = 0xF8 in
    let lines : ℕ =
      if has a.l_flags 0x8
      then bit_or mode 0x6
      else if has a.l_flags 0x100
      then bit_or mode 0x2
      else mode in
    if has a.l_flags 0x80 then bit_or lines 0x1 else lines

-- SetLastError(error); return(FALSE)
unfoldable pub refused : ℕ → Terms → Terms × Bool
refused e s = (record s { last_error = e }, false)

module _ (windows : Windows) where
  -- One call of Windows.
  unfoldable pub call : TermCall → Terms → Terms × Bool
  call c s =
      if windows.accepts c
      then (record s { calls = c ∷ s.calls }, true)
      else (record s { last_error = windows.failure_error }, false)

  -- f() && g(), of calls whose failure ends the function
  unfoldable pub and_then : Terms × Bool → (Terms → Terms × Bool) → Terms × Bool
  and_then (s, true) next = next s
  and_then (s, false) next = (s, false)

  unfoldable pub size_of : ScreenInfo → WinSize
  unfolding to_word ◌+ℤ◌ ◌-ℤ◌
  size_of info = record {
    row = to_word (info.window.bottom -ℤ info.window.top +ℤ pos 1);
    column = to_word info.size.x;
    x_pixel = to_word (info.cursor_position.x +ℤ pos 1);
    y_pixel = to_word (info.cursor_position.y +ℤ pos 1);
  }

  -- By what GetConsoleScreenBufferInfo gave.
  unfoldable pub screen_size : Option ScreenInfo → Terms → Terms × Option WinSize
  unfolding size_of
  screen_size none s = (record s { last_error = windows.failure_error }, none)
  screen_size (some info) s = (s, some (size_of info))

  -- The size that is stored, if the call succeeds.
  unfoldable pub screen_tiocgwinsz : ℕ → Terms → Terms × Option WinSize
  unfolding screen_size
  screen_tiocgwinsz handle s = screen_size (windows.screen_info handle) s

  unfoldable pub screen_tiocswinsz : ℕ → WinSize → Terms → Terms × Bool
  unfolding call and_then short_of_word to_short ◌-ℤ◌
  screen_tiocswinsz handle w s = and_then (call (set_buffer_size handle w.column w.row) s) (
      call (
        set_window_info handle (to_short (short_of_word w.column -ℤ pos 1))
          (to_short (short_of_word w.row -ℤ pos 1))))

  unfoldable pub input_tiocflush : ℕ → Terms → Terms × Bool
  unfolding call
  input_tiocflush handle s = call (flush_input handle) s

  -- CONOUT$ is not buffered.
  unfoldable pub screen_tiocdrain : ℕ → Terms → Terms × Bool
  screen_tiocdrain handle s = (s, true)

  unfoldable pub con_tiocgwinsz : Device → Terms → Terms × Option WinSize
  unfolding screen_tiocgwinsz
  con_tiocgwinsz d s = screen_tiocgwinsz d.output s

  unfoldable pub con_tiocswinsz : Device → WinSize → Terms → Terms × Bool
  unfolding screen_tiocswinsz
  con_tiocswinsz d w s = screen_tiocswinsz d.output w s

  unfoldable pub con_tiocseta : Device → Attribs → Terms → Terms × Bool
  unfolding call and_then input_mode screen_mode
  con_tiocseta d a s =
      and_then (call (set_console_mode d.input (input_mode a)) s)
        (call (set_console_mode d.output (screen_mode a.o_flags)))

  -- The console is opened for the device and made white on black, and its output UTF-8 (65001).
  unfoldable pub char_tiocsctty : ℕ → Terms → Terms × Bool
  char_tiocsctty id s =
      let d = s.devices id in
      let d' = record d {
        input = windows.con_in;
        output = windows.con_out;
        event = windows.con_in;
      } in
      (
        record s {
          devices = λ j. if j == id then d' else s.devices j;
          calls = set_output_code_page 65001 ∷ set_colors windows.con_out ∷ s.calls;
        },
        true,
      )
