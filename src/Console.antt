-- ===== src/Console.antt =====
-- The data that the terminal works on: the structures of include/win/wincon.h, the fields of
-- WIN_TTY (include/vfs_types.h) and the globals of libposix/vfs/vfs.c that output uses, and the
-- console of the operating system, which is not part of the repository.
use minc.Prelude.{ℕ, Bool, true, List, ◌∷◌, Option, set, ltb, if◌then◌else◌}
use minc.Prelude.Int.{ℤ}

-- COORD
pub record Coord : Type 0 where
  pub x : ℤ
  pub y : ℤ

-- SMALL_RECT
pub record SmallRect : Type 0 where
  pub left : ℤ
  pub top : ℤ
  pub right : ℤ
  pub bottom : ℤ

-- CONSOLE_SCREEN_BUFFER_INFO; the attributes are a WORD.
pub record ScreenInfo : Type 0 where
  pub size : Coord
  pub cursor_position : Coord
  pub attributes : ℕ
  pub window : SmallRect
  pub maximum_window_size : Coord

-- CHAR_INFO
pub record CharInfo : Type 0 where
  pub char : ℕ
  pub char_attributes : ℕ

-- The calls of the operating system that change the console, with their arguments, and the
-- messages of WIN_ERR: `report_error` says that a call failed, and its text is not modelled.
pub data Call : Type 0 where
  set_cursor_position : Coord → Call
  scroll_screen_buffer : SmallRect → Option SmallRect → Coord → CharInfo → Call
  set_text_attribute : ℕ → Call
  fill_attribute : ℕ → ℕ → Coord → Call
  fill_character : ℕ → ℕ → Coord → Call
  write_file : List ℕ → Call
  set_console_mode : ℕ → Call
  set_cursor_info : ℕ → Bool → Call
  set_output_cp : ℕ → Call
  report : List ℕ → Call
  report_error : Call

-- The console of the operating system. What it answers may depend on all the calls made before,
-- the latest first.
pub record Console : Type 0 where
  -- Does this call succeed?
  pub accepts : List Call → Call → Bool
  -- GetConsoleScreenBufferInfo, none where it fails.
  pub screen_info : List Call → Option ScreenInfo
  -- GetConsoleMode, none where it fails.
  pub console_mode : List Call → Option ℕ
  -- GetACP and GetOEMCP
  pub acp : ℕ
  pub oem_cp : ℕ
  -- IsCharAlpha and IsCharAlphaNumeric
  pub is_alpha : ℕ → Bool
  pub is_alpha_numeric : ℕ → Bool

-- SEQUENCE. `args` is an offset into `buf`, and `buf` the CHAR Buf[128].
pub record Sequence : Type 0 where
  pub args : ℕ
  pub arg1 : ℤ
  pub char1 : ℕ
  pub csi : ℕ
  pub buf : List ℕ

-- The fields of __CTTY and the globals that output reads or writes. `escape` is __Escape as an
-- offset into the buffer of the sequence, none for NULL; `input` is what was appended to __Input
-- at __Index; `calls` are the calls made, the latest first; `overrun` records that a byte was
-- stored past the end of the buffer.
pub record Terminal : Type 0 where
  pub scroll_rate : ℕ
  pub v_edit : Bool
  pub cursor : Coord
  pub info : ScreenInfo
  pub oflags : ℕ
  pub escape : Option ℕ
  pub seq : Sequence
  pub input : List ℕ
  pub calls : List Call
  pub overrun : Bool

abbrev pub buf_size : ℕ
buf_size = 128

-- One call of the console.
unfoldable pub issue : Console → Call → Terminal → Bool × Terminal
issue c k t = (c.accepts t.calls k, record t { calls = k ∷ t.calls })

-- A call whose result the program drops.
unfoldable pub issue_ : Console → Call → Terminal → Terminal
issue_ c k t = record t { calls = k ∷ t.calls }

-- One byte stored at an offset of the buffer.
unfoldable pub store : ℕ → ℕ → Terminal → Terminal
store i b t =
    if ltb i buf_size
    then record t { seq = record t.seq { buf = set t.seq.buf i b } }
    else record t { overrun = true }

-- SetConsoleCursorPosition for a position that was also stored in Info.
unfoldable pub move_cursor : Console → Coord → Terminal → Bool × Terminal
unfolding issue
move_cursor c p t =
    issue c (set_cursor_position p) (record t { info = record t.info { cursor_position = p } })
