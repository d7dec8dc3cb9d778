-- ===== src/Ansi/Cursor.antt =====
-- libposix/vfs/char/char_ansi.c: the functions that move, save and report the cursor. Coordinates
-- are SHORTs: an assignment to one wraps.
pub mod Motion
pub mod Report
use minc.Prelude.{
  ℕ, ◌+◌, Bool, true, false, List, [], ◌∷◌, ◌++◌, Option, none, some, ◌==◌, if◌then◌else◌,
}
use minc.Prelude.Int.{ℤ, pos, ◌+ℤ◌, ◌-ℤ◌, ◌*ℤ◌, ltb_ℤ}
use minc.Prelude.Words.{to_short, to_word}
use minc.Libc.{atoi, print_decimal}
use minc.Console.{Coord, SmallRect, ScreenInfo, Console, Terminal, move_cursor}

-- AnsiStrToInt
unfoldable pub str_to_int : List ℕ → ℤ
str_to_int s = elim (atoi s) [
  | ℤ.pos n ↦ (if n == 0 then pos 1 else pos n)
  | ℤ.negsuc n ↦ ℤ.negsuc n
]

-- AnsiRenderCursor
unfoldable pub render_cursor : ScreenInfo → Coord
render_cursor info =
    let p = info.cursor_position in
    if ltb_ℤ info.window.right p.x
    then record { x = to_short (p.x -ℤ (info.window.right +ℤ pos 1)); y = to_short (p.y +ℤ pos 1) }
    else p

-- AnsiCursorUp
unfoldable pub cursor_up : Console → ℕ → Terminal → Bool × Terminal
unfolding move_cursor
cursor_up c n t =
    let p = render_cursor t.info in
    let y = to_short (p.y -ℤ pos n) in
    let top = t.info.window.top in
    move_cursor c (record { x = p.x; y = if ltb_ℤ y top then top else y }) t

-- AnsiCursorDown
unfoldable pub cursor_down : Console → ℕ → Terminal → Bool × Terminal
unfolding move_cursor
cursor_down c n t =
    let p = render_cursor t.info in
    let y = to_short (p.y +ℤ pos n) in
    let bottom = t.info.window.bottom in
    move_cursor c (record { x = p.x; y = if ltb_ℤ bottom y then bottom else y }) t

-- AnsiCursorForward
unfoldable pub cursor_forward : Console → ℕ → Terminal → Bool × Terminal
unfolding move_cursor
cursor_forward c n t =
    let p = t.info.cursor_position in
    let right = t.info.window.right in
    let x = to_short (p.x +ℤ pos n) in
    let q : Coord =
      if ltb_ℤ right x
      then (if t.v_edit
          then record { x = to_short (x -ℤ (right +ℤ pos 1)); y = to_short (p.y +ℤ pos 1) }
          else record { x = right; y = p.y })
      else record { x = x; y = p.y } in
    move_cursor c q t

-- AnsiCursorBack
unfoldable pub cursor_back : Console → ℕ → Terminal → Bool × Terminal
unfolding move_cursor
cursor_back c n t =
    let p = t.info.cursor_position in
    let right = t.info.window.right in
    let x = to_short (p.x -ℤ pos n) in
    let q : Coord =
      if ltb_ℤ x (pos 0)
      then (if t.v_edit
          then record { x = to_short (x +ℤ (right +ℤ pos 1)); y = to_short (p.y -ℤ pos 1) }
          else record { x = pos 0; y = p.y })
      else record { x = x; y = p.y } in
    move_cursor c q t

-- AnsiCursorPosition; the row and the column are WORDs.
unfoldable pub cursor_position : Console → ℕ → ℕ → Terminal → Bool × Terminal
unfolding move_cursor
cursor_position c row column t =
    let y = to_short (pos row -ℤ pos 1) in
    move_cursor c
      (record { x = to_short (pos column -ℤ pos 1); y = to_short (y +ℤ t.info.window.top) }) t

-- AnsiNextPage
unfoldable pub next_page : Console → ℕ → Terminal → Bool × Terminal
unfolding move_cursor
next_page c n t =
    let w = t.info.window in
    let size = to_short (w.bottom -ℤ w.top) in
    move_cursor c (record { x = w.left; y = to_short (w.top +ℤ size *ℤ pos n) }) t

-- AnsiCursorHorizontalAbsolute; the column is a SHORT.
unfoldable pub cursor_horizontal_absolute : Console → ℤ → Terminal → Bool × Terminal
unfolding move_cursor
cursor_horizontal_absolute c column t =
    move_cursor c (record { x = to_short (column -ℤ pos 1); y = (render_cursor t.info).y }) t

-- AnsiVerticalPositionAbsolute; the row is a SHORT.
unfoldable pub vertical_position_absolute : Console → ℤ → Terminal → Bool × Terminal
unfolding move_cursor
vertical_position_absolute c row t =
    let p = render_cursor t.info in move_cursor c (record { x = p.x; y = to_short (p.y -ℤ row) }) t

-- AnsiSaveCursor
unfoldable pub save_cursor : Terminal → Bool × Terminal
save_cursor t = (true, record t { cursor = render_cursor t.info })

-- AnsiRestoreCursor
unfoldable pub restore_cursor : Console → Terminal → Bool × Terminal
unfolding move_cursor
restore_cursor c t =
    move_cursor c
      (record { x = t.cursor.x; y = if t.v_edit then t.cursor.y else t.info.cursor_position.y }) t

-- The text of a cursor position report: "\e[%d;%dR".
unfoldable pub position_report : ScreenInfo → List ℕ
position_report info =
    let p = render_cursor info in
    27
    ∷ b'['
    ∷ (print_decimal (p.y -ℤ info.window.top +ℤ pos 1)
        ++ (b';' ∷ (print_decimal (p.x +ℤ pos 1) ++ (b'R' ∷ []))))

-- AnsiDeviceStatusReport
unfoldable pub device_status_report : ℕ → Terminal → Bool × Terminal
device_status_report parm t =
    if parm == b'6'
    then (true, record t { input = t.input ++ position_report t.info })
    else (false, t)

-- The text "\e[?64;1;6;15;22c".
abbrev pub attributes_report : List ℕ
attributes_report =
    27 ∷ b'[' ∷ b'?' ∷ b'6' ∷ b'4' ∷ b';' ∷ b'1' ∷ b';' ∷ b'6' ∷ b';' ∷ b'1' ∷ b'5' ∷ b';' ∷ b'2'
    ∷ b'2' ∷ b'c' ∷ []

-- AnsiDeviceAttributes
unfoldable pub device_attributes : Terminal → Bool × Terminal
device_attributes t = (true, record t { input = t.input ++ attributes_report })
