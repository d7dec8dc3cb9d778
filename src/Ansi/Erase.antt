-- ===== src/Ansi/Erase.antt =====
-- libposix/vfs/char/char_ansi.c: the functions that fill cells with blanks. Sizes are DWORDs.
pub mod Extent
use minc.Prelude.{ℕ, ◌+◌, Bool, true, false, ◌||◌, bit_and, ◌==◌, if◌then◌else◌}
use minc.Prelude.Int.{ℤ, pos, ◌+ℤ◌, ◌-ℤ◌, ◌*ℤ◌}
use minc.Prelude.Words.{to_short, to_dword}
use minc.Console.{
  Coord, SmallRect, ScreenInfo, Console, Terminal, fill_attribute, fill_character,
  set_cursor_position, issue, issue_,
}
use minc.Ansi.Cursor.{render_cursor}

-- FillConsoleOutputAttribute, and FillConsoleOutputCharacter for the result.
unfoldable pub fill : Console → ℕ → ℕ → Coord → Terminal → Bool × Terminal
unfolding issue_ issue
fill c w size p t = issue c (fill_character 32 size p) (issue_ c (fill_attribute w size p) t)

-- AnsiEraseCharacter
unfoldable pub erase_character : Console → ℕ → Terminal → Bool × Terminal
unfolding fill
erase_character c size t = fill c (bit_and t.info.attributes 0xFF) size (render_cursor t.info) t

-- sWidth and dwScreen of AnsiEraseInDisplay.
unfoldable pub screen_width : SmallRect → ℤ
screen_width w = to_short (w.right -ℤ w.left +ℤ pos 1)

unfoldable pub screen_cells : SmallRect → ℕ
screen_cells w = to_dword ((w.bottom -ℤ w.top +ℤ pos 1) *ℤ screen_width w)

-- dwOffset where the parameter is 0: two assignments, each to a DWORD.
unfoldable pub offset_below : SmallRect → Coord → ℕ
offset_below w p =
    let rows = to_dword ((p.y -ℤ w.top +ℤ pos 1) *ℤ screen_width w) in
    to_dword (pos rows -ℤ (screen_width w -ℤ p.x))

-- dwOffset where the parameter is 1.
unfoldable pub offset_above : SmallRect → Coord → ℕ
offset_above w p =
    let rows = to_dword ((w.bottom -ℤ p.y) *ℤ screen_width w) in to_dword (pos rows +ℤ p.x)

-- dwScreen - dwOffset
unfoldable pub cells_left : SmallRect → ℕ → ℕ
cells_left w offset = to_dword (pos (screen_cells w) -ℤ pos offset)

-- AnsiEraseInDisplay
unfoldable pub erase_in_display : Console → ℕ → Terminal → Bool × Terminal
unfolding issue_ fill
erase_in_display c parm t =
    let w = t.info.window in
    let home : Coord = record { x = w.left; y = w.top } in
    let a = bit_and t.info.attributes 0xFF in
    if parm == 0 || parm == b'0'
    then (let p = render_cursor t.info in fill c a (cells_left w (offset_below w p)) p t)
    else if parm == b'1'
    then fill c a (cells_left w (offset_above w t.info.cursor_position)) home t
    else if parm == b'2'
    then fill c a (cells_left w 0) home (
        issue_ c (set_cursor_position home)
          (record t { info = record t.info { cursor_position = home } }))
    else (false, t)

-- AnsiEraseInLine
unfoldable pub erase_in_line : Console → ℕ → Terminal → Bool × Terminal
unfolding fill
erase_in_line c char t =
    let p = render_cursor t.info in
    let right = t.info.window.right in
    let start : Coord = record { x = pos 0; y = p.y } in
    if char == 0 || char == b'0'
    then fill c t.info.attributes (to_dword (right -ℤ p.x +ℤ pos 1)) p t
    else if char == b'1'
    then fill c t.info.attributes (to_dword (t.info.cursor_position.x +ℤ pos 1)) start t
    else if char == b'2'
    then fill c t.info.attributes (to_dword (right +ℤ pos 1)) start t
    else (false, t)
