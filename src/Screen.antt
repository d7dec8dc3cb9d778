-- ===== src/Screen.antt =====
-- libposix/vfs/char/char_screen.c: output to the console screen. `screen_write` splits a buffer
-- into plain text, control bytes and escape sequences.
pub mod Write
use minc.Prelude.{
  ℕ, zero, suc, ◌+◌, ◌-◌, Bool, true, false, not, ◌&&◌, ◌||◌, List, [], ◌∷◌, ◌++◌, Option, none,
  some, bit_and, bit_or, ◌==◌, ltb, take, drop, length, if◌then◌else◌,
}
use minc.Prelude.Int.{ℤ, pos, negsuc, ◌+ℤ◌, ◌-ℤ◌, ltb_ℤ}
use minc.Prelude.Words.{to_short, to_word, eq_ℤ}
use minc.Console.{
  Coord, SmallRect, ScreenInfo, CharInfo, Console, Sequence, Terminal, scroll_screen_buffer,
  write_file, set_output_cp, report, issue, issue_, store, move_cursor,
}
use minc.Ansi.Cursor.{cursor_back, save_cursor, restore_cursor}
use minc.Ansi.Scroll.{scroll_up, blank}
use minc.Ansi.Control.{argument, control}
use minc.Vt100.{
  dec_set_mode, dec_reset_mode, select_character_set, reset_character_set,
  restore_presentation_state, cp_utf8, enable_wrap_at_eol_output,
}

abbrev pub win_opost : ℕ
win_opost = 0x1

abbrev pub win_onlcr : ℕ
win_onlcr = 0x2

abbrev pub win_ocrnl : ℕ
win_ocrnl = 0x10

abbrev pub enable_processed_output : ℕ
enable_processed_output = 0x1

abbrev pub enable_virtual_terminal_processing : ℕ
enable_virtual_terminal_processing = 0x4

-- ScreenMode, from the output flags of the terminal.
unfoldable pub screen_mode : ℕ → ℕ
screen_mode oflags =
    let mode : ℕ = bit_or enable_processed_output enable_wrap_at_eol_output in
    if oflags == 0 then bit_or mode enable_wrap_at_eol_output else mode

-- ScreenRenderWindow with what GetConsoleScreenBufferInfo gave.
unfoldable pub render_window_from : Option ScreenInfo → Terminal → Bool × Terminal
render_window_from none t = (false, t)
render_window_from (some info) t = (
  true,
  record t {
    info = record info {
      window = record info.window { left = pos 0; right = to_short (info.size.x -ℤ pos 1) };
    };
  },
)

-- ScreenRenderWindow
unfoldable pub render_window : Console → Terminal → Bool × Terminal
render_window c t = render_window_from (c.screen_info t.calls) t

-- Are all the bits of a mask set?
abbrev pub has_flags : ℕ → ℕ → Bool
has_flags flags mask = bit_and flags mask == mask

-- ScreenCarriageReturn
unfoldable pub carriage_return : Console → ℕ → Terminal → Bool × Terminal
unfolding move_cursor
carriage_return c flags t =
    let p = t.info.cursor_position in
    let q : Coord =
      if has_flags flags (bit_or win_opost win_ocrnl)
      then record { x = p.x; y = to_short (p.y +ℤ pos 1) }
      else record { x = pos 0; y = p.y } in
    move_cursor c q t

-- ScreenScrollUp
unfoldable pub screen_scroll_up : Console → Terminal → Bool × Terminal
unfolding issue
screen_scroll_up c t =
    issue c
      (scroll_screen_buffer
        (record t.info.window { top = pos 1; bottom = to_short (t.info.size.y -ℤ pos 1) }) none
        (record { x = pos 0; y = pos 0 }) (blank t.info))
      t

-- ScreenLineFeed
unfoldable pub line_feed : Console → ℕ → Terminal → Bool × Terminal
unfolding move_cursor
line_feed c flags t =
    let w = t.info.window in
    let y = t.info.cursor_position.y in
    let x =
      if has_flags flags (bit_or win_opost win_onlcr) then pos 0 else t.info.cursor_position.x in
    let below = to_short (y +ℤ pos 1) in
    if ltb_ℤ y w.bottom
    then move_cursor c (record { x = x; y = below }) t
    else if t.v_edit
    then move_cursor c (record { x = x; y = y }) (scroll_up c 1 t).1
    else if eq_ℤ y (to_short (t.info.size.y -ℤ pos 1))
    then move_cursor c (record { x = x; y = y }) (screen_scroll_up c t).1
    else move_cursor c (record { x = x; y = below })
        (record t {
          info = record t.info {
            window = record w {
              top = to_short (w.top +ℤ pos 1);
              bottom = to_short (w.bottom +ℤ pos 1);
            };
          };
        })

-- ScreenPutString
unfoldable pub put_string : Console → List ℕ → Terminal → Terminal
unfolding issue
put_string c text t =
    let (written, t') = issue c (write_file text) t in
    if written then (render_window c t').1 else t'
