-- ===== src/Ansi/Scroll.antt =====
-- libposix/vfs/char/char_ansi.c: the functions that shift a part of the screen.
use minc.Prelude.{ℕ, Bool, none, some, bit_and}
use minc.Prelude.Int.{pos, ◌+ℤ◌, ◌-ℤ◌}
use minc.Prelude.Words.{to_short}
use minc.Console.{ScreenInfo, CharInfo, Console, Terminal, scroll_screen_buffer, issue}

-- The CHAR_INFO that every one of them fills with: a blank in the current attributes.
abbrev pub blank : ScreenInfo → CharInfo
blank info = record { char = 32; char_attributes = bit_and info.attributes 0xFF }

-- AnsiScrollHorizontal
unfoldable pub scroll_horizontal : Console → ℕ → ℕ → Terminal → Bool × Terminal
unfolding issue
scroll_horizontal c delta_left delta_right t =
    let p = t.info.cursor_position in
    issue c
      (scroll_screen_buffer
        (record {
          left = to_short (p.x +ℤ pos delta_left);
          top = p.y;
          right = to_short (t.info.size.x -ℤ pos delta_right);
          bottom = p.y;
        })
        none (record { x = to_short (p.x +ℤ pos delta_right); y = p.y }) (blank t.info))
      t

-- AnsiScrollDown
unfoldable pub scroll_down : Console → ℕ → Terminal → Bool × Terminal
unfolding issue
scroll_down c n t =
    let w = t.info.window in
    issue c
      (scroll_screen_buffer w (some w) (record { x = w.left; y = to_short (w.top +ℤ pos n) })
        (blank t.info))
      t

-- AnsiScrollUp
unfoldable pub scroll_up : Console → ℕ → Terminal → Bool × Terminal
unfolding issue
scroll_up c n t =
    let w = t.info.window in
    issue c
      (scroll_screen_buffer (record w { top = to_short (w.top +ℤ pos n) }) (some w)
        (record { x = w.left; y = w.top }) (blank t.info))
      t

-- AnsiDeleteCharacter
unfoldable pub delete_character : Console → ℕ → Terminal → Bool × Terminal
unfolding scroll_horizontal
delete_character c n t = scroll_horizontal c n 0 t

-- AnsiInsertCharacter
unfoldable pub insert_character : Console → ℕ → Terminal → Bool × Terminal
unfolding scroll_horizontal
insert_character c n t = scroll_horizontal c 0 n t

-- AnsiInsertLine
unfoldable pub insert_line : Console → ℕ → Terminal → Bool × Terminal
unfolding issue
insert_line c n t =
    let w = t.info.window in
    let y = t.info.cursor_position.y in
    issue c
      (scroll_screen_buffer (record w { top = y }) (some w)
        (record { x = pos 0; y = to_short (y +ℤ pos n) }) (blank t.info))
      t

-- AnsiDeleteLine
unfoldable pub delete_line : Console → ℕ → Terminal → Bool × Terminal
unfolding issue
delete_line c n t =
    let w = t.info.window in
    let y = t.info.cursor_position.y in
    issue c
      (scroll_screen_buffer (record w { top = to_short (y +ℤ pos n) }) (some w)
        (record { x = pos 0; y = y }) (blank t.info))
      t
