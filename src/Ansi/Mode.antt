-- ===== src/Ansi/Mode.antt =====
-- libposix/vfs/char/char_ansi.c: terminal modes and the scrolling margins.
use minc.Prelude.{
  ℕ, ◌∷◌, Bool, true, false, not, ◌&&◌, Option, none, some, bit_and, bit_or, ◌==◌, if◌then◌else◌,
}
use minc.Prelude.Int.{ℤ, pos, ◌+ℤ◌, ◌-ℤ◌}
use minc.Prelude.Words.{to_short, eq_ℤ}
use minc.Console.{
  SmallRect, ScreenInfo, Console, Terminal, set_console_mode, report_error, issue, move_cursor,
}

abbrev pub enable_insert_mode : ℕ
enable_insert_mode = 0x20

-- What follows GetConsoleMode, with the mode that it gave.
unfoldable pub set_mode_from : Console → ℕ → Option ℕ → Terminal → Bool × Terminal
unfolding issue
set_mode_from c arg none t = (false, t)
set_mode_from c arg (some mode) t =
    if arg == 4
    then issue c (set_console_mode (bit_or mode enable_insert_mode)) t
    else if arg == 7
    then (true, record t { v_edit = true })
    else (false, t)

-- AnsiSetMode
unfoldable pub set_mode : Console → ℕ → Terminal → Bool × Terminal
set_mode c arg t = set_mode_from c arg (c.console_mode t.calls) t

unfoldable pub reset_mode_from : Console → ℕ → Option ℕ → Terminal → Bool × Terminal
unfolding issue
reset_mode_from c arg none t = (false, t)
reset_mode_from c arg (some mode) t =
    if arg == 4
    then issue c (set_console_mode (bit_and mode 0xFFFFFFDF)) t
    else if arg == 7
    then (true, record t { v_edit = false })
    else (false, t)

-- AnsiResetMode
unfoldable pub reset_mode : Console → ℕ → Terminal → Bool × Terminal
reset_mode c arg t = reset_mode_from c arg (c.console_mode t.calls) t

-- AnsiVerticalEditingMode; the parameter is a SHORT.
unfoldable pub vertical_editing_mode : ℤ → Terminal → Bool × Terminal
vertical_editing_mode parm t =
    if eq_ℤ parm (pos 1)
    then (true, record t { v_edit = true })
    else if eq_ℤ parm (pos 2)
    then (true, record t { v_edit = false })
    else (false, t)

-- AnsiEqualRect compares the 64 bits of the two structures: their four SHORTs.
unfoldable pub equal_rect : SmallRect → SmallRect → Bool
equal_rect a b =
    eq_ℤ a.left b.left && (eq_ℤ a.top b.top && (eq_ℤ a.right b.right && eq_ℤ a.bottom b.bottom))

-- AnsiRenderMargin with the window that the console gave: the rectangle of the margins.
unfoldable pub margin_rect : SmallRect → ℕ → ℕ → SmallRect
margin_rect w top bottom = record {
  left = w.left;
  top = to_short (w.top +ℤ (pos top -ℤ pos 1));
  right = w.right;
  bottom = to_short (w.top +ℤ pos bottom -ℤ pos 1);
}

-- AnsiRenderMargin: is there a margin, the rectangle, and the terminal after the message of a
-- failed call. Where that fails the rectangle is as it was.
unfoldable pub render_margin :
    ℕ → ℕ → SmallRect → Option ScreenInfo → Terminal → Bool × SmallRect × Terminal
render_margin top bottom rect none t = (false, rect, record t { calls = report_error ∷ t.calls })
render_margin top bottom rect (some info) t =
    let r = margin_rect info.window top bottom in (not (equal_rect r info.window), r, t)

-- AnsiSetTopBottomMargin
unfoldable pub set_top_bottom_margin : Console → ℕ → ℕ → Terminal → Bool × Terminal
unfolding move_cursor
set_top_bottom_margin c top bottom t =
    let (margin, rect, t1) = render_margin top bottom t.info.window (c.screen_info t.calls) t in
    let t2 = (vertical_editing_mode (if margin then pos 1 else pos 2) t1).1 in
    move_cursor c (record { x = rect.left; y = rect.top })
      (record t2 { info = record t2.info { window = rect } })
