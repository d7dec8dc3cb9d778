-- ===== src/Tests/Terminal.antt =====
-- The theorems on the terminal, at concrete inputs.
use minc.Prelude.{
  ℕ, zero, suc, ◌+◌, ◌-◌, ◌*◌, bit_and, ◌≡◌, ◌⊎◌, refl, true, false, List, [], ◌∷◌, ◌++◌, none,
  some, replicate, if◌then◌else◌, arith,
}
use minc.Prelude.Int.{pos, ◌+ℤ◌, ◌≤ℤ◌, int_laws}
use minc.Prelude.Words.{to_word}
use minc.Console.{Terminal, set_cursor_position}
use minc.Screen.{render_window}
use minc.Screen.Write.{screen_write}
use minc.Screen.Write.Feed.{screen_write-feed, feed_text_from}
use minc.Screen.Write.Bounds.{screen_write-Fits, Fits}
use minc.Screen.Write.Hyperlink.{screen_write-overrun, command, IsPayload}
use minc.Ansi.Cursor.{cursor_back, cursor_forward, cursor_position, position_report, str_to_int}
use minc.Ansi.Cursor.Motion.{IsScreen, cursor_back-cursor_forward}
use minc.Ansi.Cursor.Report.{position_report-cursor_position}
use minc.Ansi.Erase.Extent.{erase_in_display-cells, placed, blanked, cursor_at}
use minc.Ansi.Erase.{erase_in_display}
use minc.Tests.Display.{display, terminal, positioned, home}

screen_write-feed_example : screen_write display positioned terminal ≡ (
    if (render_window display terminal).0
    then (some 8, feed_text_from display positioned (render_window display terminal).1)
    else (none, terminal))
screen_write-feed_example = screen_write-feed display positioned terminal

terminal-Fits : Fits 8 terminal
terminal-Fits = record {
  small = omega arith;
  room = refl;
  inside = refl;
  deep = λ n e. absurd (cc);
  args_in = λ n e. absurd (cc);
}

screen_write-Fits_example : Fits 0 (screen_write display positioned terminal).1
screen_write-Fits_example = screen_write-Fits display positioned terminal terminal-Fits

-- ESC ] and 200 letters
abbrev title : List ℕ
title = replicate 200 b'x'

title-IsPayload : IsPayload title
title-IsPayload = payload 200
  where
    payload : (n : ℕ) → IsPayload (replicate n b'x')
    payload zero = tt
    payload (suc n) = (record { not_bell = refl; not_at = refl; not_underscore = refl }, payload n)

screen_write-overrun_example : (screen_write display (command title) terminal).1.overrun ≡ true
unfolding render_window minc.Screen.render_window_from
screen_write-overrun_example =
    screen_write-overrun display title terminal refl refl refl title-IsPayload (omega arith)

-- The cursor in the middle of the window.
abbrev middle : Terminal
middle = record terminal {
  info = record home { cursor_position = record { x = pos 10; y = pos 5 } };
}

middle-IsScreen : IsScreen middle.info
middle-IsScreen = record {
  left = refl;
  top = ground arith;
  above = ground arith;
  below = ground arith;
  bottom = ground arith;
  west = ground arith;
  east = ground arith;
  right = ground arith;
}

cursor_back-cursor_forward_example :
    ((middle.v_edit ≡ true) ⊎ (pos 10 +ℤ pos 100 ≤ℤ pos 79)
      → (cursor_back display 100 (cursor_forward display 100 middle).1).1.info.cursor_position
        ≡ record { x = pos 10; y = pos 5 })
    × (middle.v_edit ≡ false
        → pos 79 +ℤ pos 1 ≤ℤ pos 10 +ℤ pos 100
        → (cursor_forward display 100 middle).1.info.cursor_position
          ≡ record { x = pos 79; y = pos 5 })
cursor_back-cursor_forward_example =
    cursor_back-cursor_forward display 100 middle middle-IsScreen (omega int_laws)

position_report-cursor_position_example :
    (row : List ℕ) × (column : List ℕ) × (position_report middle.info
      ≡ 27 ∷ b'[' ∷ (row ++ (b';' ∷ (column ++ (b'R' ∷ [])))))
    × ((cursor_position display
          (to_word (str_to_int (row ++ (b';' ∷ (column ++ (b'R' ∷ []))))))
          (to_word (str_to_int (column ++ (b'R' ∷ []))))
          terminal).1.info.cursor_position
        ≡ record { x = pos 10; y = pos 5 })
position_report-cursor_position_example =
    position_report-cursor_position display middle terminal middle-IsScreen refl

erase_in_display-cells_example :
    ((erase_in_display display b'0' (placed 0 5 19 79 10 terminal)).1.calls
      ≡ blanked (bit_and 7 0xFF) (19 * (79 + 1) + (79 + 1 - 10)) (cursor_at 0 5 10) [])
    × ((erase_in_display display b'1' (placed 0 5 19 79 10 terminal)).1.calls
        ≡ blanked (bit_and 7 0xFF) ((5 + 1) * (79 + 1) - 10) (record { x = pos 0; y = pos 0 }) [])
    × ((erase_in_display display b'2' (placed 0 5 19 79 10 terminal)).1.calls
        ≡ blanked
            (bit_and 7 0xFF)
            ((5 + 19 + 1) * (79 + 1))
            (record { x = pos 0; y = pos 0 })
            (set_cursor_position (record { x = pos 0; y = pos 0 }) ∷ []))
    × ((erase_in_display display b'2' (placed 0 5 19 79 10 terminal)).1.info.cursor_position
        ≡ record { x = pos 0; y = pos 0 })
erase_in_display-cells_example =
    erase_in_display-cells display terminal 0 5 19 79 10 (omega arith) (omega arith) (omega arith)
