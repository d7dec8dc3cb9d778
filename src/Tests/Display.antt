-- ===== src/Tests/Display.antt =====
-- A console of 80 columns and 25 rows that accepts every call, and sequences written to it.
use minc.Prelude.{
  ℕ, zero, suc, ◌+◌, ◌≡◌, refl, Bool, true, false, ◌&&◌, ◌||◌, List, [], ◌∷◌, Option, none, some,
  leb, length, replicate,
}
use minc.Prelude.Int.{ℤ, pos, negsuc}
use minc.Console.{
  Coord, SmallRect, ScreenInfo, Console, Call, Sequence, Terminal, set_cursor_position, write_file,
}
use minc.Screen.Write.{screen_write}

abbrev pub window : SmallRect
window = record { left = pos 0; top = pos 0; right = pos 79; bottom = pos 24 }

abbrev pub home : ScreenInfo
home = record {
  size = record { x = pos 80; y = pos 300 };
  cursor_position = record { x = pos 0; y = pos 0 };
  attributes = 7;
  window = window;
  maximum_window_size = record { x = pos 80; y = pos 25 };
}

abbrev pub letter : ℕ → Bool
letter b = (leb b'A' b && leb b b'Z') || (leb b'a' b && leb b b'z')

abbrev pub display : Console
display = record {
  accepts = λ _ _. true;
  screen_info = λ _. some home;
  console_mode = λ _. some 3;
  acp = 1252;
  oem_cp = 437;
  is_alpha = letter;
  is_alpha_numeric = λ b. letter b || (leb b'0' b && leb b b'9');
}

abbrev pub terminal : Terminal
terminal = record {
  scroll_rate = 1;
  v_edit = false;
  cursor = record { x = pos 0; y = pos 0 };
  info = home;
  oflags = 3;
  escape = none;
  seq = record { args = 0; arg1 = pos 1; char1 = 0; csi = 0; buf = replicate 128 0 };
  input = [];
  calls = [];
  overrun = false;
}

-- "A", ESC [ 2 ; 5 H, "B"
abbrev pub positioned : List ℕ
positioned = b'A' ∷ 27 ∷ b'[' ∷ b'2' ∷ b';' ∷ b'5' ∷ b'H' ∷ b'B' ∷ []

run-positioned :
    (screen_write display positioned terminal).1.calls
    ≡ write_file (b'B' ∷ [])
      ∷ set_cursor_position (record { x = pos 4; y = pos 1 })
      ∷ write_file (b'A' ∷ [])
      ∷ []
unfolding screen_write minc.Screen.screen_mode minc.Screen.Write.write_window
    minc.Screen.render_window minc.Screen.render_window_from minc.Screen.Write.write_rest
    minc.Screen.Write.write_loop minc.Screen.Write.is_control minc.Screen.Write.control_byte
    minc.Screen.Write.start_escape minc.Screen.Write.screen_escape minc.Console.store
    minc.Screen.Write.screen_ansi minc.Screen.Write.finish minc.Screen.Write.dispatch
    minc.Ansi.Control.control minc.Ansi.Cursor.cursor_position minc.Screen.put_string
    minc.Prelude.Words.to_short minc.Prelude.Int.◌-ℤ◌ minc.Prelude.Int.◌+ℤ◌
    minc.Ansi.Control.argument minc.Ansi.Cursor.str_to_int minc.Libc.atoi
run-positioned = refl
