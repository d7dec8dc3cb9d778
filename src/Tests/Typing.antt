-- ===== src/Tests/Typing.antt =====
-- A console that is typed on: the keys a, F1 and Return.
use minc.Prelude.{ℕ, ◌≡◌, refl, true, false, none, some, List, [], ◌∷◌, ◌++◌}
use minc.Descriptor.Flags.{has}
use minc.Termio.{Attribs, input_mode}
use minc.Input.{key, Answers, Keyboard, Wake, ansi_function, enable_line_input, input_read}
use minc.Input.Text.{later}
use minc.Input.Delivered.{Delivers, input_read-Delivers}

abbrev raw : Attribs
raw = record {
  i_flags = 0x100;
  o_flags = 0;
  c_flags = 0;
  l_flags = 0;
  control = [];
  i_speed = 0;
  o_speed = 0;
}

abbrev answers : Answers
answers = record { raised = false; has_text = false; opens = false; pasted = none }

abbrev stroke : ℕ → ℕ → Wake
stroke c vk = record {
  waits = true;
  line = none;
  event = some (key (record { key_down = true; ascii = c; virtual_key = vk; key_state = 0 }));
  answers = answers;
  polled = false;
}

abbrev strokes : List Wake
strokes = stroke b'a' 0x41 ∷ stroke 0 0x70 ∷ stroke 13 0x0D ∷ []

abbrev idle : Keyboard
idle = record {
  buf = 0 ∷ 0 ∷ 0 ∷ 0 ∷ 0 ∷ 0 ∷ [];
  pending = 0 ∷ 0 ∷ 0 ∷ 0 ∷ 0 ∷ 0 ∷ [];
  clipboard = none;
  code_page = 65001;
  last_error = 0;
  overrun = false;
}

abbrev plain : List ℕ → List ℕ → List ℕ
plain text memory = text ++ 0 ∷ []

typed_text : later raw strokes ≡ b'a' ∷ 27 ∷ b'F' ∷ b'1' ∷ 10 ∷ []
unfolding ansi_function
typed_text = refl

raw_events : has (input_mode raw) enable_line_input ≡ false
unfolding input_mode
raw_events = refl

input_read-Delivers_example :
    Delivers raw false 2 (b'a' ∷ 27 ∷ b'F' ∷ b'1' ∷ 10 ∷ []) (input_read plain raw 2 idle strokes)
unfolding ansi_function
input_read-Delivers_example =
    input_read-Delivers raw raw_events plain 2 idle strokes tt refl (refl, (refl, (refl, tt)))
