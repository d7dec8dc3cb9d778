-- ===== src/Input/Text.antt =====
-- The text that an event leaves in the buffer: proofs.
use minc.Prelude.{
  ℕ, zero, suc, ◌≡◌, refl, ap, Bool, true, false, not, Option, none, some, List, [], ◌∷◌, ◌++◌,
  length, drop, leb, ◌==◌, if◌then◌else◌, if_both,
}
use minc.Descriptor.Flags.{has}
use minc.Termio.{Attribs}
use minc.Input.{
  KeyEvent, InputRecord, key, mouse, buffer_size, menu, focus, unknown, Answers, Keyboard, Wake,
  vk_tab, vk_return, vk_pause, vk_insert, vk_modify, vk_cursor, vk_windows, vk_numpad, vk_function,
  shift_pressed, left_alt_pressed, escape_char, csi, ansi_cursor, ansi_function, put_text,
  input_char, input_return, input_tabulator, input_insert, input_pause, input_key,
  input_buffer_size, read_record, rewind, input_read_event,
}

-- The text of a memory up to its 0.
abbrev pub cstr : List ℕ → List ℕ
cstr [] = []
cstr (zero ∷ s) = []
cstr (suc c ∷ s) = suc c ∷ cstr s

-- There is a 0.
abbrev pub HasNul : List ℕ → Type 0
HasNul [] = ⊥
HasNul (zero ∷ s) = Unit {0}
HasNul (suc c ∷ s) = HasNul s

-- A character, after an escape where Alt is pressed, but not for Ctrl-N and Ctrl-O.
abbrev typed : ℕ → ℕ → List ℕ
typed c state =
    if c == 14
    then c ∷ []
    else if c == 15
    then c ∷ []
    else if has state left_alt_pressed
    then escape_char ∷ c ∷ []
    else c ∷ []

-- The text of a key.
abbrev pub key_text : Attribs → KeyEvent → List ℕ
key_text a e =
    if not e.key_down
    then []
    else if e.virtual_key == vk_return
    then (if has a.i_flags 0x100 then typed 10 e.key_state else typed 13 e.key_state)
    else if e.virtual_key == vk_tab
    then (if has e.key_state shift_pressed then csi b'Z' else typed 9 e.key_state)
    else if not (e.ascii == 0)
    then typed e.ascii e.key_state
    else if e.virtual_key == vk_pause
    then (if not (has a.i_flags 0x2) then typed 10 e.key_state else [])
    else if e.virtual_key == vk_insert
    then (if not (has e.key_state shift_pressed) then ansi_cursor vk_insert else [])
    else if leb e.virtual_key vk_modify
    then []
    else if leb e.virtual_key vk_cursor
    then ansi_cursor e.virtual_key
    else if leb e.virtual_key vk_windows
    then []
    else if leb e.virtual_key vk_numpad
    then []
    else if leb e.virtual_key vk_function
    then ansi_function e.virtual_key
    else []

-- The text of an event, up to a 0 in it.
abbrev pub event_text : Attribs → Option InputRecord → List ℕ
event_text a none = []
event_text a (some (key e)) = cstr (key_text a e ++ 0 ∷ [])
event_text a (some mouse) = []
event_text a (some buffer_size) = []
event_text a (some menu) = []
event_text a (some focus) = []
event_text a (some unknown) = []

abbrev pub wake_text : Attribs → Wake → List ℕ
wake_text a w = if not w.waits then [] else event_text a w.event

-- The text that the waits give.
abbrev pub later : Attribs → List Wake → List ℕ
later a [] = []
later a (w ∷ ws) = wake_text a w ++ later a ws

cstr_stored : (t rest : List ℕ) → cstr ((t ++ 0 ∷ []) ++ rest) ≡ cstr (t ++ 0 ∷ [])
cstr_stored [] rest = refl
cstr_stored (zero ∷ t) rest = refl
cstr_stored (suc c ∷ t) rest = ap (λ x. suc c ∷ x) (cstr_stored t rest)

HasNul-stored : (t rest : List ℕ) → HasNul ((t ++ 0 ∷ []) ++ rest)
HasNul-stored [] rest = tt
HasNul-stored (zero ∷ t) rest = tt
HasNul-stored (suc c ∷ t) rest = HasNul-stored t rest

-- The buffer holds the text, and the clipboard was not opened.
abbrev Holds : Keyboard × Bool → List ℕ → Type 0
Holds r t = (cstr r.0.buf ≡ cstr (t ++ 0 ∷ [])) × HasNul r.0.buf × (r.0.clipboard ≡ none)

module _ (s : Keyboard) (closed : s.clipboard ≡ none) where
  put_text-Holds : (t : List ℕ) (b : Bool) → Holds (put_text t s, b) t
  unfolding put_text
  put_text-Holds t b = (
    cstr_stored t (drop (suc (length t)) s.buf),
    HasNul-stored t (drop (suc (length t)) s.buf),
    closed,
  )

  char-Holds : (c state : ℕ) → Holds (input_char c state s) (typed c state)
  unfolding input_char put_text
  char-Holds c state = if_both Holds (c == 14) (put_text-Holds (c ∷ []) true) (
      if_both Holds (c == 15) (put_text-Holds (c ∷ []) true) (
        if_both Holds (has state left_alt_pressed) (put_text-Holds (escape_char ∷ c ∷ []) true)
          (put_text-Holds (c ∷ []) true)))

  module _ (a : Attribs) (w : Answers) (nothing : w.has_text ≡ false)
      (empty : Holds (s, true) []) where
    insert-Holds :
        (state : ℕ)
        → Holds
            (input_insert w state s)
            (if not (has state shift_pressed) then ansi_cursor vk_insert else [])
    unfolding input_insert
    insert-Holds state =
        if_both Holds (not (has state shift_pressed)) (put_text-Holds (ansi_cursor vk_insert) true)
          (rw nothing (put_text-Holds [] true))

    key-Holds : (e : KeyEvent) → Holds (input_key w e a s) (key_text a e)
    unfolding input_key input_return input_tabulator input_pause
    key-Holds e = if_both Holds (not e.key_down) (put_text-Holds [] true) (
        if_both Holds (e.virtual_key == vk_return)
          (if_both Holds (has a.i_flags 0x100) (char-Holds 10 e.key_state)
            (char-Holds 13 e.key_state))
          (if_both Holds (e.virtual_key == vk_tab)
            (if_both Holds (has e.key_state shift_pressed) (put_text-Holds (csi b'Z') true)
              (char-Holds 9 e.key_state))
            (if_both Holds (not (e.ascii == 0)) (char-Holds e.ascii e.key_state) (
              if_both Holds (e.virtual_key == vk_pause)
                (if_both Holds (not (has a.i_flags 0x2)) (char-Holds 10 e.key_state) empty)
                (if_both Holds (e.virtual_key == vk_insert) (insert-Holds e.key_state)
                  (table-Holds e))))))
      where
        table-Holds :
            (e : KeyEvent)
            → Holds
                (if leb e.virtual_key vk_modify
                  then (put_text [] s, true)
                  else if leb e.virtual_key vk_cursor
                  then (put_text (ansi_cursor e.virtual_key) s, true)
                  else if leb e.virtual_key vk_windows
                  then (put_text [] s, true)
                  else if leb e.virtual_key vk_numpad
                  then (put_text [] s, true)
                  else if leb e.virtual_key vk_function
                  then (put_text (ansi_function e.virtual_key) s, true)
                  else (s, true))
                (if leb e.virtual_key vk_modify
                  then []
                  else if leb e.virtual_key vk_cursor
                  then ansi_cursor e.virtual_key
                  else if leb e.virtual_key vk_windows
                  then []
                  else if leb e.virtual_key vk_numpad
                  then []
                  else if leb e.virtual_key vk_function
                  then ansi_function e.virtual_key
                  else [])
        table-Holds e = if_both Holds (leb e.virtual_key vk_modify) (put_text-Holds [] true) (
            if_both Holds (leb e.virtual_key vk_cursor)
              (put_text-Holds (ansi_cursor e.virtual_key) true)
              (if_both Holds (leb e.virtual_key vk_windows) (put_text-Holds [] true) (
                if_both Holds (leb e.virtual_key vk_numpad) (put_text-Holds [] true) (
                  if_both Holds (leb e.virtual_key vk_function)
                    (put_text-Holds (ansi_function e.virtual_key) true) empty))))

-- A wait in which the console does not read lines, and the clipboard has no text: what is pending
-- then is the text of the event.
abbrev pub Gives : Keyboard × Bool → List ℕ → Type 0
Gives r t = (cstr r.0.pending ≡ t) × HasNul r.0.pending × (r.0.clipboard ≡ none)

rewind-Gives :
    (r : Keyboard × Bool) (t : List ℕ) → Holds r t → Gives (rewind r) (cstr (t ++ 0 ∷ []))
unfolding rewind
rewind-Gives r t h = h

pub event-Gives :
    (w : Answers) (a : Attribs) (e : Option InputRecord) (s : Keyboard)
    → w.has_text ≡ false
    → s.clipboard ≡ none
    → Gives (input_read_event w a e s) (event_text a e)
unfolding input_read_event read_record input_buffer_size put_text
event-Gives w a none s n c = rewind-Gives (put_text [] s, false) [] (put_text-Holds s c [] false)
event-Gives w a (some (key e)) s n c =
    rewind-Gives (input_key w e a (put_text [] s)) (key_text a e)
      (key-Holds (put_text [] s) c a w n (put_text-Holds s c [] true) e)
event-Gives w a (some mouse) s n c =
    rewind-Gives (put_text [] s, true) [] (put_text-Holds s c [] true)
event-Gives w a (some buffer_size) s n c =
    rewind-Gives (put_text [] s, not w.raised) [] (put_text-Holds s c [] (not w.raised))
event-Gives w a (some menu) s n c =
    rewind-Gives (put_text [] s, true) [] (put_text-Holds s c [] true)
event-Gives w a (some focus) s n c =
    rewind-Gives (put_text [] s, true) [] (put_text-Holds s c [] true)
event-Gives w a (some unknown) s n c =
    rewind-Gives (record (put_text [] s) { last_error = 1117 }, false) []
      (put_text-Holds s c [] false)
