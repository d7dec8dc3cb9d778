-- ===== src/Input.antt =====
-- libposix/vfs/char/char_input.c: what a task reads from a console. Windows gives a line or an event
-- at a time, whose text is kept in __INPUT_BUF; input_read takes bytes of it, and waits for more only
-- if it has none. The tables of keys are those of libposix/vfs/char/char_interix.c.
pub mod Text
pub mod Delivered
use minc.Prelude.{
  ℕ, zero, suc, ◌+◌, ◌-◌, Bool, true, false, not, ◌||◌, ◌&&◌, Option, none, some, List, [], ◌∷◌,
  ◌++◌, length, drop, get_or, set, ltb, leb, ◌==◌, bit_or, if◌then◌else◌,
}
use minc.Descriptor.Flags.{has}
use minc.Termio.{Attribs, input_mode}

-- KEY_EVENT_RECORD
pub record KeyEvent : Type 0 where
  pub key_down : Bool
  pub ascii : ℕ
  pub virtual_key : ℕ
  pub key_state : ℕ

-- INPUT_RECORD, by its type.
pub data InputRecord : Type 0 where
  key : KeyEvent → InputRecord
  mouse : InputRecord
  buffer_size : InputRecord
  menu : InputRecord
  focus : InputRecord
  unknown : InputRecord

-- What the calls answer while one event is read: whether vfs_raise finds a handler of the program,
-- whether the clipboard has text, can be opened, and the text that it gives.
pub record Answers : Type 0 where
  pub raised : Bool
  pub has_text : Bool
  pub opens : Bool
  pub pasted : Option (List ℕ)

-- __INPUT_BUF; the memory from __Input to its end; __Clipboard, the text up to its 0; the code page
-- of the console, the last error, and whether a character was stored past the end of a buffer.
pub record Keyboard : Type 0 where
  pub buf : List ℕ
  pub pending : List ℕ
  pub clipboard : Option (List ℕ)
  pub code_page : ℕ
  pub last_error : ℕ
  pub overrun : Bool

abbrev pub max_input : ℕ
max_input = 255

abbrev vk_tab : ℕ
vk_tab = 0x09

abbrev vk_return : ℕ
vk_return = 0x0D

abbrev vk_pause : ℕ
vk_pause = 0x13

abbrev vk_insert : ℕ
vk_insert = 0x2D

abbrev vk_modify : ℕ
vk_modify = 0x1F

abbrev vk_cursor : ℕ
vk_cursor = 0x2F

abbrev vk_windows : ℕ
vk_windows = 0x5F

abbrev vk_numpad : ℕ
vk_numpad = 0x6F

abbrev vk_function : ℕ
vk_function = 0x8F

abbrev shift_pressed : ℕ
shift_pressed = 0x10

abbrev left_alt_pressed : ℕ
left_alt_pressed = 0x02

abbrev escape_char : ℕ
escape_char = 27

-- A sequence ESC [ c and ESC F c.
abbrev csi : ℕ → List ℕ
csi c = escape_char ∷ b'[' ∷ c ∷ []

abbrev fun_key : ℕ → List ℕ
fun_key c = escape_char ∷ b'F' ∷ c ∷ []

-- __ANSI_CURSOR
abbrev cursor_keys : List (List ℕ)
cursor_keys =
    []
    ∷ (127 ∷ [])
    ∷ csi b'L'
    ∷ []
    ∷ []
    ∷ []
    ∷ []
    ∷ csi b'B'
    ∷ csi b'C'
    ∷ csi b'A'
    ∷ csi b'D'
    ∷ csi b'H'
    ∷ csi b'F'
    ∷ csi b'T'
    ∷ csi b'S'
    ∷ []
    ∷ []

-- __ANSI_FUNCTION
abbrev function_keys : List (List ℕ)
function_keys =
    []
    ∷ []
    ∷ []
    ∷ []
    ∷ []
    ∷ []
    ∷ []
    ∷ []
    ∷ fun_key b'O'
    ∷ fun_key b'N'
    ∷ fun_key b'M'
    ∷ fun_key b'L'
    ∷ fun_key b'K'
    ∷ fun_key b'J'
    ∷ fun_key b'I'
    ∷ fun_key b'H'
    ∷ fun_key b'G'
    ∷ fun_key b'F'
    ∷ fun_key b'E'
    ∷ fun_key b'D'
    ∷ fun_key b'C'
    ∷ fun_key b'B'
    ∷ fun_key b'A'
    ∷ fun_key b'9'
    ∷ fun_key b'8'
    ∷ fun_key b'7'
    ∷ fun_key b'6'
    ∷ fun_key b'5'
    ∷ fun_key b'4'
    ∷ fun_key b'3'
    ∷ fun_key b'2'
    ∷ fun_key b'1'
    ∷ []

unfoldable pub ansi_cursor : ℕ → List ℕ
ansi_cursor vk = get_or cursor_keys (vk_cursor - vk) []

unfoldable pub ansi_function : ℕ → List ℕ
ansi_function vk = get_or function_keys (vk_function - vk) []

-- A text and its 0 are stored from the start of the buffer on.
unfoldable pub put_text : List ℕ → Keyboard → Keyboard
put_text text s = record s { buf = (text ++ 0 ∷ []) ++ drop (suc (length text)) s.buf }

-- Ctrl-N and Ctrl-O choose the code page of the console.
pub input_char : ℕ → ℕ → Keyboard → Keyboard × Bool
unfolding put_text
input_char c state s =
    if c == 14
    then (put_text (c ∷ []) (record s { code_page = 437 }), true)
    else if c == 15
    then (put_text (c ∷ []) (record s { code_page = 65001 }), true)
    else if has state left_alt_pressed
    then (put_text (escape_char ∷ c ∷ []) s, true)
    else (put_text (c ∷ []) s, true)

pub input_return : ℕ → Attribs → Keyboard → Keyboard × Bool
unfolding input_char
input_return state a s =
    if has a.i_flags 0x100 then input_char 10 state s else input_char 13 state s

pub input_tabulator : ℕ → Keyboard → Keyboard × Bool
unfolding input_char put_text
input_tabulator state s =
    if has state shift_pressed then (put_text (csi b'Z') s, true) else input_char 9 state s

-- Shift-Insert opens the clipboard.
pub input_insert : Answers → ℕ → Keyboard → Keyboard × Bool
unfolding put_text ansi_cursor
input_insert w state s =
    if not (has state shift_pressed)
    then (put_text (ansi_cursor vk_insert) s, true)
    else if not w.has_text
    then (put_text [] s, true)
    else if not w.opens
    then (s, false)
    else elim (w.pasted) [
      | some text ↦ (record s { clipboard = some text }, true)
      | none ↦ (s, false)
    ]

-- What vfs_raise returns is not used.
pub input_pause : ℕ → Attribs → Keyboard → Keyboard × Bool
unfolding input_char
input_pause state a s =
    if not (has a.i_flags 0x2) then ((input_char 10 state s).0, true) else (s, true)

pub input_key : Answers → KeyEvent → Attribs → Keyboard → Keyboard × Bool
unfolding put_text ansi_cursor ansi_function input_return input_tabulator input_char input_pause
    input_insert
input_key w e a s =
    if not e.key_down
    then (put_text [] s, true)
    else if e.virtual_key == vk_return
    then input_return e.key_state a s
    else if e.virtual_key == vk_tab
    then input_tabulator e.key_state s
    else if not (e.ascii == 0)
    then input_char e.ascii e.key_state s
    else if e.virtual_key == vk_pause
    then input_pause e.key_state a s
    else if e.virtual_key == vk_insert
    then input_insert w e.key_state s
    else if leb e.virtual_key vk_modify
    then (put_text [] s, true)
    else if leb e.virtual_key vk_cursor
    then (put_text (ansi_cursor e.virtual_key) s, true)
    else if leb e.virtual_key vk_windows
    then (put_text [] s, true)
    else if leb e.virtual_key vk_numpad
    then (put_text [] s, true)
    else if leb e.virtual_key vk_function
    then (put_text (ansi_function e.virtual_key) s, true)
    else (s, true)

-- InputBufferSize: a signal that the program handles interrupts the read.
unfoldable pub input_buffer_size : Answers → Keyboard → Keyboard × Bool
input_buffer_size w s = (s, not w.raised)

abbrev error_io_device : ℕ
error_io_device = 1117

unfoldable pub read_record : Answers → Attribs → InputRecord → Keyboard → Keyboard × Bool
unfolding input_buffer_size
read_record w a (key e) s = input_key w e a s
read_record w a buffer_size s = input_buffer_size w s
read_record w a focus s = (s, true)
read_record w a menu s = (s, true)
read_record w a mouse s = (s, true)
read_record w a unknown s = (record s { last_error = error_io_device }, false)

-- __Input = Buffer
unfoldable pub rewind : Keyboard × Bool → Keyboard × Bool
rewind (s, b) = (record s { pending = s.buf }, b)

-- ReadConsoleInput gives a record, or fails.
pub input_read_event : Answers → Attribs → Option InputRecord → Keyboard → Keyboard × Bool
unfolding read_record rewind
input_read_event w a none s = rewind (put_text [] s, false)
input_read_event w a (some r) s = rewind (read_record w a r (put_text [] s))

-- Buffer[lCount--] = 0 removes the NL, if signals are on; then the CR before it becomes an NL. A
-- line of one byte leaves no place for that: Buffer[-1] is outside.
pub ended_line : Attribs → List ℕ → List ℕ → Option (List ℕ)
ended_line a line old =
    let memory = line ++ drop (length line) old in
    let last = length line - 1 in
    if has a.l_flags 0x80
    then (if has a.i_flags 0x100
        then (if last == 0 then none else some (set (set memory last 0) (last - 1) 10))
        else some (set memory last 0))
    else some (if has a.i_flags 0x100 then set memory last 10 else memory)

-- ReadFile gives the bytes of a line, 255 at most, or fails. A store before the buffer is one
-- outside.
pub input_read_line : Attribs → Option (List ℕ) → Keyboard → Keyboard × Bool
unfolding rewind
input_read_line a none s = rewind (s, false)
input_read_line a (some []) s = rewind (put_text [] s, false)
input_read_line a (some (c ∷ line)) s = rewind (
  elim (ended_line a (c ∷ line) s.buf) as (λ _. Keyboard) [
    | some memory ↦ record s { buf = memory }
    | none ↦ record s {
      buf = set ((c ∷ line) ++ drop (length (c ∷ line)) s.buf) 0 0;
      overrun = true;
    }
  ],
  true,
)

-- The characters but NL up to the room for them, and what is left, none after the 0.
pub clip_loop : ℕ → List ℕ → List ℕ × Option (List ℕ)
clip_loop zero text = ([], some text)
clip_loop (suc n) [] = ([], none)
clip_loop (suc n) (c ∷ text) =
    let (taken, rest) = clip_loop (if c == 10 then suc n else n) text in
    (if c == 10 then taken else c ∷ taken, rest)

-- How one wait for the console ends: whether it succeeds, what ReadFile and ReadConsoleInput then
-- give, the answers to the other calls, and whether proc_poll finds a signal afterwards.
pub record Wake : Type 0 where
  pub waits : Bool
  pub line : Option (List ℕ)
  pub event : Option InputRecord
  pub answers : Answers
  pub polled : Bool

-- ENABLE_LINE_INPUT
abbrev pub enable_line_input : ℕ
enable_line_input = 0x02

pub input_wait_char : Attribs → Wake → Keyboard → Keyboard × Bool
unfolding input_read_line input_read_event
input_wait_char a w s =
    if not w.waits
    then (s, false)
    else if has (input_mode a) enable_line_input
    then input_read_line a w.line s
    else input_read_event w.answers a w.event s

-- How a read ends: with a result of its own, the bytes read and the waits not used; still waiting;
-- reading outside the buffer; or with no fuel left.
pub data ReadEnd : Type 0 where
  finished : Bool → List ℕ → Keyboard → List Wake → ReadEnd
  waiting : Keyboard → ReadEnd
  outside : ReadEnd
  no_fuel : ReadEnd

unfoldable pub with_byte : ℕ → ReadEnd → ReadEnd
with_byte c (finished ok bytes s ws) = finished ok (c ∷ bytes) s ws
with_byte c (waiting s) = waiting s
with_byte c outside = outside
with_byte c no_fuel = no_fuel

-- proc_poll after a wait that gave something
unfoldable pub after_wait :
    (ℕ → Bool → Keyboard → List Wake → ReadEnd) → ℕ → Bool → List Wake → Keyboard × Bool → ReadEnd
after_wait next n polled ws (s, false) = finished false [] s ws
after_wait next n polled ws (s, true) =
    if polled then finished false [] s ws else next (suc n) false s ws

-- Rounds take a byte, a wait, or a part of the clipboard.
unfoldable pub text_left : Option (List ℕ) → ℕ
text_left none = 0
text_left (some text) = suc (length text)

unfoldable pub rounds : Option (List ℕ) → List Wake → ℕ
unfolding text_left
rounds clip [] = text_left clip
rounds clip (w ∷ ws) = suc (text_left w.answers.pasted) + rounds clip ws

-- win_wcstombs is a parameter: the memory of a buffer after the text was converted into it.
module _ (wcstombs : List ℕ → List ℕ → List ℕ) where
  -- The 0 after the text lies outside szBuffer if the text fills it.
  pub input_read_clipboard : List ℕ → Keyboard → Keyboard
  unfolding rewind put_text clip_loop
  input_read_clipboard text s =
      let (taken, rest) = clip_loop max_input text in
      let blank = put_text [] s in
      (rewind (
        record blank {
          buf = wcstombs taken blank.buf;
          clipboard = rest;
          overrun = s.overrun || length taken == max_input;
        },
        true,
      )).0

  -- Nothing is pending and nothing was read: the clipboard comes before the console.
  unfoldable pub input_more :
      (ℕ → Bool → Keyboard → List Wake → ReadEnd)
      → Attribs
      → ℕ
      → Keyboard
      → Option (List ℕ)
      → List Wake
      → ReadEnd
  unfolding input_read_clipboard after_wait input_wait_char
  input_more next a n s (some text) ws = next (suc n) false (input_read_clipboard text s) ws
  input_more next a n s none [] = waiting s
  input_more next a n s none (w ∷ ws) = after_wait next n w.polled ws (input_wait_char a w s)

  -- One round of the loop with room for n + 1 bytes; got says whether bytes were read.
  unfoldable pub input_round :
      (ℕ → Bool → Keyboard → List Wake → ReadEnd)
      → Attribs
      → ℕ
      → Bool
      → Keyboard
      → List ℕ
      → List Wake
      → ReadEnd
  unfolding input_more with_byte
  input_round next a n got s [] ws = outside
  input_round next a n got s (zero ∷ rest) ws =
      if got then finished true [] s ws else input_more next a n s s.clipboard ws
  input_round next a n got s (suc c ∷ rest) ws =
      with_byte (suc c) (next n true (record s { pending = rest }) ws)

  pub input_loop : ℕ → Attribs → ℕ → Bool → Keyboard → List Wake → ReadEnd
  unfolding input_round
  input_loop zero a n got s ws = no_fuel
  input_loop (suc fuel) a zero got s ws = finished true [] s ws
  input_loop (suc fuel) a (suc n) got s ws = input_round (input_loop fuel a) a n got s s.pending ws

  -- The branch for ENABLE_VIRTUAL_TERMINAL_INPUT is never taken: InputMode does not set it.
  pub input_read : Attribs → ℕ → Keyboard → List Wake → ReadEnd
  unfolding input_loop
  input_read a size s ws = input_loop (suc (size + rounds s.clipboard ws)) a size false s ws
