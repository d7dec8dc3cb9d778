-- ===== src/Screen/Write.antt =====
-- libposix/vfs/char/char_screen.c: escape sequences and the loop of screen_write.
use minc.Prelude.{
  ℕ, zero, suc, ◌+◌, Bool, true, false, ◌||◌, not, List, [], ◌∷◌, Option, none, some, bit_and, ◌==◌,
  ltb, take, drop, get_or, if◌then◌else◌, length,
}
pub mod Frame
pub mod Feed
pub mod Bounds
pub mod Hyperlink
use minc.Prelude.Int.{ℤ, pos}
use minc.Prelude.Words.{to_word}
use minc.Console.{
  Console, Sequence, Terminal, write_file, set_output_cp, report, issue, issue_, store,
}
use minc.Ansi.Cursor.{cursor_back, save_cursor, restore_cursor}
use minc.Ansi.Control.{argument, control}
use minc.Vt100.{
  dec_set_mode, dec_reset_mode, select_character_set, reset_character_set,
  restore_presentation_state, cp_utf8,
}
use minc.Screen.{
  screen_mode, render_window, carriage_return, line_feed, put_string,
  enable_virtual_terminal_processing,
}

-- The bytes before the first NUL.
unfoldable pub c_string : List ℕ → List ℕ
c_string [] = []
c_string (b ∷ bs) = let rest = c_string bs in if b == 0 then [] else b ∷ rest

-- The function that ScreenAnsi chooses by the introducer of the sequence, of `n` bytes.
unfoldable pub dispatch : Console → ℕ → ℕ → Terminal → Bool × Terminal
dispatch c b n t =
    if t.seq.csi == b'['
    then control c b n t
    else if t.seq.csi == b'?'
    then (if b == b'h'
        then dec_set_mode c (to_word (argument t)) t
        else if b == b'l'
        then dec_reset_mode c (to_word (argument t)) t
        else if b == b'u'
        then restore_presentation_state c (to_word (argument t)) t
        else (false, t))
    else if t.seq.csi == 0
    then (if b == b'7' then save_cursor t else if b == b'8' then restore_cursor c t else (false, t))
    else if t.seq.csi == b'('
    then select_character_set c b t
    else if t.seq.csi == b')'
    then reset_character_set c b t
    else (false, t)

-- The end of ScreenAnsi: an unknown sequence is reported, and the sequence is over.
unfoldable pub finish : Console → ℕ → Bool → Terminal → Terminal
finish c n true t = record t { escape = none }
finish c n false t =
    let t1 = store n 0 t in
    record (issue_ c (report (27 ∷ c_string t1.seq.buf)) t1) { escape = none }

-- ScreenAnsi for the byte `b`, with __Escape at the offset `n`.
unfoldable pub screen_ansi : Console → ℕ → ℕ → Terminal → Terminal
screen_ansi c b n t = let (known, t') = dispatch c b n t in finish c n known t'

-- ScreenEscape for the byte `b`, with __Escape at the offset `n`.
unfoldable pub screen_escape : Console → ℕ → ℕ → Terminal → Terminal
screen_escape c b n t0 =
    let t = record (store n b t0) { escape = some (suc n) } in
    if b == 7
    then record t { escape = none }
    else if b == b'@'
    then screen_ansi c b (suc n) t
    else if b == b'_'
    then record t { escape = none }
    else if t.seq.csi == b']'
    then t
    else if b == b';'
    then record t { seq = record t.seq { arg1 = argument t; char1 = 0; args = suc n } }
    else if not (c.is_alpha_numeric b)
    then record t { seq = record t.seq { args = suc t.seq.args; csi = b } }
    else if c.is_alpha b
    then screen_ansi c b (suc n) t
    else if t.seq.csi == 0
    then screen_ansi c b (suc n) t
    else if t.seq.char1 == 0
    then record t { seq = record t.seq { char1 = b } }
    else t

-- What `\e` sets up in screen_write.
unfoldable pub start_escape : Terminal → Terminal
start_escape t = record t {
  escape = some 0;
  seq = record t.seq { arg1 = pos 1; char1 = 0; csi = 0; args = 0 };
}

-- Is this byte below 32 one that screen_write acts on and drops?
unfoldable pub is_control : ℕ → Bool
is_control b =
    b == 0 || (b == 1 || (b == 27 || (b == 8 || (b == 10 || (b == 13 || (b == 14 || b == 15))))))

-- What it does at such a byte.
unfoldable pub control_byte : Console → ℕ → ℕ → Terminal → Terminal
control_byte c flags b t =
    if b == 27
    then start_escape t
    else if b == 8
    then (cursor_back c 1 t).1
    else if b == 10
    then (line_feed c flags t).1
    else if b == 13
    then (carriage_return c flags t).1
    else if b == 14
    then issue_ c (set_output_cp 437) t
    else if b == 15
    then issue_ c (set_output_cp cp_utf8) t
    else t

-- The `while (lSize > 0)` loop of screen_write. `left` is lSize, `text` is Buffer, `count` is
-- dwCount and `done` is dwResult; the loop gives back the last three and the terminal.
unfoldable pub write_loop : Console → ℕ → ℕ → List ℕ → ℕ → ℕ → Terminal → List ℕ × ℕ × ℕ × Terminal
write_loop c flags zero text count done t = (text, count, done, t)
write_loop c flags (suc left) text count done t =
    let b = get_or text count 0 in
    let in_escape =
      λ (n : ℕ). write_loop c flags left (drop 1 text) 0 (done + 1) (screen_escape c b n t) in
    let at_control =
      write_loop c flags left (drop 1 (drop count text)) 0 (done + 1)
        (control_byte c flags b (put_string c (take count text) t)) in
    let at_other =
      write_loop c flags left (drop count text) 1 (done + 1) (put_string c (take count text) t) in
    let at_text = write_loop c flags left text (count + 1) (done + 1) t in
    elim t.escape [
      | some n ↦ in_escape n
      | none ↦ if ltb b 32 then (if is_control b then at_control else at_other) else at_text
    ]

-- What follows the loop: text that is left over is written. The answer is dwResult.
unfoldable pub write_rest : Console → List ℕ × ℕ × ℕ × Terminal → ℕ × Terminal
write_rest c (text, count, done, t) =
    (done, if count == 0 then t else put_string c (take count text) t)

-- The branches of screen_write before the loop, after ScreenRenderWindow gave its answer.
unfoldable pub write_window : Console → List ℕ → Bool → Terminal → Option ℕ × Terminal
write_window c text false t = (none, t)
write_window c text true t =
    let (done, t') = write_rest c (write_loop c t.oflags (length text) text 0 0 t) in
    (some done, t')

-- screen_write of the bytes `text`: what it stores in *Result, none where it fails, and the
-- terminal afterwards.
unfoldable pub screen_write : Console → List ℕ → Terminal → Option ℕ × Terminal
screen_write c text t =
    if bit_and (screen_mode t.oflags) enable_virtual_terminal_processing == 0
    then (let (known, t') = render_window c t in write_window c text known t')
    else (let (written, t') = issue c (write_file text) t in
        (if written then some (length text) else none, t'))
