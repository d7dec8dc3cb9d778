-- ===== src/Screen/Write/Feed.antt =====
-- screen_write as a machine that is fed one byte at a time: what its index arithmetic computes.
use mathlib.Core.Path.{ap₂}
use minc.Screen.Write.Frame.{put_string-Keeps}
use minc.Prelude.{
  ℕ, suc, ◌+◌, ◌≡◌, refl, sym, ◌∙◌, ap, true, false, List, [], ◌∷◌, ◌++◌, Option, none, some, arith,
  ltb, length, take, drop, get_or, if◌then◌else◌, Bool-cases, inl, inr, Option-cases, ◌==◌, bit_and,
}
use mathlib.Core.List.{append_assoc}
use native.Mathlib.Nat.{add-zero}
use minc.Console.{ScreenInfo, Console, Terminal}
use minc.Screen.{put_string, render_window, render_window_from, screen_mode}
use minc.Screen.Write.{
  screen_escape, is_control, control_byte, write_loop, write_rest, write_window, screen_write,
}

-- Text that waits to be written, and the terminal.
pub record Feed : Type 0 where
  pub pending : List ℕ
  pub terminal : Terminal

-- One byte: within a sequence it goes to the parser; a control byte first writes the text before
-- it; any other byte waits, though one below 32 first writes the text before it.
unfoldable pub feed_at : Console → ℕ → ℕ → Option ℕ → Feed → Feed
feed_at c flags b (some n) f = record { pending = []; terminal = screen_escape c b n f.terminal }
feed_at c flags b none f =
    if ltb b 32
    then (if is_control b
        then record {
          pending = [];
          terminal = control_byte c flags b (put_string c f.pending f.terminal);
        }
        else record { pending = b ∷ []; terminal = put_string c f.pending f.terminal })
    else record { pending = f.pending ++ (b ∷ []); terminal = f.terminal }

unfoldable pub feed : Console → ℕ → ℕ → Feed → Feed
unfolding feed_at
feed c flags b f = feed_at c flags b f.terminal.escape f

unfoldable pub feed_all : Console → ℕ → List ℕ → Feed → Feed
feed_all c flags [] f = f
feed_all c flags (b ∷ bs) f = feed_all c flags bs (feed c flags b f)

-- What waits is written, if anything does.
unfoldable pub flush : Console → Feed → Terminal
flush c f = if length f.pending == 0 then f.terminal else put_string c f.pending f.terminal

-- No text waits within a sequence.
pub record IsFeed (f : Feed) : Type 0 where
  pub quiet : {n : ℕ} → f.terminal.escape ≡ some n → f.pending ≡ []

get_or-length : (p : List ℕ) (b : ℕ) (r : List ℕ) → get_or (p ++ (b ∷ r)) (length p) 0 ≡ b
get_or-length [] b r = refl
get_or-length (x ∷ p) b r = get_or-length p b r

take-length : (p r : List ℕ) → take (length p) (p ++ r) ≡ p
take-length [] r = refl
take-length (x ∷ p) r = ap (λ q. x ∷ q) (take-length p r)

drop-length : (p r : List ℕ) → drop (length p) (p ++ r) ≡ r
drop-length [] r = refl
drop-length (x ∷ p) r = drop-length p r

length-snoc : (p : List ℕ) (b : ℕ) → length (p ++ (b ∷ [])) ≡ length p + 1
length-snoc [] b = omega arith
length-snoc (x ∷ p) b = omega (arith, length-snoc p b)

-- The loop's state for text that waits and bytes that are to come.
abbrev LoopLaw : Console → ℕ → List ℕ → List ℕ → ℕ → Terminal → Type 0
LoopLaw c flags p r done t =
    write_rest c (write_loop c flags (length r) (p ++ r) (length p) done t)
    ≡ (done + length r, flush c (feed_all c flags r (record { pending = p; terminal = t })))

loop_end : (c : Console) (flags done : ℕ) (p : List ℕ) (t : Terminal) → LoopLaw c flags p [] done t
unfolding write_loop write_rest feed_all flush
loop_end c flags done p t = rw (take-length p [], add-zero)

-- The four ways that a round of the loop, and a step of the machine, can go.
module _ (c : Console) (flags left b : ℕ) (p r : List ℕ) (done : ℕ) (t : Terminal) where
  loop_escape :
      (n : ℕ)
      → t.escape ≡ some n
      → p ≡ []
      → write_loop c flags (suc left) (p ++ (b ∷ r)) (length p) done t
        ≡ write_loop c flags left r 0 (done + 1) (screen_escape c b n t)
  unfolding write_loop
  loop_escape n e q = rw q (ground arith)

  loop_control :
      t.escape ≡ none
      → ltb b 32 ≡ true
      → is_control b ≡ true
      → write_loop c flags (suc left) (p ++ (b ∷ r)) (length p) done t
        ≡ write_loop c flags left r 0 (done + 1) (control_byte c flags b (put_string c p t))
  unfolding write_loop
  loop_control e h k =
      ground (arith, get_or-length p b r, take-length p (b ∷ r), drop-length p (b ∷ r))

  loop_other :
      t.escape ≡ none
      → ltb b 32 ≡ true
      → is_control b ≡ false
      → write_loop c flags (suc left) (p ++ (b ∷ r)) (length p) done t
        ≡ write_loop c flags left (b ∷ r) 1 (done + 1) (put_string c p t)
  unfolding write_loop
  loop_other e h k =
      ground (arith, get_or-length p b r, take-length p (b ∷ r), drop-length p (b ∷ r))

  loop_text :
      t.escape ≡ none
      → ltb b 32 ≡ false
      → write_loop c flags (suc left) (p ++ (b ∷ r)) (length p) done t
        ≡ write_loop c flags left ((p ++ (b ∷ [])) ++ r) (length (p ++ (b ∷ []))) (done + 1) t
  unfolding write_loop
  loop_text e h = ground (arith, get_or-length p b r, append_assoc p (b ∷ []) r, length-snoc p b)

module _ (c : Console) (flags b : ℕ) (p : List ℕ) (t : Terminal) where
  pub feed_escape :
      (n : ℕ)
      → t.escape ≡ some n
      → feed c flags b (record { pending = p; terminal = t })
        ≡ record { pending = []; terminal = screen_escape c b n t }
  unfolding feed
  feed_escape n e = ground arith

  pub feed_control :
      t.escape ≡ none
      → ltb b 32 ≡ true
      → is_control b ≡ true
      → feed c flags b (record { pending = p; terminal = t })
        ≡ record { pending = []; terminal = control_byte c flags b (put_string c p t) }
  unfolding feed
  feed_control e h k = ground arith

  feed_other :
      t.escape ≡ none
      → ltb b 32 ≡ true
      → is_control b ≡ false
      → feed c flags b (record { pending = p; terminal = t })
        ≡ record { pending = b ∷ []; terminal = put_string c p t }
  unfolding feed
  feed_other e h k = ground arith

  feed_text :
      t.escape ≡ none
      → ltb b 32 ≡ false
      → feed c flags b (record { pending = p; terminal = t })
        ≡ record { pending = p ++ (b ∷ []); terminal = t }
  unfolding feed
  feed_text e h = ground arith

-- One round is one step.
loop_step :
    (c : Console) (flags b : ℕ) (r : List ℕ)
    → ((p : List ℕ) (done : ℕ) (t : Terminal)
        → IsFeed (record { pending = p; terminal = t })
        → LoopLaw c flags p r done t)
    → (p : List ℕ) (done : ℕ) (t : Terminal) → IsFeed (record { pending = p; terminal = t })
    → LoopLaw c flags p (b ∷ r) done t
unfolding feed_all
loop_step c flags b r ih p done t ok = elim (Option-cases t.escape) [
  | inr (n, e) ↦
      ap (write_rest c) (loop_escape c flags (length r) b p r done t n e (ok.quiet e))
      ∙ (ih [] (done + 1) (screen_escape c b n t) (record { quiet = λ _. refl })
          ∙ reply (sym (feed_escape c flags b p t n e)))
  | inl e ↦ elim (Bool-cases (ltb b 32)) [
    | inr h ↦
        ap (write_rest c) (loop_text c flags (length r) b p r done t e h)
        ∙ (ih (p ++ (b ∷ [])) (done + 1) t (record { quiet = λ k. cc })
            ∙ reply (sym (feed_text c flags b p t e h)))
    | inl h ↦ elim (Bool-cases (is_control b)) [
      | inl k ↦
          ap (write_rest c) (loop_control c flags (length r) b p r done t e h k)
          ∙ (ih [] (done + 1) _ (record { quiet = λ _. refl })
              ∙ reply (sym (feed_control c flags b p t e h k)))
      | inr k ↦
          ap (write_rest c) (loop_other c flags (length r) b p r done t e h k)
          ∙ (ih (b ∷ []) (done + 1) (put_string c p t)
                (record { quiet = λ q. absurd (still_none q e) })
              ∙ reply (sym (feed_other c flags b p t e h k)))
    ]
  ]
]
  where
    reply :
        {f g : Feed}
        → f ≡ g
        → ◌≡◌ {A = ℕ × Terminal}
            (done + 1 + length r, flush c (feed_all c flags r f))
            (done + suc (length r), flush c (feed_all c flags r g))
    reply q = ap₂ (λ k f. (k, flush c (feed_all c flags r f))) (omega arith) q

    still_none : {n : ℕ} → (put_string c p t).escape ≡ some n → t.escape ≡ none → ⊥
    still_none q e = cc ((put_string-Keeps c p t).same_escape)

-- The whole loop, with the write of the rest, is the machine fed with all the bytes and flushed.
write_loop-feed_all :
    (c : Console) (flags : ℕ) (r p : List ℕ) (done : ℕ) (t : Terminal)
    → IsFeed (record { pending = p; terminal = t })
    → LoopLaw c flags p r done t
write_loop-feed_all c flags [] p done t ok = loop_end c flags done p t
write_loop-feed_all c flags (b ∷ r) p done t ok =
    loop_step c flags b r (write_loop-feed_all c flags r) p done t ok

-- What the machine makes of a text, from the state that ScreenRenderWindow leaves.
unfoldable pub feed_text_from : Console → List ℕ → Terminal → Terminal
feed_text_from c text t = flush c (feed_all c t.oflags text (record { pending = []; terminal = t }))

-- ScreenMode never asks for virtual terminal processing.
screen_mode-vt : (oflags : ℕ) → (bit_and (screen_mode oflags) 4 == 0) ≡ true
unfolding screen_mode
screen_mode-vt oflags = elim (Bool-cases (oflags == 0)) [ inl e ↦ rw e | inr e ↦ rw e ]

render_window_from_fails :
    (o : Option ScreenInfo) (t : Terminal)
    → (render_window_from o t).0 ≡ false
    → (render_window_from o t).1 ≡ t
unfolding render_window_from
render_window_from_fails none t e = refl
render_window_from_fails (some i) t e = cc

render_window_fails :
    (c : Console) (t : Terminal) → (render_window c t).0 ≡ false → (render_window c t).1 ≡ t
unfolding render_window
render_window_fails c t e = render_window_from_fails (c.screen_info t.calls) t e

write_window-feed :
    (c : Console) (text : List ℕ) (t : Terminal)
    → write_window c text true t ≡ (some (length text), feed_text_from c text t)
unfolding write_window feed_text_from
write_window-feed c text t =
    ap (λ (r : ℕ × Terminal). (some r.0, r.1))
      (write_loop-feed_all c t.oflags text [] 0 t (record { quiet = λ _. refl })
        ∙ ap (λ k. (k, flush c (feed_all c t.oflags text (record { pending = []; terminal = t }))))
            (omega arith))

screen_write-window :
    (c : Console) (text : List ℕ) (t : Terminal)
    → screen_write c text t ≡ write_window c text (render_window c t).0 (render_window c t).1
unfolding screen_write
screen_write-window c text t = rw (screen_mode-vt t.oflags)

-- Where GetConsoleScreenBufferInfo succeeds, screen_write takes every byte of the buffer, and its
-- loop over two moving indices leaves the terminal as the machine does that is fed one byte at a
-- time and flushed at the end; where it fails, screen_write fails and changes nothing.
pub screen_write-feed :
    (c : Console) (text : List ℕ) (t : Terminal)
    → screen_write c text t ≡ (
        if (render_window c t).0
        then (some (length text), feed_text_from c text (render_window c t).1)
        else (none, t))
unfolding write_window
screen_write-feed c text t = elim (Bool-cases (render_window c t).0) [
  | inl e ↦ rw (screen_write-window c text t, e) (write_window-feed c text (render_window c t).1)
  | inr e ↦ rw (screen_write-window c text t, e) (write_window_fails (render_window_fails c t e))
]
  where
    write_window_fails : {u : Terminal} → u ≡ t → write_window c text false u ≡ (none, t)
    write_window_fails q = ap (λ u. (none, u)) q
