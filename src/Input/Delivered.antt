-- ===== src/Input/Delivered.antt =====
-- What the reads of a console deliver: proofs.
use minc.Prelude.{
  ℕ, zero, suc, ◌+◌, ◌≤◌, ◌<◌, ◌≡◌, refl, sym, ap, inl, inr, Bool, true, false, Option, none, List,
  [], ◌∷◌, ◌++◌, length, Bool-cases, arith,
}
use mathlib.Core.Path.{subst}
use minc.Descriptor.Flags.{has}
use minc.Termio.{Attribs, input_mode}
use minc.Input.{
  Keyboard, Wake, ReadEnd, finished, waiting, outside, no_fuel, with_byte, input_wait_char,
  enable_line_input, after_wait, input_more, input_round, input_loop, input_read, rounds,
}
use minc.Input.Text.{cstr, HasNul, later, wake_text, event-Gives, Gives}

-- No wait finds text in the clipboard.
abbrev pub NothingToPaste : List Wake → Type 0
NothingToPaste [] = Unit {0}
NothingToPaste (w ∷ ws) = (w.answers.has_text ≡ false) × NothingToPaste ws

module _ (a : Attribs) where
  -- How a read may end that has room for n bytes, where the text t is pending or to come; got says
  -- that bytes were read already.
  abbrev pub Delivers : Bool → ℕ → List ℕ → ReadEnd → Type 0
  Delivers got n t (finished ok bytes s ws) =
      (bytes ++ (cstr s.pending ++ later a ws) ≡ t)
      × (length bytes ≤ n)
      × HasNul s.pending
      × (s.clipboard ≡ none)
      × (ok ≡ true → got ≡ false → 0 < n → 0 < length bytes)
  Delivers got n t (waiting s) = (t ≡ []) × (got ≡ false)
  Delivers got n t outside = ⊥
  Delivers got n t no_fuel = ⊥

  with_byte-Delivers :
      (c n : ℕ) (got : Bool) (t : List ℕ) (r : ReadEnd)
      → Delivers true n t r
      → Delivers got (suc n) (c ∷ t) (with_byte c r)
  unfolding with_byte
  with_byte-Delivers c n got t (finished ok bytes s ws) h =
      (ap (λ x. c ∷ x) h.0, omega (arith, h.1), h.2, h.3, (λ p q r. omega arith))
  with_byte-Delivers c n got t (waiting s) h = cc
  with_byte-Delivers c n got t outside h = h
  with_byte-Delivers c n got t no_fuel h = h

module _ (a : Attribs) (events : has (input_mode a) enable_line_input ≡ false) where
  -- A wait that succeeds or fails leaves pending just what it gives; before it, nothing was.
  wait-Gives :
      (w : Wake) (s : Keyboard)
      → cstr s.pending ≡ []
      → HasNul s.pending
      → w.answers.has_text ≡ false
      → s.clipboard ≡ none
      → Gives (input_wait_char a w s) (wake_text a w)
  unfolding input_wait_char
  wait-Gives w s e h n c = elim (Bool-cases w.waits) [
    | inl y ↦ rw (y, events) (event-Gives w.answers a w.event s n c)
    | inr y ↦ rw y (e, h, c)
  ]

  module _ (f : ℕ) (next : ℕ → Bool → Keyboard → List Wake → ReadEnd)
      (later_rounds : (n : ℕ) (got : Bool) (s : Keyboard) (ws : List Wake)
        → HasNul s.pending
        → s.clipboard ≡ none
        → NothingToPaste ws
        → n + length ws < f
        → Delivers a got n (cstr s.pending ++ later a ws) (next n got s ws)) where
    after-Delivers :
        (n : ℕ) (polled : Bool) (ws : List Wake) (t : List ℕ) (r : Keyboard × Bool)
        → Gives r t
        → NothingToPaste ws
        → suc n + length ws < f
        → Delivers a false (suc n) (t ++ later a ws) (after_wait next n polled ws r)
    unfolding after_wait
    after-Delivers n polled ws t (s, false) g p h =
        (ap (λ x. x ++ later a ws) g.0, omega arith, g.1, g.2, (λ x y z. cc))
    after-Delivers n true ws t (s, true) g p h =
        (ap (λ x. x ++ later a ws) g.0, omega arith, g.1, g.2, (λ x y z. cc))
    after-Delivers n false ws t (s, true) g p h =
        subst (λ x. Delivers a false (suc n) (x ++ later a ws) (next (suc n) false s ws)) g.0
          (later_rounds (suc n) false s ws g.1 g.2 p h)

    module _ (wcstombs : List ℕ → List ℕ → List ℕ) where
      more-Delivers :
          (n : ℕ) (s : Keyboard) (ws : List Wake)
          → cstr s.pending ≡ []
          → HasNul s.pending
          → s.clipboard ≡ none
          → NothingToPaste ws
          → suc n + length ws < suc f
          → Delivers a false (suc n) (later a ws) (input_more wcstombs next a n s s.clipboard ws)
      unfolding input_more
      more-Delivers n s [] e z c p h =
          subst (λ x. Delivers a false (suc n) [] (input_more wcstombs next a n s x [])) (sym c)
            (refl, refl)
      more-Delivers n s (w ∷ ws) e z c p h =
          subst
            (λ x.
              Delivers a false (suc n) (later a (w ∷ ws))
                (input_more wcstombs next a n s x (w ∷ ws)))
            (sym c)
            (after-Delivers n w.polled ws (wake_text a w) (input_wait_char a w s)
              (wait-Gives w s e z p.0 c) p.1 (omega arith))

      round-Delivers :
          (n : ℕ) (got : Bool) (s : Keyboard) (m : List ℕ) (ws : List Wake)
          → s.pending ≡ m
          → HasNul m
          → s.clipboard ≡ none
          → NothingToPaste ws
          → suc n + length ws < suc f
          → Delivers a got (suc n) (cstr m ++ later a ws) (input_round wcstombs next a n got s m ws)
      unfolding input_round
      round-Delivers n got s [] ws e z c p h = absurd z
      round-Delivers n true s (zero ∷ m) ws e z c p h =
          (ap (λ x. cstr x ++ later a ws) e, omega arith, subst HasNul (sym e) z, c, (λ x y w. cc))
      round-Delivers n false s (zero ∷ m) ws e z c p h =
          more-Delivers n s ws (ap cstr e) (subst HasNul (sym e) z) c p h
      round-Delivers n got s (suc c' ∷ m) ws e z c p h =
          with_byte-Delivers a (suc c') n got (cstr m ++ later a ws)
            (next n true (record s { pending = m }) ws)
            (later_rounds n true (record s { pending = m }) ws z c p (omega arith))

  module _ (wcstombs : List ℕ → List ℕ → List ℕ) where
    loop-Delivers :
        (f n : ℕ) (got : Bool) (s : Keyboard) (ws : List Wake)
        → HasNul s.pending
        → s.clipboard ≡ none
        → NothingToPaste ws
        → n + length ws < f
        → Delivers a got n (cstr s.pending ++ later a ws) (input_loop wcstombs f a n got s ws)
    unfolding input_loop
    loop-Delivers zero n got s ws z c p h = absurd (omega arith)
    loop-Delivers (suc f) zero got s ws z c p h = (refl, omega arith, z, c, (λ x y w. w))
    loop-Delivers (suc f) (suc n) got s ws z c p h =
        round-Delivers f (input_loop wcstombs f a) (λ m g t us. loop-Delivers f m g t us) wcstombs n
          got s s.pending ws refl z c p h

    length-le-rounds : (clip : Option (List ℕ)) (ws : List Wake) → length ws ≤ rounds clip ws
    unfolding rounds
    length-le-rounds clip [] = omega arith
    length-le-rounds clip (w ∷ ws) = omega (arith, length-le-rounds clip ws)

    -- A console that does not read lines, nothing in the clipboard: for every size and every
    -- sequence of events, the read ends, or it still waits and nothing was or came to be read. If it
    -- ends, the bytes read, then what is pending, then what the waits left over give, are together
    -- what was pending and what all the waits give: no byte is lost, doubled or moved, however the
    -- reads cut them. There are no more bytes than the size, a read that succeeds with room returns
    -- one at least, and the next read finds the same conditions.
    pub input_read-Delivers :
        (size : ℕ) (s : Keyboard) (ws : List Wake)
        → HasNul s.pending
        → s.clipboard ≡ none
        → NothingToPaste ws
        → Delivers a false size (cstr s.pending ++ later a ws) (input_read wcstombs a size s ws)
    unfolding input_read
    input_read-Delivers size s ws z c p =
        loop-Delivers (suc (size + rounds s.clipboard ws)) size false s ws z c p
          (omega (arith, length-le-rounds s.clipboard ws))
