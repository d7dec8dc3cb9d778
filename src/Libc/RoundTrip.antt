-- ===== src/Libc/RoundTrip.antt =====
-- A printed number is read back.
use minc.Prelude.{
  ℕ, zero, suc, ◌+◌, ◌-◌, ◌*◌, ◌/◌, ◌%◌, ◌<◌, ◌≡◌, refl, sym, ◌∙◌, ap, true, false, List, [], ◌∷◌,
  ◌++◌, arith, ltb, Bool-cases, inl, inr, ltb→lt,
}
use minc.Prelude.Int.{ℤ, pos, negsuc}
use minc.Libc.{is_digit, digits_from, atoi, print_from, print_decimal}

-- A text that does not begin with a digit.
abbrev pub Stops : List ℕ → Type 0
Stops [] = Unit
Stops (c ∷ cs) = is_digit c ≡ false

digits_from-Stops : (acc : ℕ) (cs : List ℕ) → Stops cs → digits_from acc cs ≡ acc
unfolding digits_from
digits_from-Stops acc [] h = refl
digits_from-Stops acc (c ∷ cs) h = rw h

is_digit-digit : (d : ℕ) → d < 10 → is_digit (d + b'0') ≡ true
is_digit-digit d h = ground arith

digits_from-digit :
    (acc d : ℕ) (cs : List ℕ)
    → d < 10
    → digits_from acc ((d + b'0') ∷ cs) ≡ digits_from (acc * 10 + d) cs
unfolding digits_from
digits_from-digit acc d cs h = let e : d + 48 - 48 ≡ d = omega arith in rw (is_digit-digit d h, e)

-- Printing a number and reading on is reading on with that number.
digits_from-print_from :
    (f n : ℕ) (acc : List ℕ) → n < f → digits_from 0 (print_from f n acc) ≡ digits_from n acc
unfolding print_from
digits_from-print_from zero n acc h = elim h [ ]
digits_from-print_from (suc f) n acc h = elim (Bool-cases (ltb n 10)) [
  | inl small ↦
      rw small
        (digits_from-digit 0 n acc (ltb→lt n 10 small) ∙ ap (λ k. digits_from k acc) (omega arith))
  | inr large ↦ rw large (
      digits_from-print_from f (n / 10) ((n % 10 + b'0') ∷ acc) (ground arith)
      ∙ (digits_from-digit (n / 10) (n % 10) acc (omega arith)
          ∙ ap (λ k. digits_from k acc) (omega arith)))
]

-- The text of a number begins with a digit.
print_from-head :
    (f n : ℕ) (acc : List ℕ)
    → n < f
    → (c : ℕ) × (cs : List ℕ) × (print_from f n acc ≡ c ∷ cs) × (is_digit c ≡ true)
unfolding print_from
print_from-head zero n acc h = elim h [ ]
print_from-head (suc f) n acc h = elim (Bool-cases (ltb n 10)) [
  | inl small ↦ (n + b'0', acc, rw small, is_digit-digit n (ltb→lt n 10 small))
  | inr large ↦ rw large (print_from-head f (n / 10) ((n % 10 + b'0') ∷ acc) (ground arith))
]

print_from-append :
    (f n : ℕ) (acc rest : List ℕ) → print_from f n acc ++ rest ≡ print_from f n (acc ++ rest)
unfolding print_from
print_from-append zero n acc rest = refl
print_from-append (suc f) n acc rest = elim (Bool-cases (ltb n 10)) [
  | inl small ↦ rw small
  | inr large ↦ rw large (print_from-append f (n / 10) ((n % 10 + b'0') ∷ acc) rest)
]

-- At a digit atoi reads digits.
atoi-digit :
    (c : ℕ) (cs : List ℕ) → is_digit c ≡ true → atoi (c ∷ cs) ≡ pos (digits_from 0 (c ∷ cs))
unfolding atoi
atoi-digit c cs h = ground arith

atoi-minus : (cs : List ℕ) (n : ℕ) → digits_from 0 cs ≡ suc n → atoi (b'-' ∷ cs) ≡ negsuc n
unfolding atoi
atoi-minus cs n h = rw h (ground arith)

atoi-print_from :
    (f n : ℕ) (rest : List ℕ) → n < f → Stops rest → atoi (print_from f n rest) ≡ pos n
atoi-print_from f n rest h stops =
    let (c, cs, e, d) = print_from-head f n rest h in
    ap atoi e
    ∙ (atoi-digit c cs d
        ∙ (ap (λ k. pos (digits_from 0 k)) (sym e)
            ∙ ap pos (digits_from-print_from f n rest h ∙ digits_from-Stops n rest stops)))

-- atoi reads a printed integer back, whatever follows that does not begin with a digit.
pub atoi-print_decimal : (z : ℤ) (rest : List ℕ) → Stops rest → atoi (print_decimal z ++ rest) ≡ z
unfolding print_decimal
atoi-print_decimal (pos n) rest stops =
    rw (print_from-append (suc n) n [] rest) (atoi-print_from (suc n) n rest (omega arith) stops)
atoi-print_decimal (negsuc n) rest stops = rw (print_from-append (suc (suc n)) (suc n) [] rest) (
    atoi-minus (print_from (suc (suc n)) (suc n) rest) n (
      digits_from-print_from (suc (suc n)) (suc n) rest (omega arith)
      ∙ digits_from-Stops (suc n) rest stops))
