-- ===== src/Prelude/Bits.antt =====
-- The binary digits of the native numbers, and what the bitwise operations do to each of them.

use Prim.Native.Nat.{
  ℕ, zero, suc, ◌+◌, ◌*◌, ◌/◌, ◌%◌, ◌≤◌, ◌<◌, min, max, bit_and, bit_or, digits, bit_and-bitwise,
  bit_or-bitwise,
}
use mathlib.Core.Path.{◌≡◌, refl, sym, ap, ◌∙◌}
use native.Mathlib.Omega.{arith}

-- The digit of weight 2 ^ i.
unfoldable pub bit : ℕ → ℕ → ℕ
bit zero a = a % 2
bit (suc i) a = bit i (a / 2)

bit-zero : (i : ℕ) → bit i 0 ≡ 0
unfolding bit
bit-zero zero = refl
bit-zero (suc i) = bit-zero i

-- An operation on two digits, applied to all of them, on numbers with enough digits to go.
module _ (z : ℕ → ℕ) (f : ℕ → ℕ → ℕ) (ends : (i b : ℕ) → bit i (z b) ≡ f 0 (bit i b))
    (small : (a b : ℕ) → f (a % 2) (b % 2) < 2) where
  bit-digits : (i n a b : ℕ) → a ≤ n → bit i (digits z f n a b) ≡ f (bit i a) (bit i b)
  unfolding bit
  bit-digits zero zero zero b h = ends zero b
  bit-digits zero zero (suc a) b h = absurd (omega arith)
  bit-digits zero (suc n) zero b h = ends zero b
  bit-digits zero (suc n) (suc a) b h = omega (arith, small (suc a) b)
  bit-digits (suc i) zero zero b h =
      ends (suc i) b ∙ sym (ap (λ x. f x (bit i (b / 2))) (bit-zero i))
  bit-digits (suc i) zero (suc a) b h = absurd (omega arith)
  bit-digits (suc i) (suc n) zero b h =
      ends (suc i) b ∙ sym (ap (λ x. f x (bit i (b / 2))) (bit-zero i))
  bit-digits (suc i) (suc n) (suc a) b h =
      ap (bit i) (half n a b) ∙ bit-digits i n (suc a / 2) (b / 2) (omega arith)
    where
      half :
          (n a b : ℕ)
          → (digits z f n (suc a / 2) (b / 2) * 2 + f (suc a % 2) (b % 2)) / 2
            ≡ digits z f n (suc a / 2) (b / 2)
      half n a b = omega (arith, small (suc a) b)

pub bit-bit_and : (i a b : ℕ) → bit i (bit_and a b) ≡ min (bit i a) (bit i b)
bit-bit_and i a b =
    ap (bit i) (bit_and-bitwise a b)
    ∙ bit-digits (λ b. 0) min (λ i b. omega (arith, bit-zero i)) (λ a b. omega arith) i a a b
        (omega arith)

pub bit-bit_or : (i a b : ℕ) → bit i (bit_or a b) ≡ max (bit i a) (bit i b)
bit-bit_or i a b =
    ap (bit i) (bit_or-bitwise a b)
    ∙ bit-digits (λ b. b) max (λ i b. omega arith) (λ a b. omega arith) i a a b (omega arith)

-- A number is its digits.
pub bit-ext : (n a b : ℕ) → a ≤ n → b ≤ n → ((i : ℕ) → bit i a ≡ bit i b) → a ≡ b
unfolding bit
bit-ext zero a b h k e = omega arith
bit-ext (suc n) a b h k e =
    omega (arith, e 0, bit-ext n (a / 2) (b / 2) (omega arith) (omega arith) (λ i. e (suc i)))

bit-half : (i a : ℕ) → bit (suc i) a ≡ bit i (a / 2)
unfolding bit
bit-half i a = refl

pub bit_and-half : (a b : ℕ) → bit_and a b / 2 ≡ bit_and (a / 2) (b / 2)
bit_and-half a b =
    bit-ext (bit_and a b / 2 + bit_and (a / 2) (b / 2)) (bit_and a b / 2) (bit_and (a / 2) (b / 2))
      (omega arith) (omega arith)
      (λ i.
        sym (bit-half i (bit_and a b))
        ∙ bit-bit_and (suc i) a b
        ∙ ap (λ x. min x (bit (suc i) b)) (bit-half i a)
        ∙ ap (min (bit i (a / 2))) (bit-half i b)
        ∙ sym (bit-bit_and i (a / 2) (b / 2)))

bit_and-odd : (a b : ℕ) → bit_and a b % 2 ≡ min (a % 2) (b % 2)
unfolding bit
bit_and-odd a b = bit-bit_and 0 a b

-- The number of the last k digits.
unfoldable pub low : ℕ → ℕ → ℕ
low zero a = 0
low (suc k) a = a % 2 + 2 * low k (a / 2)

-- The number without them.
unfoldable pub high : ℕ → ℕ → ℕ
high zero a = a
high (suc k) a = high k (a / 2)

pub high-bit_and : (k a b : ℕ) → high k (bit_and a b) ≡ bit_and (high k a) (high k b)
unfolding high
high-bit_and zero a b = refl
high-bit_and (suc k) a b = ap (high k) (bit_and-half a b) ∙ high-bit_and k (a / 2) (b / 2)

pub bit_and_step : (a b : ℕ) → bit_and a b ≡ 2 * bit_and (a / 2) (b / 2) + min (a % 2) (b % 2)
bit_and_step a b = omega (arith, bit_and-half a b, bit_and-odd a b)

pub bit_and-zero : (n a : ℕ) → a ≤ n → bit_and a 0 ≡ 0
bit_and-zero zero a h = let e : a ≡ 0 = omega arith in rw e
bit_and-zero (suc n) zero h = refl
bit_and-zero (suc n) (suc a) h =
    omega (arith, bit_and_step (suc a) 0, bit_and-zero n (suc a / 2) (omega arith))

-- A mask of k digits sees the last k digits.
pub bit_and-low : (k a b : ℕ) → high k b ≡ 0 → bit_and a b ≡ bit_and (low k a) b
unfolding low high
bit_and-low zero a b h = rw h (bit_and-zero a a (omega arith))
bit_and-low (suc k) a b h =
    let e : (a % 2 + 2 * low k (a / 2)) / 2 ≡ low k (a / 2) = omega arith in
    omega (
      arith,
      bit_and_step a b,
      bit_and-low k (a / 2) (b / 2) h,
      bit_and_step (a % 2 + 2 * low k (a / 2)) b,
      ap (λ x. bit_and x (b / 2)) e,
    )

pub low-bit_and : (k a b : ℕ) → low k (bit_and a b) ≡ bit_and (low k a) (low k b)
unfolding low
low-bit_and zero a b = refl
low-bit_and (suc k) a b =
    let d : (a % 2 + 2 * low k (a / 2)) / 2 ≡ low k (a / 2) = omega arith in
    let e : (b % 2 + 2 * low k (b / 2)) / 2 ≡ low k (b / 2) = omega arith in
    omega (
      arith,
      bit_and-odd a b,
      ap (low k) (bit_and-half a b),
      low-bit_and k (a / 2) (b / 2),
      bit_and_step (a % 2 + 2 * low k (a / 2)) (b % 2 + 2 * low k (b / 2)),
      ap (λ x. bit_and x ((b % 2 + 2 * low k (b / 2)) / 2)) d,
      ap (bit_and (low k (a / 2))) e,
    )

-- The number whose k digits are all 1.
unfoldable pub ones : ℕ → ℕ
ones zero = 0
ones (suc k) = 1 + 2 * ones k

pub bit_and-ones : (k a : ℕ) → bit_and a (ones k) ≡ low k a
unfolding low ones
bit_and-ones zero a = bit_and-zero a a (omega arith)
bit_and-ones (suc k) a =
    let d : (1 + 2 * ones k) / 2 ≡ ones k = omega arith in
    omega (arith, bit_and_step a (1 + 2 * ones k), bit_and-ones k (a / 2), ap (bit_and (a / 2)) d)

pub low-id : (k a : ℕ) → high k a ≡ 0 → low k a ≡ a
unfolding low high
low-id zero a h = sym h
low-id (suc k) a h = omega (arith, low-id k (a / 2) h)

pub low_6 : (a : ℕ) → low 6 a ≡ a % 64
unfolding low
low_6 a = omega arith

pub high_6 : (a : ℕ) → high 6 a ≡ a / 64
unfolding high
high_6 a = omega arith

-- A mask without the last six digits does not see them.
pub bit_and-high : (a b w : ℕ) → a / 64 ≡ b / 64 → low 6 w ≡ 0 → bit_and a w ≡ bit_and b w
bit_and-high a b w e z =
    let ha : bit_and a w / 64 ≡ bit_and (a / 64) (w / 64) =
      sym (high_6 (bit_and a w))
      ∙ high-bit_and 6 a w
      ∙ ap (λ x. bit_and x (high 6 w)) (high_6 a)
      ∙ ap (bit_and (a / 64)) (high_6 w) in
    let hb : bit_and b w / 64 ≡ bit_and (b / 64) (w / 64) =
      sym (high_6 (bit_and b w))
      ∙ high-bit_and 6 b w
      ∙ ap (λ x. bit_and x (high 6 w)) (high_6 b)
      ∙ ap (bit_and (b / 64)) (high_6 w) in
    let la : bit_and a w % 64 ≡ 0 =
      sym (low_6 (bit_and a w))
      ∙ low-bit_and 6 a w
      ∙ ap (bit_and (low 6 a)) z
      ∙ bit_and-zero (low 6 a) (low 6 a) (omega arith) in
    let lb : bit_and b w % 64 ≡ 0 =
      sym (low_6 (bit_and b w))
      ∙ low-bit_and 6 b w
      ∙ ap (bit_and (low 6 b)) z
      ∙ bit_and-zero (low 6 b) (low 6 b) (omega arith) in
    omega (arith, ha, hb, la, lb, ap (λ x. bit_and x (w / 64)) e)
