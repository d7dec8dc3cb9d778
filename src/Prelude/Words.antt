-- ===== src/Prelude/Words.antt =====
-- C integers of a fixed width: a SHORT and a LONG are integers in their range, a WORD and a DWORD
-- numbers below 2 ^ 16 and 2 ^ 32. A conversion wraps.
use minc.Prelude.Tests.{ltb, ◌==◌, if◌then◌else◌}
use minc.Prelude.Int.{pos_part, neg_part, ℤ, pos, negsuc, ◌≤ℤ◌}
use Prim.Native.Nat.{◌+◌, ℕ, zero, suc, ◌-◌, ◌%◌, ◌<◌}
use mathlib.Core.Path.{◌≡◌}
use mathlib.Core.Bool.{Bool, true, ◌&&◌}
use native.Mathlib.Omega.{arith}

-- (WORD)z
unfoldable pub to_word : ℤ → ℕ
to_word (pos n) = n % 65536
to_word (negsuc n) = 65535 - n % 65536

-- (DWORD)z
unfoldable pub to_dword : ℤ → ℕ
to_dword (pos n) = n % 4294967296
to_dword (negsuc n) = 4294967295 - n % 4294967296

-- A WORD read as a SHORT.
unfoldable pub short_of_word : ℕ → ℤ
short_of_word w = if ltb w 32768 then pos w else negsuc (65535 - w)

-- (SHORT)z
unfoldable pub to_short : ℤ → ℤ
unfolding to_word short_of_word
to_short z = short_of_word (to_word z)

-- What a SHORT can hold.
pub record IsShort (z : ℤ) : Type 0 where
  pub low : negsuc 32767 ≤ℤ z
  pub high : z ≤ℤ pos 32767

-- A conversion to SHORT keeps what fits.
pub to_short-id : (z : ℤ) → IsShort z → to_short z ≡ z
unfolding to_short
to_short-id (pos n) h = ground arith
to_short-id (negsuc n) h = ground arith

-- Every result of a conversion fits.
pub to_short-IsShort : (z : ℤ) → IsShort (to_short z)
unfolding to_short
to_short-IsShort (pos n) = ground arith
to_short-IsShort (negsuc n) = ground arith

pub to_word-lt : (z : ℤ) → to_word z < 65536
unfolding to_word
to_word-lt (pos n) = omega arith
to_word-lt (negsuc n) = omega arith

pub to_dword-lt : (z : ℤ) → to_dword z < 4294967296
unfolding to_dword
to_dword-lt (pos n) = omega arith
to_dword-lt (negsuc n) = omega arith

-- Facts about every value of a small range, by evaluation.
module _ (f g : ℕ → ℕ) where
  abbrev agree_below : ℕ → Bool
  agree_below zero = true
  agree_below (suc n) = (f n == g n) && agree_below n

  agree_below→eq : (n : ℕ) → agree_below n ≡ true → (i : ℕ) → i < n → f i ≡ g i
  agree_below→eq zero e i h = absurd (omega arith)
  agree_below→eq (suc n) e i h = ground (arith, agree_below→eq n (ground arith) i)

-- One table that names every value below n.
unfoldable pub table : (ℕ → ℕ) → (ℕ → ℕ) → ℕ → Bool
table f g n = agree_below f g n

pub table_sound : (f g : ℕ → ℕ) (n : ℕ) → table f g n ≡ true → (i : ℕ) → i < n → f i ≡ g i
unfolding table
table_sound f g n e i h = agree_below→eq f g n e i h

abbrev pub eq_ℤ : ℤ → ℤ → Bool
eq_ℤ a b = (pos_part a + neg_part b) == (pos_part b + neg_part a)
