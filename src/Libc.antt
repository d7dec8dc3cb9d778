-- ===== src/Libc.antt =====
-- What the terminal uses of the C library: atoi, and the %d of sprintf.
pub mod RoundTrip
use minc.Prelude.{
  ℕ, zero, suc, ◌+◌, ◌-◌, ◌*◌, ◌/◌, ◌%◌, Bool, true, false, ◌&&◌, ◌||◌, List, [], ◌∷◌, ◌++◌, leb,
  ltb, ◌==◌, if◌then◌else◌,
}
use minc.Prelude.Int.{ℤ, pos, negsuc, pos_part, neg_part, sub_ℕ}

abbrev pub is_digit : ℕ → Bool
is_digit c = leb b'0' c && leb c b'9'

-- isspace in the C locale.
abbrev pub is_space : ℕ → Bool
is_space c = (c == 32) || (leb 9 c && leb c 13)

-- The digits at the front, after those that gave `acc`.
unfoldable pub digits_from : ℕ → List ℕ → ℕ
digits_from acc [] = acc
digits_from acc (c ∷ cs) =
    let rest = digits_from (acc * 10 + (c - b'0')) cs in if is_digit c then rest else acc

-- An optional sign and digits.
unfoldable pub signed_from : List ℕ → ℤ
unfolding digits_from
signed_from [] = pos 0
signed_from (c ∷ cs) =
    if c == b'-'
    then sub_ℕ 0 (digits_from 0 cs)
    else if c == b'+'
    then pos (digits_from 0 cs)
    else pos (digits_from 0 (c ∷ cs))

-- atoi. The text ends at its first byte that does not belong to the number, or with the list. A
-- number that does not fit an int is kept as it is.
unfoldable pub atoi : List ℕ → ℤ
unfolding signed_from
atoi [] = pos 0
atoi (c ∷ cs) = let rest = atoi cs in if is_space c then rest else signed_from (c ∷ cs)

-- The digits of a number in front of `acc`; the fuel bounds their count.
unfoldable pub print_from : ℕ → ℕ → List ℕ → List ℕ
print_from zero n acc = acc
print_from (suc f) n acc =
    let rest = print_from f (n / 10) ((n % 10 + b'0') ∷ acc) in
    if ltb n 10 then (n + b'0') ∷ acc else rest

-- %d
unfoldable pub print_decimal : ℤ → List ℕ
unfolding print_from
print_decimal (pos n) = print_from (suc n) n []
print_decimal (negsuc n) = b'-' ∷ print_from (suc (suc n)) (suc n) []
