-- ===== src/Stat/Mode.antt =====
-- A mode on its way to Windows and back: proofs.
use minc.Prelude.{
  ℕ, ◌+◌, ◌*◌, ◌/◌, ◌%◌, ◌<◌, ◌≡◌, refl, ap, ◌∙◌, Bool, true, false, ◌||◌, not, ◌==◌, bit_and,
  if◌then◌else◌, arith, ◌≤◌, get_or, ltb, ltb→lt, Bool-cases, inl, inr,
}
use minc.Prelude.Bits.{low, high, bit_and-low, high-bit_and, low-bit_and, bit_and-zero}
use minc.Prelude.Words.{table, table_sound}
use minc.Descriptor.Flags.{has}
use minc.Stat.{
  WinMode, added, permissions, specials, type_bits, mode_posix, type_win, permissions_win,
  specials_win, mode_win, win_vmax, ftype_posix, win_s_iread, win_s_iwrite, win_s_iexec,
  win_s_isuid, win_s_isgid, win_s_istxt,
}

pub has-low : (k a b : ℕ) → high k b ≡ 0 → has a b ≡ has (low k a) b
has-low k a b h = ap (λ x. not (x == 0)) (bit_and-low k a b h)

low_12 : (a : ℕ) → low 12 a ≡ a % 4096
unfolding low
low_12 a = omega arith

high_12 : (a : ℕ) → high 12 a ≡ a / 4096
unfolding high
high_12 a = omega arith

pub permissions-win :
    (r w x : Bool) → permissions (permissions_win r w x) ≡ added r 4 + added w 2 + added x 1
unfolding permissions permissions_win
permissions-win true true true = refl
permissions-win true true false = refl
permissions-win true false true = refl
permissions-win true false false = refl
permissions-win false true true = refl
permissions-win false true false = refl
permissions-win false false true = refl
permissions-win false false false = refl

specials-win :
    (u g t : Bool) → specials (specials_win u g t) ≡ added u 0x800 + added g 0x400 + added t 0x200
unfolding specials specials_win
specials-win true true true = refl
specials-win true true false = refl
specials-win true false true = refl
specials-win true false false = refl
specials-win false true true = refl
specials-win false true false = refl
specials-win false false true = refl
specials-win false false false = refl

-- What the two conversions make of the twelve bits below the type.
abbrev kept : ℕ → ℕ
kept m =
    (added (has m 0x100) 4 + added (has m 0x80) 2 + added (has m 0x40) 1) * 64
    + (added (has m 0x20) 4 + added (has m 0x10) 2 + added (has m 0x08) 1) * 8
    + (added (has m 0x04) 4 + added (has m 0x02) 2 + added (has m 0x01) 1)
    + (added (has m 0x800) 0x800 + added (has m 0x400) 0x400 + added (has m 0x200) 0x200)

kept_table : table kept (λ m. m) 4096 ≡ true
unfolding table
kept_table = refl

-- The types of file that Windows has a name for.
abbrev pub is_type : ℕ → Bool
is_type t = t == 1 || t == 2 || t == 4 || t == 6 || t == 8 || t == 10 || t == 12

type_table :
    table
      (λ t. type_bits (type_win (4096 * bit_and t 15)))
      (λ t. if is_type t then 4096 * t else 0)
      16
    ≡ true
unfolding table type_bits type_win
type_table = refl

kept-low : (m : ℕ) → kept m ≡ m % 4096
unfolding high
kept-low m =
    rw
      (
        bit_and-low 12 m 0x100 refl,
        bit_and-low 12 m 0x80 refl,
        bit_and-low 12 m 0x40 refl,
        bit_and-low 12 m 0x20 refl,
        bit_and-low 12 m 0x10 refl,
        bit_and-low 12 m 0x08 refl,
        bit_and-low 12 m 0x04 refl,
        bit_and-low 12 m 0x02 refl,
        bit_and-low 12 m 0x01 refl,
        bit_and-low 12 m 0x800 refl,
        bit_and-low 12 m 0x400 refl,
        bit_and-low 12 m 0x200 refl,
        low_12 m,
      )
      (table_sound kept (λ x. x) 4096 kept_table (m % 4096) (omega arith))

type_of : (m : ℕ) → bit_and m 0xF000 ≡ 4096 * bit_and (m / 4096) 15
unfolding low high
type_of m = omega (
  arith,
  low_12 (bit_and m 0xF000),
  high_12 (bit_and m 0xF000),
  low-bit_and 12 m 0xF000,
  high-bit_and 12 m 0xF000,
  bit_and-zero (low 12 m) (low 12 m) (omega arith),
  ap (λ x. bit_and x 15) (high_12 m),
)

type_kept :
    (b : Bool) (m u g o s : ℕ)
    → u + g + o + s ≡ m % 4096
    → (if b then 4096 * (m / 4096) else 0) + u + g + o + s ≡ (if b then m else m % 4096)
type_kept true m u g o s e = omega arith
type_kept false m u g o s e = omega arith

-- A mode of 16 bits made a mode of Windows and made POSIX again is the same mode, if its type is
-- one of the seven types of file; if not, the type is lost and all else is kept.
pub mode_posix-mode_win :
    (m : ℕ) → m < 65536 → mode_posix (mode_win m) ≡ (if is_type (m / 4096) then m else m % 4096)
unfolding mode_posix mode_win
mode_posix-mode_win m h =
    let t : type_bits (type_win (bit_and m 0xF000))
        ≡ (if is_type (m / 4096) then 4096 * (m / 4096) else 0) =
      ap (λ x. type_bits (type_win x)) (type_of m)
      ∙ table_sound (λ t. type_bits (type_win (4096 * bit_and t 15)))
          (λ t. if is_type t then 4096 * t else 0) 16 type_table (m / 4096) (omega arith) in
    rw
      (
        t,
        permissions-win (has m 0x100) (has m 0x80) (has m 0x40),
        permissions-win (has m 0x20) (has m 0x10) (has m 0x08),
        permissions-win (has m 0x04) (has m 0x02) (has m 0x01),
        specials-win (has m 0x800) (has m 0x400) (has m 0x200),
      )
      (type_kept (is_type (m / 4096)) m
        ((added (has m 0x100) 4 + added (has m 0x80) 2 + added (has m 0x40) 1) * 64)
        ((added (has m 0x20) 4 + added (has m 0x10) 2 + added (has m 0x08) 1) * 8)
        (added (has m 0x04) 4 + added (has m 0x02) 2 + added (has m 0x01) 1)
        (added (has m 0x800) 0x800 + added (has m 0x400) 0x400 + added (has m 0x200) 0x200)
        (kept-low m))

-- Three permissions as a digit of a mode.
abbrev pub digit : Bool → Bool → Bool → ℕ
digit r w x = added r 4 + added w 2 + added x 1

added-le : (b : Bool) (n : ℕ) → added b n ≤ n
added-le true n = omega arith
added-le false n = omega arith

permissions-lt : (a : ℕ) → permissions a < 8
unfolding permissions
permissions-lt a = omega (
  arith,
  added-le (has a win_s_iread) 4,
  added-le (has a win_s_iwrite) 2,
  added-le (has a win_s_iexec) 1,
)

added-512 : (b : Bool) (n : ℕ) → added b (512 * n) % 512 ≡ 0
added-512 true n = omega arith
added-512 false n = refl

specials-512 : (a : ℕ) → specials a % 512 ≡ 0
unfolding specials
specials-512 a = omega (
  arith,
  added-512 (has a win_s_isuid) 4,
  added-512 (has a win_s_isgid) 2,
  added-512 (has a win_s_istxt) 1,
)

type-512 : (t : ℕ) → type_bits t % 512 ≡ 0
unfolding type_bits table
type-512 t = elim (Bool-cases (ltb t win_vmax)) [
  | inl h ↦ rw h (table_sound (λ x. get_or ftype_posix x 0 % 512) (λ x. 0) 9 refl t (ltb→lt t 9 h))
  | inr h ↦ rw h
]

-- The rights of a mode that Windows reports.
pub mode_posix-rights :
    (w : WinMode)
    → mode_posix w % 512 ≡ permissions w.user * 64 + permissions w.group * 8 + permissions w.other
unfolding mode_posix
mode_posix-rights w = omega (
  arith,
  permissions-lt w.user,
  permissions-lt w.group,
  permissions-lt w.other,
  specials-512 w.special,
  type-512 w.file_type,
)

digit-lt : (r w x : Bool) → digit r w x < 8
digit-lt r w x = omega (arith, added-le r 4, added-le w 2, added-le x 1)

rights_only :
    (u g o s m : ℕ)
    → u < 8
    → g < 8
    → o < 8
    → s % 512 ≡ 0
    → u * 64 + g * 8 + o + s ≡ m % 4096
    → u * 64 + g * 8 + o ≡ m % 512
rights_only u g o s m a b c d e = omega arith

-- The rights of a mode by their digits.
pub mode_digits :
    (m : ℕ)
    → digit (has m 0x100) (has m 0x80) (has m 0x40) * 64
        + digit (has m 0x20) (has m 0x10) (has m 0x08) * 8
        + digit (has m 0x04) (has m 0x02) (has m 0x01)
      ≡ m % 512
mode_digits m =
    let d = digit (has m 0x100) (has m 0x80) (has m 0x40) in
    rights_only d (digit (has m 0x20) (has m 0x10) (has m 0x08))
      (digit (has m 0x04) (has m 0x02) (has m 0x01))
      (added (has m 0x800) 0x800 + added (has m 0x400) 0x400 + added (has m 0x200) 0x200) m
      (digit-lt (has m 0x100) (has m 0x80) (has m 0x40))
      (digit-lt (has m 0x20) (has m 0x10) (has m 0x08))
      (digit-lt (has m 0x04) (has m 0x02) (has m 0x01))
      (omega
        (arith, added-512 (has m 0x800) 4, added-512 (has m 0x400) 2, added-512 (has m 0x200) 1))
      (kept-low m)
