-- ===== src/Acl/Masks.antt =====
-- What new permissions do to the rights of an entry: proofs.
use minc.Prelude.{
  ℕ, zero, suc, ◌+◌, ◌*◌, ◌/◌, ◌%◌, ◌<◌, ◌≡◌, refl, sym, ap, ◌∙◌, Bool, true, false, bit_and, arith,
}
use minc.Prelude.Bits.{
  low, high, bit_and-low, high-bit_and, low-bit_and, ones, bit_and-ones, low-id, low_6, high_6,
  bit_and-high,
}
use minc.Prelude.Words.{table, table_sound}
use minc.Stat.{added, permissions, permissions_win}
use minc.Stat.Mode.{permissions-win}
use minc.Acl.{Ace, without_irwx, with_mask, class_of, write_dac, delete_right, read_control}

high_32 : (a : ℕ) → a < 4294967296 → high 26 (high 6 a) ≡ 0
unfolding high
high_32 a h = omega arith

-- The rights above the six bits of a mode stay.
without-high : (a : ℕ) → a < 4294967296 → without_irwx a / 64 ≡ a / 64
unfolding without_irwx high ones
without-high a h =
    sym (high_6 (without_irwx a))
    ∙ high-bit_and 6 a 0xFFFFFFC8
    ∙ bit_and-ones 26 (high 6 a)
    ∙ low-id 26 (high 6 a) (high_32 a h)
    ∙ high_6 a

eight_table : table (λ x. bit_and x 8) (λ x. 8 * (x / 8 % 2)) 64 ≡ true
unfolding table
eight_table = refl

-- Of those six bits all are cleared but FILE_READ_EA, which no permission has.
without-low : (a : ℕ) → without_irwx a % 64 ≡ 8 * (a % 64 / 8 % 2)
unfolding without_irwx low
without-low a =
    sym (low_6 (without_irwx a))
    ∙ low-bit_and 6 a 0xFFFFFFC8
    ∙ ap (λ x. bit_and x 8) (low_6 a)
    ∙ table_sound (λ x. bit_and x 8) (λ x. 8 * (x / 8 % 2)) 64 eight_table (a % 64) (omega arith)

ea_beside :
    (r w x : Bool) → permissions (8 + permissions_win r w x) ≡ permissions (permissions_win r w x)
unfolding permissions permissions_win
ea_beside true true true = refl
ea_beside true true false = refl
ea_beside true false true = refl
ea_beside true false false = refl
ea_beside false true true = refl
ea_beside false true false = refl
ea_beside false false true = refl
ea_beside false false false = refl

permissions_beside :
    (b : ℕ) (r w x : Bool)
    → b < 2
    → permissions (8 * b + permissions_win r w x) ≡ permissions (permissions_win r w x)
permissions_beside zero r w x h = ap permissions (omega arith)
permissions_beside (suc zero) r w x h = ap permissions (omega arith) ∙ ea_beside r w x
permissions_beside (suc (suc b)) r w x h = absurd (omega arith)

permissions_win-lt : (r w x : Bool) → permissions_win r w x < 56
unfolding permissions_win
permissions_win-lt r w x = ground arith

permissions-low : (a : ℕ) → permissions a ≡ permissions (a % 64)
unfolding permissions high
permissions-low a =
    rw (bit_and-low 6 a 1 refl, bit_and-low 6 a 22 refl, bit_and-low 6 a 32 refl, low_6 a)

module _ (e : Ace) (valid : e.mask < 4294967296) (r w x : Bool) where
  new_mask_parts :
      ((with_mask e (permissions_win r w x)).mask / 64 ≡ e.mask / 64)
      × ((with_mask e (permissions_win r w x)).mask % 64
          ≡ 8 * (e.mask % 64 / 8 % 2) + permissions_win r w x)
      × ((with_mask e (permissions_win r w x)).mask < 4294967296)
  unfolding with_mask
  new_mask_parts =
      let u = permissions_win-lt r w x in
      let h = without-high e.mask valid in
      let l = without-low e.mask in
      (omega (arith, u, h, l), omega (arith, u, h, l), omega (arith, u, h, l))

  -- The entry then grants just the permissions that it was given.
  pub permissions-with_mask :
      permissions (with_mask e (permissions_win r w x)).mask ≡ added r 4 + added w 2 + added x 1
  permissions-with_mask =
      permissions-low (with_mask e (permissions_win r w x)).mask
      ∙ ap permissions (new_mask_parts.1)
      ∙ permissions_beside (e.mask % 64 / 8 % 2) r w x (omega arith)
      ∙ permissions-win r w x

  pub with_mask-valid : (with_mask e (permissions_win r w x)).mask < 4294967296
  with_mask-valid = new_mask_parts.2

  -- It stands for the same class as before.
  pub class_of-with_mask :
      (met : ℕ) → class_of (with_mask e (permissions_win r w x)).mask met ≡ class_of e.mask met
  unfolding class_of low
  class_of-with_mask met =
      let same = new_mask_parts.0 in
      let new = (with_mask e (permissions_win r w x)).mask in
      rw (
        bit_and-high new e.mask write_dac same refl,
        bit_and-high new e.mask delete_right same refl,
        bit_and-high new e.mask read_control same refl,
      )
