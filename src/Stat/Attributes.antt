-- ===== src/Stat/Attributes.antt =====
-- The attributes of a file on their way to POSIX and back: proofs.
use minc.Prelude.{ℕ, ◌%◌, ◌≡◌, refl, sym, ap, ◌∙◌, true, bit_and, arith}
use minc.Prelude.Bits.{low, high, bit_and-low}
use minc.Prelude.Words.{table, table_sound}
use minc.Stat.{attr_win, attr_posix}

low_7 : (a : ℕ) → low 7 a ≡ a % 128
unfolding low
low_7 a = omega arith

attr_table : table (λ a. attr_win (attr_posix a)) (λ a. bit_and a 0x67) 128 ≡ true
unfolding table attr_win attr_posix
attr_table = refl

attr_posix-low : (a : ℕ) → attr_posix a ≡ attr_posix (low 7 a)
unfolding attr_posix high
attr_posix-low a = rw (
  bit_and-low 7 a 0x20 refl,
  bit_and-low 7 a 0x02 refl,
  bit_and-low 7 a 0x01 refl,
  bit_and-low 7 a 0x04 refl,
  bit_and-low 7 a 0x40 refl,
)

-- Of the attributes of a file just the five that POSIX has flags for come back.
attr_win-attr_posix : (a : ℕ) → attr_win (attr_posix a) ≡ bit_and a 0x67
unfolding high
attr_win-attr_posix a =
    ap attr_win (attr_posix-low a ∙ ap attr_posix (low_7 a))
    ∙ table_sound (λ x. attr_win (attr_posix x)) (λ x. bit_and x 0x67) 128 attr_table (a % 128)
        (omega arith)
    ∙ sym (bit_and-low 7 a 0x67 refl ∙ ap (λ x. bit_and x 0x67) (low_7 a))
