-- ===== src/Ansi/Attribs/Colours.antt =====
-- The attribute words that Select Graphic Rendition computes, as arithmetic.
use mathlib.Core.Path.{ap₂}
use minc.Ansi.Attribs.{invert_attribs, render_foreground, render_background, render}
use minc.Prelude.{
  ℕ, zero, suc, ◌+◌, ◌*◌, ◌/◌, ◌%◌, ◌<◌, ◌≡◌, refl, sym, ap, ◌∙◌, true, false, arith, bit_and,
  bit_or, ◌==◌,
}
use minc.Prelude.Words.{table, table_sound}

fore_mask : table (λ w. bit_and w 0xFFF8) (λ w. w / 8 * 8) 65536 ≡ true
unfolding table
fore_mask = refl

fore_join : table (λ n. bit_or (n / 8 * 8) (n % 8)) (λ n. n) 65536 ≡ true
unfolding table
fore_join = refl

back_mask : table (λ w. bit_and w 0xFF8F) (λ w. w / 128 * 128 + w % 16) 65536 ≡ true
unfolding table
back_mask = refl

back_join : table (λ n. bit_or (n / 128 * 128 + n % 16) (n / 16 % 8 * 16)) (λ n. n) 65536 ≡ true
unfolding table
back_join = refl

invert_table : table invert_attribs (λ w. w / 16 % 16 + w % 16 * 16) 65536 ≡ true
unfolding table invert_attribs
invert_table = refl

-- An ANSI colour has red in bit 0, green in bit 1 and blue in bit 2; a console colour has blue in
-- bit 0 and red in bit 2.
abbrev pub console_colour : ℕ → ℕ
console_colour k = k % 2 * 4 + k / 2 % 2 * 2 + k / 4 % 2

-- The three low bits of a word replaced.
fore_lem : (w k : ℕ) → w < 65536 → k < 8 → bit_or (bit_and w 0xFFF8) k ≡ w / 8 * 8 + k
fore_lem w k h l =
    let q : (w / 8 * 8 + k) / 8 * 8 ≡ w / 8 * 8 = omega arith in
    let r : (w / 8 * 8 + k) % 8 ≡ k = omega arith in
    rw (table_sound _ _ 65536 fore_mask w h)
      (ap₂ bit_or (sym q) (sym r) ∙ table_sound _ _ 65536 fore_join (w / 8 * 8 + k) (omega arith))

-- The bits 4 to 6 of a word replaced.
back_lem :
    (w k : ℕ)
    → w < 65536
    → k < 8
    → bit_or (bit_and w 0xFF8F) (k * 16) ≡ w / 128 * 128 + k * 16 + w % 16
back_lem w k h l =
    let n : ℕ = w / 128 * 128 + k * 16 + w % 16 in
    let q : n / 128 * 128 + n % 16 ≡ w / 128 * 128 + w % 16 = omega arith in
    let r : n / 16 % 8 * 16 ≡ k * 16 = omega arith in
    rw (table_sound _ _ 65536 back_mask w h)
      (ap₂ bit_or (sym q) (sym r) ∙ table_sound _ _ 65536 back_join n (omega arith))

fore_digit :
    (w k : ℕ)
    → k < 8
    → render_foreground w (b'0' + k) ≡ (true, bit_or (bit_and w 0xFFF8) (console_colour k))
unfolding render_foreground
fore_digit w zero h = refl
fore_digit w (suc zero) h = refl
fore_digit w (suc (suc zero)) h = refl
fore_digit w (suc (suc (suc zero))) h = refl
fore_digit w (suc (suc (suc (suc zero)))) h = refl
fore_digit w (suc (suc (suc (suc (suc zero))))) h = refl
fore_digit w (suc (suc (suc (suc (suc (suc zero)))))) h = refl
fore_digit w (suc (suc (suc (suc (suc (suc (suc zero))))))) h = refl
fore_digit w (suc (suc (suc (suc (suc (suc (suc (suc k)))))))) h = absurd (omega arith)

back_digit :
    (w k : ℕ)
    → k < 8
    → render_background w (b'0' + k) ≡ (true, bit_or (bit_and w 0xFF8F) (console_colour k * 16))
unfolding render_background
back_digit w zero h = refl
back_digit w (suc zero) h = refl
back_digit w (suc (suc zero)) h = refl
back_digit w (suc (suc (suc zero))) h = refl
back_digit w (suc (suc (suc (suc zero)))) h = refl
back_digit w (suc (suc (suc (suc (suc zero))))) h = refl
back_digit w (suc (suc (suc (suc (suc (suc zero)))))) h = refl
back_digit w (suc (suc (suc (suc (suc (suc (suc zero))))))) h = refl
back_digit w (suc (suc (suc (suc (suc (suc (suc (suc k)))))))) h = absurd (omega arith)

digit_there : (k : ℕ) → ((b'0' + k) == 0) ≡ false
digit_there k = ground arith

fore_render :
    (w k : ℕ) → w < 65536 → k < 8 → render w b'3' (b'0' + k) ≡ (true, w / 8 * 8 + console_colour k)
unfolding render
fore_render w k h l =
    rw (digit_there k, fore_digit w k l, fore_lem w (console_colour k) h (omega arith)) refl

back_render :
    (w k : ℕ)
    → w < 65536
    → k < 8
    → render w b'4' (b'0' + k) ≡ (true, w / 128 * 128 + console_colour k * 16 + w % 16)
unfolding render
back_render w k h l =
    rw (digit_there k, back_digit w k l, back_lem w (console_colour k) h (omega arith)) refl

-- For each of the eight ANSI colours, 3k sets the foreground of the attribute word to that colour
-- and 4k the background, and neither changes another bit; the two orders of setting both agree.
pub render_colours :
    (w k l : ℕ)
    → w < 65536
    → k < 8
    → l < 8
    → (render w b'3' (b'0' + k) ≡ (true, w / 8 * 8 + console_colour k))
      × (render w b'4' (b'0' + l) ≡ (true, w / 128 * 128 + console_colour l * 16 + w % 16))
      × (render (render w b'3' (b'0' + k)).1 b'4' (b'0' + l)
          ≡ render (render w b'4' (b'0' + l)).1 b'3' (b'0' + k))
render_colours w k l hw hk hl = (
  fore_render w k hw hk,
  back_render w l hw hl,
  rw
      (
        fore_render w k hw hk,
        back_render w l hw hl,
        back_render (w / 8 * 8 + console_colour k) l (omega arith) hl,
        fore_render (w / 128 * 128 + console_colour l * 16 + w % 16) k (omega arith) hk,
      )
      (ap (λ n. (true, n)) (omega arith)),
)

-- Reverse video swaps the two halves of the low byte and drops the rest, so that twice leaves the
-- low byte.
pub invert_attribs-invert_attribs :
    (w : ℕ)
    → w < 65536
    → (invert_attribs w ≡ w / 16 % 16 + w % 16 * 16) × (invert_attribs (invert_attribs w) ≡ w % 256)
invert_attribs-invert_attribs w h =
    let once = table_sound _ _ 65536 invert_table w h in
    (
      once,
      rw once (
          table_sound _ _ 65536 invert_table (w / 16 % 16 + w % 16 * 16) (omega arith)
          ∙ omega arith),
    )
