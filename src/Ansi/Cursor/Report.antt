-- ===== src/Ansi/Cursor/Report.antt =====
-- The cursor position report, read back.
use minc.Prelude.{ℕ, ◌≡◌, refl, ap, List, [], ◌∷◌, ◌++◌, arith}
use minc.Prelude.Int.{ℤ, pos, negsuc, ◌+ℤ◌, ◌-ℤ◌, ◌≤ℤ◌, int_laws}
use minc.Prelude.Words.{to_short-id, to_word}
use minc.Libc.{atoi, print_decimal}
use minc.Libc.RoundTrip.{atoi-print_decimal}
use minc.Console.{Coord, Console, Terminal}
use minc.Ansi.Cursor.{str_to_int, cursor_position, position_report}
use minc.Ansi.Cursor.Motion.{IsScreen, render_cursor-inside}

-- A positive number is an argument as it stands.
str_to_int-pos : (s : List ℕ) (z : ℤ) → atoi s ≡ z → pos 1 ≤ℤ z → str_to_int s ≡ z
unfolding str_to_int
str_to_int-pos s (pos n) e h = rw (e, str_to_int) (ground arith)
str_to_int-pos s (negsuc n) e h = absurd (omega arith)

-- An argument that fits a SHORT is the WORD that it is passed as.
to_word-pos : (z : ℤ) → pos 0 ≤ℤ z → z ≤ℤ pos 65535 → pos (to_word z) ≡ z
unfolding to_word
to_word-pos (pos n) h k = ap pos (omega arith)
to_word-pos (negsuc n) h k = absurd (omega arith)

-- Cursor Position with the row and the column counted from 1.
position_lem :
    (c : Console) (t : Terminal) (top : ℤ) (p : Coord)
    → t.info.window.top ≡ top
    → pos 0 ≤ℤ p.x
    → p.x ≤ℤ pos 32766
    → top ≤ℤ p.y
    → p.y ≤ℤ pos 32766
    → pos 0 ≤ℤ top
    → (cursor_position c
        (to_word (p.y -ℤ top +ℤ pos 1))
        (to_word (p.x +ℤ pos 1))
        t).1.info.cursor_position
      ≡ p
unfolding cursor_position
position_lem c t top p e x0 x1 y0 y1 h =
    rw
      (
        to_word-pos (p.y -ℤ top +ℤ pos 1) (omega int_laws) (omega int_laws),
        to_word-pos (p.x +ℤ pos 1) (omega int_laws) (omega int_laws),
        row,
        column,
        e,
        to_short-id (p.y -ℤ top) (omega int_laws),
        to_short-id p.x (omega int_laws),
        back,
        to_short-id p.y (omega int_laws),
      )
      refl
  where
    row : p.y -ℤ top +ℤ pos 1 -ℤ pos 1 ≡ p.y -ℤ top
    row = omega int_laws

    column : p.x +ℤ pos 1 -ℤ pos 1 ≡ p.x
    column = omega int_laws

    back : p.y -ℤ top +ℤ top ≡ p.y
    back = omega int_laws

-- Where the cursor is in the window, the answer to a request for its position has the form
-- ESC [ row ; column R, and a Cursor Position whose parameters are that row and that column moves
-- the cursor of any terminal with the same top row back to where it was.
pub position_report-cursor_position :
    (c : Console) (t u : Terminal)
    → IsScreen t.info
    → u.info.window.top ≡ t.info.window.top
    → (row : List ℕ) × (column : List ℕ) × (position_report t.info
        ≡ 27 ∷ b'[' ∷ (row ++ (b';' ∷ (column ++ (b'R' ∷ [])))))
      × ((cursor_position c
            (to_word (str_to_int (row ++ (b';' ∷ (column ++ (b'R' ∷ []))))))
            (to_word (str_to_int (column ++ (b'R' ∷ []))))
            u).1.info.cursor_position
          ≡ t.info.cursor_position)
unfolding position_report
position_report-cursor_position c t u s e =
    let p = t.info.cursor_position in
    let a = p.y -ℤ t.info.window.top +ℤ pos 1 in
    let b = p.x +ℤ pos 1 in
    (
      print_decimal a,
      print_decimal b,
      rw (render_cursor-inside t.info s.east),
      rw
          (
            str_to_int-pos _ a (atoi-print_decimal a (b';' ∷ (print_decimal b ++ (b'R' ∷ []))) refl)
                (omega (int_laws, s)),
            str_to_int-pos _ b (atoi-print_decimal b (b'R' ∷ []) refl) (omega (int_laws, s)),
          )
          (position_lem c u t.info.window.top p e s.west (omega (arith, s)) s.above
            (omega (arith, s)) s.top),
    )
