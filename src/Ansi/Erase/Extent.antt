-- ===== src/Ansi/Erase/Extent.antt =====
-- Which cells the erase functions fill.
use native.Mathlib.Nat.{mul-le-mul}
use minc.Prelude.{ℕ, ◌+◌, ◌-◌, ◌*◌, ◌≤◌, ◌<◌, ◌≡◌, refl, List, ◌∷◌, arith, bit_and}
use minc.Prelude.Int.{pos, ◌+ℤ◌, ◌-ℤ◌, ◌*ℤ◌, int_laws}
use minc.Prelude.Words.{to_short-id, to_dword}
use minc.Console.{
  Coord, SmallRect, Console, Call, Terminal, fill_attribute, fill_character, set_cursor_position,
  issue, issue_,
}
use minc.Ansi.Cursor.Motion.{render_cursor-inside}
use minc.Ansi.Erase.{
  fill, screen_width, screen_cells, offset_below, offset_above, cells_left, erase_in_display,
}

*-pos : (a b : ℕ) → pos a *ℤ pos b ≡ pos (a * b)
unfolding ◌*ℤ◌
*-pos a b = ground arith

to_dword-pos : (n : ℕ) → n < 4294967296 → to_dword (pos n) ≡ n
unfolding to_dword
to_dword-pos n h = omega arith

-- A window of `above + 1 + below` rows and `right + 1` columns, at the row `top` of the buffer.
abbrev pub window_at : ℕ → ℕ → ℕ → ℕ → SmallRect
window_at top above below right = record {
  left = pos 0;
  top = pos top;
  right = pos right;
  bottom = pos (top + above + below);
}

-- The cursor in it, with `above` rows over it and `x` columns before it.
abbrev pub cursor_at : ℕ → ℕ → ℕ → Coord
cursor_at top above x = record { x = pos x; y = pos (top + above) }

-- A terminal with that window and that cursor.
abbrev pub placed : ℕ → ℕ → ℕ → ℕ → ℕ → Terminal → Terminal
placed top above below right x t = record t {
  info = record t.info {
    window = window_at top above below right;
    cursor_position = cursor_at top above x;
  };
}

module _ (top above below right x : ℕ) (rows : top + above + below ≤ 32766)
    (columns : right ≤ 32766) (inside : x ≤ right) where
  area : (above + below + 1) * (right + 1) ≤ 32767 * 32767
  area = mul-le-mul {n₂ = 32767} {m₂ = 32767} (omega arith) (omega arith)

  width_lem : screen_width (window_at top above below right) ≡ pos (right + 1)
  unfolding screen_width
  width_lem = rw (to_short-id (pos right -ℤ pos 0 +ℤ pos 1) (omega int_laws)) (omega int_laws)

  cells_lem : screen_cells (window_at top above below right) ≡ (above + below + 1) * (right + 1)
  unfolding screen_cells
  cells_lem =
      rw (width_lem, height, *-pos (above + below + 1) (right + 1))
        (to_dword-pos _ (omega (arith, area)))
    where
      height : pos (top + above + below) -ℤ pos top +ℤ pos 1 ≡ pos (above + below + 1)
      height = omega int_laws

  below_lem :
      offset_below (window_at top above below right) (cursor_at top above x)
      ≡ above * (right + 1) + x
  unfolding offset_below
  below_lem =
      rw
        (
          width_lem,
          height,
          *-pos (above + 1) (right + 1),
          to_dword-pos ((above + 1) * (right + 1)) (omega (arith, area)),
          rest,
        )
        (to_dword-pos _ (omega (arith, area)))
    where
      height : pos (top + above) -ℤ pos top +ℤ pos 1 ≡ pos (above + 1)
      height = omega int_laws

      rest :
          pos ((above + 1) * (right + 1)) -ℤ (pos (right + 1) -ℤ pos x)
          ≡ pos (above * (right + 1) + x)
      rest = omega int_laws

  above_lem :
      offset_above (window_at top above below right) (cursor_at top above x)
      ≡ below * (right + 1) + x
  unfolding offset_above
  above_lem =
      rw
        (
          width_lem,
          height,
          *-pos below (right + 1),
          to_dword-pos (below * (right + 1)) (omega (arith, area)),
          rest,
        )
        (to_dword-pos _ (omega (arith, area)))
    where
      height : pos (top + above + below) -ℤ pos (top + above) ≡ pos below
      height = omega int_laws

      rest : pos (below * (right + 1)) +ℤ pos x ≡ pos (below * (right + 1) + x)
      rest = omega int_laws

  left_lem :
      (offset : ℕ)
      → offset ≤ (above + below + 1) * (right + 1)
      → cells_left (window_at top above below right) offset
        ≡ (above + below + 1) * (right + 1) - offset
  unfolding cells_left
  left_lem offset h = rw (cells_lem, rest) (to_dword-pos _ (omega (arith, area)))
    where
      rest :
          pos ((above + below + 1) * (right + 1)) -ℤ pos offset
          ≡ pos ((above + below + 1) * (right + 1) - offset)
      rest = omega int_laws

-- The two calls that blank `n` cells from a position on, in the attributes of the terminal.
abbrev pub blanked : ℕ → ℕ → Coord → List Call → List Call
blanked w n p calls = fill_character 32 n p ∷ fill_attribute w n p ∷ calls

-- Erase in Display, on each of its three parameters. 0 blanks from the cursor to the end of the
-- window; 2 moves the cursor to the first cell of the window and blanks all of it; 1 blanks from
-- the first cell on, x cells fewer than the rows down to the cursor have, so that it passes the
-- cursor wherever that is in the left half of its row.
pub erase_in_display-cells :
    (c : Console) (t : Terminal) (top above below right x : ℕ)
    → top + above + below ≤ 32766
    → right ≤ 32766
    → x ≤ right
    → let u = placed top above below right x t in
      let w = bit_and t.info.attributes 0xFF in
      let home : Coord = record { x = pos 0; y = pos top } in
      ((erase_in_display c b'0' u).1.calls
        ≡ blanked w (below * (right + 1) + (right + 1 - x)) (cursor_at top above x) t.calls)
      × ((erase_in_display c b'1' u).1.calls
          ≡ blanked w ((above + 1) * (right + 1) - x) home t.calls)
      × ((erase_in_display c b'2' u).1.calls
          ≡ blanked w ((above + below + 1) * (right + 1)) home (set_cursor_position home ∷ t.calls))
      × ((erase_in_display c b'2' u).1.info.cursor_position ≡ home)
unfolding erase_in_display fill issue issue_
erase_in_display-cells c t top above below right x rows columns inside = (
  rw (
    render_cursor-inside (placed top above below right x t).info (omega arith),
    below_lem top above below right x rows columns inside,
    left_lem top above below right x rows columns inside (above * (right + 1) + x) (omega arith),
    zero_cells,
  ),
  rw (
    above_lem top above below right x rows columns inside,
    left_lem top above below right x rows columns inside (below * (right + 1) + x) (omega arith),
    one_cells,
  ),
  rw (left_lem top above below right x rows columns inside 0 (omega arith), two_cells),
  refl,
)
  where
    zero_cells :
        (above + below + 1) * (right + 1) - (above * (right + 1) + x)
        ≡ below * (right + 1) + (right + 1 - x)
    zero_cells = omega arith

    one_cells :
        (above + below + 1) * (right + 1) - (below * (right + 1) + x)
        ≡ (above + 1) * (right + 1) - x
    one_cells = omega arith

    two_cells : (above + below + 1) * (right + 1) - 0 ≡ (above + below + 1) * (right + 1)
    two_cells = omega arith
