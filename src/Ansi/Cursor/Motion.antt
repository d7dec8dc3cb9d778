-- ===== src/Ansi/Cursor/Motion.antt =====
-- Where the cursor goes.
use minc.Prelude.{
  ℕ, ◌≤◌, ◌≡◌, refl, ap, ◌∙◌, Bool, true, false, ◌⊎◌, inl, inr, arith, Bool-cases, ltb→lt, lt→ltb,
  if◌then◌else◌,
}
use minc.Prelude.Int.{ℤ, pos, ◌+ℤ◌, ◌-ℤ◌, ◌≤ℤ◌, ltb_ℤ, +ℤ_parts, -ℤ_parts, +ℤ_cancel, int_laws}
use minc.Prelude.Words.{to_short, to_short-id}
use minc.Console.{Coord, SmallRect, ScreenInfo, Console, Terminal}
use minc.Ansi.Cursor.{render_cursor, cursor_up, cursor_down, cursor_forward, cursor_back}

-- A screen as ScreenRenderWindow leaves it, with the cursor in the window.
pub record IsScreen (i : ScreenInfo) : Type 0 where
  pub left : i.window.left ≡ pos 0
  pub top : pos 0 ≤ℤ i.window.top
  pub above : i.window.top ≤ℤ i.cursor_position.y
  pub below : i.cursor_position.y ≤ℤ i.window.bottom
  pub bottom : i.window.bottom ≤ℤ pos 32766
  pub west : pos 0 ≤ℤ i.cursor_position.x
  pub east : i.cursor_position.x ≤ℤ i.window.right
  pub right : i.window.right ≤ℤ pos 32766

-- Within the window the position to render is the position.
pub render_cursor-inside :
    (i : ScreenInfo) → i.cursor_position.x ≤ℤ i.window.right → render_cursor i ≡ i.cursor_position
unfolding render_cursor
render_cursor-inside i h = ground arith

to_short-sub :
    (y : ℤ) (n : ℕ) → pos 0 ≤ℤ y → y ≤ℤ pos 32766 → n ≤ 32767 → to_short (y -ℤ pos n) ≡ y -ℤ pos n
to_short-sub y n h k l = to_short-id (y -ℤ pos n) (omega (arith, -ℤ_parts))

to_short-add :
    (y : ℤ) (n : ℕ) → pos 0 ≤ℤ y → y +ℤ pos n ≤ℤ pos 32767 → to_short (y +ℤ pos n) ≡ y +ℤ pos n
to_short-add y n h k = to_short-id (y +ℤ pos n) (omega (arith, +ℤ_parts))

ltb_ℤ→lt : (a b : ℤ) → ltb_ℤ a b ≡ true → a +ℤ pos 1 ≤ℤ b
ltb_ℤ→lt a b e = omega (arith, ltb→lt _ _ e, +ℤ_parts)

-- Cursor Up by at most 32767 rows keeps the column and goes up as far as the top row allows.
pub cursor_up_lem :
    (c : Console) (n : ℕ) (t : Terminal)
    → IsScreen t.info
    → n ≤ 32767
    → let p = (cursor_up c n t).1.info.cursor_position in
      (p.x ≡ t.info.cursor_position.x)
      × ((p.y ≡ t.info.cursor_position.y -ℤ pos n) × (t.info.window.top ≤ℤ p.y)
          ⊎ (p.y ≡ t.info.window.top) × (t.info.cursor_position.y -ℤ pos n ≤ℤ p.y))
unfolding cursor_up
cursor_up_lem c n t s h =
    let p = t.info.cursor_position in
    rw
      (
        render_cursor-inside t.info s.east,
        to_short-sub p.y n (omega (arith, s)) (omega (arith, s)) h,
      )
      (elim (Bool-cases (ltb_ℤ (p.y -ℤ pos n) t.info.window.top)) [
        | inl e ↦ rw e (refl, inr (refl, ground arith))
        | inr e ↦ rw e (refl, inl (refl, ground arith))
      ])

-- Cursor Down by a count that no row number of a SHORT passes keeps the column and goes down as far
-- as the bottom row allows.
pub cursor_down_lem :
    (c : Console) (n : ℕ) (t : Terminal)
    → IsScreen t.info
    → t.info.cursor_position.y +ℤ pos n ≤ℤ pos 32767
    → let p = (cursor_down c n t).1.info.cursor_position in
      (p.x ≡ t.info.cursor_position.x)
      × ((p.y ≡ t.info.cursor_position.y +ℤ pos n) × (p.y ≤ℤ t.info.window.bottom)
          ⊎ (p.y ≡ t.info.window.bottom) × (p.y ≤ℤ t.info.cursor_position.y +ℤ pos n))
unfolding cursor_down
cursor_down_lem c n t s h =
    let p = t.info.cursor_position in
    rw (render_cursor-inside t.info s.east, to_short-add p.y n (omega (arith, s)) h)
      (elim (Bool-cases (ltb_ℤ t.info.window.bottom (p.y +ℤ pos n))) [
        | inl e ↦ rw e (refl, inr (refl, ground arith))
        | inr e ↦ rw e (refl, inl (refl, ground arith))
      ])

-- What Cursor Forward does to a position, without the 16 bits.
abbrev pub forward : Bool → ℤ → ℕ → Coord → Coord
forward v_edit right n p =
    if ltb_ℤ right (p.x +ℤ pos n)
    then (if v_edit
        then record { x = p.x +ℤ pos n -ℤ (right +ℤ pos 1); y = p.y +ℤ pos 1 }
        else record { x = right; y = p.y })
    else record { x = p.x +ℤ pos n; y = p.y }

-- Cursor Forward by a count that no column number of a SHORT passes does not overflow.
cursor_forward-forward :
    (c : Console) (n : ℕ) (t : Terminal)
    → IsScreen t.info
    → t.info.cursor_position.x +ℤ pos n ≤ℤ pos 32767
    → (cursor_forward c n t).1.info.cursor_position
      ≡ forward t.v_edit t.info.window.right n t.info.cursor_position
unfolding cursor_forward
cursor_forward-forward c n t s h =
    let p = t.info.cursor_position in
    let r = t.info.window.right in
    rw (
      to_short-add p.x n s.west h,
      to_short-id (p.x +ℤ pos n -ℤ (r +ℤ pos 1)) (omega (arith, +ℤ_parts, -ℤ_parts)),
      to_short-add p.y 1 (omega (arith, s)) (omega (arith, s, +ℤ_parts)),
    )

-- What Cursor Back does to a position.
abbrev back : Bool → ℤ → ℕ → Coord → Coord
back v_edit right n q =
    let x = to_short (q.x -ℤ pos n) in
    if ltb_ℤ x (pos 0)
    then (if v_edit
        then record { x = to_short (x +ℤ (right +ℤ pos 1)); y = to_short (q.y -ℤ pos 1) }
        else record { x = pos 0; y = q.y })
    else record { x = x; y = q.y }

cursor_back-back :
    (c : Console) (n : ℕ) (t : Terminal)
    → (cursor_back c n t).1.info.cursor_position
      ≡ back t.v_edit t.info.window.right n t.info.cursor_position
unfolding cursor_back
cursor_back-back c n t = refl

cursor_forward-window :
    (c : Console) (n : ℕ) (t : Terminal)
    → ((cursor_forward c n t).1.v_edit ≡ t.v_edit)
      × ((cursor_forward c n t).1.info.window ≡ t.info.window)
unfolding cursor_forward
cursor_forward-window c n t = (refl, refl)

module _ (i : ScreenInfo) (s : IsScreen i) (n : ℕ) where
  -- Back over the count, where no margin was passed.
  back-inside :
      (v_edit : Bool)
      → i.cursor_position.x +ℤ pos n ≤ℤ pos 32767
      → back v_edit i.window.right n
          (record { x = i.cursor_position.x +ℤ pos n; y = i.cursor_position.y })
        ≡ i.cursor_position
  back-inside v_edit h =
      let p = i.cursor_position in
      let x : to_short (p.x +ℤ pos n -ℤ pos n) ≡ p.x =
        ap to_short (+ℤ_cancel p.x (pos n)) ∙ to_short-id p.x (omega (arith, s)) in
      let e : ltb_ℤ p.x (pos 0) ≡ false = ground (arith, s.west) in rw (x, e) refl

  -- Back from the next row.
  back-wrapped :
      i.cursor_position.x +ℤ pos n ≤ℤ pos 32767
      → back true i.window.right n (record {
        x = i.cursor_position.x +ℤ pos n -ℤ (i.window.right +ℤ pos 1);
        y = i.cursor_position.y +ℤ pos 1;
      })
        ≡ i.cursor_position
  back-wrapped h =
      let p = i.cursor_position in
      let r = i.window.right in
      let w = p.x -ℤ (r +ℤ pos 1) in
      let x : to_short (p.x +ℤ pos n -ℤ (r +ℤ pos 1) -ℤ pos n) ≡ w =
        ap to_short (omega int_laws) ∙ to_short-id w (omega (arith, s, +ℤ_parts, -ℤ_parts)) in
      let e : ltb_ℤ w (pos 0) ≡ true = lt→ltb _ _ (omega (arith, s, +ℤ_parts, -ℤ_parts)) in
      let x' : to_short (w +ℤ (r +ℤ pos 1)) ≡ p.x =
        ap to_short (omega int_laws) ∙ to_short-id p.x (omega (arith, s)) in
      let y : to_short (p.y +ℤ pos 1 -ℤ pos 1) ≡ p.y =
        ap to_short (+ℤ_cancel p.y (pos 1)) ∙ to_short-id p.y (omega (arith, s)) in
      rw (x, e, x', y) refl

-- On a screen whose window starts in column 0 with the cursor in it, and by a count with which the
-- column stays below 32768: Cursor Back by the same count undoes Cursor Forward, in vertical
-- editing always, also where the cursor went on in the next row, and otherwise where it did not
-- have to stop. Where it did, it is in the right column of its row.
pub cursor_back-cursor_forward :
    (c : Console) (n : ℕ) (t : Terminal)
    → IsScreen t.info
    → t.info.cursor_position.x +ℤ pos n ≤ℤ pos 32767
    → ((t.v_edit ≡ true) ⊎ (t.info.cursor_position.x +ℤ pos n ≤ℤ t.info.window.right)
        → (cursor_back c n (cursor_forward c n t).1).1.info.cursor_position
          ≡ t.info.cursor_position)
      × (t.v_edit ≡ false
          → t.info.window.right +ℤ pos 1 ≤ℤ t.info.cursor_position.x +ℤ pos n
          → (cursor_forward c n t).1.info.cursor_position
            ≡ record { x = t.info.window.right; y = t.info.cursor_position.y })
cursor_back-cursor_forward c n t s h =
    let p = t.info.cursor_position in
    let r = t.info.window.right in
    let f = (cursor_forward c n t).1 in
    let q : f.info.cursor_position ≡ forward t.v_edit r n p = cursor_forward-forward c n t s h in
    let w = cursor_forward-window c n t in
    let u : (cursor_back c n f).1.info.cursor_position
        ≡ back t.v_edit r n (forward t.v_edit r n p) =
      cursor_back-back c n f
      ∙ ap (λ v. back v f.info.window.right n f.info.cursor_position) w.0
      ∙ ap (λ (m : SmallRect). back t.v_edit m.right n f.info.cursor_position) w.1
      ∙ ap (back t.v_edit r n) q in
    elim (Bool-cases (ltb_ℤ r (p.x +ℤ pos n))) [
      | inl e ↦ (
        (λ k. u ∙ elim k [
          | inl v ↦ rw (e, v) (back-wrapped t.info s n h)
          | inr b ↦ absurd (omega (arith, b, ltb_ℤ→lt r (p.x +ℤ pos n) e, +ℤ_parts r (pos 1)))
        ]),
        (λ v b. q ∙ rw (e, v) refl),
      )
      | inr e ↦ (
        (λ k. u ∙ rw e (back-inside t.info s n t.v_edit h)),
        (λ v b. absurd (ground (arith, b, +ℤ_parts r (pos 1)))),
      )
    ]
