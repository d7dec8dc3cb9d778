-- ===== src/Descriptor/Table/Lowest.antt =====
-- A new descriptor is the lowest that is free.
use minc.Prelude.{
  ℕ, zero, suc, ◌+◌, ◌<◌, ◌≤◌, Bool, true, false, ◌≡◌, refl, ◌⊎◌, inl, inr, List, [], ◌∷◌, Option,
  none, some, ◌==◌, get_elem?, set, Bool-cases, Option-cases, arith,
}
use minc.Errno.{emfile}
use minc.Descriptor.{VNode, Files}
use minc.Descriptor.Table.{fd_posix, free_from, placed_at, value, error}

unfoldable pub free_node : Option VNode → Bool
free_node none = false
free_node (some n) = n.access == 0

-- Whether the table has a free node at an index.
unfoldable pub is_free : List VNode → ℕ → Bool
unfolding free_node
is_free ns fd = free_node (get_elem? ns fd)

-- An index is the first one from k on that is free.
pub record Lowest (k : ℕ) (ns : List VNode) (fd : ℕ) : Type 0 where
  pub above : k ≤ fd
  pub free : is_free ns fd ≡ true
  pub first : (m : ℕ) → k ≤ m → m < fd → is_free ns m ≡ false

Lowest-tail_pass :
    (k : ℕ) (n : VNode) (ns : List VNode) (d : ℕ) → Lowest k ns d → Lowest (suc k) (n ∷ ns) (suc d)
unfolding is_free
Lowest-tail_pass k n ns d l = record {
  above = omega (arith, l.above);
  free = l.free;
  first = first_lem;
}
  where
    first_lem : (m : ℕ) → suc k ≤ m → m < suc d → is_free (n ∷ ns) m ≡ false
    first_lem zero p q = absurd (omega arith)
    first_lem (suc m) p q = l.first m (omega arith) (omega arith)

Lowest-tail_used :
    (n : VNode) (ns : List VNode) (d : ℕ)
    → (n.access == 0) ≡ false
    → Lowest 0 ns d
    → Lowest 0 (n ∷ ns) (suc d)
unfolding is_free free_node
Lowest-tail_used n ns d e l = record { above = omega arith; free = l.free; first = first_lem }
  where
    first_lem : (m : ℕ) → 0 ≤ m → m < suc d → is_free (n ∷ ns) m ≡ false
    first_lem zero p q = e
    first_lem (suc m) p q = l.first m (omega arith) (omega arith)

free_from-Lowest :
    (i k : ℕ) (ns : List VNode) (j : ℕ)
    → free_from i k ns ≡ some j
    → (d : ℕ) × ((j ≡ i + d) × Lowest k ns d)
unfolding free_from is_free free_node
free_from-Lowest i k [] j h = absurd (ground arith)
free_from-Lowest i (suc k) (n ∷ ns) j h =
    let r = free_from-Lowest (suc i) k ns j h in
    (suc r.0, (omega (arith, r.1.0), Lowest-tail_pass k n ns r.0 r.1.1))
free_from-Lowest i zero (n ∷ ns) j h = elim (Bool-cases (n.access == 0)) [
  | inl e ↦ (
    0,
    (ground arith, record { above = omega arith; free = e; first = λ m p q. absurd (omega arith) }),
  )
  | inr e ↦
      let r = free_from-Lowest (suc i) zero ns j (simp e at h) in
      (suc r.0, (omega (arith, r.1.0), Lowest-tail_used n ns r.0 e r.1.1))
]

used :
    (n : VNode) (ns : List VNode)
    → (n.access == 0) ≡ false
    → ((m : ℕ) → is_free ns m ≡ false)
    → (m : ℕ) → is_free (n ∷ ns) m ≡ false
unfolding is_free free_node
used n ns e h zero = e
used n ns e h (suc m) = h m

free_from-none :
    (i k : ℕ) (ns : List VNode) → free_from i k ns ≡ none → (m : ℕ) → k ≤ m → is_free ns m ≡ false
unfolding free_from is_free free_node
free_from-none i k [] h m p = refl
free_from-none i (suc k) (n ∷ ns) h zero p = absurd (omega arith)
free_from-none i (suc k) (n ∷ ns) h (suc m) p = free_from-none (suc i) k ns h m (omega arith)
free_from-none i zero (n ∷ ns) h m p = elim (Bool-cases (n.access == 0)) [
  | inl e ↦ absurd (ground arith)
  | inr e ↦ used n ns e (λ m. free_from-none (suc i) zero ns (simp e at h) m (omega arith)) m
]

-- fd_posix either returns the lowest free descriptor from the offset on, and stores the node there
-- with its own number, changing nothing else; or it returns EMFILE and changes nothing, and no
-- descriptor from the offset on is free.
pub fd_posix-Lowest :
    (f : Files) (n : VNode) (offset : ℕ)
    → ((fd : ℕ) × ((fd_posix f n offset
            ≡ (record f { nodes = set f.nodes fd (record n { file_id = fd }) }, value fd))
          × Lowest offset f.nodes fd))
      ⊎ ((fd_posix f n offset ≡ (f, error emfile))
          × ((m : ℕ) → offset ≤ m → is_free f.nodes m ≡ false))
unfolding fd_posix placed_at
fd_posix-Lowest f n offset = elim (Option-cases (free_from 0 offset f.nodes)) [
  | inl e ↦ inr (rw e refl, free_from-none 0 offset f.nodes e)
  | inr (fd, e) ↦
      let r = free_from-Lowest 0 offset f.nodes fd e in
      inl (fd, (rw e refl, rw (found r.0 fd r.1.0) (r.1.1)))
]
  where
    found : (d j : ℕ) → j ≡ 0 + d → j ≡ d
    found d j e = omega (arith, e)
