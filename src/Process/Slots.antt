-- ===== src/Process/Slots.antt =====
-- The place that a new task gets in the table: proofs.
use mathlib.Core.Path.{subst}
use minc.Prelude.{
  ℕ, zero, suc, ◌+◌, ◌<◌, ◌≡◌, ◌≢◌, refl, sym, ap, ◌∙◌, inl, inr, Bool, true, false, Option, none,
  some, List, [], ◌∷◌, take, drop, get_elem?, ◌==◌, if◌then◌else◌, Bool-cases, arith,
}
use minc.Descriptor.Flags.{has}
use minc.Process.{
  Process, Caller, ps_nozombie, cleared_task, embryo, create_from, create_above, proc_create_task,
}

-- What a search leaves of a task that it passes.
abbrev pub passed : Process → Process
passed u = if has u.flags ps_nozombie then cleared_task u else u

-- A task in use, and what became of it.
abbrev pub PassedAt : List Process → List Process → ℕ → Type 0
PassedAt ts us k =
    (u : Process)
    → get_elem? ts k ≡ some u
    → ((u.flags == 0) ≡ false) × (get_elem? us k ≡ some (passed u))

-- The tasks from place i on, before and after: a place is the first whose flags are 0, those before
-- it were passed and those after it are as they were; or all were passed.
abbrev pub Searched : Caller → ℕ → List Process → List Process → Option ℕ → Type 0
Searched w i ts us (some c) =
    (d : ℕ) × (t : Process) × (c ≡ i + d)
    × (get_elem? ts d ≡ some t)
    × ((t.flags == 0) ≡ true)
    × (get_elem? us d ≡ some (embryo w c t))
    × ((k : ℕ) → k < d → PassedAt ts us k)
    × ((k : ℕ) → d < k → get_elem? us k ≡ get_elem? ts k)
Searched w i ts us none = (k : ℕ) → PassedAt ts us k

passed_first :
    (t : Process) (ts us : List Process)
    → (t.flags == 0) ≡ false
    → PassedAt (t ∷ ts) (passed t ∷ us) 0
passed_first t ts us h u e =
    let same : t ≡ u = cc in
    subst (λ x. ((x.flags == 0) ≡ false) × (get_elem? (passed t ∷ us) 0 ≡ some (passed x))) same
      (h, refl)

first_found :
    (w : Caller) (i : ℕ) (t : Process) (ts : List Process)
    → (t.flags == 0) ≡ true
    → Searched w i (t ∷ ts) (embryo w i t ∷ ts) (some i)
first_found w i t ts h = (0, t, omega arith, refl, h, refl, (λ k b. absurd (omega arith)), others)
  where
    others : (k : ℕ) → 0 < k → get_elem? (embryo w i t ∷ ts) k ≡ get_elem? (t ∷ ts) k
    others zero b = absurd (omega arith)
    others (suc k) b = refl

later_found :
    (w : Caller) (i : ℕ) (t : Process) (ts us : List Process) (o : Option ℕ)
    → (t.flags == 0) ≡ false
    → Searched w (suc i) ts us o
    → Searched w i (t ∷ ts) (passed t ∷ us) o
later_found w i t ts us (some c) h (d, s, e, a, b, new, before, after) =
    (suc d, s, omega (arith, e), a, b, new, earlier, others)
  where
    earlier : (k : ℕ) → k < suc d → PassedAt (t ∷ ts) (passed t ∷ us) k
    earlier zero l = passed_first t ts us h
    earlier (suc k) l = before k (omega arith)

    others : (k : ℕ) → suc d < k → get_elem? (passed t ∷ us) k ≡ get_elem? (t ∷ ts) k
    others zero l = absurd (omega arith)
    others (suc k) l = after k (omega arith)
later_found w i t ts us none h p = all
  where
    all : (k : ℕ) → PassedAt (t ∷ ts) (passed t ∷ us) k
    all zero = passed_first t ts us h
    all (suc k) = p k

create_from-Searched :
    (w : Caller) (i : ℕ) (ts : List Process)
    → Searched w i ts (create_from w i ts).0 (create_from w i ts).1
unfolding create_from
create_from-Searched w i [] = λ k u e. cc
create_from-Searched w i (t ∷ ts) =
    let rest = create_from w (suc i) ts in
    let branch : Bool → List Process × Option ℕ =
      λ b. if b then (embryo w i t ∷ ts, some i) else (passed t ∷ rest.0, rest.1) in
    let goal : Bool → Type 0 = λ b. Searched w i (t ∷ ts) (branch b).0 (branch b).1 in
    elim (Bool-cases (t.flags == 0)) [
      | inl y ↦ subst goal (sym y) (first_found w i t ts y)
      | inr n ↦
          subst goal (sym n)
            (later_found w i t ts rest.0 rest.1 n (create_from-Searched w (suc i) ts))
    ]

-- The table before and after, with the offset: the tasks before it are as they were.
abbrev pub SearchedFrom : Caller → ℕ → List Process → List Process × Option ℕ → Type 0
SearchedFrom w offset table r =
    (take offset r.0 ≡ take offset table)
    × Searched w offset (drop offset table) (drop offset r.0) r.1

create_above-Searched :
    (w : Caller) (i k : ℕ) (ts : List Process)
    → (take k (create_above w i k ts).0 ≡ take k ts)
      × Searched w (i + k) (drop k ts) (drop k (create_above w i k ts).0) (create_above w i k ts).1
unfolding create_above
create_above-Searched w i zero ts =
    let e : i ≡ i + 0 = omega arith in
    (
      refl,
      subst (λ j. Searched w j ts (create_from w i ts).0 (create_from w i ts).1) e
          (create_from-Searched w i ts),
    )
create_above-Searched w i (suc k) [] = (refl, (λ m u e. cc))
create_above-Searched w i (suc k) (t ∷ ts) =
    let (same, found) = create_above-Searched w (suc i) k ts in
    let r = create_above w (suc i) k ts in
    let e : suc i + k ≡ i + suc k = omega arith in
    (ap (λ x. t ∷ x) same, subst (λ j. Searched w j (drop k ts) (drop k r.0) r.1) e found)

-- ProcCreateTask takes the first place from the offset on whose flags are 0 and puts a new task with
-- that number there. The tasks that it passes are cleared if they may be reclaimed, and left alone
-- if not; all others are as they were. If it finds none, every task from the offset on was in use.
pub proc_create_task-Searched :
    (w : Caller) (offset : ℕ) (table : List Process)
    → SearchedFrom w offset table (proc_create_task w offset table)
unfolding proc_create_task
proc_create_task-Searched w offset table =
    let (same, found) = create_above-Searched w 0 offset table in
    let r = create_above w 0 offset table in
    let e : 0 + offset ≡ offset = omega arith in
    (same, subst (λ j. Searched w j (drop offset table) (drop offset r.0) r.1) e found)

Searched-none :
    (w : Caller) (i : ℕ) (ts us : List Process) (o : Option ℕ)
    → o ≡ none
    → Searched w i ts us o
    → (k : ℕ) → PassedAt ts us k
Searched-none w i ts us none e h = h
Searched-none w i ts us (some c) e h = cc

-- Where ProcCreateTask finds no place, though one of the tasks from the offset on may be reclaimed,
-- the same call once more finds one: the place was cleared, but passed.
pub proc_create_task_again :
    (w : Caller) (offset : ℕ) (table : List Process) (k : ℕ) (u : Process)
    → (proc_create_task w offset table).1 ≡ none
    → get_elem? (drop offset table) k ≡ some u
    → has u.flags ps_nozombie ≡ true
    → (proc_create_task w offset (proc_create_task w offset table).0).1 ≢ none
unfolding cleared_task
proc_create_task_again w offset table k u e at reclaim again =
    let first = proc_create_task w offset table in
    let second = proc_create_task w offset first.0 in
    let p =
      Searched-none w offset (drop offset table) (drop offset first.0) first.1 e
        (proc_create_task-Searched w offset table).1 k u at in
    let q =
      Searched-none w offset (drop offset first.0) (drop offset second.0) second.1 again
        (proc_create_task-Searched w offset first.0).1 k (cleared_task u)
        (p.1 ∙ ap (λ b. some (if b then cleared_task u else u)) reclaim) in
    cc q.0
