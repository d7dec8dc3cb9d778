-- ===== src/Wait/Pass.antt =====
-- What a wait passes over, and what it takes: lemmas on the table and the vector.
use minc.Prelude.{
  ℕ, zero, suc, ◌<◌, ◌≡◌, ◌≢◌, refl, ap, ◌∙◌, Bool, true, false, some, List, [], ◌∷◌, ◌++◌, length,
  get_or, set, arith,
}
use minc.Descriptor.Flags.{has}
use minc.Wait.{
  Child, Rusage, Tasks, Handles, Waited, wait_failed, woken, no_task, ps_nozombie, ps_zombie,
  task_at, proc_close, usage_of, wait_no_hang, set_state, wait_loop,
}

pub get_or-set_self :
    (xs : List Child) (i : ℕ) (t : Child) → i < length xs → get_or (set xs i t) i no_task ≡ t
get_or-set_self [] i t h = absurd (omega arith)
get_or-set_self (x ∷ xs) zero t h = refl
get_or-set_self (x ∷ xs) (suc i) t h = get_or-set_self xs i t (omega arith)

pub get_or-set_ne :
    (xs : List Child) (i j : ℕ) (t : Child)
    → i ≢ j
    → get_or (set xs i t) j no_task ≡ get_or xs j no_task
get_or-set_ne [] i j t h = refl
get_or-set_ne (x ∷ xs) zero zero t h = absurd (h refl)
get_or-set_ne (x ∷ xs) zero (suc j) t h = refl
get_or-set_ne (x ∷ xs) (suc i) zero t h = refl
get_or-set_ne (x ∷ xs) (suc i) (suc j) t h = get_or-set_ne xs i j t (λ e. h (ap suc e))

-- A task but for its state.
abbrev pub stateless : Child → Child
stateless t = record t { state = 0 }

pub set_state-list :
    (xs : List Child) (i j k : ℕ)
    → stateless (get_or (set xs i (record (get_or xs i no_task) { state = k })) j no_task)
      ≡ stateless (get_or xs j no_task)
set_state-list [] i j k = refl
set_state-list (x ∷ xs) zero zero k = refl
set_state-list (x ∷ xs) zero (suc j) k = refl
set_state-list (x ∷ xs) (suc i) zero k = refl
set_state-list (x ∷ xs) (suc i) (suc j) k = set_state-list xs i j k

-- A child that a wait passes over.
abbrev pub IsQuiet : ℕ → Child → Type 0
IsQuiet status t =
    (has t.flags ps_nozombie ≡ false)
    × (has t.flags ps_zombie ≡ false)
    × (has t.status status ≡ false)

abbrev pub AllQuiet : ℕ → List ℕ → List Child → Type 0
AllQuiet status [] table = Unit {0}
AllQuiet status (i ∷ is) table = IsQuiet status (get_or table i no_task) × AllQuiet status is table

-- A child that has ended and was not waited for.
abbrev pub IsZombie : Child → Type 0
IsZombie t = (has t.flags ps_nozombie ≡ false) × (has t.flags ps_zombie ≡ true)

module _ (handles : Handles) where
  pub set_state-stateless :
      (i k : ℕ) (s : Tasks) (j : ℕ)
      → stateless (task_at (set_state handles i k s) j) ≡ stateless (task_at s j)
  unfolding set_state task_at
  set_state-stateless i k s j = set_state-list s.table i j k

  -- Children that are quiet are passed over.
  pub wait_passes :
      (is rest : List ℕ) (status : ℕ) (s : Tasks) (usage : Rusage)
      → AllQuiet status is s.table
      → wait_no_hang handles (is ++ rest) status s usage ≡ wait_no_hang handles rest status s usage
  unfolding wait_no_hang
  wait_passes [] rest status s usage h = refl
  wait_passes (i ∷ is) rest status s usage h =
      rw (h.0.0, h.0.1, h.0.2) (wait_passes is rest status s usage h.1)

  pub wait_reaps :
      (is : List ℕ) (c : ℕ) (rest : List ℕ) (status : ℕ) (s : Tasks) (usage : Rusage)
      → AllQuiet status is s.table
      → IsZombie (task_at s c)
      → wait_no_hang handles (is ++ c ∷ rest) status s usage
        ≡ (proc_close handles s c, usage_of handles (task_at s c) usage, true)
  unfolding wait_no_hang
  wait_reaps is c rest status s usage q z =
      wait_passes is (c ∷ rest) status s usage q ∙ rw (z.0, z.1) refl

  -- Quiet children stay so while the waiting task falls asleep.
  pub quiet_asleep :
      (is : List ℕ) (i k status : ℕ) (s : Tasks)
      → AllQuiet status is s.table
      → AllQuiet status is (set_state handles i k s).table
  unfolding set_state task_at
  quiet_asleep [] i k status s h = tt
  quiet_asleep (j ∷ is) i k status s h =
      let e = set_state-list s.table i j k in
      (
        (
          ap (λ (t : Child). has t.flags ps_nozombie) e ∙ h.0.0,
          ap (λ (t : Child). has t.flags ps_zombie) e ∙ h.0.1,
          ap (λ (t : Child). has t.status status) e ∙ h.0.2,
        ),
        quiet_asleep is i k status s h.1,
      )

  -- A wait in which the first look succeeds does not sleep, whatever would come.
  pub loop_ready :
      (i : ℕ) (children : List ℕ) (hang : Bool) (status : ℕ) (waits : List Waited) (s a : Tasks)
      (usage b : Rusage)
      → wait_no_hang handles children status s usage ≡ (a, b, true)
      → wait_loop handles i children hang status waits s usage ≡ some (a, b, true)
  unfolding wait_loop
  loop_ready i children hang status [] s a usage b e = rw e refl
  loop_ready i children hang status (wait_failed x ∷ waits) s a usage b e = rw e refl
  loop_ready i children hang status (woken t m ∷ waits) s a usage b e = rw e refl
