-- ===== src/Wait/Reap.antt =====
-- Which child a wait reports, and what becomes of it: proofs.
use minc.Prelude.{
  ℕ, zero, suc, ◌+◌, ◌<◌, ◌≡◌, ◌≢◌, refl, sym, ap, ◌∙◌, inl, inr, some, List, [], ◌∷◌, ◌++◌, length,
  get_or, set, ◌==◌, ==_iff, bit_or, if◌then◌else◌, Bool-cases, if_lem, arith,
}
use mathlib.Core.Path.{subst}
use minc.Prelude.Int.{negsuc}
use minc.Descriptor.Flags.{has}
use minc.Descriptor.Table.{value}
use minc.Wait.{
  Child, Tasks, Handles, Waited, no_task, no_usage, ps_nozombie, ps_zombie, state_sleep,
  state_onproc, wnohang, wuntraced, task_at, children_from, taskv_any, proc_close, usage_of,
  set_state, wait_loop, awake, wait_reply, wait_vector, sys_wait4,
}
use minc.Wait.Pass.{
  get_or-set_self, get_or-set_ne, stateless, AllQuiet, IsZombie, set_state-stateless, wait_reaps,
  quiet_asleep, loop_ready,
}

module _ (handles : Handles) where
  -- The state that a reaping leaves: the task asleep, the child closed, the task awake.
  abbrev reaped : ℕ → ℕ → Tasks → Tasks
  reaped i c s =
      set_state handles i state_onproc (proc_close handles (set_state handles i state_sleep s) c)

  pub vector_nonempty :
      (i : ℕ) (is : List ℕ) (c : ℕ) (rest : List ℕ) (options : ℕ) (waits : List Waited) (s : Tasks)
      → wait_vector handles i (is ++ c ∷ rest) options waits s
        ≡ wait_reply handles (
            awake handles i (
              wait_loop handles i
                (is ++ c ∷ rest)
                (has options wnohang)
                (if has options wuntraced then 0xFFFF else 0)
                waits
                (set_state handles i state_sleep s)
                no_usage))
  unfolding wait_vector
  vector_nonempty i [] c rest options waits s = refl
  vector_nonempty i (x ∷ is) c rest options waits s = refl

  vector_reaps :
      (i : ℕ) (is : List ℕ) (c : ℕ) (rest : List ℕ) (options : ℕ) (waits : List Waited) (s : Tasks)
      → AllQuiet (if has options wuntraced then 0xFFFF else 0) is s.table
      → IsZombie (task_at s c)
      → wait_vector handles i (is ++ c ∷ rest) options waits s
        ≡ some (reaped i c s, value (task_at s c).task_id, (task_at s c).status)
  unfolding wait_reply awake usage_of
  vector_reaps i is c rest options waits s q z =
      let status = if has options wuntraced then 0xFFFF else 0 in
      let s0 = set_state handles i state_sleep s in
      let same = set_state-stateless handles i state_sleep s c in
      let z0 : IsZombie (task_at s0 c) = (
        ap (λ (t : Child). has t.flags ps_nozombie) same ∙ z.0,
        ap (λ (t : Child). has t.flags ps_zombie) same ∙ z.1,
      ) in
      let e =
        loop_ready handles i (is ++ c ∷ rest) (has options wnohang) status waits s0
          (proc_close handles s0 c) no_usage (usage_of handles (task_at s0 c) no_usage)
          (wait_reaps handles is c rest status s0 no_usage
            (quiet_asleep handles is i state_sleep status s q) z0) in
      vector_nonempty i is c rest options waits s
      ∙ ap (λ o. wait_reply handles (awake handles i o)) e
      ∙ ap (λ (t : Child). some (reaped i c s, value t.task_id, t.status)) same

-- A place is not in a vector.
abbrev pub Avoids : ℕ → List ℕ → Type 0
Avoids c [] = Unit {0}
Avoids c (i ∷ is) = (i ≢ c) × Avoids c is

children_avoid :
    (p base c : ℕ) (ts : List Child)
    → ((k : ℕ) → c ≡ base + k → (get_or ts k no_task).parent_id ≢ p)
    → Avoids c (children_from p base ts)
unfolding children_from
children_avoid p base c [] h = tt
children_avoid p base c (t ∷ ts) h =
    let rest : Avoids c (children_from p (suc base) ts) =
      children_avoid p (suc base) c ts (λ k e. h (suc k) (omega arith)) in
    elim (Bool-cases (t.parent_id == p)) [
      | inl e ↦ rw e ((λ q. h 0 (omega arith) ((==_iff t.parent_id p).0 e)), rest)
      | inr n ↦ rw n rest
    ]

orphan_avoided :
    (p c : ℕ) (table : List Child)
    → (get_or table c no_task).parent_id ≢ p
    → Avoids c (taskv_any p table)
unfolding taskv_any
orphan_avoided p c [] h = children_avoid p 1 c [] (λ k e. h)
orphan_avoided p c (t ∷ ts) h = children_avoid p 1 c ts (λ k e.
    let f : c ≡ suc k = omega (arith, e) in
    subst (λ d. (get_or (t ∷ ts) d no_task).parent_id ≢ p) f h)

in_table : (xs : List Child) (c : ℕ) → IsZombie (get_or xs c no_task) → c < length xs
in_table [] c z = cc
in_table (x ∷ xs) zero z = omega arith
in_table (x ∷ xs) (suc c) z = omega (arith, in_table xs c z)

in_task_table : (s : Tasks) (c : ℕ) → IsZombie (task_at s c) → c < length s.table
unfolding task_at
in_task_table s c z = in_table s.table c z

module _ (handles : Handles) where
  close_parent :
      (s : Tasks) (c : ℕ) → c < length s.table → (task_at (proc_close handles s c) c).parent_id ≡ 0
  unfolding proc_close
  close_parent s c h =
      let t = task_at s c in
      let u = record t { parent_id = 0; flags = bit_or t.flags ps_nozombie } in
      let e : (get_or (set s.table c u) c no_task).parent_id ≡ 0 =
        ap (λ (t : Child). t.parent_id) (get_or-set_self s.table c u h) in
      if_lem (λ (x : Tasks). (get_or x.table c no_task).parent_id ≡ 0) (t.handle == 0) e
        (if_lem (λ (x : Tasks). (get_or x.table c no_task).parent_id ≡ 0) (handles.closes t.handle)
          e e)

  close_others : (s : Tasks) (c j : ℕ) → c ≢ j → task_at (proc_close handles s c) j ≡ task_at s j
  unfolding proc_close
  close_others s c j h =
      let t = task_at s c in
      let u = record t { parent_id = 0; flags = bit_or t.flags ps_nozombie } in
      let e : get_or (set s.table c u) j no_task ≡ get_or s.table j no_task =
        get_or-set_ne s.table c j u h in
      if_lem (λ (x : Tasks). get_or x.table j no_task ≡ get_or s.table j no_task) (t.handle == 0) e
        (if_lem (λ (x : Tasks). get_or x.table j no_task ≡ get_or s.table j no_task)
          (handles.closes t.handle) e e)

  -- The parent of a child that was reaped.
  reaped_parent :
      (i c : ℕ) (s : Tasks)
      → IsZombie (task_at s c)
      → (task_at (reaped handles i c s) c).parent_id ≡ 0
  reaped_parent i c s z =
      let s0 = set_state handles i state_sleep s in
      let same = set_state-stateless handles i state_sleep s c in
      let z0 : IsZombie (task_at s0 c) = (
        ap (λ (t : Child). has t.flags ps_nozombie) same ∙ z.0,
        ap (λ (t : Child). has t.flags ps_zombie) same ∙ z.1,
      ) in
      ap (λ (t : Child). t.parent_id)
        (set_state-stateless handles i state_onproc (proc_close handles s0 c) c)
      ∙ close_parent s0 c (in_task_table s0 c z0)

  reaped_others :
      (i c j : ℕ) (s : Tasks)
      → c ≢ j
      → stateless (task_at (reaped handles i c s) j) ≡ stateless (task_at s j)
  reaped_others i c j s h =
      let s0 = set_state handles i state_sleep s in
      set_state-stateless handles i state_onproc (proc_close handles s0 c) j
      ∙ ap stateless (close_others s0 c j h)
      ∙ set_state-stateless handles i state_sleep s j

  -- A wait for any child, by a task with a number other than 0, one of whose children has ended
  -- and was not waited for, while those before it in the table run on: with any options and
  -- whatever would come, the wait returns at once with that child's number and status. Afterwards
  -- the child is no longer among the task's children, so that it is not reported twice, and every
  -- other task is as before, but for its state.
  pub sys_wait4_reaps :
      (i options : ℕ) (waits : List Waited) (s : Tasks) (is rest : List ℕ) (c : ℕ)
      → (task_at s i).task_id ≢ 0
      → taskv_any (task_at s i).task_id s.table ≡ is ++ c ∷ rest
      → AllQuiet (if has options wuntraced then 0xFFFF else 0) is s.table
      → IsZombie (task_at s c)
      → (s' : Tasks) × (sys_wait4 handles i (negsuc 0) options waits s
          ≡ some (s', value (task_at s c).task_id, (task_at s c).status))
        × Avoids c (taskv_any (task_at s i).task_id s'.table)
        × ((j : ℕ) → c ≢ j → stateless (task_at s' j) ≡ stateless (task_at s j))
  unfolding sys_wait4
  sys_wait4_reaps i options waits s is rest c n v q z = (
    reaped handles i c s,
    ap (λ u. wait_vector handles i u options waits s) v
        ∙ vector_reaps handles i is c rest options waits s q z,
    orphan_avoided (task_at s i).task_id c (reaped handles i c s).table
        (λ e. n (sym e ∙ reaped_parent i c s z)),
    λ j h. reaped_others i c j s h,
  )
