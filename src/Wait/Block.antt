-- ===== src/Wait/Block.antt =====
-- A wait that sleeps until a child ends: proofs.
use minc.Prelude.{
  ℕ, ◌≡◌, refl, sym, ap, ◌∙◌, true, false, none, some, List, [], ◌∷◌, ◌++◌, get_or, ◌==◌,
  if◌then◌else◌,
}
use mathlib.Core.List.{append-nil}
use minc.Prelude.Int.{ℤ}
use minc.Descriptor.Flags.{has}
use minc.Descriptor.Table.{value}
use minc.Wait.{
  Child, Rusage, Tasks, Handles, Waited, woken, no_task, no_usage, state_sleep, state_onproc,
  error_invalid_thread_id, wnohang, wuntraced, task_at, taskv_win, proc_close, usage_of,
  wait_no_hang, proc_poll, set_state, wait_loop, awake, wait_reply, pid_too_large, sys_wait4,
}
use minc.Wait.Pass.{AllQuiet, IsZombie, wait_passes, wait_reaps, quiet_asleep, loop_ready}
use minc.Wait.Reap.{vector_nonempty}

-- Waits that end with no message, with these tables.
abbrev pub rounds : List (List Child) → List Waited → List Waited
rounds [] later = later
rounds (t ∷ ts) later = woken t none ∷ rounds ts later

-- After none of these waits there is a child to report or a signal for the task at place i.
abbrev pub SleepsOn : ℕ → List ℕ → ℕ → List (List Child) → Type 0
SleepsOn i children status [] = Unit {0}
SleepsOn i children status (t ∷ ts) =
    AllQuiet status children t
    × (((get_or t i no_task).pending == 0) ≡ true)
    × SleepsOn i children status ts

-- The table as a wait leaves it.
abbrev pub left_with : List Child → Tasks
left_with t = record { table = t; last_error = error_invalid_thread_id }

module _ (handles : Handles) where
  none_ready :
      (children : List ℕ) (status : ℕ) (s : Tasks) (usage : Rusage)
      → AllQuiet status children s.table
      → wait_no_hang handles children status s usage
        ≡ (record s { last_error = error_invalid_thread_id }, usage, false)
  unfolding wait_no_hang
  none_ready children status s usage q =
      ap (λ is. wait_no_hang handles is status s usage) (sym (append-nil children))
      ∙ wait_passes handles children [] status s usage q

  sleep_round :
      (i : ℕ) (children : List ℕ) (status : ℕ) (t : List Child) (waits : List Waited) (s : Tasks)
      (usage : Rusage)
      → AllQuiet status children s.table
      → ((get_or t i no_task).pending == 0) ≡ true
      → wait_loop handles i children false status (woken t none ∷ waits) s usage
        ≡ wait_loop handles i children false status waits (left_with t) usage
  unfolding wait_loop proc_poll
  sleep_round i children status t waits s usage q p =
      rw (none_ready children status s usage q, p) refl

  loop_wakes :
      (i : ℕ) (is : List ℕ) (c : ℕ) (rest : List ℕ) (status : ℕ) (ts : List (List Child))
      (t : List Child) (later : List Waited) (s : Tasks) (usage : Rusage)
      → AllQuiet status (is ++ c ∷ rest) s.table
      → SleepsOn i (is ++ c ∷ rest) status ts
      → ((get_or t i no_task).pending == 0) ≡ true
      → AllQuiet status is t
      → IsZombie (get_or t c no_task)
      → wait_loop handles i (is ++ c ∷ rest) false status (rounds ts (woken t none ∷ later)) s usage
        ≡ some
            (proc_close handles (left_with t) c, usage_of handles (get_or t c no_task) usage, true)
  unfolding task_at
  loop_wakes i is c rest status [] t later s usage q w p k z =
      sleep_round i (is ++ c ∷ rest) status t later s usage q p
      ∙ loop_ready handles i (is ++ c ∷ rest) false status later (left_with t)
          (proc_close handles (left_with t) c) usage (usage_of handles (get_or t c no_task) usage)
          (wait_reaps handles is c rest status (left_with t) usage k z)
  loop_wakes i is c rest status (u ∷ ts) t later s usage q w p k z =
      sleep_round i (is ++ c ∷ rest) status u (rounds ts (woken t none ∷ later)) s usage q w.1
      ∙ loop_wakes i is c rest status ts t later (left_with u) usage w.0 w.2 p k z

  -- A wait without WNOHANG for children none of which can be reported yet sleeps, through any number
  -- of waits that end for nothing, until one leaves a child that has ended, those before it in the
  -- vector running on and no signal pending: then it returns that child's number and status, and
  -- the child is closed.
  pub sys_wait4_wakes :
      (i : ℕ) (pid : ℤ) (options : ℕ) (s : Tasks) (is : List ℕ) (c : ℕ) (rest : List ℕ)
      (ts : List (List Child)) (t : List Child) (later : List Waited)
      → pid_too_large handles pid ≡ false
      → taskv_win (task_at s i) pid s.table ≡ is ++ c ∷ rest
      → has options wnohang ≡ false
      → AllQuiet (if has options wuntraced then 0xFFFF else 0) (is ++ c ∷ rest) s.table
      → SleepsOn i (is ++ c ∷ rest) (if has options wuntraced then 0xFFFF else 0) ts
      → ((get_or t i no_task).pending == 0) ≡ true
      → AllQuiet (if has options wuntraced then 0xFFFF else 0) is t
      → IsZombie (get_or t c no_task)
      → sys_wait4 handles i pid options (rounds ts (woken t none ∷ later)) s
        ≡ some (
          set_state handles i state_onproc (proc_close handles (left_with t) c),
          value (get_or t c no_task).task_id,
          (get_or t c no_task).status,
        )
  unfolding sys_wait4 wait_reply awake usage_of
  sys_wait4_wakes i pid options s is c rest ts t later b v h q w p k z =
      let status = if has options wuntraced then 0xFFFF else 0 in
      let waits = rounds ts (woken t none ∷ later) in
      rw (b, v)
        (vector_nonempty handles i is c rest options waits s
          ∙ ap (λ o. wait_reply handles (awake handles i o))
              (ap
                  (λ f.
                    wait_loop handles i (is ++ c ∷ rest) f status waits
                      (set_state handles i state_sleep s) no_usage)
                  h
                ∙ loop_wakes i is c rest status ts t later (set_state handles i state_sleep s)
                    no_usage (quiet_asleep handles (is ++ c ∷ rest) i state_sleep status s q) w p k
                    z))
