-- ===== src/Tests/Waiting.antt =====
-- Instances of the theorems on waiting for children.
use minc.Prelude.{ℕ, ◌≡◌, ◌≢◌, refl, true, none, some, [], ◌∷◌, arith}
use minc.Prelude.Int.{negsuc}
use minc.Descriptor.Table.{value}
use minc.Wait.{
  Child, Tasks, Handles, no_task, state_onproc, task_at, taskv_any, proc_close, set_state,
  sys_wait4,
}
use minc.Wait.Pass.{stateless}
use minc.Wait.Reap.{Avoids, sys_wait4_reaps}
use minc.Wait.Block.{left_with, rounds, sys_wait4_wakes}
use minc.Wait.{woken}

-- A parent at place 1, a child that runs at 2, and one that has ended, or runs, at 3.
abbrev parent : Child
parent = record no_task { handle = 10; task_id = 1; group_id = 1 }

abbrev running : Child
running = record no_task { handle = 20; task_id = 2; parent_id = 1; group_id = 1 }

abbrev ended : Child
ended = record no_task {
  handle = 30;
  task_id = 3;
  parent_id = 1;
  group_id = 1;
  status = 5;
  flags = 0x40000;
}

abbrev still_running : Child
still_running = record ended { status = 0; flags = 0 }

abbrev handles : Handles
handles = record { closes = λ h. true; close_error = 0 }

abbrev family : Tasks
family = record { table = no_task ∷ parent ∷ running ∷ ended ∷ []; last_error = 0 }

abbrev young_family : Tasks
young_family = record { table = no_task ∷ parent ∷ running ∷ still_running ∷ []; last_error = 0 }

sys_wait4_reaps_example :
    (s' : Tasks) × (sys_wait4 handles 1 (negsuc 0) 0 [] family ≡ some (s', value 3, 5))
    × Avoids 3 (taskv_any 1 s'.table)
    × ((j : ℕ) → 3 ≢ j → stateless (task_at s' j) ≡ stateless (task_at family j))
unfolding taskv_any task_at
sys_wait4_reaps_example =
    sys_wait4_reaps handles 1 0 [] family (2 ∷ []) [] 3 (omega arith) refl ((refl, refl, refl), tt)
      (refl, refl)

sys_wait4_wakes_example :
    sys_wait4 handles 1 (negsuc 0) 0 (rounds [] (woken family.table none ∷ [])) young_family
    ≡ some (
      set_state handles 1 state_onproc (proc_close handles (left_with family.table) 3),
      value 3,
      5,
    )
unfolding sys_wait4
sys_wait4_wakes_example =
    sys_wait4_wakes handles 1 (negsuc 0) 0 young_family (2 ∷ []) 3 [] [] family.table [] refl refl
      refl ((refl, refl, refl), ((refl, refl, refl), tt)) tt refl ((refl, refl, refl), tt)
      (refl, refl)
