-- ===== src/Tests/Signals.antt =====
-- The theorems on errors and signals, at concrete inputs.
use minc.Prelude.{
  ℕ, ◌≡◌, ◌≢◌, ◌≤◌, refl, true, false, List, [], ◌∷◌, ◌++◌, none, some, get_elem?, replicate, drop,
  ◌↔◌, ◌⊎◌, arith,
}
use minc.Prelude.Int.{pos, negsuc}
use minc.Prelude.Bits.{bit}
use minc.Errno.{errno_posix, eintr, einval, eperm}
use minc.Errno.Reported.{errno_posix-none}
use minc.Signal.{Task, System, Kernel, returned}
use minc.Signal.Action.{sys_sigaction, sys_sigprocmask, new_action, no_action, ignore}
use minc.Signal.Action.Protected.{
  sys_sigaction-protects, sys_sigprocmask-NeverBlocked, NeverBlocked,
}
use minc.Signal.Deliver.{sigproc_default, sigproc_posix}
use minc.Signal.Tables.{sig_posix}
use minc.Signal.Suspend.{Msg, Waiter, ctrl_type, sys_sigsuspend}
use minc.Signal.Suspend.Masked.{woken, sys_sigsuspend-sigproc_posix}
use minc.Signal.Deliver.Fate.{sigproc_default-fate, suffer, fate, stops}
use minc.Signal.Kill.{sys_kill}
use minc.Signal.Kill.Others.{sys_kill-process, sys_kill-all, to_others}
use minc.Signal.Kill.Targets.{
  sys_kill-group, sys_kill-defined, messages, to_members, event_of, is_defined,
}

abbrev shell : Task
shell = record {
  thread_id = 500;
  status = 0;
  task_id = 5;
  parent_id = 1;
  group_id = 5;
  flags = 1;
  trace_structs = false;
  trace_signals = false;
  proc_mask = 0;
  pending = 0;
  error = 0;
  action = replicate 33 no_action;
}

abbrev editor : Task
editor = record shell { thread_id = 600; task_id = 6; parent_id = 5 }

abbrev free_task : Task
free_task = record shell { group_id = 0; flags = 0; thread_id = 0 }

-- The table of tasks, with two in use, at the indices 5 and 6.
abbrev tasks : List Task
tasks = replicate 5 free_task ++ (shell ∷ editor ∷ replicate 73 free_task)

abbrev windows : System
windows = record {
  posts = λ thread event. true;
  post_error = 1444;
  sets_event = true;
  event_error = 6;
  is_admin = true;
}

abbrev boot : Kernel
boot = record { calls = []; last_error = 0 }

abbrev invalid_parameter : ℕ
invalid_parameter = 87

errno_posix-none_example :
    (errno_posix invalid_parameter ≡ none) ↔ ((invalid_parameter ≡ 0) ⊎ (invalid_parameter ≡ 18))
errno_posix-none_example = errno_posix-none invalid_parameter

-- SIGINT and SIGTERM
abbrev user_interrupt : ℕ
user_interrupt = 2

abbrev termination : ℕ
termination = 15

sys_sigaction-protects_example :
    ((user_interrupt ≡ 9) ⊎ (user_interrupt ≡ 17)
      → ((sys_sigaction shell (pos 2) ignore).result ≡ some einval)
        × ((sys_sigaction shell (pos 2) ignore).task ≡ shell))
    × (user_interrupt ≢ 9
        → user_interrupt ≢ 17
        → ((sys_sigaction shell (pos 2) ignore).result ≡ none)
          × (get_elem? (sys_sigaction shell (pos 2) ignore).task.action 2
              ≡ some (new_action ignore))
          × ((m : ℕ)
              → m ≢ 2
              → get_elem? (sys_sigaction shell (pos 2) ignore).task.action m
                ≡ get_elem? shell.action m))
sys_sigaction-protects_example = sys_sigaction-protects shell 2 ignore (omega arith) refl

sys_sigprocmask-NeverBlocked_example :
    NeverBlocked (sys_sigprocmask shell 1 (some 0xFFFFFFFF)).1.proc_mask
unfolding bit
sys_sigprocmask-NeverBlocked_example =
    sys_sigprocmask-NeverBlocked shell 1 (some 0xFFFFFFFF) (record { kill = refl; stop = refl })

sigproc_default-fate_example :
    (termination ≢ 19 → sigproc_default shell 15 [] ≡ suffer shell 15 [] (fate 15))
    × (termination ≡ 19 → sigproc_default shell 15 [] ≡ suffer shell 15 [] stops)
sigproc_default-fate_example = sigproc_default-fate shell 14 [] (omega arith)

sys_kill-group_example :
    ((sys_kill windows tasks editor (negsuc 4) (pos 15) boot).1 ≡ returned none)
    × (messages (sys_kill windows tasks editor (negsuc 4) (pos 15) boot).0.calls
        ≡ to_members 5 (event_of 15) 6 (drop 2 tasks) ++ messages [])
sys_kill-group_example = sys_kill-group windows tasks editor boot 3 15 (omega arith)

sys_kill-defined_example :
    (is_defined (sys_kill windows tasks editor (pos 5) (pos 9) boot).1 ≡ true)
    × (33 ≤ 9 → sys_kill windows tasks editor (pos 5) (pos 9) boot ≡ (boot, returned (some einval)))
sys_kill-defined_example = sys_kill-defined windows tasks editor boot (pos 5) 9 refl

-- WM_CLOSE, which is the event of SIGKILL.
abbrev closing : Msg
closing = record { message = 16; w_param = 0 }

abbrev resting : Waiter
resting = record { task = shell; state = 2; calls = []; last_error = 0 }

sys_sigsuspend-sigproc_posix_example :
    sys_sigsuspend (some 0xFFFFFFFF) (some closing) resting
    ≡ some (woken resting (sigproc_posix shell 9 []), some eintr)
unfolding ctrl_type sig_posix
sys_sigsuspend-sigproc_posix_example =
    sys_sigsuspend-sigproc_posix resting 0xFFFFFFFF closing 9 refl

sys_kill-process_example :
    let r = sys_kill windows tasks editor (pos 5) (pos 15) boot in
    (messages r.0.calls ≡ record { thread = 500; event = event_of 15; sender = 6 } ∷ messages [])
    × (windows.posts 500 (event_of 15) ≡ true → windows.sets_event ≡ true → r.1 ≡ returned none)
    × (windows.posts 500 (event_of 15) ≡ true
        → windows.sets_event ≡ false
        → r.1 ≡ returned (errno_posix 6))
    × (windows.posts 500 (event_of 15) ≡ false → r.1 ≡ returned (errno_posix 1444))
sys_kill-process_example =
    sys_kill-process windows tasks editor boot 4 14 shell (omega arith) (omega arith) refl

sys_kill-all_example :
    let r = sys_kill windows tasks editor (negsuc 0) (pos 15) boot in
    let ms = to_others 6 (event_of 15) (drop 1 tasks) in
    (windows.is_admin ≡ false
      → (r.1 ≡ returned (some eperm)) × (messages r.0.calls ≡ messages boot.calls))
    × (windows.is_admin ≡ true → messages r.0.calls ≡ ms ++ messages boot.calls)
    × (windows.is_admin ≡ true
        → ((thread : ℕ) → windows.posts thread (event_of 15) ≡ true)
        → windows.sets_event ≡ true
        → ms ≢ []
        → r.1 ≡ returned none)
sys_kill-all_example = sys_kill-all windows tasks editor boot 15 (omega arith)
