-- ===== src/Signal/Kill/Others.antt =====
-- kill on one process, and on all.
use minc.Prelude.{
  ℕ, zero, suc, ◌<◌, Bool, true, false, not, ◌&&◌, ◌≡◌, ◌≢◌, refl, ap, ◌∙◌, List, [], ◌∷◌, ◌++◌,
  none, some, ◌==◌, if◌then◌else◌, drop, get_elem?, length, Bool-cases, inl, inr, lt→ltb, arith,
}
use minc.Prelude.Int.{pos, negsuc}
use minc.Errno.{errno_posix, eperm}
use minc.Signal.{Task, System, Kernel, Outcome, returned}
use minc.Signal.Kill.{
  vfs_kill_pid, kill_others, counted, reached, vfs_kill_sys, reported, pid_win, thread_of, kill_pid,
  kill_one, kill_sys, kill_any, sys_kill,
}
use minc.Signal.Kill.Targets.{
  Message, messages, messages-vfs_kill_pid, event_of, sig_win_lem, too_large_lem,
}

reported_kernel : (r : Kernel × Bool) → (reported r).0 ≡ r.0
unfolding reported
reported_kernel (k, true) = refl
reported_kernel (k, false) = refl

module _ (sys : System) (tasks : List Task) (t : Task) (k : Kernel) where
  kill_process :
      (n s : ℕ) (u : Task)
      → suc n < 80
      → suc s < 33
      → get_elem? tasks (suc n) ≡ some u
      → sys_kill sys tasks t (pos (suc n)) (pos (suc s)) k
        ≡ reported (vfs_kill_pid sys u.thread_id (event_of (suc s)) t.task_id k)
  unfolding sys_kill kill_any kill_one kill_pid pid_win thread_of
  kill_process n s u i j h =
      rw (too_large_lem (suc s) j, sig_win_lem (suc s) j, lt→ltb (suc n) 80 i, h) refl

  -- A signal other than 0 below NSIG to a process id above 0 and below CHILD_MAX: one message with
  -- the event of the signal and the caller as the sender is sent to the thread of that entry of the
  -- table, and none to any other. kill returns 0 if Windows takes the message and sets the event
  -- __Interrupt, and if not, the error that errno_posix gives for what failed.
  pub sys_kill-process :
      (n s : ℕ) (u : Task)
      → suc n < 80
      → suc s < 33
      → get_elem? tasks (suc n) ≡ some u
      → let r = sys_kill sys tasks t (pos (suc n)) (pos (suc s)) k in
        (messages r.0.calls
          ≡ record { thread = u.thread_id; event = event_of (suc s); sender = t.task_id }
            ∷ messages k.calls)
        × (sys.posts u.thread_id (event_of (suc s)) ≡ true
            → sys.sets_event ≡ true
            → r.1 ≡ returned none)
        × (sys.posts u.thread_id (event_of (suc s)) ≡ true
            → sys.sets_event ≡ false
            → r.1 ≡ returned (errno_posix sys.event_error))
        × (sys.posts u.thread_id (event_of (suc s)) ≡ false
            → r.1 ≡ returned (errno_posix sys.post_error))
  unfolding reported vfs_kill_pid
  sys_kill-process n s u i j h =
      let e = kill_process n s u i j h in
      (
        ap (λ (r : Kernel × Outcome). messages r.0.calls) e
            ∙ ap (λ (l : Kernel). messages l.calls)
                (reported_kernel (vfs_kill_pid sys u.thread_id (event_of (suc s)) t.task_id k))
            ∙ messages-vfs_kill_pid sys u.thread_id (event_of (suc s)) t.task_id k,
        (λ p q. ap (λ (r : Kernel × Outcome). r.1) e ∙ rw (p, q) refl),
        (λ p q. ap (λ (r : Kernel × Outcome). r.1) e ∙ rw (p, q) refl),
        (λ p. ap (λ (r : Kernel × Outcome). r.1) e ∙ rw p refl),
      )

-- The message for each task in use but the caller's.
unfoldable pub to_others : ℕ → ℕ → List Task → List Message
to_others caller e [] = []
to_others caller e (t ∷ ts) =
    if not (t.flags == 0) && not (t.task_id == caller)
    then record { thread = t.thread_id; event = e; sender = caller } ∷ to_others caller e ts
    else to_others caller e ts

counted_kernel : (r : Kernel × Bool) (n : ℕ) → (counted r n).0 ≡ r.0
unfolding counted
counted_kernel (k, true) n = refl
counted_kernel (k, false) n = refl

reached_calls : (r : Kernel × ℕ) → (reached r).0.calls ≡ r.0.calls
unfolding reached
reached_calls (k, zero) = refl
reached_calls (k, suc n) = refl

module _ (sys : System) (caller e : ℕ) where
  messages-kill_others :
      (ts : List Task) (k : Kernel)
      → messages (kill_others sys caller e caller ts k).0.calls
        ≡ to_others caller e ts ++ messages k.calls
  unfolding kill_others to_others
  messages-kill_others [] k = refl
  messages-kill_others (t ∷ ts) k =
      let rest = kill_others sys caller e caller ts k in
      elim (Bool-cases (not (t.flags == 0) && not (t.task_id == caller))) [
        | inl p ↦ rw p (
            ap (λ (l : Kernel). messages l.calls)
              (counted_kernel (vfs_kill_pid sys t.thread_id e caller rest.0) rest.1)
            ∙ messages-vfs_kill_pid sys t.thread_id e caller rest.0
            ∙ ap (λ ms. record { thread = t.thread_id; event = e; sender = caller } ∷ ms)
                (messages-kill_others ts k))
        | inr p ↦ rw p (messages-kill_others ts k)
      ]

  count_step :
      (n : ℕ) (k : Kernel) (m : ℕ)
      → ((thread : ℕ) → sys.posts thread e ≡ true)
      → sys.sets_event ≡ true
      → (counted (vfs_kill_pid sys n e caller k) m).1 ≡ suc m
  unfolding counted vfs_kill_pid
  count_step n k m p q = rw (p n, q) refl

  kill_others-count :
      (ts : List Task) (k : Kernel)
      → ((thread : ℕ) → sys.posts thread e ≡ true)
      → sys.sets_event ≡ true
      → (kill_others sys caller e caller ts k).1 ≡ length (to_others caller e ts)
  unfolding kill_others to_others
  kill_others-count [] k p q = refl
  kill_others-count (t ∷ ts) k p q =
      let rest = kill_others sys caller e caller ts k in
      elim (Bool-cases (not (t.flags == 0) && not (t.task_id == caller))) [
        | inl b ↦
            rw b (count_step t.thread_id rest.0 rest.1 p q ∙ ap suc (kill_others-count ts k p q))
        | inr b ↦ rw b (kill_others-count ts k p q)
      ]

reached_any :
    (r : Kernel × ℕ) (ms : List Message) → r.1 ≡ length ms → ms ≢ [] → (reached r).1 ≡ true
unfolding reached
reached_any (k, n) [] h d = absurd (d refl)
reached_any (k, zero) (m ∷ ms) h d = absurd (omega (arith, h))
reached_any (k, suc n) (m ∷ ms) h d = refl

reported_fine : (r : Kernel × Bool) → r.1 ≡ true → (reported r).1 ≡ returned none
unfolding reported
reported_fine (k, true) h = refl
reported_fine (k, false) h = cc

not_held :
    (k : Kernel) → (reported (record k { last_error = 1314 }, false)).1 ≡ returned (some eperm)
unfolding reported errno_posix
not_held k = refl

module _ (sys : System) (tasks : List Task) (t : Task) (k : Kernel) where
  -- A signal below NSIG to the process id -1. For a caller that is no administrator: EPERM, and no
  -- message. For an administrator: one message with the event of the signal and the caller as the
  -- sender is sent to each task in use from index 1 on but the caller, and to no other; and if
  -- Windows takes all messages of that event and sets the event __Interrupt, and there is such a
  -- task, kill returns 0.
  pub sys_kill-all :
      (s : ℕ)
      → s < 33
      → let r = sys_kill sys tasks t (negsuc 0) (pos s) k in
        let ms = to_others t.task_id (event_of s) (drop 1 tasks) in
        (sys.is_admin ≡ false
          → (r.1 ≡ returned (some eperm)) × (messages r.0.calls ≡ messages k.calls))
        × (sys.is_admin ≡ true → messages r.0.calls ≡ ms ++ messages k.calls)
        × (sys.is_admin ≡ true
            → ((thread : ℕ) → sys.posts thread (event_of s) ≡ true)
            → sys.sets_event ≡ true
            → ms ≢ []
            → r.1 ≡ returned none)
  unfolding sys_kill kill_any kill_sys vfs_kill_sys
  sys_kill-all s h =
      let e = event_of s in
      let o = kill_others sys t.task_id e t.task_id (drop 1 tasks) k in
      rw (too_large_lem s h) rw (sig_win_lem s h) (
        (λ a. rw a (
          not_held k,
          ap (λ (l : Kernel). messages l.calls)
              (reported_kernel (record k { last_error = 1314 }, false)),
        )),
        (λ a. rw a (
            ap (λ (l : Kernel). messages l.calls) (reported_kernel (reached o))
            ∙ ap messages (reached_calls o)
            ∙ messages-kill_others sys t.task_id e (drop 1 tasks) k)),
        (λ a p q d. rw a (
            reported_fine (reached o) (
              reached_any o (to_others t.task_id e (drop 1 tasks))
                (kill_others-count sys t.task_id e (drop 1 tasks) k p q) d))),
      )
