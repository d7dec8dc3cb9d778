-- ===== src/Signal/Kill/Targets.antt =====
-- Whom a signal reaches.
use minc.Prelude.{
  ℕ, zero, suc, ◌<◌, Bool, true, false, ◌≡◌, refl, ap, ◌∙◌, List, [], ◌∷◌, ◌++◌, Option, none, some,
  ◌==◌, if◌then◌else◌, drop, Bool-cases, inl, inr, get_elem?-get_or, get_or, length, ltb, if_lem,
  ltb→lt, tests, ◌≤◌, arith,
}
use minc.Prelude.Int.{ℤ, pos, negsuc}
use minc.Errno.{einval}
use minc.Signal.{
  Task, Call, System, Kernel, Outcome, returned, undefined, post_message, set_interrupt,
  trace_struct, trace_signal, suspend, exit, call_handler, call_action,
}
use minc.Signal.Tables.{sig_win, sig_win_table}
use minc.Signal.Kill.{
  vfs_kill_pid, kill_members, vfs_kill_grp, vfs_kill_sys, sys_kill, kill_any, kill_one, kill_grp,
  kill_sys, kill_pid, reported, exists, too_large, thread_of, pid_win,
}

-- A message that was posted: its thread, event and sender.
pub record Message : Type 0 where
  pub thread : ℕ
  pub event : ℕ
  pub sender : ℕ

-- The messages among the calls: those that Windows was asked to post, whether or not it took them.
unfoldable pub messages : List Call → List Message
messages [] = []
messages (post_message n e s ∷ cs) = record { thread = n; event = e; sender = s } ∷ messages cs
messages (set_interrupt ∷ cs) = messages cs
messages (trace_struct a ∷ cs) = messages cs
messages (trace_signal n h ∷ cs) = messages cs
messages (suspend m ∷ cs) = messages cs
messages (exit n ∷ cs) = messages cs
messages (call_handler h n ∷ cs) = messages cs
messages (call_action h n ∷ cs) = messages cs

-- The message for each member of a group, in the order of the tasks.
unfoldable pub to_members : ℕ → ℕ → ℕ → List Task → List Message
to_members group e s [] = []
to_members group e s (t ∷ ts) =
    if t.group_id == group
    then record { thread = t.thread_id; event = e; sender = s } ∷ to_members group e s ts
    else to_members group e s ts

pub messages-vfs_kill_pid :
    (sys : System) (n e s : ℕ) (k : Kernel)
    → messages (vfs_kill_pid sys n e s k).0.calls
      ≡ record { thread = n; event = e; sender = s } ∷ messages k.calls
unfolding vfs_kill_pid messages
messages-vfs_kill_pid sys n e s k = ground arith

messages-kill_members :
    (sys : System) (group e s : ℕ) (ts : List Task) (k : Kernel)
    → messages (kill_members sys group e s ts k).calls ≡ to_members group e s ts ++ messages k.calls
unfolding kill_members to_members
messages-kill_members sys group e s [] k = refl
messages-kill_members sys group e s (t ∷ ts) k = elim (Bool-cases (t.group_id == group)) [
  | inl p ↦ rw p (
      messages-vfs_kill_pid sys t.thread_id e s (kill_members sys group e s ts k)
      ∙ ap (λ ms. record { thread = t.thread_id; event = e; sender = s } ∷ ms)
          (messages-kill_members sys group e s ts k))
  | inr p ↦ rw p (messages-kill_members sys group e s ts k)
]

unfoldable is_some : Option ℕ → Bool
is_some none = false
is_some (some n) = true

unfoldable pub is_defined : Outcome → Bool
is_defined (returned e) = true
is_defined undefined = false

-- The event of a signal below NSIG.
unfoldable pub event_of : ℕ → ℕ
event_of s = get_or sig_win_table s 0

pub sig_win_lem : (s : ℕ) → s < 33 → sig_win (pos s) ≡ some (event_of s)
unfolding sig_win event_of
sig_win_lem s h = get_elem?-get_or sig_win_table s 0 (omega arith)

pub too_large_lem : (s : ℕ) → s < 33 → too_large (pos s) ≡ false
unfolding too_large
too_large_lem s h = ground arith

module _ (sys : System) (tasks : List Task) (t : Task) (k : Kernel) where
  -- A signal below NSIG to a process id below -1 returns 0 and posts exactly one message, with the
  -- event of the signal and the caller as the sender, to each task from index 2 on that is in the
  -- group of the negated id.
  pub sys_kill-group :
      (n s : ℕ)
      → s < 33
      → ((sys_kill sys tasks t (negsuc (suc n)) (pos s) k).1 ≡ returned none)
        × (messages (sys_kill sys tasks t (negsuc (suc n)) (pos s) k).0.calls
            ≡ to_members (suc (suc n)) (event_of s) t.task_id (drop 2 tasks) ++ messages k.calls)
  unfolding sys_kill kill_any kill_grp vfs_kill_grp
  sys_kill-group n s h =
      rw (too_large_lem s h) rw (sig_win_lem s h)
        (refl, messages-kill_members sys (suc (suc n)) (event_of s) t.task_id (drop 2 tasks) k)

  reported_lem : (r : Kernel × Bool) → is_defined (reported r).1 ≡ true
  unfolding reported is_defined
  reported_lem (l, true) = refl
  reported_lem (l, false) = refl

  kill_pid-defined :
      (e : ℕ) (r : Kernel × Option ℕ)
      → is_some r.1 ≡ true
      → is_defined (kill_pid sys t (some e) r).1 ≡ true
  unfolding kill_pid is_some
  kill_pid-defined e (l, none) h = cc
  kill_pid-defined e (l, some thread) h = reported_lem (vfs_kill_pid sys thread e t.task_id l)

  exists-defined : (r : Kernel × Option ℕ) → is_some r.1 ≡ true → is_defined (exists r).1 ≡ true
  unfolding exists is_defined is_some
  exists-defined (l, none) h = cc
  exists-defined (l, some thread) h = refl

  module _ (len : length tasks ≡ 80) where
    pid_win-is_some : (pid : ℕ) → is_some (pid_win tasks pid k).1 ≡ true
    unfolding pid_win thread_of is_some
    pid_win-is_some pid = elim (Bool-cases (ltb pid 80)) [
      | inl e ↦ rw (e, get_elem?-get_or tasks pid t (omega (arith, len, ltb→lt pid 80 e))) refl
      | inr e ↦ rw e refl
    ]

    kill_one-defined :
        (pid s : ℕ) → s < 33 → is_defined (kill_one sys tasks t pid (pos s) k).1 ≡ true
    unfolding kill_one is_defined kill_grp
    kill_one-defined pid zero h = exists-defined (pid_win tasks pid k) (pid_win-is_some pid)
    kill_one-defined zero (suc s) h = rw (sig_win_lem (suc s) h) refl
    kill_one-defined (suc pid) (suc s) h = rw (sig_win_lem (suc s) h) (
        if_lem {A = Kernel × Outcome} (λ r. is_defined r.1 ≡ true) (ltb (suc pid) 80)
          (kill_pid-defined (event_of (suc s)) (pid_win tasks (suc pid) k)
            (pid_win-is_some (suc pid)))
          refl)

    kill_any-defined :
        (pid : ℤ) (s : ℕ) → s < 33 → is_defined (kill_any sys tasks t pid (pos s) k).1 ≡ true
    unfolding kill_any kill_sys kill_grp is_defined
    kill_any-defined (pos pid) s h = kill_one-defined pid s h
    kill_any-defined (negsuc zero) s h =
        rw (sig_win_lem s h)
          (reported_lem (vfs_kill_sys sys tasks t.task_id (event_of s) t.task_id k))
    kill_any-defined (negsuc (suc n)) s h = rw (sig_win_lem s h) refl

  -- With a table of CHILD_MAX tasks and a signal that is not negative, kill reads neither the table
  -- of tasks nor that of signals outside its bounds, whatever the process id; and from NSIG on it
  -- returns EINVAL and has no effect.
  pub sys_kill-defined :
      (pid : ℤ) (s : ℕ)
      → length tasks ≡ 80
      → (is_defined (sys_kill sys tasks t pid (pos s) k).1 ≡ true)
        × (33 ≤ s → sys_kill sys tasks t pid (pos s) k ≡ (k, returned (some einval)))
  unfolding sys_kill too_large is_defined
  sys_kill-defined pid s len = elim (Bool-cases (ltb s 33)) [
    | inl e ↦ (rw e (kill_any-defined len pid s (ltb→lt s 33 e)), (λ h. absurd (omega tests)))
    | inr e ↦ rw e (refl, (λ h. refl))
  ]
