-- ===== src/Signal/Suspend/Masked.antt =====
-- What the mask of a task has to do with the signals that it gets: proofs.
use minc.Prelude.{
  ℕ, ◌≡◌, refl, ap, ◌∙◌, not, Option, some, List, ◌∷◌, ◌==◌, bit_and, get_or, if_both,
}
use minc.Process.{state_run}
use minc.Wait.{state_sleep, error_signal_pending}
use minc.Errno.{Errno, errno_posix, eintr}
use minc.Signal.{Task, Call, trace_signal, Sigaction, sig_dfl, sig_err, sig_ign}
use minc.Signal.Action.{no_action, complement}
use minc.Signal.Tables.{sig_posix}
use minc.Signal.Deliver.{
  Delivery, discarded, interrupted, sigproc_default, act_on, sigproc_posix, sigmask, sigmask_stop,
  sigmask_ignore, sa_siginfo,
}
use minc.Signal.Suspend.{
  Msg, Waiter, ctrl_type, is_taken, sigproc_win, raise_reply, vfs_raise, resumed, after_raise,
  vfs_sigsuspend, suspend_reply, sys_sigsuspend,
}

module _ (m : ℕ) where
  -- The same delivery to a task with the mask m.
  abbrev UnderMask : Delivery → Delivery → Type 0
  UnderMask d e = d ≡ record e { task = record (e.task) { proc_mask = m } }

  default-UnderMask :
      (t : Task) (n : ℕ) (cs : List Call)
      → UnderMask (sigproc_default (record t { proc_mask = m }) n cs) (sigproc_default t n cs)
  unfolding sigproc_default
  default-UnderMask t n cs =
      if_both UnderMask (not (bit_and (sigmask n) sigmask_stop == 0)) refl
        (if_both UnderMask (not (bit_and (sigmask n) (complement sigmask_ignore) == 0)) refl refl)

  act-UnderMask :
      (t : Task) (n : ℕ) (a : Sigaction) (cs : List Call)
      → UnderMask (act_on (record t { proc_mask = m }) n a cs) (act_on t n a cs)
  unfolding act_on
  act-UnderMask t n a cs = if_both UnderMask (a.handler == sig_dfl) (default-UnderMask t n cs) (
      if_both UnderMask (a.handler == sig_err) refl (
        if_both UnderMask (a.handler == sig_ign) refl
          (if_both UnderMask (not (bit_and a.flags sa_siginfo == 0)) refl refl)))

  -- A signal does to a task what it would do under any other mask.
  sigproc-UnderMask :
      (t : Task) (n : ℕ) (cs : List Call)
      → UnderMask (sigproc_posix (record t { proc_mask = m }) n cs) (sigproc_posix t n cs)
  unfolding sigproc_posix
  sigproc-UnderMask t n cs =
      if_both UnderMask t.trace_signals
        (act-UnderMask t n (get_or t.action n no_action)
          (trace_signal n (get_or t.action n no_action).handler ∷ cs))
        (act-UnderMask t n (get_or t.action n no_action) cs)

-- What is left of a wait by the task x when its signal has been delivered.
abbrev pub woken : Waiter → Delivery → Waiter
woken x d = record x {
  task = record (d.task) { proc_mask = x.task.proc_mask };
  calls = d.calls;
  state = state_run;
  last_error = error_signal_pending;
}

-- The end of the wait with its reply, by what became of the signal.
abbrev replied : Waiter → Delivery → Option (Waiter × Option Errno)
replied x d = suspend_reply (
    after_raise x.task.proc_mask (
      raise_reply (
        some
          (record x { task = d.task; calls = d.calls; state = state_sleep }, is_taken d.verdict))))

replied-woken : (x : Waiter) (d : Delivery) → replied x d ≡ some (woken x d, some eintr)
unfolding suspend_reply after_raise resumed raise_reply is_taken errno_posix
replied-woken x d =
    elim d.verdict as (λ v. replied x (record d { verdict = v }) ≡ some (woken x d, some eintr)) [
      | discarded ↦ refl
      | interrupted ↦ refl
    ]

-- A task that waits under any mask for a message which is the event of a signal: sigsuspend gives
-- EINTR, and the task is what the delivery of that signal makes of it, with its own mask again,
-- running, whatever the mask of the wait was and whatever the signal did.
pub sys_sigsuspend-sigproc_posix :
    (x : Waiter) (mask : ℕ) (m : Msg) (n : ℕ)
    → sig_posix (ctrl_type m) ≡ some n
    → sys_sigsuspend (some mask) (some m) x
      ≡ some (woken x (sigproc_posix x.task n x.calls), some eintr)
unfolding sys_sigsuspend vfs_sigsuspend vfs_raise sigproc_win
sys_sigsuspend-sigproc_posix x mask m n e =
    let asleep : Waiter = record x {
      task = record (x.task) { proc_mask = mask };
      state = state_sleep;
    } in
    ap (λ s. suspend_reply (after_raise x.task.proc_mask (raise_reply (sigproc_win asleep s)))) e
    ∙ ap (replied x) (sigproc-UnderMask mask x.task n x.calls)
    ∙ replied-woken x (record (sigproc_posix x.task n x.calls) {
      task = record ((sigproc_posix x.task n x.calls).task) { proc_mask = mask };
    })
