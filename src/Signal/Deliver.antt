-- ===== src/Signal/Deliver.antt =====
-- libposix/sys/signal.c and libposix/vfs/vfs_signal.c: what a signal does when it reaches a task.
-- A wait for the next message (vfs_sigsuspend) and the end of the process (__exit) are calls; the
-- code after them runs when they return. The siginfo_t that an action gets is not modelled.
pub mod Fate
use minc.Prelude.{
  ℕ, zero, suc, ◌+◌, ◌*◌, ◌-◌, ◌^◌, Bool, true, false, not, List, [], ◌∷◌, Option, none, some,
  bit_and, bit_or, ◌==◌, if◌then◌else◌, get_or,
}
use minc.Signal.{
  Sigaction, Task, Call, sig_dfl, sig_ign, sig_err, trace_signal, set_interrupt, suspend, exit,
  call_handler, call_action,
}
use minc.Signal.Action.{complement, no_action}

-- sigmask(signum), for a signal from 1 to 32
unfoldable pub sigmask : ℕ → ℕ
sigmask signum = 2 ^ (signum - 1)

-- BIT_SIGSTOP | BIT_SIGTSTP | BIT_SIGTTIN | BIT_SIGTTOU | BIT_SIGCONT
abbrev pub sigmask_stop : ℕ
sigmask_stop =
    bit_or 0x00010000 (bit_or 0x00020000 (bit_or 0x00100000 (bit_or 0x00200000 0x00040000)))

-- BIT_SIGWINCH | BIT_SIGCHLD | BIT_SIGURG | BIT_SIGINFO | BIT_SIGIO
abbrev pub sigmask_ignore : ℕ
sigmask_ignore =
    bit_or 0x08000000 (bit_or 0x00080000 (bit_or 0x00008000 (bit_or 0x10000000 0x00400000)))

-- _WSTOPPED, and the flags SA_RESTART and SA_SIGINFO of <signal.h>
abbrev pub wstopped : ℕ
wstopped = 0x7f

abbrev pub sa_restart : ℕ
sa_restart = 0x0002

abbrev pub sa_siginfo : ℕ
sa_siginfo = 0x0040

-- How a delivery ends: `discarded` is the result -1, after which an interrupted call goes on, and
-- `interrupted` the result 0.
pub data Verdict : Type 0 where
  discarded : Verdict
  interrupted : Verdict

pub record Delivery : Type 0 where
  pub task : Task
  pub calls : List Call
  pub verdict : Verdict

-- sigproc_default; the calls are added in front of those already made.
unfoldable pub sigproc_default : Task → ℕ → List Call → Delivery
unfolding sigmask complement
sigproc_default t signum cs =
    if not (bit_and (sigmask signum) sigmask_stop == 0)
    then record {
      task = record t { status = wstopped };
      calls = suspend 0 ∷ set_interrupt ∷ cs;
      verdict = discarded;
    }
    else if not (bit_and (sigmask signum) (complement sigmask_ignore) == 0)
    then record { task = record t { status = signum }; calls = exit 127 ∷ cs; verdict = discarded }
    else record { task = t; calls = cs; verdict = discarded }

-- The result so far, when a handler has run or the signal is only recorded.
unfoldable pub restarted : ℕ → Verdict
restarted flags = if bit_and flags sa_restart == 0 then interrupted else discarded

-- The choice of sigproc_posix by the handler of the action.
unfoldable pub act_on : Task → ℕ → Sigaction → List Call → Delivery
act_on t signum a cs =
    if a.handler == sig_dfl
    then sigproc_default t signum cs
    else if a.handler == sig_err
    then record {
      task = record t { status = t.error * 0x100 + signum };
      calls = cs;
      verdict = restarted a.flags;
    }
    else if a.handler == sig_ign
    then record { task = t; calls = cs; verdict = discarded }
    else if not (bit_and a.flags sa_siginfo == 0)
    then record { task = t; calls = call_action a.handler signum ∷ cs; verdict = restarted a.flags }
    else record {
      task = t;
      calls = call_handler a.handler signum ∷ cs;
      verdict = restarted a.flags;
    }

-- sigproc_posix
unfoldable pub sigproc_posix : Task → ℕ → List Call → Delivery
sigproc_posix t signum cs =
    if t.trace_signals
    then act_on t signum (get_or t.action signum no_action)
        (trace_signal signum (get_or t.action signum no_action).handler ∷ cs)
    else act_on t signum (get_or t.action signum no_action) cs
