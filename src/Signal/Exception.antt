-- ===== src/Signal/Exception.antt =====
-- libposix/vfs/vfs_signal.c: an exception of the processor as a signal. What it writes to the
-- log is not modelled, and neither is the context of the processor.
use minc.Prelude.{ℕ, ◌≡◌, refl, Bool, Option, none, some, ◌==◌, ◌||◌, if◌then◌else◌, if_both, ap}
use minc.Signal.Tables.{sig_posix}
use minc.Signal.Deliver.{sigproc_posix}
use minc.Signal.Suspend.{Waiter, is_taken, sigproc_win}

-- What the handler tells Windows.
pub data Disposition : Type 0 where
  execute_handler : Disposition
  continue_search : Disposition

-- The event of an exception: STATUS_ACCESS_VIOLATION; STATUS_ILLEGAL_INSTRUCTION,
-- STATUS_PRIVILEGED_INSTRUCTION and STATUS_INVALID_UNWIND_TARGET; STATUS_FLOAT_DIVIDE_BY_ZERO and
-- STATUS_INTEGER_DIVIDE_BY_ZERO; STATUS_STACK_OVERFLOW; and all others, which keep the 0 of
-- CTRL_C_EVENT.
unfoldable pub exception_event : ℕ → ℕ
exception_event code =
    if code == 0xC0000005
    then 3
    else if code == 0xC000001D || (code == 0xC0000096 || code == 0xC0000029)
    then 4
    else if code == 0xC000008E || code == 0xC0000094
    then 7
    else if code == 0xC00000FD
    then 14
    else 0

unfoldable pub disposition : Option (Waiter × Bool) → Option (Waiter × Disposition)
disposition none = none
disposition (some (x, b)) = some (x, if b then continue_search else execute_handler)

pub sig_exception_proc : ℕ → Waiter → Option (Waiter × Disposition)
unfolding disposition exception_event
sig_exception_proc code x = disposition (sigproc_win x (sig_posix (exception_event code)))

-- The signals of exceptions: SIGSEGV, SIGILL, SIGFPE and SIGABRT, and SIGINT for all others.
abbrev pub fault : ℕ → ℕ
fault code =
    if code == 0xC0000005
    then 11
    else if code == 0xC000001D || (code == 0xC0000096 || code == 0xC0000029)
    then 4
    else if code == 0xC000008E || code == 0xC0000094
    then 8
    else if code == 0xC00000FD
    then 6
    else 2

sig_posix-exception_event : (code : ℕ) → sig_posix (exception_event code) ≡ some (fault code)
unfolding exception_event sig_posix
sig_posix-exception_event code =
    let Signals : ℕ → ℕ → Type 0 = λ event signum. sig_posix event ≡ some signum in
    if_both Signals (code == 0xC0000005) refl (
      if_both Signals (code == 0xC000001D || (code == 0xC0000096 || code == 0xC0000029)) refl (
        if_both Signals (code == 0xC000008E || code == 0xC0000094) refl
          (if_both Signals (code == 0xC00000FD) refl refl)))

-- Every exception reaches the task as the signal of its kind, SIGINT for a kind that the handler
-- does not know, and the search for a handler goes on exactly where the program took the signal.
pub sig_exception_proc-sigproc_posix :
    (code : ℕ) (x : Waiter)
    → let d = sigproc_posix x.task (fault code) x.calls in
      sig_exception_proc code x
      ≡ some (
        record x { task = d.task; calls = d.calls },
        if is_taken d.verdict then continue_search else execute_handler,
      )
unfolding sig_exception_proc disposition sigproc_win
sig_exception_proc-sigproc_posix code x =
    ap (λ s. disposition (sigproc_win x s)) (sig_posix-exception_event code)
