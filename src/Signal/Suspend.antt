-- ===== src/Signal/Suspend.antt =====
-- libposix/vfs/vfs_signal.c and libposix/sys/signal.c: a message as a signal, and the wait for one.
-- While a task waits GetMessage gives one message, none for WM_QUIT. The context of the processor is
-- not modelled.
pub mod Masked
use minc.Prelude.{ℕ, Bool, true, false, Option, none, some, List, ◌==◌, if◌then◌else◌}
use minc.Process.{state_run}
use minc.Wait.{state_sleep, error_signal_pending}
use minc.Errno.{Errno, errno_posix, efault}
use minc.Signal.{Task, Call}
use minc.Signal.Tables.{sig_posix}
use minc.Signal.Deliver.{Verdict, discarded, interrupted, Delivery, sigproc_posix}

-- MSG
pub record Msg : Type 0 where
  pub message : ℕ
  pub w_param : ℕ

-- The task with its State, the calls made so far, the latest first, and the last error of Windows.
pub record Waiter : Type 0 where
  pub task : Task
  pub state : ℕ
  pub calls : List Call
  pub last_error : ℕ

-- The event of a message: WM_SIZE, WM_CLOSE, WM_QUIT, WM_COMMAND, WM_TIMER, WM_USER and all others.
unfoldable pub ctrl_type : Msg → ℕ
ctrl_type m =
    if m.message == 5
    then 8
    else if m.message == 16
    then 2
    else if m.message == 18
    then 12
    else if m.message == 273
    then m.w_param
    else if m.message == 275
    then 10
    else if m.message == 1024
    then 11
    else 22

-- The result of sigproc_posix is 0: the program took the signal.
unfoldable pub is_taken : Verdict → Bool
is_taken discarded = false
is_taken interrupted = true

-- sigproc_win, for the signal of the event; none is a read outside __SIG_POSIX.
unfoldable pub sigproc_win : Waiter → Option ℕ → Option (Waiter × Bool)
unfolding is_taken
sigproc_win x none = none
sigproc_win x (some signum) =
    let d = sigproc_posix x.task signum x.calls in
    some (record x { task = d.task; calls = d.calls }, is_taken d.verdict)

unfoldable pub raise_reply : Option (Waiter × Bool) → Option (Waiter × Bool)
raise_reply none = none
raise_reply (some (x, true)) = some (record x { last_error = error_signal_pending }, true)
raise_reply (some (x, false)) = some (x, false)

unfoldable pub vfs_raise : Msg → Waiter → Option (Waiter × Bool)
unfolding raise_reply sigproc_win ctrl_type
vfs_raise m x = raise_reply (sigproc_win x (sig_posix (ctrl_type m)))

-- The end of vfs_sigsuspend, with the mask from before the wait.
unfoldable pub resumed : ℕ → Waiter → Waiter
resumed mask x = record x { task = record (x.task) { proc_mask = mask }; state = state_run }

unfoldable pub after_raise : ℕ → Option (Waiter × Bool) → Option (Waiter × Bool)
unfolding resumed
after_raise mask none = none
after_raise mask (some (x, true)) = some (resumed mask x, false)
after_raise mask (some (x, false)) =
    some (resumed mask (record x { last_error = error_signal_pending }), false)

unfoldable pub vfs_sigsuspend : ℕ → Option Msg → Waiter → Option (Waiter × Bool)
unfolding after_raise vfs_raise
vfs_sigsuspend mask none x = some (
  resumed x.task.proc_mask
      (record x { task = record (x.task) { proc_mask = mask }; state = state_sleep }),
  true,
)
vfs_sigsuspend mask (some m) x =
    after_raise x.task.proc_mask
      (vfs_raise m (record x { task = record (x.task) { proc_mask = mask }; state = state_sleep }))

unfoldable pub suspend_reply : Option (Waiter × Bool) → Option (Waiter × Option Errno)
suspend_reply none = none
suspend_reply (some (x, true)) = some (x, none)
suspend_reply (some (x, false)) = some (x, errno_posix x.last_error)

-- sys_sigsuspend; a null mask is none.
pub sys_sigsuspend : Option ℕ → Option Msg → Waiter → Option (Waiter × Option Errno)
unfolding suspend_reply vfs_sigsuspend
sys_sigsuspend none m x = some (x, some efault)
sys_sigsuspend (some mask) m x = suspend_reply (vfs_sigsuspend mask m x)
