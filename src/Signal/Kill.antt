-- ===== src/Signal/Kill.antt =====
-- libposix/vfs/vfs_signal.c and libposix/sys/signal.c: sending signals. The table of tasks is a
-- list from index 0; the loops of the source run from its end to index 2 (for a group) or 1.
-- The message is always WM_COMMAND.
pub mod Targets
pub mod Others
use minc.Prelude.{
  ℕ, zero, suc, ◌+◌, Bool, true, false, not, ◌&&◌, List, [], ◌∷◌, Option, none, some, ◌==◌, ltb,
  if◌then◌else◌, drop, get_elem?,
}
use minc.Prelude.Int.{ℤ, pos, negsuc}
use minc.Errno.{Errno, errno_posix, einval, esrch}
use minc.Signal.{
  Task, Call, System, Kernel, Outcome, returned, undefined, post_message, set_interrupt, nsig,
  child_max,
}
use minc.Signal.Tables.{sig_win}

-- vfs_kill_PID, with its result
unfoldable pub vfs_kill_pid : System → ℕ → ℕ → ℕ → Kernel → Kernel × Bool
vfs_kill_pid sys thread event sender k =
    if sys.posts thread event
    then (if sys.sets_event
        then (record k { calls = set_interrupt ∷ post_message thread event sender ∷ k.calls }, true)
        else (
          record {
            calls = set_interrupt ∷ post_message thread event sender ∷ k.calls;
            last_error = sys.event_error;
          },
          false,
        ))
    else (
      record { calls = post_message thread event sender ∷ k.calls; last_error = sys.post_error },
      false,
    )

-- The loop of vfs_kill_GRP over the tasks from an index on: those after the first come first.
unfoldable pub kill_members : System → ℕ → ℕ → ℕ → List Task → Kernel → Kernel
unfolding vfs_kill_pid
kill_members sys group event sender [] k = k
kill_members sys group event sender (t ∷ ts) k =
    let rest = kill_members sys group event sender ts k in
    if t.group_id == group then (vfs_kill_pid sys t.thread_id event sender rest).0 else rest

-- vfs_kill_GRP, which always succeeds
unfoldable pub vfs_kill_grp : System → List Task → ℕ → ℕ → ℕ → Kernel → Kernel
vfs_kill_grp sys tasks group event sender k = kill_members sys group event sender (drop 2 tasks) k

-- The loop of vfs_kill_ANY and the function.
unfoldable pub kill_children : System → ℕ → ℕ → ℕ → List Task → Kernel → Kernel
unfolding vfs_kill_pid
kill_children sys parent event sender [] k = k
kill_children sys parent event sender (t ∷ ts) k =
    let rest = kill_children sys parent event sender ts k in
    if t.parent_id == parent then (vfs_kill_pid sys t.thread_id event sender rest).0 else rest

unfoldable pub vfs_kill_any : System → List Task → ℕ → ℕ → ℕ → Kernel → Kernel
vfs_kill_any sys tasks parent event sender k =
    kill_children sys parent event sender (drop 2 tasks) k

-- The loop of vfs_kill_SYS, with the count of the tasks that were reached.
unfoldable pub counted : Kernel × Bool → ℕ → Kernel × ℕ
counted (k, true) n = (k, suc n)
counted (k, false) n = (k, n)

unfoldable pub kill_others : System → ℕ → ℕ → ℕ → List Task → Kernel → Kernel × ℕ
unfolding vfs_kill_pid counted
kill_others sys caller event sender [] k = (k, 0)
kill_others sys caller event sender (t ∷ ts) k =
    let rest = kill_others sys caller event sender ts k in
    if not (t.flags == 0) && not (t.task_id == caller)
    then counted (vfs_kill_pid sys t.thread_id event sender rest.0) rest.1
    else rest

-- Whether any task was reached; ERROR_INVALID_THREAD_ID is 1444.
unfoldable pub reached : Kernel × ℕ → Kernel × Bool
reached (k, zero) = (record k { last_error = 1444 }, false)
reached (k, suc n) = (k, true)

-- vfs_kill_SYS; ERROR_PRIVILEGE_NOT_HELD is 1314.
unfoldable pub vfs_kill_sys : System → List Task → ℕ → ℕ → ℕ → Kernel → Kernel × Bool
unfolding kill_others reached
vfs_kill_sys sys tasks caller event sender k =
    if sys.is_admin
    then reached (kill_others sys caller event sender (drop 1 tasks) k)
    else (record k { last_error = 1314 }, false)

-- result -= errno_posix(GetLastError()), unless the call succeeded
unfoldable pub reported : Kernel × Bool → Kernel × Outcome
reported (k, true) = (k, returned none)
reported (k, false) = (k, returned (errno_posix k.last_error))

-- kill_GRP and kill_SYS; sig_win has no event for a signal outside its table.
unfoldable pub kill_grp : System → List Task → Task → ℕ → Option ℕ → Kernel → Kernel × Outcome
unfolding vfs_kill_grp
kill_grp sys tasks t group none k = (k, undefined)
kill_grp sys tasks t group (some event) k =
    (vfs_kill_grp sys tasks group event t.task_id k, returned none)

unfoldable pub kill_sys : System → List Task → Task → Option ℕ → Kernel → Kernel × Outcome
unfolding vfs_kill_sys reported
kill_sys sys tasks t none k = (k, undefined)
kill_sys sys tasks t (some event) k = reported (vfs_kill_sys sys tasks t.task_id event t.task_id k)

-- pid_win (libposix/sys/proc.c), for a process id that is not negative; ERROR_BAD_ARGUMENTS is 160.
-- The result is none for a read outside the table.
unfoldable pub thread_of : Option Task → Option ℕ
thread_of none = none
thread_of (some t) = some t.thread_id

unfoldable pub pid_win : List Task → ℕ → Kernel → Kernel × Option ℕ
unfolding thread_of
pid_win tasks pid k =
    if ltb pid child_max
    then (k, thread_of (get_elem? tasks pid))
    else (record k { last_error = 160 }, some 0)

unfoldable pub kill_pid : System → Task → Option ℕ → Kernel × Option ℕ → Kernel × Outcome
unfolding vfs_kill_pid reported
kill_pid sys t none (k, thread) = (k, undefined)
kill_pid sys t (some event) (k, none) = (k, undefined)
kill_pid sys t (some event) (k, some thread) = reported (vfs_kill_pid sys thread event t.task_id k)

-- The test for a process, by signal 0.
unfoldable pub exists : Kernel × Option ℕ → Kernel × Outcome
exists (k, none) = (k, undefined)
exists (k, some thread) = (k, returned (if thread == 0 then some esrch else none))

-- sys_kill for a signal below NSIG, on a process id that is not negative.
unfoldable pub kill_one : System → List Task → Task → ℕ → ℤ → Kernel → Kernel × Outcome
unfolding kill_grp kill_pid exists pid_win
kill_one sys tasks t pid (pos zero) k = exists (pid_win tasks pid k)
kill_one sys tasks t zero sig k = kill_grp sys tasks t t.group_id (sig_win sig) k
kill_one sys tasks t (suc n) sig k =
    if ltb (suc n) child_max
    then kill_pid sys t (sig_win sig) (pid_win tasks (suc n) k)
    else (k, returned (some einval))

unfoldable pub too_large : ℤ → Bool
too_large (pos n) = not (ltb n nsig)
too_large (negsuc n) = false

unfoldable pub kill_any : System → List Task → Task → ℤ → ℤ → Kernel → Kernel × Outcome
unfolding kill_sys kill_grp kill_one
kill_any sys tasks t (negsuc zero) sig k = kill_sys sys tasks t (sig_win sig) k
kill_any sys tasks t (negsuc (suc n)) sig k = kill_grp sys tasks t (suc (suc n)) (sig_win sig) k
kill_any sys tasks t (pos pid) sig k = kill_one sys tasks t pid sig k

-- sys_kill: the caller's task, the process id and the signal.
unfoldable pub sys_kill : System → List Task → Task → ℤ → ℤ → Kernel → Kernel × Outcome
unfolding too_large kill_any
sys_kill sys tasks t pid sig k =
    if too_large sig then (k, returned (some einval)) else kill_any sys tasks t pid sig k
