-- ===== src/Wait.antt =====
-- libposix/sys/wait.c and libposix/vfs/vfs_wait.c, with proc_close and proc_poll of
-- libposix/vfs/process: waiting for children. The table __Tasks has CHILD_MAX entries; a vector of
-- pointers to tasks is the list of their places in the table, so that a change of a task shows
-- through every vector.
pub mod Pass
pub mod Reap
pub mod Block
use minc.Prelude.{
  ℕ, zero, suc, ◌+◌, ◌%◌, Bool, true, false, Option, none, some, List, [], ◌∷◌, drop, get_or, set,
  ltb, leb, ◌==◌, bit_and, bit_or, if◌then◌else◌,
}
use minc.Prelude.Int.{ℤ, pos, negsuc}
use minc.Errno.{Errno, errno_posix, einval, echild}
use minc.Descriptor.Flags.{has}
use minc.Descriptor.Table.{Reply, value, error, negated}
use minc.Signal.{child_max}

-- The fields of WIN_TASK (include/vfs_types.h) that waiting reads and writes.
pub record Child : Type 0 where
  pub handle : ℕ
  pub task_id : ℕ
  pub parent_id : ℕ
  pub group_id : ℕ
  pub status : ℕ
  pub flags : ℕ
  pub state : ℕ
  pub pending : ℕ
  pub kernel_time : ℕ
  pub user_time : ℕ

-- WIN_RUSAGE
pub record Rusage : Type 0 where
  pub task_id : ℕ
  pub status : ℕ
  pub kernel_time : ℕ
  pub user_time : ℕ

-- The table, and the last error of Windows.
pub record Tasks : Type 0 where
  pub table : List Child
  pub last_error : ℕ

-- Whether a handle can be closed, and the error if not.
pub record Handles : Type 0 where
  pub closes : ℕ → Bool
  pub close_error : ℕ

-- How one wait ends: an error of WaitForMultipleObjectsEx; or the table as the other processes
-- left it, and for a message that had come, whether vfs_raise took it as a signal and the error that
-- it left.
pub data Waited : Type 0 where
  wait_failed : ℕ → Waited
  woken : List Child → Option (Bool × ℕ) → Waited

-- ZeroMemory
abbrev pub no_task : Child
no_task = record {
  handle = 0;
  task_id = 0;
  parent_id = 0;
  group_id = 0;
  status = 0;
  flags = 0;
  state = 0;
  pending = 0;
  kernel_time = 0;
  user_time = 0;
}

abbrev pub no_usage : Rusage
no_usage = record { task_id = 0; status = 0; kernel_time = 0; user_time = 0 }

abbrev pub pid_init : ℕ
pid_init = 1

abbrev pub ps_nozombie : ℕ
ps_nozombie = 0x4000

abbrev pub ps_zombie : ℕ
ps_zombie = 0x40000

abbrev pub state_sleep : ℕ
state_sleep = 3

abbrev pub state_onproc : ℕ
state_onproc = 7

abbrev pub error_signal_pending : ℕ
error_signal_pending = 162

abbrev pub error_invalid_thread_id : ℕ
error_invalid_thread_id = 1444

-- WNOHANG and WUNTRACED
abbrev pub wnohang : ℕ
wnohang = 1

abbrev pub wuntraced : ℕ
wuntraced = 2

unfoldable pub task_at : Tasks → ℕ → Child
task_at s i = get_or s.table i no_task

unfoldable pub put_task : Tasks → ℕ → Child → Tasks
put_task s i t = record s { table = set s.table i t }

-- The loop of taskv_GRP, from index i.
unfoldable pub group_from : ℕ → ℕ → List Child → List ℕ
group_from group i [] = []
group_from group i (t ∷ ts) =
    let rest = group_from group (suc i) ts in if t.group_id == group then i ∷ rest else rest

unfoldable pub taskv_grp : ℕ → List Child → List ℕ
unfolding group_from
taskv_grp group table = group_from group pid_init (drop pid_init table)

-- The loop of taskv_ANY, from index i.
unfoldable pub children_from : ℕ → ℕ → List Child → List ℕ
children_from parent i [] = []
children_from parent i (t ∷ ts) =
    let rest = children_from parent (suc i) ts in if t.parent_id == parent then i ∷ rest else rest

unfoldable pub taskv_any : ℕ → List Child → List ℕ
unfolding children_from
taskv_any parent table = children_from parent pid_init (drop pid_init table)

unfoldable pub taskv_pid : ℕ → List Child → List ℕ
taskv_pid id table = if (get_or table id no_task).handle == 0 then [] else id ∷ []

unfoldable pub taskv_win : Child → ℤ → List Child → List ℕ
unfolding taskv_grp taskv_any taskv_pid
taskv_win parent (pos pid) table =
    if pid == parent.task_id
    then []
    else if pid == 0
    then taskv_grp parent.group_id table
    else taskv_pid pid table
taskv_win parent (negsuc zero) table = taskv_any parent.task_id table
taskv_win parent (negsuc (suc n)) table = taskv_grp (suc (suc n)) table

module _ (handles : Handles) where
  unfoldable pub proc_close : Tasks → ℕ → Tasks
  unfolding task_at put_task
  proc_close s i =
      let t = task_at s i in
      let s' = put_task s i (record t { parent_id = 0; flags = bit_or t.flags ps_nozombie }) in
      if t.handle == 0
      then record s' { last_error = error_invalid_thread_id }
      else if handles.closes t.handle
      then s'
      else record s' { last_error = handles.close_error }

  -- *Result for a task that is reported.
  unfoldable pub usage_of : Child → Rusage → Rusage
  usage_of t usage = record usage {
    task_id = t.task_id;
    status = t.status;
    user_time = (usage.user_time + t.user_time) % 18446744073709551616;
    kernel_time = (usage.kernel_time + t.kernel_time) % 18446744073709551616;
  }

  unfoldable pub wait_no_hang : List ℕ → ℕ → Tasks → Rusage → Tasks × Rusage × Bool
  unfolding task_at put_task proc_close usage_of
  wait_no_hang [] status s usage = (record s { last_error = error_invalid_thread_id }, usage, false)
  wait_no_hang (i ∷ is) status s usage =
      let t = task_at s i in
      let skipped = wait_no_hang is status (put_task s i no_task) usage in
      let passed = wait_no_hang is status s usage in
      if has t.flags ps_nozombie
      then skipped
      else if has t.flags ps_zombie
      then (proc_close s i, usage_of t usage, true)
      else if has t.status status
      then (s, usage_of t usage, true)
      else passed

  -- proc_poll of the task at place i, after a message or none.
  unfoldable pub proc_poll : ℕ → Option (Bool × ℕ) → Tasks → Tasks × Bool
  unfolding task_at put_task
  proc_poll i (some (raised, e)) s = (record s { last_error = e }, raised)
  proc_poll i none s = if (task_at s i).pending == 0 then (s, false) else (
    record (put_task s i (record (task_at s i) { pending = 0 })) {
      last_error = error_signal_pending;
    },
    true,
  )

  -- Task->State = state
  unfoldable pub set_state : ℕ → ℕ → Tasks → Tasks
  unfolding task_at put_task
  set_state i state s = put_task s i (record (task_at s i) { state = state })

  -- The loop of vfs_wait4 of the task at place i, over the waits that end one after the other; if
  -- they run out, the task still sleeps.
  unfoldable pub wait_loop :
      ℕ → List ℕ → Bool → ℕ → List Waited → Tasks → Rusage → Option (Tasks × Rusage × Bool)
  wait_loop i children no_hang status [] s usage =
      let r = wait_no_hang children status s usage in
      if r.2 then some r else if no_hang then some (r.0, r.1, true) else none
  wait_loop i children no_hang status (wait_failed e ∷ waits) s usage =
      let r = wait_no_hang children status s usage in
      if r.2
      then some r
      else if no_hang
      then some (r.0, r.1, true)
      else some (record r.0 { last_error = e }, r.1, false)
  wait_loop i children no_hang status (woken table message ∷ waits) s usage =
      let r = wait_no_hang children status s usage in
      let p = proc_poll i message (record r.0 { table = table }) in
      let rest = wait_loop i children no_hang status waits p.0 r.1 in
      if r.2
      then some r
      else if no_hang
      then some (r.0, r.1, true)
      else if p.1
      then some (p.0, r.1, false)
      else rest

  unfoldable pub awake : ℕ → Option (Tasks × Rusage × Bool) → Option (Tasks × Rusage × Bool)
  unfolding set_state
  awake i none = none
  awake i (some (s, usage, done)) = some (set_state i state_onproc s, usage, done)

  unfoldable pub vfs_wait4 :
      ℕ → List ℕ → Bool → ℕ → List Waited → Tasks → Rusage → Option (Tasks × Rusage × Bool)
  unfolding wait_no_hang proc_poll set_state wait_loop awake
  vfs_wait4 i children no_hang status waits s usage =
      awake i (wait_loop i children no_hang status waits (set_state i state_sleep s) usage)

  -- The int returned, and what is written to *status.
  unfoldable pub wait_reply : Option (Tasks × Rusage × Bool) → Option (Tasks × Reply × ℕ)
  wait_reply none = none
  wait_reply (some (s, usage, true)) = some (s, value usage.task_id, usage.status)
  wait_reply (some (s, usage, false)) = some (s, negated (errno_posix s.last_error), usage.status)

  -- pid >= CHILD_MAX
  unfoldable pub pid_too_large : ℤ → Bool
  pid_too_large (pos pid) = leb child_max pid
  pid_too_large (negsuc n) = false

  unfoldable pub wait_vector : ℕ → List ℕ → ℕ → List Waited → Tasks → Option (Tasks × Reply × ℕ)
  unfolding vfs_wait4 wait_reply
  wait_vector i [] options waits s = some (s, error echild, 0)
  wait_vector i (c ∷ cs) options waits s = wait_reply (
      vfs_wait4 i (c ∷ cs) (has options wnohang) (if has options wuntraced then 0xFFFF else 0) waits
        s no_usage)

  -- sys_wait4 by the task at place i, with no rusage asked for.
  unfoldable pub sys_wait4 : ℕ → ℤ → ℕ → List Waited → Tasks → Option (Tasks × Reply × ℕ)
  unfolding wait_vector taskv_win task_at pid_too_large
  sys_wait4 i pid options waits s =
      if pid_too_large pid
      then some (s, error einval, 0)
      else wait_vector i (taskv_win (task_at s i) pid s.table) options waits s
