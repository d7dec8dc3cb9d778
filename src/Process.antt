-- ===== src/Process.antt =====
-- libposix/vfs/process: the table of tasks, fork and exec. ProcCreateTask is in process_syscall.c,
-- proc_dup and proc_execve in process_unistd.c; the process groups are those of
-- libposix/sys/unistd.c. Of a task the fields that these touch.
pub mod Slots
pub mod Channels
use minc.Prelude.{
  ℕ, zero, suc, ◌+◌, ◌*◌, Bool, true, false, not, ◌&&◌, ◌||◌, Option, none, some, List, [], ◌∷◌,
  get_or, set, ltb, ◌==◌, bit_or, if◌then◌else◌,
}
use minc.Prelude.Int.{ℤ, pos, negsuc}
use minc.Errno.{Errno, einval}
use minc.Acl.{Sid}
pub use minc.Wait.{ps_nozombie}
use minc.Signal.{child_max, Sigaction}
use minc.Descriptor.{VNode, Host, Files, empty}
use minc.Descriptor.Flags.{has}
use minc.Descriptor.Duplicate.{vfs_f_dupfd, duplicate_by, inherits}
use minc.Descriptor.Close.{vfs_close}
use minc.Descriptor.Table.{Reply, value, error}

-- WIN_TASK, with the path of its entry of __Strings.
pub record Process : Type 0 where
  pub flags : ℕ
  pub task_id : ℕ
  pub thread_id : ℕ
  pub process_id : ℕ
  pub processor : ℕ
  pub started : ℕ
  pub clock_time : ℕ
  pub state : ℕ
  pub handle : ℕ
  pub parent_id : ℕ
  pub depth : ℕ
  pub group_id : ℕ
  pub session_id : ℕ
  pub ctty : ℕ
  pub mount_id : ℕ
  pub user_sid : Sid
  pub group_sid : Sid
  pub file_mask : ℕ
  pub is_set_ugid : Bool
  pub real_uid : ℕ
  pub saved_uid : ℕ
  pub real_gid : ℕ
  pub saved_gid : ℕ
  pub proc_mask : ℕ
  pub trace_handle : ℕ
  pub trace_points : ℕ
  pub kernel_time : ℕ
  pub user_time : ℕ
  pub timer : ℕ
  pub limit : List ℕ
  pub at_exit : List ℕ
  pub action : List Sigaction
  pub node : List VNode
  pub path : List ℕ

abbrev no_sid : Sid
no_sid = record { authority = 0; sub_authority = [] }

abbrev no_action : Sigaction
no_action = record { handler = 0; mask = 0; flags = 0 }

abbrev pub zeros {ℓ} : {A : Type ℓ} → A → ℕ → List A
zeros x zero = []
zeros x (suc n) = x ∷ zeros x n

-- ZeroMemory. WIN_RLIM_NLIMITS is 9, WIN_ATEXIT_MAX 32, WIN_NSIG 33 and WIN_OPEN_MAX 64; the entry
-- of __Strings keeps its text, which proc_dup replaces.
pub cleared_task : Process → Process
cleared_task t = record {
  flags = 0;
  task_id = 0;
  thread_id = 0;
  process_id = 0;
  processor = 0;
  started = 0;
  clock_time = 0;
  state = 0;
  handle = 0;
  parent_id = 0;
  depth = 0;
  group_id = 0;
  session_id = 0;
  ctty = 0;
  mount_id = 0;
  user_sid = no_sid;
  group_sid = no_sid;
  file_mask = 0;
  is_set_ugid = false;
  real_uid = 0;
  saved_uid = 0;
  real_gid = 0;
  saved_gid = 0;
  proc_mask = 0;
  trace_handle = 0;
  trace_points = 0;
  kernel_time = 0;
  user_time = 0;
  timer = 0;
  limit = zeros 0 9;
  at_exit = zeros 0 32;
  action = zeros no_action 33;
  node = zeros empty 64;
  path = t.path;
}

abbrev pub ps_embryo : ℕ
ps_embryo = 0x20000

abbrev ps_exec : ℕ
ps_exec = 0x2

abbrev ps_traced : ℕ
ps_traced = 0x200

abbrev state_idle : ℕ
state_idle = 1

abbrev pub state_run : ℕ
state_run = 2

-- WIN_KTRFAC_INHERIT
abbrev ktrfac_inherit : ℕ
ktrfac_inherit = 0x40000000

-- The caller and the moment, as Windows tells them.
pub record Caller : Type 0 where
  pub thread : ℕ
  pub process : ℕ
  pub on_processor : ℕ
  pub time : ℕ
  pub clock : ℕ

unfoldable pub embryo : Caller → ℕ → Process → Process
embryo w i t = record t {
  flags = ps_embryo;
  task_id = i;
  thread_id = w.thread;
  process_id = w.process;
  processor = w.on_processor;
  started = w.time;
  clock_time = w.clock;
}

-- The loop of ProcCreateTask over the tasks from place i on. One that may be reclaimed is cleared,
-- and passed.
pub create_from : Caller → ℕ → List Process → List Process × Option ℕ
create_from w i [] = ([], none)
create_from w i (t ∷ ts) =
    let (rest, found) = create_from w (suc i) ts in
    if t.flags == 0
    then (embryo w i t ∷ ts, some i)
    else ((if has t.flags ps_nozombie then cleared_task t else t) ∷ rest, found)

-- From place i, with k tasks before the offset. If no place is found, SIGABRT is raised.
pub create_above : Caller → ℕ → ℕ → List Process → List Process × Option ℕ
unfolding create_from
create_above w i zero ts = create_from w i ts
create_above w i (suc k) [] = ([], none)
create_above w i (suc k) (t ∷ ts) =
    let (rest, found) = create_above w (suc i) k ts in (t ∷ rest, found)

unfoldable pub proc_create_task : Caller → ℕ → List Process → List Process × Option ℕ
unfolding create_above
proc_create_task w offset table = create_above w 0 offset table

unfoldable pub without_answer : Files × VNode × Bool → Files × VNode
without_answer (f, n, b) = (f, n)

unfoldable pub dup_channel : Host → ℕ → VNode → VNode → Files → Files × VNode
unfolding without_answer
dup_channel sys i n r f =
    if n.access == 0
    then (f, record r { file_id = i })
    else without_answer (vfs_f_dupfd sys n n.close_exec i f)

-- The loop of ProcDupChannels from descriptor i on.
pub dup_channels : Host → ℕ → List VNode → List VNode → Files → Files × List VNode
dup_channels sys i [] rs f = (f, rs)
dup_channels sys i (n ∷ ns) [] f = (f, [])
dup_channels sys i (n ∷ ns) (r ∷ rs) f =
    let copy = dup_channel sys i n r f in
    let (f', ms) = dup_channels sys (suc i) ns rs copy.0 in (f', copy.1 ∷ ms)

-- One descriptor of ProcInheritChannels. The copies that vfs_F_INHERIT makes are those of
-- vfs_F_DUPFD, in place; into is what Windows answers for copies into the new process.
unfoldable pub inherit_channel : Host → Host → VNode → Files → Files × VNode
unfolding without_answer
inherit_channel sys into n f =
    if n.access == 0
    then (f, n)
    else if n.close_exec
    then without_answer (vfs_close sys n f)
    else if not (inherits n)
    then without_answer (duplicate_by n.fs_type into n n f)
    else (f, n)

pub inherit_channels : Host → Host → List VNode → Files → Files × List VNode
inherit_channels sys into [] f = (f, [])
inherit_channels sys into (n ∷ ns) f =
    let one = inherit_channel sys into n f in
    let (f', ms) = inherit_channels sys into ns one.0 in (f', one.1 ∷ ms)

-- WIN_THREAD_STRUCT, as far as proc_dup reads it.
pub record ThreadStart : Type 0 where
  pub thread_flags : ℕ
  pub thread_handle : ℕ

-- What tracing hands down.
unfoldable pub inherit_trace : Process → Process → Process
inherit_trace parent t =
    if has parent.trace_points ktrfac_inherit
    then record t {
      trace_handle = parent.trace_handle;
      trace_points = parent.trace_points;
      flags = bit_or t.flags ps_traced;
    }
    else t

-- The child of proc_dup, but for its channels.
unfoldable pub child_of : Process → ThreadStart → Process → Process
unfolding inherit_trace
child_of parent thread t =
    let begun =
      inherit_trace parent
        (record t { state = state_idle; flags = bit_or t.flags thread.thread_flags }) in
    record begun {
      handle = thread.thread_handle;
      parent_id = parent.task_id;
      depth = parent.depth + 1;
      group_id = parent.group_id;
      session_id = parent.session_id;
      ctty = parent.ctty;
      mount_id = parent.mount_id;
      user_sid = parent.user_sid;
      group_sid = parent.group_sid;
      file_mask = parent.file_mask;
      is_set_ugid = parent.is_set_ugid;
      real_uid = parent.real_uid;
      saved_uid = parent.saved_uid;
      real_gid = parent.real_gid;
      saved_gid = parent.saved_gid;
      proc_mask = parent.proc_mask;
      kernel_time = 0;
      user_time = 0;
      limit = parent.limit;
      at_exit = parent.at_exit;
      action = parent.action;
      path = parent.path;
    }

-- proc_dup with the place that was found; none is a null pointer, which is then used.
pub dup_into :
    Host
    → ℕ
    → ThreadStart
    → Process
    → Files
    → List Process × Option ℕ
    → Option (Files × List Process × ℕ)
unfolding dup_channels child_of
dup_into sys p thread blank f (table, none) = none
dup_into sys p thread blank f (table, some c) =
    let parent = get_or table p blank in
    let child = child_of parent thread (get_or table c blank) in
    let (f', nodes) = dup_channels sys 0 parent.node child.node f in
    some (f', set table c (record child { node = nodes }), c)

pub proc_dup :
    Host
    → Caller
    → ℕ
    → ThreadStart
    → Process
    → Files
    → List Process
    → Option (Files × List Process × ℕ)
unfolding dup_into proc_create_task
proc_dup sys w p thread blank f table =
    dup_into sys p thread blank f (proc_create_task w (get_or table p blank).group_id table)

-- What Windows answers to proc_execve: whether the token and the descriptor of the new process can
-- be had, the handle and the id of its thread where it was created, the process that calls, the
-- handle after it was taken out of another process, and whether the token is closed.
pub record ExecAnswers : Type 0 where
  pub has_token : Bool
  pub has_control : Bool
  pub created : Option (ℕ × ℕ)
  pub current_process : ℕ
  pub disinherited : ℕ → ℕ → ℕ
  pub closes_token : Bool

-- The task once the new process runs.
unfoldable pub started_task : ExecAnswers → ℕ → ℕ → List VNode → Process → Process
started_task x handle thread nodes t = record t {
  flags = bit_or t.flags ps_exec;
  thread_id = thread;
  handle =
      if not (t.process_id == x.current_process)
      then x.disinherited handle t.process_id
      else handle;
  node = nodes;
  action = zeros no_action 33;
  at_exit = zeros 0 32;
  state = state_run;
  timer = 0;
}

unfoldable pub exec_created :
    Host → Host → ExecAnswers → Process → Files → Option (ℕ × ℕ) → Files × Process × Bool
unfolding inherit_channels started_task
exec_created sys into x t f none = (f, t, false)
exec_created sys into x t f (some (handle, thread)) =
    let (f', nodes) = inherit_channels sys into t.node f in
    (f', started_task x handle thread nodes t, x.closes_token)

pub proc_execve : Host → Host → ExecAnswers → Process → Files → Files × Process × Bool
unfolding exec_created
proc_execve sys into x t f =
    if not x.has_token
    then (f, t, false)
    else if not x.has_control
    then (f, t, false)
    else exec_created sys into x t f x.created

-- A process id in the bounds of the table.
unfoldable pub pid_in_bounds : ℤ → Option ℕ
pid_in_bounds (pos n) = if ltb n child_max then some n else none
pid_in_bounds (negsuc n) = none

-- __getpgid, by the caller's place in the table.
pub getpgid : Process → ℕ → List Process → Option ℕ → Reply
getpgid blank caller table none = error einval
getpgid blank caller table (some zero) = value (get_or table caller blank).group_id
getpgid blank caller table (some (suc n)) = value (get_or table (suc n) blank).group_id

pub sys_getpgid : Process → ℕ → List Process → ℤ → Reply
unfolding getpgid pid_in_bounds
sys_getpgid blank caller table pid = getpgid blank caller table (pid_in_bounds pid)

unfoldable pub put_group : Process → ℕ → ℕ → List Process → List Process
put_group blank pid pgid table =
    let t = get_or table pid blank in
    set table pid (record t { group_id = if pgid == 0 then t.task_id else pgid })

pub setpgid : Process → ℕ → List Process → ℕ → Option ℕ → List Process × Reply
unfolding put_group
setpgid blank caller table pgid none = (table, error einval)
setpgid blank caller table pgid (some pid) =
    let place = if pid == 0 then (get_or table caller blank).task_id else pid in
    (put_group blank place pgid table, value 0)

pub sys_setpgid : Process → ℕ → List Process → ℤ → ℕ → List Process × Reply
unfolding setpgid pid_in_bounds
sys_setpgid blank caller table pid pgid = setpgid blank caller table pgid (pid_in_bounds pid)

-- sys_getdtablecount, over the OPEN_MAX nodes.
pub sys_getdtablecount : List VNode → ℕ
sys_getdtablecount [] = 0
sys_getdtablecount (n ∷ ns) = (if n.access == 0 then 0 else 1) + sys_getdtablecount ns
