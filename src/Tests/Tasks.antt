-- ===== src/Tests/Tasks.antt =====
-- A table of three tasks: the init task, one that may be reclaimed, and a free place.
use minc.Prelude.{ℕ, ◌≡◌, ◌≢◌, refl, true, false, none, some, List, [], ◌∷◌, get_elem?, arith, set}
use minc.Descriptor.{VNode, Host, Files, empty, fs_disk}
use minc.Acl.{Sid}
use minc.Process.{
  Process, Caller, ThreadStart, ExecAnswers, embryo, cleared_task, proc_create_task, proc_dup,
  proc_execve,
}
use minc.Process.Slots.{SearchedFrom, proc_create_task-Searched, proc_create_task_again}
use minc.Process.Channels.{Copied, Inherited, proc_dup-Copied, proc_execve-Inherited}

abbrev sid : Sid
sid = record { authority = 5; sub_authority = 500 ∷ [] }

abbrev shell_node : VNode
shell_node = record empty { fs_type = fs_disk; access = 1; handle = 40; close_exec = true }

abbrev used : ℕ → ℕ → Process
used i flags = record {
  flags = flags;
  task_id = i;
  thread_id = 7;
  process_id = 70;
  processor = 0;
  started = 100;
  clock_time = 100;
  state = 2;
  handle = 20;
  parent_id = 0;
  depth = 0;
  group_id = 0;
  session_id = 0;
  ctty = 1;
  mount_id = 3;
  user_sid = sid;
  group_sid = sid;
  file_mask = 18;
  is_set_ugid = false;
  real_uid = 0;
  saved_uid = 0;
  real_gid = 0;
  saved_gid = 0;
  proc_mask = 0;
  trace_handle = 0;
  trace_points = 0;
  kernel_time = 5;
  user_time = 6;
  timer = 0;
  limit = [];
  at_exit = [];
  action = [];
  node = shell_node ∷ [];
  path = [];
}

abbrev caller : Caller
caller = record { thread = 8; process = 70; on_processor = 1; time = 200; clock = 200 }

abbrev table : List Process
table = used 0 0x10000 ∷ used 1 0x4000 ∷ used 2 0 ∷ []

abbrev full : List Process
full = used 0 0x10000 ∷ used 1 0x4000 ∷ []

abbrev sys : Host
sys = record {
  duplicate_handle = λ h i. some 99;
  access_of = λ h. 1;
  closes_handle = λ h. true;
  closes_search = λ h. true;
  closes_socket = λ h. true;
  closes_event = λ h. true;
  sets_event = λ h. true;
  error = 0;
  unlocks = λ h o n. true;
  unlock_error = 0;
  locks = λ h o n k. true;
  sets_pipe_state = λ h m. true;
  selects_events = λ s h e. true;
  device_input = λ d. 1;
  device_output = λ d. 2;
  device_event = λ d. 3;
  device_fs_type = λ d. fs_disk;
}

abbrev files : Files
files = record { nodes = shell_node ∷ []; calls = []; last_error = 0 }

abbrev thread : ThreadStart
thread = record { thread_flags = 0x40; thread_handle = 55 }

abbrev answers : ExecAnswers
answers = record {
  has_token = true;
  has_control = true;
  created = some (60, 9);
  current_process = 70;
  disinherited = λ h p. h;
  closes_token = true;
}

proc_create_task-Searched_example : SearchedFrom caller 1 table (proc_create_task caller 1 table)
proc_create_task-Searched_example = proc_create_task-Searched caller 1 table

proc_create_task_again_example :
    (proc_create_task caller 0 (proc_create_task caller 0 full).0).1 ≢ none
unfolding proc_create_task
proc_create_task_again_example =
    proc_create_task_again caller 0 full 1 (used 1 0x4000) refl refl refl

abbrev made : List Process
made = used 0 0x10000 ∷ cleared_task (used 1 0x4000) ∷ embryo caller 2 (used 2 0) ∷ []

proc_dup-Copied_example :
    (f' : Files) × (child : Process) × (m : VNode) × (proc_dup sys caller 0 thread
        (used 0 0)
        files
        table
      ≡ some (f', set made 2 child, 2))
    × (get_elem? (set made 2 child) 2 ≡ some child)
    × (get_elem? child.node 0 ≡ some m)
    × Copied 0 shell_node shell_node m
    × (child.group_id ≡ 0)
    × (child.session_id ≡ 0)
    × (child.ctty ≡ 1)
    × (child.proc_mask ≡ 0)
    × (child.action ≡ [])
    × (child.parent_id ≡ 0)
    × (child.kernel_time ≡ 0)
    × (child.user_time ≡ 0)
unfolding proc_create_task embryo
proc_dup-Copied_example =
    proc_dup-Copied sys caller 0 thread (used 0 0) files table made 2 0 shell_node shell_node refl
      (omega arith) refl refl

proc_execve-Inherited_example :
    (m : VNode) × (get_elem? (proc_execve sys sys answers (used 2 0) files).1.node 0 ≡ some m)
    × Inherited sys shell_node m
proc_execve-Inherited_example =
    proc_execve-Inherited sys sys answers (used 2 0) files 60 9 0 shell_node refl refl refl refl
