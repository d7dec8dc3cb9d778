-- ===== src/Signal.antt =====
-- libposix/sys/signal.c and libposix/vfs/vfs_signal.c: signals. The data: the fields of WIN_TASK
-- (include/vfs_types.h) that signals use, and what the operating system is asked to do. A
-- signal travels as a message of Windows that carries its CTRL_ event.
pub mod Tables
pub mod Action
pub mod Deliver
pub mod Kill
pub mod Exception
pub mod Suspend
use minc.Prelude.{ℕ, Bool, List, Option}
use minc.Errno.{Errno}

-- struct sigaction; the handler is an address, of which SIG_DFL, SIG_IGN and SIG_ERR are special.
pub record Sigaction : Type 0 where
  pub handler : ℕ
  pub mask : ℕ
  pub flags : ℕ

abbrev pub sig_dfl : ℕ
sig_dfl = 0

abbrev pub sig_ign : ℕ
sig_ign = 1

-- (sig_t)-1
abbrev pub sig_err : ℕ
sig_err = 4294967295

-- WIN_TASK; `trace_structs` and `trace_signals` are the bits KTRFAC_STRUCT and KTRFAC_PSIG of
-- TracePoints.
pub record Task : Type 0 where
  pub thread_id : ℕ
  pub status : ℕ
  pub task_id : ℕ
  pub parent_id : ℕ
  pub group_id : ℕ
  pub flags : ℕ
  pub trace_structs : Bool
  pub trace_signals : Bool
  pub proc_mask : ℕ
  pub pending : ℕ
  pub error : ℕ
  pub action : List Sigaction

-- NSIG and CHILD_MAX
abbrev pub nsig : ℕ
nsig = 33

abbrev pub child_max : ℕ
child_max = 80

-- What signal code does outside the task: records for ktrace, messages with their thread, event
-- and sender, the event __Interrupt, a wait for a message under a mask, the end of the process,
-- and the handlers of the program.
pub data Call : Type 0 where
  trace_struct : Sigaction → Call
  trace_signal : ℕ → ℕ → Call
  post_message : ℕ → ℕ → ℕ → Call
  set_interrupt : Call
  suspend : ℕ → Call
  exit : ℕ → Call
  call_handler : ℕ → ℕ → Call
  call_action : ℕ → ℕ → Call

-- What the operating system answers: whether a message to a thread is accepted, whether the event
-- can be set, and whether the caller is an administrator.
pub record System : Type 0 where
  pub posts : ℕ → ℕ → Bool
  pub post_error : ℕ
  pub sets_event : Bool
  pub event_error : ℕ
  pub is_admin : Bool

-- The calls made so far, the latest first, and the last error of Windows.
pub record Kernel : Type 0 where
  pub calls : List Call
  pub last_error : ℕ

-- The int that a system call returns: 0 (none) or an error; `undefined` stands for a read outside
-- the table of tasks or that of signals.
pub data Outcome : Type 0 where
  returned : Option Errno → Outcome
  undefined : Outcome
