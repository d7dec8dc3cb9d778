-- ===== src/Signal/Action.antt =====
-- libposix/sys/signal.c: the system calls on a task's own signals. The flags SIG_BLOCK,
-- SIG_UNBLOCK and SIG_SETMASK are 1, 2 and 3 (<signal.h>); a sigset_t has 32 bits, of which that
-- of weight 2 ^ (s - 1) is signal s.
pub mod Protected
use minc.Prelude.{
  ℕ, zero, suc, ◌+◌, ◌-◌, Bool, true, false, ◌||◌, List, [], ◌∷◌, Option, none, some, bit_and,
  bit_or, ltb, ◌==◌, if◌then◌else◌, get_elem?, get_or, set,
}
use minc.Prelude.Int.{ℤ, pos, negsuc}
use minc.Errno.{Errno, einval, efault}
use minc.Signal.{Sigaction, Task, Call, sig_dfl, sig_ign, nsig, trace_struct}

-- SIGKILL, SIGSTOP, BIT_SIGKILL, BIT_SIGSTOP
abbrev pub sigkill : ℕ
sigkill = 9

abbrev pub sigstop : ℕ
sigstop = 17

abbrev pub bit_sigkill : ℕ
bit_sigkill = 0x00000100

abbrev pub bit_sigstop : ℕ
bit_sigstop = 0x00010000

-- ~mask on 32 bits
unfoldable pub complement : ℕ → ℕ
complement mask = 4294967295 - mask

-- The argument act of sigaction: SIG_DFL (a null pointer) or SIG_IGN, or a pointer to a structure.
pub data Act : Type 0 where
  default : Act
  ignore : Act
  pointer : Sigaction → Act

abbrev pub no_action : Sigaction
no_action = record { handler = sig_dfl; mask = 0; flags = 0 }

-- tmp, in sys_sigaction
unfoldable pub new_action : Act → Sigaction
new_action default = record { handler = sig_dfl; mask = 0; flags = 0 }
new_action ignore = record { handler = sig_ign; mask = 0; flags = 0 }
new_action (pointer a) = a

-- Besides the result and the task: *oldact, which is written only if the signal is valid, and the
-- record for ktrace.
pub record Answer : Type 0 where
  pub result : Option Errno
  pub task : Task
  pub old : Option Sigaction
  pub traced : List Call

unfoldable pub is_protected : ℕ → Bool
is_protected signum = (signum == sigkill) || (signum == sigstop)

-- sys_sigaction, for a signal that is not negative
unfoldable pub sigaction_at : Task → ℕ → Act → Answer
sigaction_at t signum act =
    if ltb signum nsig
    then record {
      result = if is_protected signum then some einval else none;
      task =
          if is_protected signum
          then t
          else record t { action = set t.action signum (new_action act) };
      old = some (get_or t.action signum no_action);
      traced = if t.trace_structs then trace_struct (new_action act) ∷ [] else [];
    }
    else record { result = some einval; task = t; old = none; traced = [] }

unfoldable pub sys_sigaction : Task → ℤ → Act → Answer
sys_sigaction t (pos signum) act = sigaction_at t signum act
sys_sigaction t (negsuc n) act = record { result = some einval; task = t; old = none; traced = [] }

-- The new mask; `how` has passed the test.
unfoldable pub changed_mask : ℕ → ℕ → ℕ → ℕ
unfolding complement
changed_mask how curset newset =
    if how == 1
    then bit_or curset newset
    else if how == 2
    then bit_and curset (complement newset)
    else if how == 3
    then newset
    else curset

-- *set & ~(BIT_SIGKILL | BIT_SIGSTOP)
unfoldable pub blockable : ℕ → ℕ
unfolding complement
blockable set = bit_and set (complement (bit_or bit_sigkill bit_sigstop))

-- sys_sigprocmask: the result, the task, and *oldset. `how` is an int read as 32 bits, and `set`
-- is none for a null pointer.
unfoldable pub sys_sigprocmask : Task → ℕ → Option ℕ → Option Errno × Task × ℕ
unfolding complement
sys_sigprocmask t how none =
    if bit_and how (complement 3) == 0
    then (some efault, t, t.proc_mask)
    else (some einval, t, t.proc_mask)
sys_sigprocmask t how (some set) =
    if bit_and how (complement 3) == 0
    then (none, record t { proc_mask = changed_mask how t.proc_mask (blockable set) }, t.proc_mask)
    else (some einval, t, t.proc_mask)

-- sys_sigpending: the result, and *set, which is written unless `present` is false (a null pointer).
unfoldable pub sys_sigpending : Task → Bool → Option Errno × Option ℕ
sys_sigpending t present = if present then (none, some t.pending) else (some efault, none)
