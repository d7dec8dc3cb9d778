-- ===== src/Signal/Action/Protected.antt =====
-- SIGKILL and SIGSTOP can be neither caught nor blocked.
use minc.Prelude.{
  ℕ, ◌<◌, true, false, ◌≡◌, ◌≢◌, ◌⊎◌, refl, sym, Option, none, some, get_elem?, set, length,
  get_elem?-set_self, get_elem?-set_ne, bit_and, bit_or, ◌==◌, lt→ltb, if_lem, arith,
}
use minc.Prelude.Bits.{bit, bit-bit_and, bit-bit_or}
use minc.Prelude.Int.{pos}
use minc.Errno.{Errno, einval}
use minc.Signal.{Task}
use minc.Signal.Action.{
  sys_sigaction, sigaction_at, sys_sigprocmask, changed_mask, blockable, new_action, is_protected,
  complement, Act,
}

is_protected-true : (n : ℕ) → (n ≡ 9) ⊎ (n ≡ 17) → is_protected n ≡ true
unfolding is_protected
is_protected-true n h = ground arith

is_protected-false : (n : ℕ) → n ≢ 9 → n ≢ 17 → is_protected n ≡ false
unfolding is_protected
is_protected-false n h k = ground arith

-- In a task with NSIG actions, sigaction on the signals 9 (SIGKILL) and 17 (SIGSTOP) fails with
-- EINVAL and changes nothing in the task. On any other signal below NSIG it succeeds, sets the
-- action of that signal to the new one, and leaves the action of every other signal as it was.
pub sys_sigaction-protects :
    (t : Task) (n : ℕ) (act : Act)
    → n < 33
    → length t.action ≡ 33
    → ((n ≡ 9) ⊎ (n ≡ 17)
        → ((sys_sigaction t (pos n) act).result ≡ some einval)
          × ((sys_sigaction t (pos n) act).task ≡ t))
      × (n ≢ 9
          → n ≢ 17
          → ((sys_sigaction t (pos n) act).result ≡ none)
            × (get_elem? (sys_sigaction t (pos n) act).task.action n ≡ some (new_action act))
            × ((m : ℕ)
                → m ≢ n
                → get_elem? (sys_sigaction t (pos n) act).task.action m ≡ get_elem? t.action m))
unfolding sys_sigaction sigaction_at
sys_sigaction-protects t n act h len = rw (lt→ltb n 33 h) (
  (λ p. rw (is_protected-true n p) (refl, refl)),
  (λ p q. rw (is_protected-false n p q) (
    refl,
    get_elem?-set_self t.action n (new_action act) (omega (arith, len)),
    (λ m d. get_elem?-set_ne t.action (new_action act) (λ e. d (sym e))),
  )),
)

-- The digits of the mask that stand for SIGKILL and SIGSTOP are 0.
pub record NeverBlocked (mask : ℕ) : Type 0 where
  pub kill : bit 8 mask ≡ 0
  pub stop : bit 16 mask ≡ 0

blockable-NeverBlocked : (set : ℕ) → NeverBlocked (blockable set)
unfolding blockable complement bit
blockable-NeverBlocked set = record {
  kill = omega (arith, bit-bit_and 8 set 4294901503);
  stop = omega (arith, bit-bit_and 16 set 4294901503);
}

joined : (a b : ℕ) → NeverBlocked a → NeverBlocked b → NeverBlocked (bit_or a b)
joined a b p q = record {
  kill = omega (arith, bit-bit_or 8 a b, p.kill, q.kill);
  stop = omega (arith, bit-bit_or 16 a b, p.stop, q.stop);
}

met : (a b : ℕ) → NeverBlocked a → NeverBlocked (bit_and a b)
met a b p = record {
  kill = omega (arith, bit-bit_and 8 a b, p.kill);
  stop = omega (arith, bit-bit_and 16 a b, p.stop);
}

changed_mask-NeverBlocked :
    (how curset newset : ℕ)
    → NeverBlocked curset
    → NeverBlocked newset
    → NeverBlocked (changed_mask how curset newset)
unfolding changed_mask complement
changed_mask-NeverBlocked how curset newset c n =
    if_lem NeverBlocked (how == 1) (joined curset newset c n) (
      if_lem NeverBlocked (how == 2) (met curset (complement newset) c)
        (if_lem NeverBlocked (how == 3) n c))

-- Whatever its arguments, sigprocmask leaves SIGKILL and SIGSTOP unblocked in a task where they
-- are.
pub sys_sigprocmask-NeverBlocked :
    (t : Task) (how : ℕ) (set : Option ℕ)
    → NeverBlocked t.proc_mask
    → NeverBlocked (sys_sigprocmask t how set).1.proc_mask
unfolding sys_sigprocmask complement
sys_sigprocmask-NeverBlocked t how none h =
    if_lem {A = Option Errno × Task × ℕ} (λ r. NeverBlocked r.1.proc_mask)
      (bit_and how (complement 3) == 0) h h
sys_sigprocmask-NeverBlocked t how (some given) h =
    if_lem {A = Option Errno × Task × ℕ} (λ r. NeverBlocked r.1.proc_mask)
      (bit_and how (complement 3) == 0)
      (changed_mask-NeverBlocked how t.proc_mask (blockable given) h (blockable-NeverBlocked given))
      h
