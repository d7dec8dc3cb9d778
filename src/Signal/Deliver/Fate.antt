-- ===== src/Signal/Deliver/Fate.antt =====
-- The default action of every signal, against the table of signal(2).
use minc.Prelude.{
  ℕ, suc, zero, ◌<◌, not, bit_and, sym, ap, ◌∙◌, Bool, true, false, ◌≡◌, ◌≢◌, refl, List, [], ◌∷◌,
  ◌==◌, ◌||◌, if◌then◌else◌, arith,
}
use minc.Prelude.Words.{table, table_sound}
use minc.Signal.{Task, Call, suspend, set_interrupt, exit}
use minc.Signal.Deliver.{
  sigproc_default, Delivery, sigmask, sigmask_stop, sigmask_ignore, wstopped, discarded,
}
use minc.Signal.Action.{complement}

-- What signal(2) of OpenBSD lists for a signal from 1 to 31: to stop the process, to discard the
-- signal, or to terminate the process. 32 is put with the last.
pub data Fate : Type 0 where
  stops : Fate
  discards : Fate
  terminates : Fate

abbrev stop_signals : List ℕ
stop_signals = 17 ∷ 18 ∷ 21 ∷ 22 ∷ []

abbrev discarded_signals : List ℕ
discarded_signals = 16 ∷ 19 ∷ 20 ∷ 23 ∷ 28 ∷ 29 ∷ []

abbrev listed : ℕ → List ℕ → Bool
listed n [] = false
listed n (m ∷ ms) = (n == m) || listed n ms

unfoldable pub fate : ℕ → Fate
fate n =
    if listed n stop_signals
    then stops
    else if listed n discarded_signals
    then discards
    else terminates

-- What a fate does to the task and calls for.
unfoldable pub suffer : Task → ℕ → List Call → Fate → Delivery
suffer t n cs stops = record {
  task = record t { status = wstopped };
  calls = suspend 0 ∷ set_interrupt ∷ cs;
  verdict = discarded;
}
suffer t n cs discards = record { task = t; calls = cs; verdict = discarded }
suffer t n cs terminates = record {
  task = record t { status = n };
  calls = exit 127 ∷ cs;
  verdict = discarded;
}

unfoldable code : Fate → ℕ
code stops = 0
code discards = 1
code terminates = 2

-- The fate by the masks of sigproc_default.
unfoldable decided : ℕ → Fate
unfolding sigmask complement
decided n =
    if not (bit_and (sigmask n) sigmask_stop == 0)
    then stops
    else if not (bit_and (sigmask n) (complement sigmask_ignore) == 0)
    then terminates
    else discards

sigproc_default-decided :
    (t : Task) (n : ℕ) (cs : List Call) → sigproc_default t n cs ≡ suffer t n cs (decided n)
unfolding sigproc_default decided suffer
sigproc_default-decided t n cs =
    branches (not (bit_and (sigmask n) sigmask_stop == 0))
      (not (bit_and (sigmask n) (complement sigmask_ignore) == 0))
  where
    branches :
        (a b : Bool)
        → (if a
            then suffer t n cs stops
            else if b
            then suffer t n cs terminates
            else suffer t n cs discards)
          ≡ suffer t n cs (if a then stops else if b then terminates else discards)
    branches true b = refl
    branches false true = refl
    branches false false = refl

fate_of : ℕ → Fate
fate_of zero = stops
fate_of (suc zero) = discards
fate_of (suc (suc n)) = terminates

fate_of-code : (f : Fate) → fate_of (code f) ≡ f
unfolding fate_of code
fate_of-code stops = refl
fate_of-code discards = refl
fate_of-code terminates = refl

-- The table of signal(2), with SIGCONT among the stop signals.
unfoldable with_continue : ℕ → Fate
unfolding fate
with_continue n = if n == 19 then stops else fate n

decided-table : table (λ n. code (decided (suc n))) (λ n. code (with_continue (suc n))) 32 ≡ true
unfolding table code decided with_continue
decided-table = refl

decided-with_continue : (n : ℕ) → n < 32 → decided (suc n) ≡ with_continue (suc n)
decided-with_continue n h =
    sym (fate_of-code (decided (suc n)))
    ∙ ap fate_of (
        table_sound (λ n. code (decided (suc n))) (λ n. code (with_continue (suc n))) 32
          decided-table n h)
    ∙ fate_of-code (with_continue (suc n))

decided_continue : (n : ℕ) → n < 32 → suc n ≡ 19 → decided (suc n) ≡ stops
unfolding with_continue
decided_continue n h e = ground (arith, decided-with_continue n h)

decided_other : (n : ℕ) → n < 32 → suc n ≢ 19 → decided (suc n) ≡ fate (suc n)
unfolding with_continue
decided_other n h e = ground (arith, decided-with_continue n h)

-- With the default action, every signal from 1 to 31 but SIGCONT (19) does to a task what signal(2)
-- lists for it: SIGSTOP, SIGTSTP, SIGTTIN and SIGTTOU mark it as stopped, raise the event
-- __Interrupt and wait with an empty mask; SIGURG, SIGCHLD, SIGIO, SIGWINCH and SIGINFO leave it
-- as it was; all others record the signal as its status and end the process, and so does 32.
-- SIGCONT, which signal(2) discards, does what the stop signals do. In every case the result is -1.
pub sigproc_default-fate :
    (t : Task) (n : ℕ) (cs : List Call)
    → n < 32
    → (suc n ≢ 19 → sigproc_default t (suc n) cs ≡ suffer t (suc n) cs (fate (suc n)))
      × (suc n ≡ 19 → sigproc_default t (suc n) cs ≡ suffer t (suc n) cs stops)
sigproc_default-fate t n cs h = (
  (λ e. sigproc_default-decided t (suc n) cs ∙ ap (suffer t (suc n) cs) (decided_other n h e)),
  (λ e. sigproc_default-decided t (suc n) cs ∙ ap (suffer t (suc n) cs) (decided_continue n h e)),
)
