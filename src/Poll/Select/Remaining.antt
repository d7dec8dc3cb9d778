-- ===== src/Poll/Select/Remaining.antt =====
-- Which descriptors select hands back: proofs.
use minc.Prelude.{
  ℕ, zero, suc, ◌+◌, ◌≤◌, ◌≡◌, Bool, true, Option, none, some, List, [], ◌∷◌, ◌++◌, length, take,
  drop, ltb, if◌then◌else◌, if_lem, arith,
}
use minc.Prelude.Int.{ℤ, pos, negsuc}
use minc.Descriptor.{VNode}
use minc.Descriptor.Flags.{has}
use minc.Descriptor.Table.{Reply}
use minc.Termio.{Device}
use minc.Poll.{PollFd, maximum_wait_events, Look, Slept, Polled, vfs_poll, watched}
use minc.Poll.Select.{
  read_flags, write_flags, error_flags, fdset_select, Sets, selected, events_of, select_result,
  infos, select_reply, sys_select,
}

-- Every descriptor of the one set is in the other.
abbrev pub Within : List Bool → List Bool → Type 0
Within [] bits = Unit {0}
Within (a ∷ left) [] = ⊥
Within (a ∷ left) (b ∷ bits) = (a ≡ true → b ≡ true) × Within left bits

-- The same of sets that may be null, together.
abbrev pub WithinOption : Option (List Bool) → Option (List Bool) → Type 0
WithinOption none none = Unit {0}
WithinOption (some a) (some b) = Within a b
WithinOption none (some b) = ⊥
WithinOption (some a) none = ⊥

abbrev pub AllWithin : Sets → Sets → Type 0
AllWithin s t =
    WithinOption s.reads t.reads × WithinOption s.writes t.writes × WithinOption s.errors t.errors

-- How many of the first k descriptors are in the set.
abbrev pub bits_set : ℕ → List Bool → ℕ
bits_set zero bits = 0
bits_set (suc k) [] = 0
bits_set (suc k) (b ∷ bits) = (if b then 1 else 0) + bits_set k bits

Within-self : (bits : List Bool) → Within bits bits
Within-self [] = tt
Within-self (b ∷ bits) = ((λ h. h), Within-self bits)

Within-self_option : (o : Option (List Bool)) → WithinOption o o
Within-self_option none = tt
Within-self_option (some bits) = Within-self bits

-- fdset_select keeps a part of the set, and counts at least the descriptors that it keeps; it
-- counts more where a descriptor that is not in the set has an event.
pub fdset_select_lem :
    (bits : List Bool) (ps : List PollFd) (flags : ℕ)
    → Within (fdset_select bits ps flags).0 bits
      × (bits_set (length ps) (fdset_select bits ps flags).0 ≤ (fdset_select bits ps flags).1)
unfolding fdset_select
fdset_select_lem bits [] flags = (Within-self bits, omega arith)
fdset_select_lem [] (p ∷ ps) flags = (tt, omega arith)
fdset_select_lem (b ∷ bits) (p ∷ ps) flags =
    let ih = fdset_select_lem bits ps flags in
    if_lem {A = List Bool × ℕ} (λ r. Within r.0 (b ∷ bits) × (bits_set (suc (length ps)) r.0 ≤ r.1))
      (has p.revents flags) (((λ h. h), ih.0), ground (arith, ih.1))
      (((λ h. cc), ih.0), ground (arith, ih.1))

selected-Within :
    (o : Option (List Bool)) (ps : List PollFd) (flags : ℕ) → WithinOption (selected o ps flags).0 o
unfolding selected
selected-Within none ps flags = tt
selected-Within (some bits) ps flags = (fdset_select_lem bits ps flags).0

-- What select hands back.
abbrev Handed : Sets → Option (Sets × Reply) → Type 0
Handed s none = Unit {0}
Handed s (some (t, r)) = AllWithin t s

AllWithin-self : (s : Sets) → AllWithin s s
AllWithin-self s =
    (Within-self_option s.reads, Within-self_option s.writes, Within-self_option s.errors)

reply-Handed :
    (s : Sets) (behind : List PollFd) (o : Option Polled) → Handed s (select_reply s behind o)
unfolding select_reply select_result
reply-Handed s behind none = tt
reply-Handed s behind (some (es, none, e)) = AllWithin-self s
reply-Handed s behind (some (es, some (n, left), e)) =
    let ps = infos es ++ behind in
    (
      selected-Within s.reads ps read_flags,
      selected-Within s.writes ps write_flags,
      selected-Within s.errors ps error_flags,
    )

-- Whatever select returns, every descriptor in a set that it hands back was in that set before, and
-- a set that was null still is.
pub sys_select-Handed :
    (devices : ℕ → Device) (nodes : List VNode) (nfds : ℤ) (s : Sets) (time : ℕ) (look : Look)
    (sleeps : List Slept)
    → Handed s (sys_select devices nodes nfds s time look sleeps)
unfolding sys_select
sys_select-Handed devices nodes (negsuc n) s time look sleeps = AllWithin-self s
sys_select-Handed devices nodes (pos n) s time look sleeps =
    let count = if ltb maximum_wait_events n then maximum_wait_events else n in
    reply-Handed s (drop count (events_of s))
      (vfs_poll devices time look sleeps (watched nodes (take count (events_of s))))
