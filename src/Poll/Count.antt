-- ===== src/Poll/Count.antt =====
-- What the number that poll returns counts: proofs.
use minc.Prelude.{
  ℕ, zero, suc, ◌+◌, ◌≡◌, refl, sym, ap, ◌∙◌, inl, inr, Bool, true, Option, none, some, List, [],
  ◌∷◌, length, ltb, ◌==◌, if◌then◌else◌, Bool-cases, if_lem, arith,
}
use minc.Prelude.Int.{ℤ}
use minc.Errno.{Errno, errno_posix}
use minc.Descriptor.{
  VNode, VType, vchr, vsock, vfifo, FsType, fs_disk, fs_char, fs_pipe, fs_mailslot, fs_pdo,
  fs_winsock,
}
use minc.Descriptor.Table.{Reply, value, error, negated}
use minc.Termio.{
  DevKind, dev_console, dev_input, dev_screen, dev_pty, dev_tty, dev_other, kind_of, Device,
}
use minc.Poll.{
  PollFd, Entry, maximum_wait_events, Look, Slept, sleep_failed, slept, Seen, seen, masked,
  mail_events, input_seen, Polled, char_poll, pipe_poll, pdo_poll, poll_node, look_at, poll_no_wait,
  poll_step, vfs_poll, watched, pollfd_win, poll_reply, poll_entries, time_of, sys_poll,
}

-- 1 for an event, 0 for none.
abbrev pub one_if : ℕ → ℕ
one_if revents = if revents == 0 then 0 else 1

abbrev pub ready_one : Option VNode → ℕ → ℕ
ready_one none revents = 0
ready_one (some n) revents = one_if revents

-- The watched entries that have events.
abbrev pub count_ready : List Entry → ℕ
count_ready [] = 0
count_ready (e ∷ es) = ready_one e.node e.info.revents + count_ready es

-- A file that one driver alone answers for: any but a console or its pseudo terminal.
abbrev pub HasOneDriver : FsType → DevKind → Type 0
HasOneDriver fs_char dev_console = ⊥
HasOneDriver fs_char dev_pty = ⊥
HasOneDriver _ _ = Unit {0}

abbrev pub IsSingle : Option VNode → Type 0
IsSingle none = Unit {0}
IsSingle (some n) = HasOneDriver n.fs_type (kind_of n.device_type)

abbrev pub AllSingle : List Entry → Type 0
AllSingle [] = Unit {0}
AllSingle (e ∷ es) = IsSingle e.node × AllSingle es

-- A driver that succeeded added one for an event.
abbrev Counts : Seen → Type 0
Counts s = s.fine ≡ true → s.counted ≡ one_if s.info.revents

seen-Counts : (info : PollFd) (r : ℕ) (b : Bool) → Counts (seen info r b)
unfolding seen
seen-Counts info r b h = refl

masked-Counts : (info : PollFd) (o : Option ℕ) → Counts (masked info o)
unfolding masked
masked-Counts info none h = refl
masked-Counts info (some s) h = refl

input-Counts : (info : PollFd) (o : ℕ × Bool) → Counts (input_seen info o)
unfolding input_seen
input-Counts info (s, fine) h = refl

module _ (devices : ℕ → Device) (look : Look) where
  char_poll-Counts :
      (k : DevKind) (n : VNode) (info : PollFd)
      → HasOneDriver fs_char k
      → Counts (char_poll devices look k n info)
  unfolding char_poll
  char_poll-Counts dev_console n info s h = absurd s
  char_poll-Counts dev_pty n info s h = absurd s
  char_poll-Counts dev_input n info s h = input-Counts info (look.input_events n.handle) h
  char_poll-Counts dev_screen n info s h = refl
  char_poll-Counts dev_tty n info s h = cc
  char_poll-Counts dev_other n info s h = cc

  pipe_poll-Counts :
      (t : VType) (n : VNode) (info : PollFd) → Counts (pipe_poll devices look t n info)
  unfolding pipe_poll
  pipe_poll-Counts vsock n info h = masked-Counts info (look.pipe_events n) h
  pipe_poll-Counts vchr n info h = masked-Counts info (look.pipe_events n) h
  pipe_poll-Counts vfifo n info h = masked-Counts info (look.pipe_events n) h
  pipe_poll-Counts _ n info h = cc

  pdo_poll-Counts :
      (t : FsType) (d : Device) (info : PollFd) → Counts (pdo_poll devices look t d info)
  unfolding pdo_poll
  pdo_poll-Counts fs_char d info h = input-Counts info (look.input_events d.input) h
  pdo_poll-Counts fs_mailslot d info h = masked-Counts info (mail_events (look.mailslot d.input)) h
  pdo_poll-Counts _ d info h = cc

  poll_node-Counts :
      (t : FsType) (n : VNode) (info : PollFd)
      → HasOneDriver t (kind_of n.device_type)
      → Counts (poll_node devices look t n info)
  unfolding poll_node
  poll_node-Counts fs_char n info s h = char_poll-Counts (kind_of n.device_type) n info s h
  poll_node-Counts fs_pipe n info s h = pipe_poll-Counts n.file_type n info h
  poll_node-Counts fs_pdo n info s h =
      pdo_poll-Counts (devices n.device_id).fs_type (devices n.device_id) info h
  poll_node-Counts fs_mailslot n info s h =
      masked-Counts info (mail_events (look.mailslot n.handle)) h
  poll_node-Counts fs_disk n info s h = refl
  poll_node-Counts fs_winsock n info s h = masked-Counts info (look.socket_events n) h
  poll_node-Counts _ n info s h = cc

  look_at_counts :
      (e : Entry) (o : Option VNode)
      → IsSingle o
      → (look_at devices look e o).fine ≡ true
      → (look_at devices look e o).counted ≡ ready_one o (look_at devices look e o).info.revents
  unfolding look_at
  look_at_counts e none s h = refl
  look_at_counts e (some n) s h = poll_node-Counts n.fs_type n e.info s h

  -- PollNoWait counts, and watches the same nodes.
  abbrev Counted : ℕ → List Entry × Option ℕ → Type 0
  Counted c (es, none) = AllSingle es
  Counted c (es, some k) = (k ≡ c + count_ready es) × AllSingle es

  Counted-step :
      (c : ℕ) (e : Entry) (es : List Entry) (s : Seen) (rest : List Entry × Option ℕ)
      → IsSingle e.node
      → AllSingle es
      → (s.fine ≡ true → s.counted ≡ ready_one e.node s.info.revents)
      → Counted (c + s.counted) rest
      → Counted c (
          if s.fine
          then (record e { info = s.info } ∷ rest.0, rest.1)
          else (record e { info = s.info } ∷ es, none))
  Counted-step c e es s (r, none) i a h k =
      if_lem {A = List Entry × Option ℕ} (Counted c) s.fine (i, k) (i, a)
  Counted-step c e es s (r, some n) i a h k = elim (Bool-cases s.fine) [
    | inl p ↦ rw p (omega (arith, h p, k.0), (i, k.1))
    | inr q ↦ rw q (i, a)
  ]

  poll_no_wait-Counted :
      (c : ℕ) (es : List Entry) → AllSingle es → Counted c (poll_no_wait devices look c es)
  unfolding poll_no_wait
  poll_no_wait-Counted c [] a = (omega arith, tt)
  poll_no_wait-Counted c (e ∷ es) a =
      let s = look_at devices look e e.node in
      Counted-step c e es s (poll_no_wait devices look (c + s.counted) es) a.0 a.1
        (look_at_counts e e.node a.0) (poll_no_wait-Counted (c + s.counted) es a.1)

-- The parts of what poll gives.
abbrev number_of : Option (List Entry × Reply) → ℕ
number_of none = 0
number_of (some (es, value k)) = k
number_of (some (es, error e)) = 0

abbrev entries_of : Option (List Entry × Reply) → List Entry
entries_of none = []
entries_of (some (es, r)) = es

-- A poll that succeeded has counted.
abbrev RightCount : Option Polled → Type 0
RightCount none = Unit {0}
RightCount (some (es, none, e)) = Unit {0}
RightCount (some (es, some (n, left), e)) = n ≡ count_ready es

module _ (devices : ℕ → Device) where
  RightCount-step :
      (time : ℕ) (look : Look) (r : List Entry × Option ℕ) (asleep : Option Polled)
      → Counted devices look 0 r
      → (AllSingle r.0 → RightCount asleep)
      → RightCount (poll_step devices time look r asleep)
  unfolding poll_step
  RightCount-step time look (es, none) asleep c h = tt
  RightCount-step time look (es, some zero) asleep c h =
      if_lem RightCount (time == 0) (omega (arith, c.0)) (h c.1)
  RightCount-step time look (es, some (suc n)) asleep c h = omega (arith, c.0)

  vfs_poll-RightCount :
      (time : ℕ) (look : Look) (sleeps : List Slept) (es : List Entry)
      → AllSingle es
      → RightCount (vfs_poll devices time look sleeps es)
  unfolding vfs_poll
  vfs_poll-RightCount time look [] es a =
      RightCount-step time look (poll_no_wait devices look 0 es) none
        (poll_no_wait-Counted devices look 0 es a) (λ b. tt)
  vfs_poll-RightCount time look (sleep_failed e ∷ sleeps) es a =
      let r = poll_no_wait devices look 0 es in
      RightCount-step time look r (some (r.0, none, e)) (poll_no_wait-Counted devices look 0 es a)
        (λ b. tt)
  vfs_poll-RightCount time look (slept left (some e) next ∷ sleeps) es a =
      let r = poll_no_wait devices look 0 es in
      RightCount-step time look r (some (r.0, none, e)) (poll_no_wait-Counted devices look 0 es a)
        (λ b. tt)
  vfs_poll-RightCount time look (slept left none next ∷ sleeps) es a =
      let r = poll_no_wait devices look 0 es in
      RightCount-step time look r (vfs_poll devices left next sleeps r.0)
        (poll_no_wait-Counted devices look 0 es a) (λ b. vfs_poll-RightCount left next sleeps r.0 b)

  -- What poll returns with a number above 0 is the count.
  abbrev Reported : Option (List Entry × Reply) → Type 0
  Reported o = (es : List Entry) (n : ℕ) → o ≡ some (es, value (suc n)) → suc n ≡ count_ready es

  negated-Reported : (es : List Entry) (o : Option Errno) → Reported (some (es, negated o))
  unfolding negated
  negated-Reported es none fs n h = cc
  negated-Reported es (some e) fs n h = cc

  poll_reply-Reported : (o : Option Polled) → RightCount o → Reported (poll_reply o)
  unfolding poll_reply
  poll_reply-Reported none c fs n h = cc
  poll_reply-Reported (some (es, none, e)) c fs n h = negated-Reported es (errno_posix e) fs n h
  poll_reply-Reported (some (es, some (suc m, left), e)) c fs n h =
      sym (ap number_of h) ∙ c ∙ ap (λ o. count_ready (entries_of o)) h
  poll_reply-Reported (some (es, some (zero, zero), e)) c fs n h = cc
  poll_reply-Reported (some (es, some (zero, suc left), e)) c fs n h = cc

  entries-Reported :
      (time : ℕ) (look : Look) (sleeps : List Slept) (nodes : List VNode) (fds : List PollFd)
      → AllSingle (watched nodes fds)
      → Reported (poll_entries devices time look sleeps (pollfd_win nodes fds))
  unfolding poll_entries pollfd_win
  entries-Reported time look sleeps nodes fds a =
      if_lem (λ o. Reported (poll_entries devices time look sleeps o))
        (ltb maximum_wait_events (length fds)) (λ fs n h. cc)
        (poll_reply-Reported (vfs_poll devices time look sleeps (watched nodes fds))
          (vfs_poll-RightCount time look sleeps (watched nodes fds) a))

  -- poll on files none of which is a console or its pseudo terminal, with any timeout, however often
  -- it sleeps and whatever the files do meanwhile: where it returns a number above 0, that is the
  -- number of the watched entries that have events. (A number that is negative, too large or asks
  -- for nothing is not watched.)
  pub sys_poll_counts :
      (nodes : List VNode) (fds : List PollFd) (timeout : ℤ) (look : Look) (sleeps : List Slept)
      (es : List Entry) (n : ℕ)
      → AllSingle (watched nodes fds)
      → sys_poll devices nodes fds timeout look sleeps ≡ some (es, value (suc n))
      → suc n ≡ count_ready es
  unfolding sys_poll
  sys_poll_counts nodes fds timeout look sleeps es n a =
      entries-Reported (time_of devices timeout) look sleeps nodes fds a es n
