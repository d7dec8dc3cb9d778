-- ===== src/Poll/Select.antt =====
-- libposix/sys/select.c: select by way of poll. A set of descriptors is the list of its bits. The
-- time, which the code converts with floating point, is a number of milliseconds here.
pub mod Remaining
use minc.Prelude.{
  ℕ, zero, suc, ◌+◌, Bool, true, false, not, Option, none, some, List, [], ◌∷◌, ◌++◌, map, length,
  take, drop, replicate, ltb, ◌==◌, bit_or, if◌then◌else◌,
}
use minc.Prelude.Int.{ℤ, pos, negsuc}
use minc.Errno.{errno_posix, einval}
use minc.Descriptor.{VNode}
use minc.Descriptor.Flags.{has}
use minc.Descriptor.Table.{Reply, value, error, negated}
use minc.Termio.{Device}
use minc.Poll.{PollFd, Entry, maximum_wait_events, Look, Slept, Polled, vfs_poll, watched}

-- POLLIN | POLLHUP | POLLRDBAND, POLLOUT | POLLWRBAND and POLLERR | POLLNVAL
abbrev pub read_flags : ℕ
read_flags = 0x91

abbrev pub write_flags : ℕ
write_flags = 0x104

abbrev pub error_flags : ℕ
error_flags = 0x28

abbrev pub no_poll : PollFd
no_poll = record { fd = pos 0; events = 0; revents = 0 }

-- The loop of fdset_poll, from a descriptor on.
unfoldable pub fdset_poll : ℕ → List PollFd → List Bool → ℕ → List PollFd
fdset_poll i [] bits flags = []
fdset_poll i (p ∷ ps) [] flags = p ∷ ps
fdset_poll i (p ∷ ps) (b ∷ bits) flags =
    (if b then record p { fd = pos i; events = bit_or p.events flags } else p)
    ∷ fdset_poll (suc i) ps bits flags

-- The set that fdset_select leaves, and its count.
unfoldable pub fdset_select : List Bool → List PollFd → ℕ → List Bool × ℕ
fdset_select bits [] flags = (bits, 0)
fdset_select [] (p ∷ ps) flags =
    let rest = fdset_select [] ps flags in ([], if has p.revents flags then suc rest.1 else rest.1)
fdset_select (b ∷ bits) (p ∷ ps) flags =
    let rest = fdset_select bits ps flags in
    if has p.revents flags then (b ∷ rest.0, suc rest.1) else (false ∷ rest.0, rest.1)

-- The three sets, each of which may be null.
pub record Sets : Type 0 where
  pub reads : Option (List Bool)
  pub writes : Option (List Bool)
  pub errors : Option (List Bool)

unfoldable pub polled_for : List PollFd → Option (List Bool) → ℕ → List PollFd
unfolding fdset_poll
polled_for ps none flags = ps
polled_for ps (some bits) flags = fdset_poll 0 ps bits flags

unfoldable pub selected : Option (List Bool) → List PollFd → ℕ → Option (List Bool) × ℕ
unfolding fdset_select
selected none ps flags = (none, 0)
selected (some bits) ps flags = let (left, count) = fdset_select bits ps flags in (some left, count)

-- struct pollfd fds[WSA_MAXIMUM_WAIT_EVENTS] with the events of the three sets
unfoldable pub events_of : Sets → List PollFd
unfolding polled_for
events_of s =
    polled_for
      (polled_for (polled_for (replicate maximum_wait_events no_poll) s.reads read_flags) s.writes
        write_flags)
      s.errors error_flags

-- The sets as they are handed back, and the int returned.
unfoldable pub select_result : Sets → List PollFd → Sets × Reply
unfolding selected
select_result s ps =
    let (e, m) = selected s.errors ps error_flags in
    let (w, n) = selected s.writes ps write_flags in
    let (r, k) = selected s.reads ps read_flags in
    (record { reads = r; writes = w; errors = e }, value (m + n + k))

-- The info of each entry that was polled, and the entries behind them.
unfoldable pub infos : List Entry → List PollFd
infos [] = []
infos (e ∷ es) = e.info ∷ infos es

unfoldable pub select_reply : Sets → List PollFd → Option Polled → Option (Sets × Reply)
unfolding select_result infos
select_reply s behind none = none
select_reply s behind (some (es, none, e)) = some (s, negated (errno_posix e))
select_reply s behind (some (es, some (n, left), e)) = some (select_result s (infos es ++ behind))

module _ (devices : ℕ → Device) where
  -- __select: a negative nfds is too large as an nfds_t, and one above the maximum is cut.
  unfoldable pub sys_select : List VNode → ℤ → Sets → ℕ → Look → List Slept → Option (Sets × Reply)
  unfolding events_of watched select_reply vfs_poll
  sys_select nodes (negsuc n) s time look sleeps = some (s, error einval)
  sys_select nodes (pos n) s time look sleeps =
      let count = if ltb maximum_wait_events n then maximum_wait_events else n in
      let fds = events_of s in
      select_reply s (drop count fds)
        (vfs_poll devices time look sleeps (watched nodes (take count fds)))
