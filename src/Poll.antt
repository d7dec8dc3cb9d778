-- ===== src/Poll.antt =====
-- libposix/sys/poll.c and libposix/vfs/vfs_poll.c, with the drivers' functions on files of the
-- disk, mailslots, the console and device objects: waiting for events on several files. The two
-- vectors that pollfd_win makes point at the entries to be watched and at their nodes; here each
-- entry has its node beside it, if it is watched.
pub mod Count
pub mod Select
use minc.Prelude.{
  ℕ, zero, suc, ◌+◌, Bool, true, false, Option, none, some, List, [], ◌∷◌, length, get_or, ltb,
  ◌==◌, bit_and, bit_or, if◌then◌else◌,
}
use minc.Prelude.Int.{ℤ, pos, negsuc}
use minc.Errno.{Errno, errno_posix, einval, eintr}
use minc.Descriptor.{
  VNode, VType, vnon, vreg, vdir, vblk, vchr, vlnk, vsock, vfifo, vbad, FsType, fs_unknown, fs_disk,
  fs_char, fs_pipe, fs_mailslot, fs_pdo, fs_drive, fs_process, fs_winsock, fs_registry, fs_volume,
  fs_npf, fs_link, fs_ndis, fs_shell, empty, open_max,
}
use minc.Descriptor.Table.{Reply, value, error, negated}
use minc.Termio.{
  DevKind, dev_console, dev_input, dev_screen, dev_pty, dev_tty, dev_other, kind_of, Device,
}

-- WIN_POLLFD, which is struct pollfd: `events` and `revents` are SHORTs, as bits.
pub record PollFd : Type 0 where
  pub fd : ℤ
  pub events : ℕ
  pub revents : ℕ

-- An entry with the node that is polled for it.
pub record Entry : Type 0 where
  pub info : PollFd
  pub node : Option VNode

abbrev pub pollin : ℕ
pollin = 0x1

abbrev pub pollout : ℕ
pollout = 0x4

abbrev pub pollerr : ℕ
pollerr = 0x8

abbrev pub pollnval : ℕ
pollnval = 0x20

-- WIN_POLLIGNORE
abbrev pub pollignore : ℕ
pollignore = 0x38

-- INFINITE
abbrev pub infinite : ℕ
infinite = 4294967295

-- WSA_MAXIMUM_WAIT_EVENTS
abbrev pub maximum_wait_events : ℕ
maximum_wait_events = 64

-- What GetMailslotInfo tells.
pub data Mailslot : Type 0 where
  no_message : Mailslot
  message : ℕ → Mailslot

-- What the files are like at one moment: the events that input_poll finds behind a console handle
-- before they are masked and whether all its calls of Windows succeed (an event is found before a
-- failing ReadConsoleInput, too), a mailslot, what the drivers of pipes and sockets find before it is
-- masked, and the last error where one of these fails.
pub record Look : Type 0 where
  pub input_events : ℕ → ℕ × Bool
  pub mailslot : ℕ → Option Mailslot
  pub pipe_events : VNode → Option ℕ
  pub socket_events : VNode → Option ℕ
  pub look_error : ℕ

-- How a sleep ends: an error; or the time that is left, whether proc_poll found a signal, with the
-- error that it left, and what the files are like then.
pub data Slept : Type 0 where
  sleep_failed : ℕ → Slept
  slept : ℕ → Option ℕ → Look → Slept

-- An entry after a driver has seen it, whether the driver succeeded, and what it added to *Result.
pub record Seen : Type 0 where
  pub info : PollFd
  pub fine : Bool
  pub counted : ℕ

-- if (Info->Result = s) *Result += 1;
unfoldable pub seen : PollFd → ℕ → Bool → Seen
seen info s fine = record {
  info = record info { revents = s };
  fine = fine;
  counted = if s == 0 then 0 else 1;
}

unfoldable pub disk_poll : PollFd → Seen
unfolding seen
disk_poll info = seen info (bit_and pollin info.events) true

-- WIN_POLLERR if the driver fails
unfoldable pub masked : PollFd → Option ℕ → Seen
unfolding seen
masked info none = seen info (bit_and pollerr (bit_or info.events pollignore)) false
masked info (some s) = seen info (bit_and s (bit_or info.events pollignore)) true

unfoldable pub mail_events : Option Mailslot → Option ℕ
mail_events none = none
mail_events (some no_message) = some pollout
mail_events (some (message zero)) = some 0
mail_events (some (message (suc n))) = some (bit_or pollout pollin)

unfoldable pub input_seen : PollFd → ℕ × Bool → Seen
unfolding seen
input_seen info (s, fine) = seen info (bit_and s (bit_or info.events pollignore)) fine

unfoldable pub screen_poll : PollFd → Seen
unfolding seen
screen_poll info = seen info (bit_and (bit_or info.revents pollout) info.events) true

-- What the second driver adds to the first, if that succeeded.
unfoldable pub con_poll : Seen → Seen
unfolding screen_poll
con_poll first =
    let second = screen_poll first.info in
    if first.fine then record second { counted = first.counted + second.counted } else first

-- The entries, the count and the time that is left if the poll succeeded, and the last error if not.
abbrev pub Polled : Type 0
Polled = List Entry × Option (ℕ × ℕ) × ℕ

module _ (devices : ℕ → Device) where
  unfoldable pub char_poll : Look → DevKind → VNode → PollFd → Seen
  unfolding con_poll input_seen screen_poll
  char_poll look dev_console n info =
      con_poll (input_seen info (look.input_events (devices n.device_id).input))
  char_poll look dev_pty n info =
      con_poll (input_seen info (look.input_events (devices n.device_id).input))
  char_poll look dev_input n info = input_seen info (look.input_events n.handle)
  char_poll look dev_screen n info = screen_poll info
  char_poll look _ n info = record { info = info; fine = false; counted = 0 }

  unfoldable pub pipe_poll : Look → VType → VNode → PollFd → Seen
  unfolding masked
  pipe_poll look vsock n info = masked info (look.pipe_events n)
  pipe_poll look vchr n info = masked info (look.pipe_events n)
  pipe_poll look vfifo n info = masked info (look.pipe_events n)
  pipe_poll look _ n info = record { info = info; fine = false; counted = 0 }

  unfoldable pub pdo_poll : Look → FsType → Device → PollFd → Seen
  unfolding input_seen masked mail_events
  pdo_poll look fs_char d info = input_seen info (look.input_events d.input)
  pdo_poll look fs_mailslot d info = masked info (mail_events (look.mailslot d.input))
  pdo_poll look _ d info = record { info = info; fine = false; counted = 0 }

  unfoldable pub poll_node : Look → FsType → VNode → PollFd → Seen
  unfolding char_poll pipe_poll pdo_poll masked mail_events disk_poll kind_of
  poll_node look fs_char n info = char_poll look (kind_of n.device_type) n info
  poll_node look fs_pipe n info = pipe_poll look n.file_type n info
  poll_node look fs_pdo n info = let d = devices n.device_id in pdo_poll look d.fs_type d info
  poll_node look fs_mailslot n info = masked info (mail_events (look.mailslot n.handle))
  poll_node look fs_disk n info = disk_poll info
  poll_node look fs_winsock n info = masked info (look.socket_events n)
  poll_node look _ n info = record { info = info; fine = false; counted = 0 }

  -- One turn of the loop of PollNoWait, before the rest: an entry that is not watched is passed.
  unfoldable pub look_at : Look → Entry → Option VNode → Seen
  unfolding poll_node
  look_at look e none = record { info = e.info; fine = true; counted = 0 }
  look_at look e (some n) = poll_node look n.fs_type n e.info

  -- PollNoWait: the entries afterwards, and the count if every driver succeeded.
  unfoldable pub poll_no_wait : Look → ℕ → List Entry → List Entry × Option ℕ
  unfolding look_at
  poll_no_wait look count [] = ([], some count)
  poll_no_wait look count (e ∷ es) =
      let s = look_at look e e.node in
      let rest = poll_no_wait look (count + s.counted) es in
      if s.fine
      then (record e { info = s.info } ∷ rest.0, rest.1)
      else (record e { info = s.info } ∷ es, none)

  -- The loop of vfs_poll, with the sleeps in turn; if they run out, the task still sleeps.
  unfoldable pub poll_step : ℕ → Look → List Entry × Option ℕ → Option Polled → Option Polled
  poll_step time look (es, none) asleep = some (es, none, look.look_error)
  poll_step time look (es, some zero) asleep =
      if time == 0 then some (es, some (0, 0), 0) else asleep
  poll_step time look (es, some (suc n)) asleep = some (es, some (suc n, time), 0)

  unfoldable pub vfs_poll : ℕ → Look → List Slept → List Entry → Option Polled
  unfolding poll_no_wait poll_step
  vfs_poll time look [] es = poll_step time look (poll_no_wait look 0 es) none
  vfs_poll time look (sleep_failed e ∷ sleeps) es =
      let r = poll_no_wait look 0 es in poll_step time look r (some (r.0, none, e))
  vfs_poll time look (slept left (some e) next ∷ sleeps) es =
      let r = poll_no_wait look 0 es in poll_step time look r (some (r.0, none, e))
  vfs_poll time look (slept left none next ∷ sleeps) es =
      let r = poll_no_wait look 0 es in
      let again = vfs_poll left next sleeps r.0 in poll_step time look r again

-- The entry that pollfd_win makes: a number that is negative or too large is answered at once, and
-- one that asks for nothing is left alone.
unfoldable pub watch_at : List VNode → PollFd → ℤ → Entry
watch_at nodes p (negsuc n) = record { info = record p { revents = 0 }; node = none }
watch_at nodes p (pos i) =
    if ltb i open_max
    then record { info = p; node = if p.events == 0 then none else some (get_or nodes i empty) }
    else record { info = record p { revents = pollnval }; node = none }

unfoldable pub watched : List VNode → List PollFd → List Entry
unfolding watch_at
watched nodes [] = []
watched nodes (p ∷ ps) = watch_at nodes p p.fd ∷ watched nodes ps

unfoldable pub pollfd_win : List VNode → List PollFd → Option (List Entry)
unfolding watched
pollfd_win nodes fds =
    if ltb maximum_wait_events (length fds) then none else some (watched nodes fds)

-- The int that __poll returns for what vfs_poll gave.
unfoldable pub poll_reply : Option Polled → Option (List Entry × Reply)
poll_reply none = none
poll_reply (some (es, none, e)) = some (es, negated (errno_posix e))
poll_reply (some (es, some (suc n, left), e)) = some (es, value (suc n))
poll_reply (some (es, some (zero, zero), e)) = some (es, value 0)
poll_reply (some (es, some (zero, suc left), e)) = some (es, error eintr)

module _ (devices : ℕ → Device) where
  -- __poll, where fds is not null
  unfoldable pub poll_entries :
      ℕ → Look → List Slept → Option (List Entry) → Option (List Entry × Reply)
  unfolding poll_reply vfs_poll
  poll_entries time look sleeps none = some ([], error einval)
  poll_entries time look sleeps (some es) = poll_reply (vfs_poll devices time look sleeps es)

  -- A timeout below 0 is INFINITE.
  unfoldable pub time_of : ℤ → ℕ
  time_of (pos n) = n
  time_of (negsuc n) = infinite

  unfoldable pub sys_poll :
      List VNode → List PollFd → ℤ → Look → List Slept → Option (List Entry × Reply)
  unfolding poll_entries pollfd_win time_of
  sys_poll nodes fds timeout look sleeps =
      poll_entries (time_of timeout) look sleeps (pollfd_win nodes fds)
