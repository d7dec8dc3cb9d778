-- ===== src/Descriptor/Fcntl.antt =====
-- libposix/sys/fcntl.c: fcntl and flock on the table of descriptors, and the drivers' F_SETFL.
use minc.Prelude.{ℕ, Bool, true, false, ◌∷◌, Option, none, some, bit_or, ltb, if◌then◌else◌, set}
use minc.Prelude.Int.{ℤ, pos, negsuc}
use minc.Errno.{ebadf, einval, eopnotsupp}
use minc.Descriptor.{
  VNode, FileFlags, FsType, fs_pipe, fs_winsock, Host, Files, set_pipe_state, select_events,
}
use minc.Descriptor.Flags.{
  flflags_posix, flflags_win, fdflags_posix, set_fd_flags, set_status_flags, has,
  file_flag_overlapped, file_write_data,
}
use minc.Descriptor.Lock.{
  Flock, request, vfs_f_setlk, lockfile_exclusive_lock, lockfile_fail_immediately, lockfile_unlock,
}
use minc.Descriptor.Table.{Reply, value, error, failure, node_at, in_bounds, fcntl_f_dupfd}

-- PipeSetFlags and pipe_F_SETFL; PIPE_WAIT is 0 and PIPE_NOWAIT is 1.
unfoldable pub pipe_mode : FileFlags → ℕ
pipe_mode w = if has w.attribs file_flag_overlapped then 1 else 0

unfoldable pub pipe_f_setfl : Host → VNode → FileFlags → Files → Files × VNode × Bool
unfolding set_status_flags pipe_mode
pipe_f_setfl sys n w f =
    if has n.access file_write_data
    then (f, set_status_flags n w, true)
    else if sys.sets_pipe_state n.handle (pipe_mode w)
    then (
      record f { calls = set_pipe_state n.handle (pipe_mode w) ∷ f.calls },
      set_status_flags n w,
      true,
    )
    else (record f { last_error = sys.error }, n, false)

-- ws2_F_SETFL; FD_ALL_EVENTS is 0x3FF.
unfoldable pub select_for : Host → ℕ → ℕ → VNode → FileFlags → Files → Files × VNode × Bool
unfolding set_status_flags
select_for sys event events n w f =
    if sys.selects_events n.handle event events
    then (
      record f { calls = select_events n.handle event events ∷ f.calls },
      set_status_flags n w,
      true,
    )
    else (record f { last_error = sys.error }, n, false)

unfoldable pub ws2_f_setfl : Host → VNode → FileFlags → Files → Files × VNode × Bool
unfolding select_for
ws2_f_setfl sys n w f =
    if has w.attribs file_flag_overlapped
    then select_for sys n.event 0x3FF n w f
    else select_for sys 0 0 n w f

-- vfs_F_SETFL
unfoldable pub set_flags_by : FsType → Host → VNode → FileFlags → Files → Files × VNode × Bool
unfolding pipe_f_setfl ws2_f_setfl set_status_flags
set_flags_by fs_pipe sys n w f = pipe_f_setfl sys n w f
set_flags_by fs_winsock sys n w f = ws2_f_setfl sys n w f
set_flags_by t sys n w f = (f, set_status_flags n w, true)

-- A node changed in the table, and the result 0 or that of a failure.
unfoldable pub updated : ℕ → Files × VNode × Bool → Files × Reply
unfolding failure
updated fd (f, n, true) = (record f { nodes = set f.nodes fd n }, value 0)
updated fd (f, n, false) = failure (record f { nodes = set f.nodes fd n })

-- fcntl_F_SETLK
unfoldable pub lock_node : Host → Files → ℕ → Option (ℕ × ℕ × ℕ) → Files × Reply
unfolding updated vfs_f_setlk node_at
lock_node sys f fd none = (f, error einval)
lock_node sys f fd (some (flags, offset, size)) =
    updated fd (vfs_f_setlk sys flags offset size (node_at f fd) f)

unfoldable pub fcntl_f_setlk : Host → Files → ℕ → Bool → Flock → Files × Reply
unfolding lock_node request node_at
fcntl_f_setlk sys f fd wait lock = lock_node sys f fd (request (node_at f fd) wait lock)

-- fcntl_F_SETOWN; CHILD_MAX is 80.
unfoldable pub fcntl_f_setown : Files → ℕ → ℤ → Files × Reply
unfolding node_at
fcntl_f_setown f fd (pos owner) =
    if ltb owner 80
    then (
      record f { nodes = set f.nodes fd (record (node_at f fd) { owner = pos owner }) },
      value 0,
    )
    else (f, error einval)
fcntl_f_setown f fd (negsuc n) = (f, error einval)

-- The commands of fcntl with their arguments.
pub data Command : Type 0 where
  f_dupfd : ℤ → Command
  f_dupfd_cloexec : ℤ → Command
  f_setfd : ℕ → Command
  f_getfd : Command
  f_setfl : ℕ → Command
  f_getfl : Command
  f_setlk : Flock → Command
  f_setlkw : Flock → Command
  f_getlk : Flock → Command
  f_setown : ℤ → Command
  f_other : Command

-- The switch of sys_fcntl. What F_GETLK leaves in its structure is fcntl_f_getlk of the node.
unfoldable pub fcntl_at : Host → Files → ℕ → Command → Files × Reply
unfolding fcntl_f_setlk fcntl_f_setown updated node_at
fcntl_at sys f fd (f_dupfd offset) = fcntl_f_dupfd sys f fd false offset
fcntl_at sys f fd (f_dupfd_cloexec offset) = fcntl_f_dupfd sys f fd true offset
fcntl_at sys f fd (f_setfd flags) =
    (record f { nodes = set f.nodes fd (set_fd_flags (node_at f fd) flags) }, value 0)
fcntl_at sys f fd f_getfd = (f, value (fdflags_posix (node_at f fd)))
fcntl_at sys f fd (f_setfl flags) =
    updated fd (set_flags_by (node_at f fd).fs_type sys (node_at f fd) (flflags_win flags) f)
fcntl_at sys f fd f_getfl = (f, value (flflags_posix (node_at f fd)))
fcntl_at sys f fd (f_setlk lock) = fcntl_f_setlk sys f fd false lock
fcntl_at sys f fd (f_setlkw lock) = fcntl_f_setlk sys f fd true lock
fcntl_at sys f fd (f_getlk lock) = (f, value 0)
fcntl_at sys f fd (f_setown owner) = fcntl_f_setown f fd owner
fcntl_at sys f fd f_other = (f, error eopnotsupp)

-- sys_fcntl
unfoldable pub fcntl_in : Host → Files → Command → Option ℕ → Files × Reply
fcntl_in sys f command none = (f, error ebadf)
fcntl_in sys f command (some fd) = fcntl_at sys f fd command

unfoldable pub sys_fcntl : Host → Files → ℤ → Command → Files × Reply
unfolding fcntl_in in_bounds
sys_fcntl sys f fd command = fcntl_in sys f command (in_bounds fd)

-- sys_flock; LOCK_EX is 2, LOCK_NB is 4 and LOCK_UN is 8.
unfoldable pub flock_flags : ℕ → ℕ
flock_flags operation =
    if has operation 8
    then lockfile_unlock
    else bit_or (if has operation 2 then lockfile_exclusive_lock else 0)
        (if has operation 4 then lockfile_fail_immediately else 0)

unfoldable pub flock_at : Host → Files → ℕ → Option ℕ → Files × Reply
unfolding updated vfs_f_setlk flock_flags node_at
flock_at sys f operation none = (f, error ebadf)
flock_at sys f operation (some fd) =
    updated fd (vfs_f_setlk sys (flock_flags operation) 0 18446744073709551615 (node_at f fd) f)

unfoldable pub sys_flock : Host → Files → ℤ → ℕ → Files × Reply
unfolding flock_at in_bounds
sys_flock sys f fd operation = flock_at sys f operation (in_bounds fd)
