-- ===== src/Descriptor/Table.antt =====
-- libposix/sys/vnode.c, libposix/sys/unistd.c and libposix/sys/fcntl.c: the table of the open
-- files of a task, and the system calls that change it. The list of nodes has OPEN_MAX entries; a
-- node is free if its access is 0.
pub mod Lowest
pub mod Closed
pub mod Local
use minc.Prelude.{
  ℕ, zero, suc, ◌+◌, ◌-◌, ◌/◌, Bool, true, false, not, ◌&&◌, List, [], ◌∷◌, Option, none, some,
  ◌==◌, ltb, if◌then◌else◌, get_elem?, get_or, set,
}
use minc.Prelude.Int.{ℤ, pos, negsuc}
use minc.Errno.{Errno, errno_posix, emfile, ebadf, einval}
use minc.Descriptor.{VNode, FsType, fs_pipe, fs_winsock, Host, Files, Call, empty, open_max}
use minc.Descriptor.Duplicate.{vfs_f_dupfd, vfs_dup}
use minc.Descriptor.Close.{vfs_close}

-- The int that a system call returns: a number that is not negative, or minus an error.
pub data Reply : Type 0 where
  value : ℕ → Reply
  error : Errno → Reply

-- result -= errno_posix(GetLastError()), from 0
unfoldable pub negated : Option Errno → Reply
negated none = value 0
negated (some e) = error e

unfoldable pub failure : Files → Files × Reply
unfolding negated
failure f = (f, negated (errno_posix f.last_error))

-- fd_win
unfoldable pub fd_win : Files → ℤ → ℕ
fd_win f (pos fd) = if ltb fd open_max then (get_or f.nodes fd empty).handle else 4294967295
fd_win f (negsuc n) = 4294967295

-- The search of fd_posix from index i, past the first k nodes.
unfoldable pub free_from : ℕ → ℕ → List VNode → Option ℕ
free_from i k [] = none
free_from i (suc k) (n ∷ ns) = free_from (suc i) k ns
free_from i zero (n ∷ ns) = if n.access == 0 then some i else free_from (suc i) zero ns

unfoldable pub placed_at : Files → VNode → Option ℕ → Files × Reply
placed_at f n none = (f, error emfile)
placed_at f n (some fd) =
    (record f { nodes = set f.nodes fd (record n { file_id = fd }) }, value fd)

-- fd_posix, for an offset that is not negative
unfoldable pub fd_posix : Files → VNode → ℕ → Files × Reply
fd_posix f n offset = placed_at f n (free_from 0 offset f.nodes)

unfoldable pub place_copy : ℕ → Files × VNode × Bool → Files × Reply
unfolding failure
place_copy offset (f, n, true) = fd_posix f n offset
place_copy offset (f, n, false) = failure f

-- A descriptor in the bounds of the table, by the test fd < 0 || fd >= OPEN_MAX.
unfoldable pub in_bounds : ℤ → Option ℕ
in_bounds (pos fd) = if ltb fd open_max then some fd else none
in_bounds (negsuc n) = none

unfoldable pub node_at : Files → ℕ → VNode
node_at f fd = get_or f.nodes fd empty

-- fcntl_F_DUPFD; the result starts as {0}.
unfoldable pub dup_above : Host → Files → ℕ → Bool → Option ℕ → Files × Reply
unfolding place_copy node_at
dup_above sys f fd close_exec none = (f, error ebadf)
dup_above sys f fd close_exec (some offset) =
    place_copy offset (vfs_f_dupfd sys (node_at f fd) close_exec 0 f)

unfoldable pub fcntl_f_dupfd : Host → Files → ℕ → Bool → ℤ → Files × Reply
unfolding dup_above in_bounds
fcntl_f_dupfd sys f fd close_exec offset = dup_above sys f fd close_exec (in_bounds offset)

-- sys_dup
unfoldable pub dup_at : Host → Files → Option ℕ → Files × Reply
unfolding place_copy node_at
dup_at sys f none = (f, error ebadf)
dup_at sys f (some fd) = place_copy 0 (vfs_dup sys (node_at f fd) f)

unfoldable pub sys_dup : Host → Files → ℤ → Files × Reply
unfolding dup_at in_bounds
sys_dup sys f oldfd = dup_at sys f (in_bounds oldfd)

-- vfs_dup2 on two different nodes: the new node takes the copy, and the old contents of it are
-- closed if the copy succeeded.
unfoldable pub closed_copy : ℕ → Files × VNode × Bool → Files × Reply
unfolding failure
closed_copy newfd (f, n, true) = (f, value newfd)
closed_copy newfd (f, n, false) = failure f

unfoldable pub replace : Host → ℕ → VNode → Files × VNode × Bool → Files × Reply
unfolding closed_copy failure
replace sys newfd current (f, n, true) =
    closed_copy newfd (vfs_close sys current (record f { nodes = set f.nodes newfd n }))
replace sys newfd current (f, n, false) = failure (record f { nodes = set f.nodes newfd n })

-- sys_dup2; ERROR_INVALID_HANDLE is 6.
unfoldable pub dup2_at : Host → Files → Option ℕ → Option ℕ → Files × Reply
unfolding replace node_at failure
dup2_at sys f none new = (f, error ebadf)
dup2_at sys f (some oldfd) none = (f, error ebadf)
dup2_at sys f (some oldfd) (some newfd) =
    if (node_at f oldfd).handle == 0
    then failure (record f { last_error = 6 })
    else if oldfd == newfd
    then (f, value newfd)
    else replace sys newfd (node_at f newfd)
        (vfs_f_dupfd sys (node_at f oldfd) false (node_at f newfd).file_id f)

unfoldable pub sys_dup2 : Host → Files → ℤ → ℤ → Files × Reply
unfolding dup2_at in_bounds
sys_dup2 sys f oldfd newfd = dup2_at sys f (in_bounds oldfd) (in_bounds newfd)

-- vfs_close on a node of the table
unfoldable pub closed_at : ℕ → Files × VNode × Bool → Files × Bool
closed_at fd (f, n, b) = (record f { nodes = set f.nodes fd n }, b)

unfoldable pub close_reply : Files × Bool → Files × Reply
unfolding failure
close_reply (f, true) = (f, value 0)
close_reply (f, false) = failure f

-- sys_close
unfoldable pub close_at : Host → Files → Option ℕ → Files × Reply
unfolding closed_at close_reply node_at
close_at sys f none = (f, error ebadf)
close_at sys f (some fd) = close_reply (closed_at fd (vfs_close sys (node_at f fd) f))

unfoldable pub sys_close : Host → Files → ℤ → Files × Reply
unfolding close_at in_bounds
sys_close sys f fd = close_at sys f (in_bounds fd)

-- The loop of __closefrom: `count` nodes from fd on.
unfoldable pub close_nodes : Host → ℕ → ℕ → Files → Files
unfolding closed_at node_at
close_nodes sys zero fd f = f
close_nodes sys (suc count) fd f =
    close_nodes sys count (suc fd)
      (if (node_at f fd).access == 0 then f else (closed_at fd (vfs_close sys (node_at f fd) f)).0)

-- sys_closefrom
unfoldable pub closefrom_at : Host → Files → Option ℕ → Files × Reply
unfolding close_nodes
closefrom_at sys f none = (f, error ebadf)
closefrom_at sys f (some fd) = (close_nodes sys (open_max - fd) fd f, value 0)

unfoldable pub sys_closefrom : Host → Files → ℤ → Files × Reply
unfolding closefrom_at in_bounds
sys_closefrom sys f fd = closefrom_at sys f (in_bounds fd)
