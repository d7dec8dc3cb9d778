-- ===== src/Descriptor/Lock.antt =====
-- libposix/sys/fcntl.c, libposix/vfs/vfs_fcntl.c and libposix/vfs/disk: record locks. A node
-- keeps the size of what it locked and the product of size and offset, both a DWORDLONG.
pub mod Report
use minc.Prelude.{
  ℕ, ◌+◌, ◌-◌, ◌*◌, ◌/◌, ◌%◌, Bool, true, false, not, ◌&&◌, List, [], ◌∷◌, Option, none, some,
  bit_or, ◌==◌, if◌then◌else◌,
}
use minc.Errno.{Errno, einval}
use minc.Descriptor.{
  VNode, VType, vnon, vreg, vdir, vblk, vchr, vlnk, vsock, vfifo, vbad, FsType, fs_disk, Host,
  Files, Call, lock_file, unlock_file,
}

-- struct flock; the offset and the length are read as a DWORDLONG.
pub record Flock : Type 0 where
  pub start : ℕ
  pub len : ℕ
  pub type : ℕ

-- F_RDLCK, F_UNLCK and F_WRLCK
abbrev pub f_rdlck : ℕ
f_rdlck = 1

abbrev pub f_unlck : ℕ
f_unlck = 2

abbrev pub f_wrlck : ℕ
f_wrlck = 3

-- LOCKFILE_FAIL_IMMEDIATELY and LOCKFILE_EXCLUSIVE_LOCK of Windows, LOCKFILE_SHARED and
-- LOCKFILE_UNLOCK of include/vfs_types.h
abbrev pub lockfile_fail_immediately : ℕ
lockfile_fail_immediately = 0x01

abbrev pub lockfile_exclusive_lock : ℕ
lockfile_exclusive_lock = 0x02

abbrev pub lockfile_shared : ℕ
lockfile_shared = 0x00

abbrev pub lockfile_unlock : ℕ
lockfile_unlock = 0x10

-- 2 ^ 64
abbrev pub dwordlong : ℕ
dwordlong = 18446744073709551616

abbrev pub segment : ℕ → ℕ → ℕ
segment offset size = size * offset % dwordlong

-- Node->LockRegion -= dwlSegment, Node->LockSize -= Size, and the same with +=
unfoldable pub give_back : ℕ → ℕ → VNode → VNode
give_back offset size n = record n {
  lock_region = (n.lock_region + (dwordlong - segment offset size)) % dwordlong;
  lock_size = (n.lock_size + (dwordlong - size)) % dwordlong;
}

unfoldable pub take_up : ℕ → ℕ → VNode → VNode
take_up offset size n = record n {
  lock_region = (n.lock_region + segment offset size) % dwordlong;
  lock_size = (n.lock_size + size) % dwordlong;
}

-- The end of file_F_SETLK, after the region was unlocked or found not to be locked.
unfoldable pub lock_region_of : Host → ℕ → ℕ → ℕ → VNode → Files → Files × VNode × Bool
unfolding take_up
lock_region_of sys flags offset size n f =
    if flags == lockfile_unlock
    then (f, n, true)
    else if sys.locks n.handle flags offset size
    then (
      record f { calls = lock_file n.handle flags offset size ∷ f.calls },
      take_up offset size n,
      true,
    )
    else (record f { last_error = sys.error }, n, false)

-- file_F_SETLK; ERROR_NOT_LOCKED is 158.
unfoldable pub file_f_setlk : Host → ℕ → ℕ → ℕ → VNode → Files → Files × VNode × Bool
unfolding lock_region_of give_back
file_f_setlk sys flags offset size n f =
    if sys.unlocks n.handle offset size
    then lock_region_of sys flags offset size (give_back offset size n)
        (record f { calls = unlock_file n.handle offset size ∷ f.calls })
    else if sys.unlock_error == 158
    then lock_region_of sys flags offset size n (record f { last_error = 158 })
    else (record f { last_error = sys.unlock_error }, n, false)

-- dir_F_SETLK
unfoldable pub dir_f_setlk : ℕ → ℕ → ℕ → VNode → Files → Files × VNode × Bool
unfolding take_up give_back
dir_f_setlk flags offset size n f =
    let held = not (n.lock_size == 0) in
    let released = if held then give_back offset size n else n in
    if flags == lockfile_unlock
    then (f, released, held)
    else (f, take_up offset size released, true)

-- disk_F_SETLK, by the type of the file; ERROR_BAD_FILE_TYPE is 222.
unfoldable pub disk_f_setlk : VType → Host → ℕ → ℕ → ℕ → VNode → Files → Files × VNode × Bool
unfolding file_f_setlk dir_f_setlk
disk_f_setlk vreg sys flags offset size n f = file_f_setlk sys flags offset size n f
disk_f_setlk vdir sys flags offset size n f = dir_f_setlk flags offset size n f
disk_f_setlk t sys flags offset size n f = (record f { last_error = 222 }, n, false)

-- vfs_F_SETLK, by the type of the file system
unfoldable pub set_lock_by : FsType → Host → ℕ → ℕ → ℕ → VNode → Files → Files × VNode × Bool
unfolding disk_f_setlk
set_lock_by fs_disk sys flags offset size n f = disk_f_setlk n.file_type sys flags offset size n f
set_lock_by t sys flags offset size n f = (record f { last_error = 222 }, n, false)

unfoldable pub vfs_f_setlk : Host → ℕ → ℕ → ℕ → VNode → Files → Files × VNode × Bool
unfolding set_lock_by
vfs_f_setlk sys flags offset size n f = set_lock_by n.fs_type sys flags offset size n f

-- The flags of a lock by its type, none for a type that is not known.
unfoldable pub lock_flags : Bool → ℕ → Option ℕ
lock_flags wait type =
    let flags = if wait then 0 else lockfile_fail_immediately in
    if type == f_rdlck
    then some (bit_or flags lockfile_shared)
    else if type == f_unlck
    then some lockfile_unlock
    else if type == f_wrlck
    then some (bit_or flags lockfile_exclusive_lock)
    else none

-- Whether the length 0 stands for what the node has locked.
unfoldable pub whole : VNode → Flock → Bool
whole n lock = lock.len == 0 && not (n.lock_size == 0)

-- fcntl_F_SETLK up to the call of vfs_F_SETLK: none is the result -EINVAL.
unfoldable pub request : VNode → Bool → Flock → Option (ℕ × ℕ × ℕ)
unfolding whole lock_flags
request n wait lock =
    if whole n lock
    then with_flags (n.lock_region / n.lock_size) n.lock_size (lock_flags wait lock.type)
    else with_flags lock.start lock.len (lock_flags wait lock.type)
  where
    with_flags : ℕ → ℕ → Option ℕ → Option (ℕ × ℕ × ℕ)
    with_flags offset size none = none
    with_flags offset size (some flags) = some (flags, offset, size)

-- fcntl_F_GETLK: what it leaves in the structure.
unfoldable pub fcntl_f_getlk : VNode → Flock → Flock
fcntl_f_getlk n lock =
    if n.lock_size == 0
    then record lock { type = f_unlck }
    else record lock { start = n.lock_region / n.lock_size; len = n.lock_size }
