-- ===== src/Descriptor.antt =====
-- File descriptors: WIN_VNODE and WIN_FLAGS (include/vfs_types.h), and what the descriptor code
-- asks of the operating system.
pub mod Flags
pub mod Duplicate
pub mod Close
pub mod Lock
pub mod Table
pub mod Fcntl
use minc.Prelude.{ℕ, Bool, true, false, List, [], ◌∷◌, Option}
use minc.Prelude.Int.{ℤ, pos}

-- WIN_FS_TYPE
pub data FsType : Type 0 where
  fs_unknown fs_disk fs_char fs_pipe fs_mailslot fs_pdo fs_drive fs_process : FsType
  fs_winsock fs_registry fs_volume fs_npf fs_link fs_ndis fs_shell : FsType

-- WIN_VTYPE
pub data VType : Type 0 where
  vnon vreg vdir vblk vchr vlnk vsock vfifo vbad : VType

-- WIN_VNODE. The Handle, Socket and Key share one field, as do Object and Options; a null handle
-- is 0.
pub record VNode : Type 0 where
  pub mount_id : ℕ
  pub file_type : VType
  pub device_type : ℕ
  pub device_id : ℕ
  pub fs_type : FsType
  pub file_id : ℕ
  pub access : ℕ
  pub attribs : ℕ
  pub event : ℕ
  pub pending : ℕ
  pub flags : ℕ
  pub handle : ℕ
  pub lock_region : ℕ
  pub lock_size : ℕ
  pub object : ℕ
  pub index : ℕ
  pub close_exec : Bool
  pub owner : ℤ

-- WIN_VNODE vNode = {0}, and ZeroMemory
abbrev pub empty : VNode
empty = record {
  mount_id = 0;
  file_type = vnon;
  device_type = 0;
  device_id = 0;
  fs_type = fs_unknown;
  file_id = 0;
  access = 0;
  attribs = 0;
  event = 0;
  pending = 0;
  flags = 0;
  handle = 0;
  lock_region = 0;
  lock_size = 0;
  object = 0;
  index = 0;
  close_exec = false;
  owner = pos 0;
}

-- WIN_FLAGS
pub record FileFlags : Type 0 where
  pub access : ℕ
  pub share : ℕ
  pub creation : ℕ
  pub attribs : ℕ
  pub close_exec : Bool

-- OPEN_MAX, which is WIN_OPEN_MAX, and INVALID_HANDLE_VALUE
abbrev pub open_max : ℕ
open_max = 64

abbrev pub invalid_handle : ℕ
invalid_handle = 4294967295

-- What the operating system answers: the copy of a handle, the access that a handle gives, whether
-- a handle, a search, a socket or its event can be closed and an event set, whether a region
-- (a handle, an offset and a size) can be unlocked or locked with some flags, whether the mode of
-- a pipe and the events of a socket can be set, and the errors of these failures. The device of an id is an entry of the table __Devices, whose two handles, event
-- and type the copies use.
pub record Host : Type 0 where
  pub duplicate_handle : ℕ → Bool → Option ℕ
  pub access_of : ℕ → ℕ
  pub closes_handle : ℕ → Bool
  pub closes_search : ℕ → Bool
  pub closes_socket : ℕ → Bool
  pub closes_event : ℕ → Bool
  pub sets_event : ℕ → Bool
  pub error : ℕ
  pub unlocks : ℕ → ℕ → ℕ → Bool
  pub unlock_error : ℕ
  pub locks : ℕ → ℕ → ℕ → ℕ → Bool
  pub sets_pipe_state : ℕ → ℕ → Bool
  pub selects_events : ℕ → ℕ → ℕ → Bool
  pub device_input : ℕ → ℕ
  pub device_output : ℕ → ℕ
  pub device_event : ℕ → ℕ
  pub device_fs_type : ℕ → FsType

-- The handles and locks that were made or released.
pub data Call : Type 0 where
  duplicated : ℕ → ℕ → Call
  close_handle : ℕ → Call
  close_search : ℕ → Call
  close_socket : ℕ → Call
  close_event : ℕ → Call
  set_event : ℕ → Call
  unlock_file : ℕ → ℕ → ℕ → Call
  lock_file : ℕ → ℕ → ℕ → ℕ → Call
  set_pipe_state : ℕ → ℕ → Call
  select_events : ℕ → ℕ → ℕ → Call

-- The array Task->Node, the calls, the latest first, and the last error of Windows.
pub record Files : Type 0 where
  pub nodes : List VNode
  pub calls : List Call
  pub last_error : ℕ
