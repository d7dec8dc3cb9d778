-- ===== src/Namei.antt =====
-- libposix/vfs/vfs_namei.c, with libposix/vfs/disk/disk_namei.c, vfs/disk/disk_fcntl.c,
-- vfs/drive/drive_namei.c and vfs/shell/shell_namei.c: from a path of POSIX to a name of Windows.
-- WIN_NAMEIDATA (include/vfs_types.h) keeps the rest of the source and the name that is being
-- built. The buffer Resolved is the text in it; R, Base and Last are positions in it.
pub mod Find
pub mod Lookup
pub mod Closing
pub mod Plain
pub mod Posix
use minc.Prelude.{
  ℕ, zero, suc, ◌+◌, ◌-◌, ◌%◌, Bool, true, false, not, Option, none, some, List, [], ◌∷◌, ◌++◌, map,
  length, take, drop, get_or, leb, ltb, ◌==◌, ◌&&◌, bit_and, if◌then◌else◌,
}
use minc.Descriptor.{
  VType, vnon, vreg, vdir, vblk, vchr, vlnk, vsock, vfifo, vbad, FsType, fs_unknown, fs_disk,
  fs_char, fs_pipe, fs_mailslot, fs_pdo, fs_drive, fs_process, fs_winsock, fs_registry, fs_volume,
  fs_npf, fs_link, fs_ndis, fs_shell,
}
use minc.Descriptor.Flags.{has}
use minc.Libgen.{backslash, colon, win_drivename}

pub record NameiData : Type 0 where
  pub mount_id : ℕ
  pub device_id : ℕ
  pub file_type : VType
  pub fs_type : FsType
  pub size : ℕ
  pub object : ℕ
  pub attribs : ℕ
  pub flags : ℕ
  pub base : ℕ
  pub last : ℕ
  pub r : ℕ
  pub source : List ℕ
  pub resolved : List ℕ

-- WIN_INODE, the head of a node file.
pub record Inode : Type 0 where
  pub magic : ℕ
  pub device_id : ℕ
  pub file_type : VType
  pub fs_type : FsType
  pub name_size : ℕ

-- What Windows answers about the file of a name: GetFileAttributesW, the head of the file with the
-- handle on it, the text behind the head, whether the handle closes, and win_readlink with the
-- target's text and attributes.
pub record Volume : Type 0 where
  pub attributes : List ℕ → ℕ
  pub open_node : List ℕ → Option (ℕ × Inode)
  pub node_text : List ℕ → Option (List ℕ)
  pub closes : Bool
  pub shell_target : List ℕ → Option (List ℕ × ℕ)

abbrev pub slash : ℕ
slash = b'/'

-- (DWORD)-1
abbrev pub no_attribs : ℕ
no_attribs = 0xFFFFFFFF

abbrev pub type_name_virtual : ℕ
type_name_virtual = 0x7366762E

abbrev pub attribute_directory : ℕ
attribute_directory = 0x10

abbrev pub win_follow : ℕ
win_follow = 0x40

abbrev pub win_nocrossmount : ℕ
win_nocrossmount = 0x100

abbrev pub win_issymlink : ℕ
win_issymlink = 0x10000

abbrev pub win_stripslashes : ℕ
win_stripslashes = 0x100000

abbrev pub win_pathcopy : ℕ
win_pathcopy = 0x400000

abbrev pub win_requireobject : ℕ
win_requireobject = 0x1000000

-- A string written at a position of the buffer, its 0 included: behind the end of the text it
-- leaves the text as it is.
unfoldable pub write_at : List ℕ → ℕ → List ℕ → List ℕ
write_at name i w = if leb i (length name) then take i name ++ w else name

-- What stands for a character of the source in a name.
unfoldable pub component_char : ℕ → ℕ
component_char c = if c == colon then b'_' else c

-- The loop of PathRead: what is written, the rest of the source, and the last character read.
unfoldable pub read_component : List ℕ → List ℕ × List ℕ × ℕ
unfolding component_char
read_component [] = ([], [], 0)
read_component (c ∷ s) =
    let rest = read_component s in
    if c == slash then ([], s, c) else (component_char c ∷ rest.0, rest.1, rest.2)

-- The state of the path after PathRead, and the character that it returns.
unfoldable pub path_read : NameiData → ℕ → NameiData × ℕ
unfolding write_at read_component
path_read path flags =
    let (written, rest, c) = read_component path.source in
    (
      record path {
        source = rest;
        base = path.r + 1;
        r = path.r + 1 + length written;
        resolved = write_at path.resolved path.r (backslash ∷ written);
      },
      if has flags win_stripslashes then get_or rest 0 0 else c,
    )

-- What PathCopy writes for a character.
unfoldable pub copied_char : ℕ → ℕ
copied_char c = if c == slash then backslash else if c == colon then b'_' else c

unfoldable pub path_copy : NameiData → NameiData
unfolding write_at copied_char
path_copy path = record path {
  base = path.r;
  r = path.r + length path.source;
  source = [];
  resolved = write_at path.resolved path.r (map copied_char path.source);
}

-- MOUNTID: the number of a drive letter.
unfoldable pub mount_id_of : ℕ → ℕ
mount_id_of zero = 0
mount_id_of (suc c) =
    let lower = if leb b'A' (suc c) && leb (suc c) b'Z' then suc c + 32 else suc c in
    (1 + lower + (4294967296 - b'a')) % 4294967296
