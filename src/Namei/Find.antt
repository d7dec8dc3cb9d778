-- ===== src/Namei/Find.antt =====
-- PathGlob, PathClose and vfs_lookup (libposix/vfs/vfs_namei.c), with what they ask of a node on a
-- disk (vfs/disk, vfs/vfs_syscall.c), of a mount point (vfs/drive), of a link of the shell
-- (vfs/shell), of a pipe (vfs/pipe) and of a device object (vfs/pdo).
use minc.Prelude.{
  ℕ, zero, suc, ◌+◌, ◌-◌, Bool, true, false, not, Option, none, some, List, [], ◌∷◌, length, drop,
  get_or, ◌==◌, bit_and, if◌then◌else◌,
}
use minc.Descriptor.{vreg, vdir, vlnk, FsType, fs_disk, fs_pipe, fs_pdo, fs_shell}
use minc.Descriptor.Flags.{has}
use minc.Libgen.{backslash, dot, win_drivename}
use minc.Namei.{
  NameiData, Inode, Volume, no_attribs, type_name_virtual, attribute_directory, win_follow,
  win_nocrossmount, win_issymlink, win_pathcopy, win_requireobject, write_at, path_read, path_copy,
  mount_id_of,
}

-- FILE_CLASS of the attributes
pub data FileClass : Type 0 where
  class_inode class_mount class_other : FileClass

unfoldable pub file_class : ℕ → FileClass
file_class attribs =
    if bit_and attribs 0x17 == 0x4
    then class_inode
    else if bit_and attribs 0x17 == 0x15
    then class_mount
    else class_other

module _ (volume : Volume) where
  -- The name is R = win_wcpcpy(Resolved + i, text).
  unfoldable pub name_written : NameiData → ℕ → List ℕ → NameiData
  unfolding write_at
  name_written path i text = record path {
    r = i + length text;
    resolved = write_at path.resolved i text;
  }

  -- What the text of a link says of its place: the drive that it names, and where it is written.
  unfoldable pub link_written : NameiData → List ℕ → NameiData
  unfolding name_written mount_id_of
  link_written path text =
      if get_or text 1 0 == b':'
      then name_written (record path { mount_id = mount_id_of (get_or text 0 0) }) 0 text
      else if get_or text 1 0 == backslash
      then name_written (record path { mount_id = 0 }) 0 text
      else name_written path path.base text

  unfoldable pub link_read : NameiData → Option (List ℕ) → NameiData × Bool
  unfolding link_written
  link_read path none = (path, false)
  link_read path (some text) =
      let q = link_written path text in
      (
        record q {
          base = q.r;
          last = q.r - 1;
          attribs = volume.attributes q.resolved;
          file_type = vreg;
        },
        volume.closes,
      )

  unfoldable pub disk_f_lookup : ℕ → ℕ → NameiData → NameiData × Bool
  unfolding link_read
  disk_f_lookup handle flags path =
      if has flags win_issymlink
      then (record path { object = handle }, true)
      else if not (has flags win_follow)
      then (path, volume.closes)
      else link_read path (volume.node_text path.resolved)

  -- ReadFile fills the buffer Resolved and leaves R.
  unfoldable pub pipe_read : NameiData → Option (List ℕ) → NameiData × Bool
  pipe_read path none = (path, false)
  pipe_read path (some text) = (record path { resolved = text }, volume.closes)

  unfoldable pub pipe_f_lookup : ℕ → ℕ → NameiData → NameiData × Bool
  unfolding pipe_read
  pipe_f_lookup handle flags path =
      if has flags win_requireobject
      then (record path { object = handle }, false)
      else if not (has flags win_follow)
      then (path, volume.closes)
      else pipe_read path (volume.node_text path.resolved)

  unfoldable pub pdo_f_lookup : ℕ → ℕ → NameiData → NameiData × Bool
  pdo_f_lookup handle flags path =
      if has flags win_requireobject
      then (record path { object = handle }, true)
      else (path, volume.closes)

  -- VfsStatNode: the path and the handle, if the file is a node.
  unfoldable pub node_stat : NameiData → Option (ℕ × Inode) → Option (ℕ × NameiData)
  node_stat path none = none
  node_stat path (some (handle, inode)) =
      if inode.magic == type_name_virtual
      then some (
        handle,
        record path {
          device_id = inode.device_id;
          file_type = inode.file_type;
          fs_type = inode.fs_type;
          size = inode.name_size;
        },
      )
      else none

  -- The kinds of node that can be looked up; the others set ERROR_BAD_FILE_TYPE.
  unfoldable pub node_lookup : FsType → ℕ → ℕ → NameiData → NameiData × Bool
  unfolding disk_f_lookup pipe_f_lookup pdo_f_lookup
  node_lookup fs_disk handle flags path = disk_f_lookup handle flags path
  node_lookup fs_pipe handle flags path = pipe_f_lookup handle flags path
  node_lookup fs_pdo handle flags path = pdo_f_lookup handle flags path
  node_lookup _ handle flags path = (path, false)

  unfoldable pub disk_found : NameiData → ℕ → Option (ℕ × NameiData) → NameiData × Bool
  unfolding node_lookup
  disk_found path flags none = (record path { fs_type = fs_disk; file_type = vreg }, true)
  disk_found path flags (some (handle, node)) = node_lookup node.fs_type handle flags node

  unfoldable pub disk_lookup : NameiData → ℕ → NameiData × Bool
  unfolding disk_found node_stat
  disk_lookup path flags = disk_found path flags (node_stat path (volume.open_node path.resolved))

  unfoldable pub drive_lookup : NameiData → ℕ → NameiData × Bool
  unfolding name_written mount_id_of
  drive_lookup path flags =
      let name = drop path.base path.resolved in
      let p = record path { mount_id = mount_id_of (get_or name 0 0) } in
      if has flags win_nocrossmount
      then (p, true)
      else (let q = name_written p 0 (win_drivename name) in record q { base = q.r }, true)

  unfoldable pub glob_class : FileClass → NameiData → ℕ → NameiData × Bool
  unfolding disk_lookup drive_lookup
  glob_class class_inode path flags = disk_lookup path flags
  glob_class class_mount path flags = drive_lookup path flags
  glob_class class_other path flags = (path, true)

  unfoldable pub path_glob : NameiData → ℕ → NameiData × Bool
  unfolding glob_class file_class
  path_glob path flags =
      let attribs = volume.attributes path.resolved in
      let p = record path { attribs = attribs } in
      if attribs == no_attribs then (p, false) else glob_class (file_class attribs) p flags

  -- The extension is probed in the buffer behind R.
  unfoldable pub sh_glob_type : List ℕ → NameiData → NameiData × Bool
  unfolding write_at
  sh_glob_type type path =
      let probe = write_at path.resolved path.r type in
      let attribs = volume.attributes probe in
      if attribs == no_attribs
      then (record path { resolved = write_at probe path.r [] }, false)
      else (record path { resolved = probe; attribs = attribs }, true)

  unfoldable pub shell_readlink : NameiData → Option (List ℕ × ℕ) → NameiData × Bool
  unfolding name_written
  shell_readlink path none = (path, false)
  shell_readlink path (some (target, attribs)) =
      let m =
        if get_or target 1 0 == b':' then mount_id_of (get_or target 0 0) else path.mount_id in
      let q = name_written (record path { mount_id = m }) 0 target in
      (record q { last = q.r - 1; fs_type = fs_disk; attribs = attribs }, true)

  unfoldable pub sh_glob_link : NameiData → ℕ → NameiData × Bool
  unfolding sh_glob_type shell_readlink
  sh_glob_link path flags =
      let (p, found) = sh_glob_type (dot ∷ b'l' ∷ b'n' ∷ b'k' ∷ []) path in
      if not found
      then (p, false)
      else if has flags win_follow
      then shell_readlink p (volume.shell_target p.resolved)
      else (record p { fs_type = fs_shell }, true)

  -- Path->Last = Path->R - 1
  unfoldable pub closed : NameiData → NameiData
  closed path = record path { last = path.r - 1 }

  unfoldable pub path_close : NameiData → ℕ → NameiData
  unfolding path_glob sh_glob_type sh_glob_link closed
  path_close path flags =
      let (p, globbed) = path_glob path flags in
      let (q, program) = sh_glob_type (dot ∷ b'e' ∷ b'x' ∷ b'e' ∷ []) p in
      let (l, link) = sh_glob_link q flags in
      closed (
        if globbed
        then (if has p.attribs attribute_directory then record p { file_type = vdir } else p)
        else if program
        then record q { file_type = vreg }
        else if link
        then record l { file_type = vlnk }
        else l)

  unfoldable pub path_open : NameiData → List ℕ → ℕ → NameiData
  path_open path source flags = record path {
    attribs = no_attribs;
    file_type = vreg;
    source = source;
    flags = flags;
  }

  -- *Path->R++ = '\\', and the rest as it stands.
  unfoldable pub copy_rest : NameiData → NameiData
  unfolding write_at path_copy closed
  copy_rest path = closed (
      path_copy
        (record path { r = path.r + 1; resolved = write_at path.resolved path.r (backslash ∷ []) }))

  -- while (PathRead(Path, Flags)), with fuel.
  unfoldable pub lookup_loop : ℕ → NameiData → ℕ → Option NameiData
  unfolding path_read path_glob path_close copy_rest
  lookup_loop zero path flags = none
  lookup_loop (suc fuel) path flags =
      let (p, c) = path_read path flags in
      let (q, found) = path_glob p win_follow in
      let rest = lookup_loop fuel q flags in
      if c == 0 then some (path_close p flags) else if found then rest else some (copy_rest q)

  unfoldable pub vfs_lookup : ℕ → NameiData → List ℕ → ℕ → Option NameiData
  unfolding lookup_loop path_open path_copy path_close
  vfs_lookup fuel path source flags =
      let p = path_open path source flags in
      if has flags win_pathcopy
      then some (path_close (path_copy p) flags)
      else lookup_loop fuel p flags
