-- ===== src/Descriptor/Flags.antt =====
-- libposix/sys/fcntl.c: the flags of open and fcntl, between POSIX and Windows. The O_ flags have
-- OpenBSD's numbers, the constants of Windows those of its headers.
pub mod RoundTrip
use minc.Prelude.{ℕ, Bool, true, false, not, ◌&&◌, bit_and, bit_or, ◌==◌, if◌then◌else◌}
use minc.Descriptor.{VNode, FileFlags}

abbrev pub o_rdonly : ℕ
o_rdonly = 0x0000

abbrev pub o_wronly : ℕ
o_wronly = 0x0001

abbrev pub o_rdwr : ℕ
o_rdwr = 0x0002

abbrev pub o_nonblock : ℕ
o_nonblock = 0x0004

abbrev pub o_append : ℕ
o_append = 0x0008

abbrev pub o_creat : ℕ
o_creat = 0x0200

abbrev pub o_trunc : ℕ
o_trunc = 0x0400

abbrev pub o_excl : ℕ
o_excl = 0x0800

abbrev pub o_cloexec : ℕ
o_cloexec = 0x10000

abbrev pub fd_cloexec : ℕ
fd_cloexec = 1

abbrev pub generic_read : ℕ
generic_read = 0x80000000

abbrev pub generic_write : ℕ
generic_write = 0x40000000

abbrev pub file_read_data : ℕ
file_read_data = 0x0001

abbrev pub file_write_data : ℕ
file_write_data = 0x0002

abbrev pub file_append_data : ℕ
file_append_data = 0x0004

abbrev pub file_write_ea : ℕ
file_write_ea = 0x0010

abbrev pub file_flag_overlapped : ℕ
file_flag_overlapped = 0x40000000

abbrev pub file_attribute_normal : ℕ
file_attribute_normal = 0x0080

-- WIN_S_IREAD and WIN_S_IWRITE (include/win_types.h)
abbrev pub win_s_iread : ℕ
win_s_iread = file_read_data

abbrev pub win_s_iwrite : ℕ
win_s_iwrite = bit_or file_write_data (bit_or file_write_ea file_append_data)

-- CREATE_NEW, CREATE_ALWAYS, OPEN_EXISTING, OPEN_ALWAYS and TRUNCATE_EXISTING
abbrev pub create_new : ℕ
create_new = 1

abbrev pub create_always : ℕ
create_always = 2

abbrev pub open_existing : ℕ
open_existing = 3

abbrev pub open_always : ℕ
open_always = 4

abbrev pub truncate_existing : ℕ
truncate_existing = 5

-- flags & bit
abbrev pub has : ℕ → ℕ → Bool
has flags bit = not (bit_and flags bit == 0)

-- flags_win; FILE_SHARE_READ | FILE_SHARE_WRITE is 3.
unfoldable pub flags_win : ℕ → FileFlags
flags_win flags = record {
  access =
      if has flags o_rdwr
      then bit_or generic_read generic_write
      else if has flags o_append
      then bit_or generic_read file_append_data
      else if has flags o_wronly
      then generic_write
      else generic_read;
  share = 3;
  creation =
      if has flags o_creat
      then (if has flags o_excl
          then create_new
          else if has flags o_trunc
          then create_always
          else open_always)
      else if has flags o_trunc
      then truncate_existing
      else open_existing;
  attribs = file_attribute_normal;
  close_exec = has flags o_cloexec;
}

unfoldable pub access_mode : ℕ → ℕ
access_mode access =
    if has access file_write_data
    then (if has access file_read_data then o_rdwr else o_wronly)
    else if has access file_append_data
    then bit_or o_wronly o_append
    else o_rdonly

-- result |= flag, under a condition
unfoldable pub with_flag : Bool → ℕ → ℕ → ℕ
with_flag true flag result = bit_or result flag
with_flag false flag result = result

-- flflags_posix
unfoldable pub flflags_posix : VNode → ℕ
unfolding with_flag access_mode
flflags_posix n =
    with_flag (has n.attribs file_flag_overlapped) o_nonblock
      (with_flag n.close_exec o_cloexec (access_mode n.access))

-- flflags_win; the fields that it does not set are those of {0}.
unfoldable pub flflags_win : ℕ → FileFlags
unfolding with_flag
flflags_win flags = record {
  access = with_flag (has flags o_append) file_append_data (
      if has flags o_rdwr
      then bit_or win_s_iread win_s_iwrite
      else if has flags o_wronly
      then win_s_iwrite
      else win_s_iread);
  share = 0;
  creation = 0;
  attribs = with_flag (has flags o_nonblock) file_flag_overlapped file_attribute_normal;
  close_exec = has flags o_cloexec;
}

-- fdflags_posix
unfoldable pub fdflags_posix : VNode → ℕ
fdflags_posix n = if n.close_exec then fd_cloexec else 0

-- fcntl_F_SETFD
unfoldable pub set_fd_flags : VNode → ℕ → VNode
set_fd_flags n flags = record n { close_exec = has flags fd_cloexec }

-- vfs_F_SETFL, for what is not a pipe or a socket.
unfoldable pub set_status_flags : VNode → FileFlags → VNode
set_status_flags n f = record n {
  access = f.access;
  attribs = f.attribs;
  close_exec = f.close_exec;
}
