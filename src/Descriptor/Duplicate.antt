-- ===== src/Descriptor/Duplicate.antt =====
-- libposix/vfs/vfs_fcntl.c and the drivers of libposix/vfs: the copy of a descriptor. A failing
-- function leaves its result as far as it was filled.
use minc.Prelude.{
  ℕ, zero, suc, Bool, true, false, not, ◌∷◌, Option, none, some, bit_and, ◌==◌, if◌then◌else◌,
}
use minc.Descriptor.{
  VNode, FsType, fs_unknown, fs_disk, fs_char, fs_pipe, fs_mailslot, fs_pdo, fs_drive, fs_process,
  fs_winsock, fs_registry, fs_volume, fs_npf, fs_link, fs_ndis, fs_shell, Host, Files, duplicated,
}

-- HANDLE_FLAG_INHERIT is 1.
unfoldable pub inherits : VNode → Bool
inherits n = not (bit_and n.flags 1 == 0)

-- The copy of a handle, or the error of the operating system.
unfoldable pub copied : Host → ℕ → Option ℕ → Files → Files × Option ℕ
copied sys handle none f = (record f { last_error = sys.error }, none)
copied sys handle (some h) f = (record f { calls = duplicated handle h ∷ f.calls }, some h)

unfoldable pub duplicate : Host → ℕ → Bool → Files → Files × Option ℕ
unfolding copied
duplicate sys handle inherit f = copied sys handle (sys.duplicate_handle handle inherit) f

-- The end of disk_F_DUPFD and of char_F_DUPFD, with the copy.
unfoldable pub disk_result : VNode → Files × Option ℕ → Files × VNode × Bool
disk_result r (f, none) = (f, r, false)
disk_result r (f, some h) = (f, record r { handle = h }, true)

unfoldable pub char_result : VNode → Files × Option ℕ → Files × VNode × Bool
char_result r (f, none) = (f, r, false)
char_result r (f, some h) = (f, record r { handle = h; event = h }, true)

-- pipe_F_DUPFD copies the handle, and then the event.
unfoldable pub pipe_event : VNode → ℕ → Files × Option ℕ → Files × VNode × Bool
pipe_event r h (f, none) = (f, r, false)
pipe_event r h (f, some e) = (f, record r { handle = h; event = e }, true)

unfoldable pub pipe_result : Host → VNode → VNode → Files × Option ℕ → Files × VNode × Bool
unfolding pipe_event duplicate
pipe_result sys n r (f, none) = (f, r, false)
pipe_result sys n r (f, some h) = pipe_event r h (duplicate sys n.event (inherits n) f)

-- The handle of a device that pdo_F_DUPFD and mail_F_DUPFD copy: the input for descriptor 0, the
-- output for all others. ERROR_IO_DEVICE is 1117.
unfoldable pub device_handle : Host → VNode → VNode → ℕ
device_handle sys n r =
    if r.file_id == 0 then sys.device_input n.device_id else sys.device_output n.device_id

unfoldable pub duplicate_device : Host → ℕ → Files → Files × Option ℕ
unfolding duplicate
duplicate_device sys zero f = (record f { last_error = 1117 }, none)
duplicate_device sys (suc h) f = duplicate sys (suc h) true f

unfoldable pub pdo_result : Host → VNode → VNode → Files × Option ℕ → Files × VNode × Bool
pdo_result sys n r (f, none) = (f, r, false)
pdo_result sys n r (f, some h) = (
  f,
  record r {
    handle = h;
    event = sys.device_event n.device_id;
    fs_type = sys.device_fs_type n.device_id;
  },
  true,
)

unfoldable pub mail_result : Host → VNode → Files × Option ℕ → Files × VNode × Bool
mail_result sys r (f, none) = (f, r, false)
mail_result sys r (f, some h) = (f, record r { handle = h; access = sys.access_of h }, true)

-- The copy by type; ERROR_BAD_FILE_TYPE is 222.
unfoldable pub duplicate_by : FsType → Host → VNode → VNode → Files → Files × VNode × Bool
unfolding disk_result char_result pipe_result pdo_result mail_result duplicate duplicate_device
duplicate_by fs_winsock sys n r f = pipe_result sys n r (duplicate sys n.handle (inherits n) f)
duplicate_by fs_pipe sys n r f = pipe_result sys n r (duplicate sys n.handle (inherits n) f)
duplicate_by fs_char sys n r f = char_result r (duplicate sys n.handle (inherits n) f)
duplicate_by fs_disk sys n r f = disk_result r (duplicate sys n.handle (inherits n) f)
duplicate_by fs_pdo sys n r f = pdo_result sys n r (duplicate_device sys (device_handle sys n r) f)
duplicate_by fs_mailslot sys n r f =
    mail_result sys r (duplicate_device sys (device_handle sys n r) f)
duplicate_by fs_unknown sys n r f = (record f { last_error = 222 }, r, false)
duplicate_by fs_drive sys n r f = (record f { last_error = 222 }, r, false)
duplicate_by fs_process sys n r f = (record f { last_error = 222 }, r, false)
duplicate_by fs_registry sys n r f = (record f { last_error = 222 }, r, false)
duplicate_by fs_volume sys n r f = (record f { last_error = 222 }, r, false)
duplicate_by fs_npf sys n r f = (record f { last_error = 222 }, r, false)
duplicate_by fs_link sys n r f = (record f { last_error = 222 }, r, false)
duplicate_by fs_ndis sys n r f = (record f { last_error = 222 }, r, false)
duplicate_by fs_shell sys n r f = (record f { last_error = 222 }, r, false)

-- vfs_F_DUPFD: the node, the flag CloseExec, and the FileId that the result already has.
unfoldable pub vfs_f_dupfd : Host → VNode → Bool → ℕ → Files → Files × VNode × Bool
unfolding duplicate_by
vfs_f_dupfd sys n close_exec file_id f =
    duplicate_by n.fs_type sys n (record n { close_exec = close_exec; file_id = file_id }) f

-- vfs_dup
unfoldable pub vfs_dup : Host → VNode → Files → Files × VNode × Bool
vfs_dup sys n f = vfs_f_dupfd sys n false n.file_id f
