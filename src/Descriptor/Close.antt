-- ===== src/Descriptor/Close.antt =====
-- libposix/vfs/vfs_unistd.c and the drivers of libposix/vfs: the closing of a descriptor. A driver
-- gives the node that it leaves, and whether it succeeded.
use minc.Prelude.{ℕ, Bool, true, false, ◌∷◌, ◌==◌, if◌then◌else◌}
use minc.Descriptor.{
  VNode, VType, vdir, FsType, fs_pipe, fs_pdo, fs_winsock, Host, Files, close_handle, close_search,
  close_socket, close_event, set_event, empty, invalid_handle,
}

-- CloseHandle, with its result
unfoldable pub release : Host → ℕ → Files → Files × Bool
release sys handle f =
    if sys.closes_handle handle
    then (record f { calls = close_handle handle ∷ f.calls }, true)
    else (record f { last_error = sys.error }, false)

-- file_close clears the node if the handle was closed.
unfoldable pub file_result : VNode → Files × Bool → Files × VNode × Bool
file_result n (f, true) = (f, empty, true)
file_result n (f, false) = (f, n, false)

unfoldable pub file_close : Host → VNode → Files → Files × VNode × Bool
unfolding file_result release
file_close sys n f = file_result n (release sys n.handle f)

-- disk_closedir
unfoldable pub disk_closedir : Host → VNode → Files → Files × Bool
disk_closedir sys n f =
    if n.object == 0
    then (f, true)
    else if sys.closes_search n.object
    then (record f { calls = close_search n.object ∷ f.calls }, true)
    else (record f { last_error = sys.error }, false)

-- dir_close: disk_closedir, and then file_close
unfoldable pub after_search : Host → VNode → Files × Bool → Files × VNode × Bool
unfolding file_close
after_search sys n (f, true) = file_close sys n f
after_search sys n (f, false) = (f, n, false)

unfoldable pub dir_close : Host → VNode → Files → Files × VNode × Bool
unfolding after_search disk_closedir
dir_close sys n f = after_search sys n (disk_closedir sys n f)

-- disk_close
unfoldable pub disk_close : VType → Host → VNode → Files → Files × VNode × Bool
unfolding dir_close file_close
disk_close vdir sys n f = dir_close sys n f
disk_close t sys n f = file_close sys n f

-- pipe_close clears the node in any case.
unfoldable pub pipe_signal : Host → ℕ → Files × Bool → Files × VNode × Bool
pipe_signal sys event (f, false) = (f, empty, false)
pipe_signal sys event (f, true) =
    if sys.sets_event event
    then (record f { calls = set_event event ∷ f.calls }, empty, true)
    else (record f { last_error = sys.error }, empty, false)

unfoldable pub pipe_close : Host → VNode → Files → Files × VNode × Bool
unfolding pipe_signal release
pipe_close sys n f =
    if n.handle == invalid_handle
    then (f, empty, true)
    else pipe_signal sys n.event (release sys n.handle f)

-- pdo_close clears the node in any case.
unfoldable pub pdo_cleared : Files × Bool → Files × VNode × Bool
pdo_cleared (f, b) = (f, empty, b)

unfoldable pub pdo_close : Host → VNode → Files → Files × VNode × Bool
unfolding pdo_cleared release
pdo_close sys n f =
    if n.handle == invalid_handle then (f, empty, true) else pdo_cleared (release sys n.handle f)

-- ws2_close
unfoldable pub ws2_close : Host → VNode → Files → Files × VNode × Bool
ws2_close sys n f =
    if sys.closes_event n.event
    then (if sys.closes_socket n.handle
        then (
          record f { calls = close_socket n.handle ∷ close_event n.event ∷ f.calls },
          empty,
          true,
        )
        else (record f { calls = close_event n.event ∷ f.calls; last_error = sys.error }, n, false))
    else (record f { last_error = sys.error }, n, false)

unfoldable pub close_by : FsType → Host → VNode → Files → Files × VNode × Bool
unfolding pipe_close ws2_close pdo_close disk_close
close_by fs_pipe sys n f = pipe_close sys n f
close_by fs_winsock sys n f = ws2_close sys n f
close_by fs_pdo sys n f = pdo_close sys n f
close_by t sys n f = disk_close n.file_type sys n f

-- Node->FileId = dwFileId
unfoldable pub keep_id : ℕ → Files × VNode × Bool → Files × VNode × Bool
keep_id i (f, n, b) = (f, record n { file_id = i }, b)

-- vfs_close
unfoldable pub vfs_close : Host → VNode → Files → Files × VNode × Bool
unfolding close_by keep_id
vfs_close sys n f =
    if n.handle == 0 then (f, n, true) else keep_id n.file_id (close_by n.fs_type sys n f)
