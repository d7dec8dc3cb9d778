-- ===== src/Descriptor/Table/Closed.antt =====
-- A descriptor that was closed is free again.
use minc.Prelude.{ℕ, ◌≡◌, refl, Bool, true, false, ◌==◌, if_lem, ap, ◌∷◌, arith}
use minc.Descriptor.{
  VNode, VType, vnon, vreg, vdir, vblk, vchr, vlnk, vsock, vfifo, vbad, FsType, Host, Files, empty,
  set_event, close_socket, close_event, fs_unknown, fs_disk, fs_char, fs_pipe, fs_mailslot, fs_pdo,
  fs_drive, fs_process, fs_winsock, fs_registry, fs_volume, fs_npf, fs_link, fs_ndis, fs_shell,
}
use minc.Descriptor.Close.{
  vfs_close, close_by, keep_id, disk_close, dir_close, disk_closedir, after_search, file_close,
  file_result, pipe_close, pipe_signal, pdo_close, pdo_cleared, ws2_close, release,
}

-- What a driver leaves when it succeeds: nothing of the node.
unfoldable Cleared : Files × VNode × Bool → Type 0
Cleared r = r.2 ≡ true → r.1 ≡ empty

failed-Cleared : (f : Files) (n : VNode) → Cleared (f, n, false)
unfolding Cleared
failed-Cleared f n h = absurd (ground arith)

emptied-Cleared : (f : Files) (b : Bool) → Cleared (f, empty, b)
unfolding Cleared
emptied-Cleared f b h = refl

file_result-Cleared : (n : VNode) (r : Files × Bool) → Cleared (file_result n r)
unfolding file_result
file_result-Cleared n (f, true) = emptied-Cleared f true
file_result-Cleared n (f, false) = failed-Cleared f n

pdo_cleared-Cleared : (r : Files × Bool) → Cleared (pdo_cleared r)
unfolding pdo_cleared
pdo_cleared-Cleared (f, b) = emptied-Cleared f b

module _ (sys : Host) where
  pipe_signal-Cleared : (event : ℕ) (r : Files × Bool) → Cleared (pipe_signal sys event r)
  unfolding pipe_signal
  pipe_signal-Cleared event (f, false) = emptied-Cleared f false
  pipe_signal-Cleared event (f, true) =
      if_lem {A = Files × VNode × Bool} Cleared (sys.sets_event event)
        (emptied-Cleared (record f { calls = set_event event ∷ f.calls }) true)
        (emptied-Cleared (record f { last_error = sys.error }) false)

  file_close-Cleared : (n : VNode) (f : Files) → Cleared (file_close sys n f)
  unfolding file_close
  file_close-Cleared n f = file_result-Cleared n (release sys n.handle f)

  after_search-Cleared : (n : VNode) (r : Files × Bool) → Cleared (after_search sys n r)
  unfolding after_search
  after_search-Cleared n (f, true) = file_close-Cleared n f
  after_search-Cleared n (f, false) = failed-Cleared f n

  dir_close-Cleared : (n : VNode) (f : Files) → Cleared (dir_close sys n f)
  unfolding dir_close
  dir_close-Cleared n f = after_search-Cleared n (disk_closedir sys n f)

  disk_close-Cleared : (t : VType) (n : VNode) (f : Files) → Cleared (disk_close t sys n f)
  unfolding disk_close
  disk_close-Cleared vnon n f = file_close-Cleared n f
  disk_close-Cleared vreg n f = file_close-Cleared n f
  disk_close-Cleared vdir n f = dir_close-Cleared n f
  disk_close-Cleared vblk n f = file_close-Cleared n f
  disk_close-Cleared vchr n f = file_close-Cleared n f
  disk_close-Cleared vlnk n f = file_close-Cleared n f
  disk_close-Cleared vsock n f = file_close-Cleared n f
  disk_close-Cleared vfifo n f = file_close-Cleared n f
  disk_close-Cleared vbad n f = file_close-Cleared n f

  pipe_close-Cleared : (n : VNode) (f : Files) → Cleared (pipe_close sys n f)
  unfolding pipe_close
  pipe_close-Cleared n f =
      if_lem {A = Files × VNode × Bool} Cleared (n.handle == 4294967295) (emptied-Cleared f true)
        (pipe_signal-Cleared n.event (release sys n.handle f))

  pdo_close-Cleared : (n : VNode) (f : Files) → Cleared (pdo_close sys n f)
  unfolding pdo_close
  pdo_close-Cleared n f =
      if_lem {A = Files × VNode × Bool} Cleared (n.handle == 4294967295) (emptied-Cleared f true)
        (pdo_cleared-Cleared (release sys n.handle f))

  ws2_close-Cleared : (n : VNode) (f : Files) → Cleared (ws2_close sys n f)
  unfolding ws2_close
  ws2_close-Cleared n f =
      if_lem {A = Files × VNode × Bool} Cleared (sys.closes_event n.event)
        (if_lem {A = Files × VNode × Bool} Cleared (sys.closes_socket n.handle)
          (emptied-Cleared
            (record f { calls = close_socket n.handle ∷ close_event n.event ∷ f.calls }) true)
          (failed-Cleared
            (record f { calls = close_event n.event ∷ f.calls; last_error = sys.error }) n))
        (failed-Cleared (record f { last_error = sys.error }) n)

  close_by-Cleared : (t : FsType) (n : VNode) (f : Files) → Cleared (close_by t sys n f)
  unfolding close_by
  close_by-Cleared fs_unknown n f = disk_close-Cleared n.file_type n f
  close_by-Cleared fs_disk n f = disk_close-Cleared n.file_type n f
  close_by-Cleared fs_char n f = disk_close-Cleared n.file_type n f
  close_by-Cleared fs_pipe n f = pipe_close-Cleared n f
  close_by-Cleared fs_mailslot n f = disk_close-Cleared n.file_type n f
  close_by-Cleared fs_pdo n f = pdo_close-Cleared n f
  close_by-Cleared fs_drive n f = disk_close-Cleared n.file_type n f
  close_by-Cleared fs_process n f = disk_close-Cleared n.file_type n f
  close_by-Cleared fs_winsock n f = ws2_close-Cleared n f
  close_by-Cleared fs_registry n f = disk_close-Cleared n.file_type n f
  close_by-Cleared fs_volume n f = disk_close-Cleared n.file_type n f
  close_by-Cleared fs_npf n f = disk_close-Cleared n.file_type n f
  close_by-Cleared fs_link n f = disk_close-Cleared n.file_type n f
  close_by-Cleared fs_ndis n f = disk_close-Cleared n.file_type n f
  close_by-Cleared fs_shell n f = disk_close-Cleared n.file_type n f

keep_id-Cleared :
    (i : ℕ) (r : Files × VNode × Bool)
    → Cleared r
    → (keep_id i r).2 ≡ true
    → (keep_id i r).1 ≡ record empty { file_id = i }
unfolding keep_id Cleared
keep_id-Cleared i (f, n, b) c h = ap {A = VNode} (λ m. record m { file_id = i }) (c h)

-- When the close of a node with a handle succeeds, whatever its type, nothing of the node is left
-- but its number: it is not marked as in use, and its flags and locks are gone.
pub vfs_close-clears :
    (sys : Host) (n : VNode) (f : Files)
    → (n.handle == 0) ≡ false
    → (vfs_close sys n f).2 ≡ true
    → (vfs_close sys n f).1 ≡ record empty { file_id = n.file_id }
unfolding vfs_close
vfs_close-clears sys n f e h = rw e (
    keep_id-Cleared n.file_id (close_by n.fs_type sys n f) (close_by-Cleared sys n.fs_type n f)
      (simp e at h))
