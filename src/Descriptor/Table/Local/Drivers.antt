-- ===== src/Descriptor/Table/Local/Drivers.antt =====
-- The drivers change no descriptor of the table themselves.
use minc.Prelude.{
  ℕ, zero, suc, ◌≡◌, refl, ◌∙◌, Bool, true, false, List, ◌==◌, Option, none, some, if_lem,
}
use minc.Descriptor.{
  VNode, VType, vnon, vreg, vdir, vblk, vchr, vlnk, vsock, vfifo, vbad, FsType, Host, Files,
  fs_unknown, fs_disk, fs_char, fs_pipe, fs_mailslot, fs_pdo, fs_drive, fs_process, fs_winsock,
  fs_registry, fs_volume, fs_npf, fs_link, fs_ndis, fs_shell,
}
use minc.Descriptor.Close.{
  vfs_close, close_by, keep_id, disk_close, dir_close, disk_closedir, after_search, file_close,
  file_result, pipe_close, pipe_signal, pdo_close, pdo_cleared, ws2_close, release,
}
use minc.Descriptor.Duplicate.{
  duplicate_by, disk_result, char_result, pipe_result, pipe_event, pdo_result, mail_result,
  duplicate, copied, duplicate_device, inherits, device_handle,
}

-- The table is the one that was there before.
unfoldable pub Same : List VNode → Files → Type 0
Same ns f = f.nodes ≡ ns

file_result-Same :
    (n : VNode) (ns : List VNode) (r : Files × Bool) → Same ns r.0 → Same ns (file_result n r).0
unfolding Same file_result
file_result-Same n ns (f, true) h = h
file_result-Same n ns (f, false) h = h

pdo_cleared-Same : (ns : List VNode) (r : Files × Bool) → Same ns r.0 → Same ns (pdo_cleared r).0
unfolding Same pdo_cleared
pdo_cleared-Same ns (f, b) h = h

keep_id-Same :
    (i : ℕ) (ns : List VNode) (r : Files × VNode × Bool) → Same ns r.0 → Same ns (keep_id i r).0
unfolding Same keep_id
keep_id-Same i ns (f, n, b) h = h

disk_result-Same :
    (r0 : VNode) (ns : List VNode) (r : Files × Option ℕ)
    → Same ns r.0
    → Same ns (disk_result r0 r).0
unfolding Same disk_result
disk_result-Same r0 ns (f, none) h = h
disk_result-Same r0 ns (f, some h0) h = h

char_result-Same :
    (r0 : VNode) (ns : List VNode) (r : Files × Option ℕ)
    → Same ns r.0
    → Same ns (char_result r0 r).0
unfolding Same char_result
char_result-Same r0 ns (f, none) h = h
char_result-Same r0 ns (f, some h0) h = h

pipe_event-Same :
    (r0 : VNode) (h1 : ℕ) (ns : List VNode) (r : Files × Option ℕ)
    → Same ns r.0
    → Same ns (pipe_event r0 h1 r).0
unfolding Same pipe_event
pipe_event-Same r0 h1 ns (f, none) h = h
pipe_event-Same r0 h1 ns (f, some h0) h = h

module _ (sys : Host) where
  release-Same : (handle : ℕ) (f : Files) → Same f.nodes (release sys handle f).0
  unfolding Same release
  release-Same handle f =
      if_lem {A = Files × Bool} (λ r. r.0.nodes ≡ f.nodes) (sys.closes_handle handle) refl refl

  file_close-Same : (n : VNode) (f : Files) → Same f.nodes (file_close sys n f).0
  unfolding file_close
  file_close-Same n f =
      file_result-Same n f.nodes (release sys n.handle f) (release-Same n.handle f)

  disk_closedir-Same : (n : VNode) (f : Files) → Same f.nodes (disk_closedir sys n f).0
  unfolding disk_closedir Same
  disk_closedir-Same n f =
      if_lem {A = Files × Bool} (λ r. r.0.nodes ≡ f.nodes) (n.object == 0) refl
        (if_lem {A = Files × Bool} (λ r. r.0.nodes ≡ f.nodes) (sys.closes_search n.object) refl
          refl)

  after_search-Same :
      (n : VNode) (ns : List VNode) (r : Files × Bool)
      → Same ns r.0
      → Same ns (after_search sys n r).0
  unfolding after_search Same
  after_search-Same n ns (f, true) h = file_close-Same n f ∙ h
  after_search-Same n ns (f, false) h = h

  dir_close-Same : (n : VNode) (f : Files) → Same f.nodes (dir_close sys n f).0
  unfolding dir_close
  dir_close-Same n f = after_search-Same n f.nodes (disk_closedir sys n f) (disk_closedir-Same n f)

  disk_close-Same : (t : VType) (n : VNode) (f : Files) → Same f.nodes (disk_close t sys n f).0
  unfolding disk_close
  disk_close-Same vnon n f = file_close-Same n f
  disk_close-Same vreg n f = file_close-Same n f
  disk_close-Same vdir n f = dir_close-Same n f
  disk_close-Same vblk n f = file_close-Same n f
  disk_close-Same vchr n f = file_close-Same n f
  disk_close-Same vlnk n f = file_close-Same n f
  disk_close-Same vsock n f = file_close-Same n f
  disk_close-Same vfifo n f = file_close-Same n f
  disk_close-Same vbad n f = file_close-Same n f

  pipe_signal-Same :
      (event : ℕ) (ns : List VNode) (r : Files × Bool)
      → Same ns r.0
      → Same ns (pipe_signal sys event r).0
  unfolding pipe_signal Same
  pipe_signal-Same event ns (f, false) h = h
  pipe_signal-Same event ns (f, true) h =
      if_lem {A = Files × VNode × Bool} (λ r. r.0.nodes ≡ ns) (sys.sets_event event) h h

  pipe_close-Same : (n : VNode) (f : Files) → Same f.nodes (pipe_close sys n f).0
  unfolding pipe_close Same
  pipe_close-Same n f =
      if_lem {A = Files × VNode × Bool} (λ r. r.0.nodes ≡ f.nodes) (n.handle == 4294967295) refl
        (pipe_signal-Same n.event f.nodes (release sys n.handle f) (release-Same n.handle f))

  pdo_close-Same : (n : VNode) (f : Files) → Same f.nodes (pdo_close sys n f).0
  unfolding pdo_close Same
  pdo_close-Same n f =
      if_lem {A = Files × VNode × Bool} (λ r. r.0.nodes ≡ f.nodes) (n.handle == 4294967295) refl
        (pdo_cleared-Same f.nodes (release sys n.handle f) (release-Same n.handle f))

  ws2_close-Same : (n : VNode) (f : Files) → Same f.nodes (ws2_close sys n f).0
  unfolding ws2_close Same
  ws2_close-Same n f =
      if_lem {A = Files × VNode × Bool} (λ r. r.0.nodes ≡ f.nodes) (sys.closes_event n.event)
        (if_lem {A = Files × VNode × Bool} (λ r. r.0.nodes ≡ f.nodes) (sys.closes_socket n.handle)
          refl refl)
        refl

  close_by-Same : (t : FsType) (n : VNode) (f : Files) → Same f.nodes (close_by t sys n f).0
  unfolding close_by
  close_by-Same fs_unknown n f = disk_close-Same n.file_type n f
  close_by-Same fs_disk n f = disk_close-Same n.file_type n f
  close_by-Same fs_char n f = disk_close-Same n.file_type n f
  close_by-Same fs_pipe n f = pipe_close-Same n f
  close_by-Same fs_mailslot n f = disk_close-Same n.file_type n f
  close_by-Same fs_pdo n f = pdo_close-Same n f
  close_by-Same fs_drive n f = disk_close-Same n.file_type n f
  close_by-Same fs_process n f = disk_close-Same n.file_type n f
  close_by-Same fs_winsock n f = ws2_close-Same n f
  close_by-Same fs_registry n f = disk_close-Same n.file_type n f
  close_by-Same fs_volume n f = disk_close-Same n.file_type n f
  close_by-Same fs_npf n f = disk_close-Same n.file_type n f
  close_by-Same fs_link n f = disk_close-Same n.file_type n f
  close_by-Same fs_ndis n f = disk_close-Same n.file_type n f
  close_by-Same fs_shell n f = disk_close-Same n.file_type n f

  pub vfs_close-Same : (n : VNode) (f : Files) → Same f.nodes (vfs_close sys n f).0
  unfolding vfs_close Same
  vfs_close-Same n f =
      if_lem {A = Files × VNode × Bool} (λ r. r.0.nodes ≡ f.nodes) (n.handle == 0) refl
        (keep_id-Same n.file_id f.nodes (close_by n.fs_type sys n f) (close_by-Same n.fs_type n f))

  copied-Same : (handle : ℕ) (h : Option ℕ) (f : Files) → Same f.nodes (copied sys handle h f).0
  unfolding copied Same
  copied-Same handle none f = refl
  copied-Same handle (some h) f = refl

  duplicate-Same : (handle : ℕ) (b : Bool) (f : Files) → Same f.nodes (duplicate sys handle b f).0
  unfolding duplicate
  duplicate-Same handle b f = copied-Same handle (sys.duplicate_handle handle b) f

  duplicate_device-Same : (handle : ℕ) (f : Files) → Same f.nodes (duplicate_device sys handle f).0
  unfolding duplicate_device Same
  duplicate_device-Same zero f = refl
  duplicate_device-Same (suc h) f = duplicate-Same (suc h) true f

  pipe_result-Same :
      (n r0 : VNode) (ns : List VNode) (r : Files × Option ℕ)
      → Same ns r.0
      → Same ns (pipe_result sys n r0 r).0
  unfolding pipe_result Same
  pipe_result-Same n r0 ns (f, none) h = h
  pipe_result-Same n r0 ns (f, some h1) h =
      pipe_event-Same r0 h1 ns (duplicate sys n.event (inherits n) f)
        (duplicate-Same n.event (inherits n) f ∙ h)

  pdo_result-Same :
      (n r0 : VNode) (ns : List VNode) (r : Files × Option ℕ)
      → Same ns r.0
      → Same ns (pdo_result sys n r0 r).0
  unfolding pdo_result Same
  pdo_result-Same n r0 ns (f, none) h = h
  pdo_result-Same n r0 ns (f, some h1) h = h

  mail_result-Same :
      (r0 : VNode) (ns : List VNode) (r : Files × Option ℕ)
      → Same ns r.0
      → Same ns (mail_result sys r0 r).0
  unfolding mail_result Same
  mail_result-Same r0 ns (f, none) h = h
  mail_result-Same r0 ns (f, some h1) h = h

  pub duplicate_by-Same :
      (t : FsType) (n r0 : VNode) (f : Files) → Same f.nodes (duplicate_by t sys n r0 f).0
  unfolding duplicate_by Same
  duplicate_by-Same fs_unknown n r0 f = refl
  duplicate_by-Same fs_disk n r0 f =
      disk_result-Same r0 f.nodes (duplicate sys n.handle (inherits n) f)
        (duplicate-Same n.handle (inherits n) f)
  duplicate_by-Same fs_char n r0 f =
      char_result-Same r0 f.nodes (duplicate sys n.handle (inherits n) f)
        (duplicate-Same n.handle (inherits n) f)
  duplicate_by-Same fs_pipe n r0 f =
      pipe_result-Same n r0 f.nodes (duplicate sys n.handle (inherits n) f)
        (duplicate-Same n.handle (inherits n) f)
  duplicate_by-Same fs_mailslot n r0 f =
      mail_result-Same r0 f.nodes (duplicate_device sys (device_handle sys n r0) f)
        (duplicate_device-Same (device_handle sys n r0) f)
  duplicate_by-Same fs_pdo n r0 f =
      pdo_result-Same n r0 f.nodes (duplicate_device sys (device_handle sys n r0) f)
        (duplicate_device-Same (device_handle sys n r0) f)
  duplicate_by-Same fs_drive n r0 f = refl
  duplicate_by-Same fs_process n r0 f = refl
  duplicate_by-Same fs_winsock n r0 f =
      pipe_result-Same n r0 f.nodes (duplicate sys n.handle (inherits n) f)
        (duplicate-Same n.handle (inherits n) f)
  duplicate_by-Same fs_registry n r0 f = refl
  duplicate_by-Same fs_volume n r0 f = refl
  duplicate_by-Same fs_npf n r0 f = refl
  duplicate_by-Same fs_link n r0 f = refl
  duplicate_by-Same fs_ndis n r0 f = refl
  duplicate_by-Same fs_shell n r0 f = refl
