-- ===== src/Descriptor/Table/Local.antt =====
-- A call on a descriptor leaves all other descriptors as they were.
mod Drivers
use minc.Prelude.{
  ℕ, zero, suc, ◌≡◌, ◌≢◌, refl, sym, ◌∙◌, Bool, true, false, List, [], ◌∷◌, ◌==◌, Option, none,
  some, ltb, lt→ltb, ap, ◌<◌, if_lem, if◌then◌else◌, get_elem?, set, get_elem?-set_ne, arith,
}
use minc.Prelude.Int.{pos}
use minc.Descriptor.{
  VNode, VType, vnon, vreg, vdir, vblk, vchr, vlnk, vsock, vfifo, vbad, FsType, Host, Files,
  fs_unknown, fs_disk, fs_char, fs_pipe, fs_mailslot, fs_pdo, fs_drive, fs_process, fs_winsock,
  fs_registry, fs_volume, fs_npf, fs_link, fs_ndis, fs_shell,
}
use minc.Descriptor.Close.{
  vfs_close, close_by, keep_id, disk_close, dir_close, disk_closedir, after_search, file_close,
  file_result, pipe_close, pipe_signal, pdo_close, pdo_cleared, ws2_close, release,
}
use minc.Descriptor.Duplicate.{
  vfs_f_dupfd, duplicate_by, disk_result, char_result, pipe_result, pipe_event, pdo_result,
  mail_result, duplicate, copied, duplicate_device, inherits, device_handle,
}
use minc.Descriptor.Table.{
  sys_dup2, dup2_at, replace, closed_copy, failure, sys_close, close_at, close_reply, closed_at,
  in_bounds, node_at, Reply,
}
use minc.Descriptor.Table.Local.Drivers.{Same, vfs_close-Same, duplicate_by-Same}

-- The tables agree at every descriptor but one.
unfoldable pub Elsewhere : ℕ → List VNode → List VNode → Type 0
Elsewhere fd ns ms = (m : ℕ) → m ≢ fd → get_elem? ms m ≡ get_elem? ns m

Elsewhere-set : (fd : ℕ) (ns ms : List VNode) (n : VNode) → ms ≡ ns → Elsewhere fd ns (set ms fd n)
unfolding Elsewhere
Elsewhere-set fd ns ms n h m d = rw h (get_elem?-set_ne ns n (λ e. d (sym e)))

closed_at-Elsewhere :
    (fd : ℕ) (ns : List VNode) (r : Files × VNode × Bool)
    → Same ns r.0
    → Elsewhere fd ns (close_reply (closed_at fd r)).0.nodes
unfolding Same closed_at close_reply failure
closed_at-Elsewhere fd ns (f, n, true) h = Elsewhere-set fd ns f.nodes n h
closed_at-Elsewhere fd ns (f, n, false) h = Elsewhere-set fd ns f.nodes n h

unchanged : (fd : ℕ) (ns : List VNode) → Elsewhere fd ns ns
unfolding Elsewhere
unchanged fd ns m d = refl

closed_copy-nodes : (fd : ℕ) (r : Files × VNode × Bool) → (closed_copy fd r).0.nodes ≡ r.0.nodes
unfolding closed_copy failure
closed_copy-nodes fd (f, n, true) = refl
closed_copy-nodes fd (f, n, false) = refl

module _ (sys : Host) where
  replace-Elsewhere :
      (fd : ℕ) (c : VNode) (ns : List VNode) (r : Files × VNode × Bool)
      → Same ns r.0
      → Elsewhere fd ns (replace sys fd c r).0.nodes
  unfolding Same replace failure Elsewhere
  replace-Elsewhere fd c ns (f, n, true) h m d =
      let g : Files = record f { nodes = set f.nodes fd n } in
      ap (λ x. get_elem? x m) (closed_copy-nodes fd (vfs_close sys c g) ∙ vfs_close-Same sys c g)
      ∙ Elsewhere-set fd ns f.nodes n h m d
  replace-Elsewhere fd c ns (f, n, false) h m d = Elsewhere-set fd ns f.nodes n h m d

  dup2_at-Elsewhere :
      (f : Files) (old new : ℕ)
      → Elsewhere new f.nodes (dup2_at sys f (some old) (some new)).0.nodes
  unfolding dup2_at vfs_f_dupfd
  dup2_at-Elsewhere f old new =
      let n = node_at f old in
      if_lem {A = Files × Reply} (λ r. Elsewhere new f.nodes r.0.nodes) (n.handle == 0)
        (unchanged new f.nodes)
        (if_lem {A = Files × Reply} (λ r. Elsewhere new f.nodes r.0.nodes) (old == new)
          (unchanged new f.nodes)
          (replace-Elsewhere new (node_at f new) f.nodes
            (vfs_f_dupfd sys n false (node_at f new).file_id f)
            (duplicate_by-Same sys n.fs_type n
              (record n { close_exec = false; file_id = (node_at f new).file_id }) f)))

  -- On descriptors in the table, dup2 changes no descriptor but the new one, and close none but
  -- the one it closes, whether they succeed or fail.
  pub sys_dup2-Elsewhere :
      (f : Files) (old new : ℕ)
      → old < 64
      → new < 64
      → Elsewhere new f.nodes (sys_dup2 sys f (pos old) (pos new)).0.nodes
        × Elsewhere new f.nodes (sys_close sys f (pos new)).0.nodes
  unfolding sys_dup2 sys_close close_at in_bounds
  sys_dup2-Elsewhere f old new p q = rw (lt→ltb old 64 p) rw (lt→ltb new 64 q) (
    dup2_at-Elsewhere f old new,
    closed_at-Elsewhere new f.nodes (vfs_close sys (node_at f new) f)
        (vfs_close-Same sys (node_at f new) f),
  )
