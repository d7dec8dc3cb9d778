-- ===== src/Namei/Lookup.antt =====
-- What vfs_lookup makes of a path: proofs.
use minc.Prelude.{
  ℕ, zero, suc, ◌+◌, ◌<◌, ◌≡◌, refl, ◌⊎◌, inl, inr, Bool, true, false, not, Option, none, some,
  List, [], ◌∷◌, ◌++◌, map, length, get_or, ◌==◌, ==_iff, if◌then◌else◌, Bool-cases, if_lem, arith,
}
use minc.Descriptor.{FsType, fs_disk, fs_pipe, fs_pdo}
use minc.Descriptor.Flags.{has}
use minc.Libgen.{backslash}
use minc.Namei.{
  NameiData, Inode, Volume, no_attribs, type_name_virtual, win_issymlink, win_requireobject,
  win_nocrossmount, slash, win_follow, win_stripslashes, win_pathcopy, component_char,
  read_component, path_read, copied_char, path_copy,
}
use minc.Namei.Find.{
  FileClass, class_inode, class_mount, class_other, file_class, name_written, link_written,
  link_read, disk_f_lookup, pipe_read, pipe_f_lookup, pdo_f_lookup, node_stat, node_lookup,
  disk_found, disk_lookup, drive_lookup, glob_class, path_glob, path_close, path_open, copy_rest,
  lookup_loop, vfs_lookup,
}

-- What one component of the source is: the rest of the source, which has no slash, or what stands
-- before its first slash.
abbrev pub IsComponent : List ℕ × List ℕ × ℕ → List ℕ → Type 0
IsComponent (w, rest, c) s =
    ((c ≡ 0) × (rest ≡ []) × (w ≡ map copied_char s))
    ⊎ ((c ≡ slash)
        × (w ++ backslash ∷ map copied_char rest ≡ map copied_char s)
        × (suc (length w + length rest) ≡ length s))

copied-slash : (c : ℕ) → (c == slash) ≡ true → copied_char c ≡ backslash
unfolding copied_char
copied-slash c e = rw e refl

copied-component : (c : ℕ) → (c == slash) ≡ false → copied_char c ≡ component_char c
unfolding copied_char component_char
copied-component c e = rw e refl

IsComponent-step :
    (c : ℕ) (s : List ℕ) (rest : List ℕ × List ℕ × ℕ)
    → (c == slash) ≡ false
    → IsComponent rest s
    → IsComponent (component_char c ∷ rest.0, rest.1, rest.2) (c ∷ s)
IsComponent-step c s (w, r, d) n (inl (a, b, e)) = inl (a, b, rw (copied-component c n, e) refl)
IsComponent-step c s (w, r, d) n (inr (a, b, e)) =
    inr (a, rw (copied-component c n, ← b) refl, omega arith)

IsComponent-read :
    (c : ℕ) (s : List ℕ) (rest : List ℕ × List ℕ × ℕ)
    → IsComponent rest s
    → IsComponent
        (if c == slash then ([], s, c) else (component_char c ∷ rest.0, rest.1, rest.2))
        (c ∷ s)
IsComponent-read c s rest h = elim (Bool-cases (c == slash)) [
  | inl p ↦
      rw p (inr (omega (arith, (==_iff c slash).0 p), rw (copied-slash c p) refl, omega arith))
  | inr n ↦ rw n (IsComponent-step c s rest n h)
]

pub read_component-IsComponent : (s : List ℕ) → IsComponent (read_component s) s
unfolding read_component
read_component-IsComponent [] = inl (refl, refl, refl)
read_component-IsComponent (c ∷ s) =
    IsComponent-read c s (read_component s) (read_component-IsComponent s)

IsComponent-shrinks :
    (t : List ℕ × List ℕ × ℕ) (s : List ℕ) (strip : Bool)
    → IsComponent t s
    → ((if strip then get_or t.1 0 0 else t.2) == 0) ≡ false
    → length t.1 < length s
IsComponent-shrinks (w, [], c) s true (inl (a, b, e)) n = cc
IsComponent-shrinks (w, x ∷ r, c) s true (inl (a, b, e)) n = absurd (cc b)
IsComponent-shrinks (w, r, c) s false (inl (a, b, e)) n = absurd (ground arith)
IsComponent-shrinks (w, r, c) s strip (inr (a, b, e)) n = omega arith

-- A round that goes on has read a character.
pub path_read_shrinks :
    (p : NameiData) (flags : ℕ)
    → ((path_read p flags).1 == 0) ≡ false
    → length (path_read p flags).0.source < length p.source
unfolding path_read
path_read_shrinks p flags n =
    IsComponent-shrinks (read_component p.source) p.source (has flags win_stripslashes)
      (read_component-IsComponent p.source) n

-- The source that is left stands as it was.
abbrev KeepsSource : NameiData → NameiData × Bool → Type 0
KeepsSource p q = q.0.source ≡ p.source

module _ (volume : Volume) where
  link_read-KeepsSource :
      (p : NameiData) (o : Option (List ℕ)) → KeepsSource p (link_read volume p o)
  unfolding link_read link_written name_written
  link_read-KeepsSource p none = refl
  link_read-KeepsSource p (some t) = ground arith

  pipe_read-KeepsSource :
      (p : NameiData) (o : Option (List ℕ)) → KeepsSource p (pipe_read volume p o)
  unfolding pipe_read
  pipe_read-KeepsSource p none = refl
  pipe_read-KeepsSource p (some t) = refl

  node_lookup-KeepsSource :
      (t : FsType) (h flags : ℕ) (p : NameiData) → KeepsSource p (node_lookup volume t h flags p)
  unfolding node_lookup disk_f_lookup pipe_f_lookup pdo_f_lookup
  node_lookup-KeepsSource fs_disk h flags p =
      if_lem (KeepsSource p) (has flags win_issymlink) refl (
        if_lem (KeepsSource p) (not (has flags win_follow)) refl
          (link_read-KeepsSource p (volume.node_text p.resolved)))
  node_lookup-KeepsSource fs_pipe h flags p =
      if_lem (KeepsSource p) (has flags win_requireobject) refl (
        if_lem (KeepsSource p) (not (has flags win_follow)) refl
          (pipe_read-KeepsSource p (volume.node_text p.resolved)))
  node_lookup-KeepsSource fs_pdo h flags p =
      if_lem (KeepsSource p) (has flags win_requireobject) refl refl
  node_lookup-KeepsSource _ h flags p = refl

  disk_found-KeepsSource :
      (p : NameiData) (flags : ℕ) (o : Option (ℕ × Inode))
      → KeepsSource p (disk_found volume p flags (node_stat volume p o))
  unfolding disk_found node_stat
  disk_found-KeepsSource p flags none = refl
  disk_found-KeepsSource p flags (some (h, n)) =
      if_lem (λ o. KeepsSource p (disk_found volume p flags o)) (n.magic == type_name_virtual)
        (node_lookup-KeepsSource n.fs_type h flags (record p {
          device_id = n.device_id;
          file_type = n.file_type;
          fs_type = n.fs_type;
          size = n.name_size;
        }))
        refl

  glob_class-KeepsSource :
      (k : FileClass) (p : NameiData) (flags : ℕ) → KeepsSource p (glob_class volume k p flags)
  unfolding glob_class disk_lookup drive_lookup name_written
  glob_class-KeepsSource class_inode p flags =
      disk_found-KeepsSource p flags (volume.open_node p.resolved)
  glob_class-KeepsSource class_mount p flags =
      if_lem (KeepsSource p) (has flags win_nocrossmount) refl refl
  glob_class-KeepsSource class_other p flags = refl

  path_glob-KeepsSource : (p : NameiData) (flags : ℕ) → KeepsSource p (path_glob volume p flags)
  unfolding path_glob
  path_glob-KeepsSource p flags =
      let a = volume.attributes p.resolved in
      if_lem (KeepsSource p) (a == no_attribs) refl
        (glob_class-KeepsSource (file_class a) (record p { attribs = a }) flags)

  abbrev Found : Option NameiData → Type 0
  Found o = (q : NameiData) × (o ≡ some q)

  -- One round of the loop, by what the next gives.
  round_Found :
      (a b : Bool) (x y : NameiData) (o : Option NameiData)
      → (a ≡ false → Found o)
      → Found (if a then some x else if b then o else some y)
  round_Found true b x y o h = (x, refl)
  round_Found false true x y o h = h refl
  round_Found false false x y o h = (y, refl)

  lookup_loop-Found :
      (fuel : ℕ) (p : NameiData) (flags : ℕ)
      → length p.source < fuel
      → Found (lookup_loop volume fuel p flags)
  unfolding lookup_loop
  lookup_loop-Found zero p flags h = elim h [ ]
  lookup_loop-Found (suc fuel) p flags h =
      let r = path_read p flags in
      let g = path_glob volume r.0 win_follow in
      round_Found (r.1 == 0) g.1 (path_close volume r.0 flags) (copy_rest volume g.0)
        (lookup_loop volume fuel g.0 flags)
        (λ e. lookup_loop-Found fuel g.0 flags (
          rw (path_glob-KeepsSource r.0 win_follow)
            (omega (arith, path_read_shrinks p flags e, h))))

  -- vfs_lookup ends, on every volume, for every path, source and flags: rounds one more than the
  -- source has characters are enough, whatever links, mount points and nodes are met on the way.
  pub vfs_lookup_terminates :
      (fuel : ℕ) (p : NameiData) (source : List ℕ) (flags : ℕ)
      → length source < fuel
      → (q : NameiData) × (vfs_lookup volume fuel p source flags ≡ some q)
  unfolding vfs_lookup
  vfs_lookup_terminates fuel p source flags h =
      let o = path_open volume p source flags in
      if_lem Found (has flags win_pathcopy) (path_close volume (path_copy o) flags, refl)
        (lookup_loop-Found fuel o flags h)
