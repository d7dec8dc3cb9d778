-- ===== src/Namei/Plain.antt =====
-- vfs_lookup where no file is a node or a mount point: proofs.
use minc.Prelude.{
  ℕ, zero, suc, ◌+◌, ◌<◌, ◌≡◌, refl, sym, ap, ◌∙◌, inl, inr, Bool, true, false, Option, some, List,
  [], ◌∷◌, ◌++◌, map, length, ◌==◌, ==_iff, if◌then◌else◌, length-append, arith,
}
use mathlib.Core.Path.{subst}
use mathlib.Core.List.{append_assoc}
use minc.Descriptor.Flags.{has}
use minc.Libgen.{backslash}
use minc.Namei.{
  NameiData, Volume, win_follow, win_stripslashes, win_pathcopy, read_component, path_read,
  copied_char, path_copy,
}
use minc.Namei.Find.{path_glob, closed, path_close, path_open, copy_rest, lookup_loop, vfs_lookup}
use minc.Namei.Lookup.{IsComponent, read_component-IsComponent, path_read_shrinks}
use minc.Namei.Closing.{IsPlain, IsExact, write_at_end, AtEnd, path_glob-Keeps, path_close-resolved}

-- What a path becomes: a backslash, and the source with each slash turned around and each colon
-- made an underscore.
abbrev pub appended : List ℕ → List ℕ → List ℕ
appended name source = name ++ backslash ∷ map copied_char source

-- A path with the given name.
abbrev Named : List ℕ → Option NameiData → Type 0
Named name o = (q : NameiData) × (o ≡ some q) × (q.resolved ≡ name)

Named-round :
    (name : List ℕ) (a b : Bool) (x y : NameiData) (o : Option NameiData)
    → (a ≡ true → x.resolved ≡ name)
    → (a ≡ false → Named name o)
    → (a ≡ false → y.resolved ≡ name)
    → Named name (if a then some x else if b then o else some y)
Named-round name true b x y o f g h = (x, refl, f refl)
Named-round name false true x y o f g h = g refl
Named-round name false false x y o f g h = (y, refl, h refl)

-- PathRead on a name that ends at R.
abbrev Read : NameiData → NameiData × ℕ → Type 0
Read p (q, c) =
    AtEnd q
    × (c ≡ 0 → q.resolved ≡ appended p.resolved p.source)
    × ((c == 0) ≡ false → appended q.resolved q.source ≡ appended p.resolved p.source)

read_ends :
    (name source : List ℕ) (t : List ℕ × List ℕ × ℕ)
    → IsComponent t source
    → (t.2 ≡ 0 → name ++ backslash ∷ t.0 ≡ appended name source)
      × ((t.2 == 0) ≡ false → appended (name ++ backslash ∷ t.0) t.1 ≡ appended name source)
read_ends name source (w, r, c) (inl (a, b, e)) =
    ((λ _. ap (λ t. name ++ backslash ∷ t) e), (λ n. absurd (ground arith)))
read_ends name source (w, r, c) (inr (a, b, e)) = (
  (λ z. absurd (omega arith)),
  (λ _.
      append_assoc name (backslash ∷ w) (backslash ∷ map copied_char r)
      ∙ ap (λ t. name ++ backslash ∷ t) b),
)

path_read-Read :
    (p : NameiData) (flags : ℕ)
    → AtEnd p
    → has flags win_stripslashes ≡ false
    → Read p (path_read p flags)
unfolding path_read
path_read-Read p flags e n =
    let t = read_component p.source in
    let k = read_ends p.resolved p.source t (read_component-IsComponent p.source) in
    rw (n, write_at_end p.resolved p.r (backslash ∷ t.0) e)
      (omega (arith, e, length-append {A = ℕ} p.resolved (backslash ∷ t.0)), k.0, k.1)

copy_rest_lem :
    (volume : Volume) (p : NameiData)
    → AtEnd p
    → (copy_rest volume p).resolved ≡ appended p.resolved p.source
unfolding copy_rest path_copy closed
copy_rest_lem volume p e =
    let first = p.resolved ++ backslash ∷ [] in
    let e1 : p.r + 1 ≡ length first =
      omega (arith, e, length-append {A = ℕ} p.resolved (backslash ∷ [])) in
    rw
      (
        write_at_end p.resolved p.r (backslash ∷ []) e,
        write_at_end first (p.r + 1) (map copied_char p.source) e1,
      )
      (append_assoc p.resolved (backslash ∷ []) (map copied_char p.source))

module _ (volume : Volume) (plain : IsPlain volume) where
  lookup_loop-Named :
      (fuel : ℕ) (p : NameiData) (flags : ℕ)
      → length p.source < fuel
      → AtEnd p
      → has flags win_stripslashes ≡ false
      → IsExact volume (appended p.resolved p.source)
      → Named (appended p.resolved p.source) (lookup_loop volume fuel p flags)
  unfolding lookup_loop
  lookup_loop-Named zero p flags h e n x = elim h [ ]
  lookup_loop-Named (suc fuel) p flags h e n x =
      let r = path_read p flags in
      let k = path_read-Read p flags e n in
      let g = path_glob volume r.0 win_follow in
      let s = path_glob-Keeps volume plain r.0 win_follow in
      let e' : AtEnd g.0 = s.1 ∙ k.0 ∙ sym (ap (length {A = ℕ}) s.2) in
      let same : appended g.0.resolved g.0.source ≡ appended r.0.resolved r.0.source =
        ap (λ t. appended t g.0.source) s.2 ∙ ap (λ t. appended r.0.resolved t) s.0 in
      Named-round (appended p.resolved p.source) (r.1 == 0) g.1 (path_close volume r.0 flags)
        (copy_rest volume g.0) (lookup_loop volume fuel g.0 flags)
        (λ z.
          let l = k.1 (omega (arith, (==_iff r.1 0).0 z)) in
          path_close-resolved volume plain r.0 flags k.0 (subst (IsExact volume) (sym l) x) ∙ l)
        (λ z.
          subst (λ t. Named t (lookup_loop volume fuel g.0 flags)) (same ∙ k.2 z)
            (lookup_loop-Named fuel g.0 flags
              (omega (arith, ap (length {A = ℕ}) s.0, path_read_shrinks p flags z, h)) e' n
              (subst (IsExact volume) (sym (same ∙ k.2 z)) x)))
        (λ z. copy_rest_lem volume g.0 e' ∙ same ∙ k.2 z)

  -- On a volume with no nodes and mount points, a path that is looked up without WIN_STRIPSLASHES
  -- and WIN_PATHCOPY, from a name that ends at R, gives that name, a backslash and the whole source,
  -- each slash turned around and each colon made an underscore, if that is the exact name of a
  -- file: the same name whichever of its directories exist, and whatever the other flags are. Rounds
  -- one more than the source has characters are enough.
  pub vfs_lookup_plain :
      (fuel : ℕ) (p : NameiData) (source : List ℕ) (flags : ℕ)
      → length source < fuel
      → p.r ≡ length p.resolved
      → has flags win_stripslashes ≡ false
      → has flags win_pathcopy ≡ false
      → IsExact volume (appended p.resolved source)
      → (q : NameiData) × (vfs_lookup volume fuel p source flags ≡ some q)
        × (q.resolved ≡ appended p.resolved source)
  unfolding vfs_lookup path_open
  vfs_lookup_plain fuel p source flags h e n c x =
      rw c (lookup_loop-Named fuel (path_open volume p source flags) flags h e n x)
