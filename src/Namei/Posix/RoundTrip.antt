-- ===== src/Namei/Posix/RoundTrip.antt =====
-- The path that comes back from the name of a path: proofs.
use minc.Prelude.{
  ℕ, zero, suc, ◌+◌, ◌-◌, ◌<◌, ◌≡◌, refl, sym, ap, ◌∙◌, inl, inr, Bool, true, false, not, ◌&&◌,
  Option, none, some, List, [], ◌∷◌, ◌++◌, map, length, drop, ltb, ◌==◌, ==_iff, if◌then◌else◌,
  Bool-cases, length-map, arith,
}
use mathlib.Core.Path.{subst}
use mathlib.Core.List.{append-nil, append_assoc}
use minc.Libgen.{backslash, colon, dot}
use minc.Descriptor.Flags.{has}
use minc.Namei.{NameiData, Volume, slash, copied_char, win_stripslashes, win_pathcopy}
use minc.Namei.Find.{vfs_lookup}
use minc.Namei.Closing.{IsPlain, IsExact}
use minc.Namei.Plain.{appended, vfs_lookup_plain}
use minc.Namei.Posix.{
  starts_with, proc, dot_lnk, posix_prefix, posix_loop, chop_link, posix_result, pathnp_posix,
  root_win,
}

-- The text has no ".lnk".
abbrev pub lacks_link : List ℕ → Bool
lacks_link [] = true
lacks_link (c ∷ s) = not (starts_with dot_lnk (c ∷ s)) && lacks_link s

lacks_link-drop :
    (s : List ℕ) (t : ℕ) → lacks_link s ≡ true → starts_with dot_lnk (drop t s) ≡ false
unfolding starts_with
lacks_link-drop [] zero h = refl
lacks_link-drop [] (suc t) h = refl
lacks_link-drop (c ∷ s) zero h = ground arith
lacks_link-drop (c ∷ s) (suc t) h = lacks_link-drop s t (ground arith)

chop_link_none : (out : List ℕ) (type : Option ℕ) → lacks_link out ≡ true → chop_link out type ≡ out
unfolding chop_link
chop_link_none out none h = refl
chop_link_none out (some t) h = rw (lacks_link-drop out t h) refl

-- Characters of ASCII.
abbrev pub IsAscii : List ℕ → Type 0
IsAscii [] = Unit {0}
IsAscii (c ∷ s) = (0 < c) × (c < 128) × IsAscii s

-- Characters of ASCII of a path of POSIX.
abbrev pub IsAsciiPath : List ℕ → Type 0
IsAsciiPath [] = Unit {0}
IsAsciiPath (c ∷ s) =
    (0 < c) × (c < 128) × (c == backslash ≡ false) × (c == colon ≡ false) × IsAsciiPath s

loop_back :
    (out : List ℕ) (type : Option ℕ) (size : ℕ) (p stale : List ℕ)
    → IsAsciiPath p
    → length p < size
    → (t : Option ℕ) × (posix_loop out type size (map copied_char p ++ zero ∷ stale)
        ≡ (out ++ p, t))
unfolding posix_loop copied_char
loop_back out type size [] stale h k = (type, rw (append-nil out) refl)
loop_back out type size (zero ∷ p) stale h k = elim h.0 [ ]
loop_back out type size (suc b ∷ p) stale h k =
    let more : ltb (size - 1) 1 ≡ false = ground arith in
    elim (Bool-cases (suc b == slash)) [
      | inl q ↦
          let r = loop_back (out ++ slash ∷ []) type (size - 1) p stale h.4 (omega arith) in
          (
            r.0,
            rw (q, more)
                (r.1
                  ∙ ap (λ u. (u, r.0)) (append_assoc out (slash ∷ []) p)
                  ∙ ap (λ c. (out ++ c ∷ p, r.0)) (sym ((==_iff (suc b) slash).0 q))),
          )
      | inr q ↦
          let t' = if suc b == dot then some (length out) else type in
          let r = loop_back (out ++ suc b ∷ []) t' (size - 1) p stale h.4 (omega arith) in
          (
            r.0,
            rw (q, h.3, more, h.3, h.2)
                (r.1 ∙ ap (λ u. (u, r.0)) (append_assoc out (suc b ∷ []) p)),
          )
    ]

-- win_wcstombs copies characters of ASCII that fit.
abbrev pub CopiesAscii : (List ℕ → ℕ → List ℕ) → Type 0
CopiesAscii wcstombs =
    (w : List ℕ) (n : ℕ)
    → IsAscii w
    → length w < n
    → (stale : List ℕ) × (wcstombs w n ≡ w ++ zero ∷ stale)

copied-IsAscii : (p : List ℕ) → IsAsciiPath p → IsAscii (map copied_char p)
unfolding copied_char
copied-IsAscii [] h = tt
copied-IsAscii (c ∷ p) h = (ground arith, ground arith, copied-IsAscii p h.4)

module _ (wcstombs : List ℕ → ℕ → List ℕ) (copies : CopiesAscii wcstombs) where
  -- The name of a path from the root, as vfs_lookup writes it, gives the path back.
  pathnp_posix_back :
      (p : List ℕ) (size : ℕ)
      → IsAsciiPath p
      → lacks_link (slash ∷ p) ≡ true
      → length p + 2 < size
      → pathnp_posix wcstombs (dot ∷ backslash ∷ map copied_char p) size false ≡ (slash ∷ p, 0)
  unfolding pathnp_posix posix_result posix_prefix starts_with copied_char
  pathnp_posix_back p size h l k =
      let w = dot ∷ backslash ∷ map copied_char p in
      let c =
        copies w size (omega arith, omega arith, (omega arith, omega arith, copied-IsAscii p h))
          (omega (arith, length-map p copied_char, k)) in
      let ascii : IsAsciiPath (slash ∷ p) = (omega arith, omega arith, refl, refl, h) in
      let r = loop_back [] none size (slash ∷ p) c.0 ascii (omega (arith, k)) in
      rw (c.1)
        (ap (λ t. posix_result t false) r.1 ∙ ap (λ t. (t, 0)) (chop_link_none (slash ∷ p) r.0 l))

  -- A path of ASCII from the root, of characters other than a backslash and a colon, without
  -- ".lnk" and not below /proc, is looked up on a volume with no nodes and mount points, without
  -- WIN_STRIPSLASHES and WIN_PATHCOPY; the file that the whole path names is there, or neither it
  -- with ".exe" nor it with ".lnk" is. Then the name that comes out, made a path of POSIX in a buffer
  -- with more room than the path and two characters, is that path again.
  pub pathnp_posix-vfs_lookup :
      (volume : Volume) (path : NameiData) (p : List ℕ) (size fuel flags : ℕ)
      → IsPlain volume
      → IsExact volume (dot ∷ backslash ∷ map copied_char p)
      → IsAsciiPath p
      → lacks_link (slash ∷ p) ≡ true
      → starts_with (proc ++ slash ∷ []) (slash ∷ p) ≡ false
      → length p + 2 < size
      → length p < fuel
      → path.resolved ≡ (root_win (slash ∷ p)).0
      → path.r ≡ length path.resolved
      → has flags win_stripslashes ≡ false
      → has flags win_pathcopy ≡ false
      → (q : NameiData) × (vfs_lookup volume fuel path (root_win (slash ∷ p)).1 flags ≡ some q)
        × (pathnp_posix wcstombs q.resolved size false ≡ (slash ∷ p, 0))
  unfolding root_win
  pathnp_posix-vfs_lookup volume path p size fuel flags plain exact h l n k f e r s c =
      let a : (root_win (slash ∷ p)) ≡ (dot ∷ [], p) = rw n refl in
      let d : path.resolved ≡ dot ∷ [] = e ∙ ap (λ t. t.0) a in
      let q =
        vfs_lookup_plain volume plain fuel path p flags f r s c
          (subst (λ t. IsExact volume (appended t p)) (sym d) exact) in
      (
        q.0,
        ap (λ t. vfs_lookup volume fuel path t.1 flags) a ∙ q.1,
        ap (λ t. pathnp_posix wcstombs t size false) (q.2 ∙ ap (λ t. appended t p) d)
            ∙ pathnp_posix_back p size h l k,
      )
