-- ===== src/Namei/Closing.antt =====
-- What closing a path does to its name where no file is a node or a mount point: lemmas.
use minc.Prelude.{
  ℕ, ◌+◌, ◌≡◌, refl, ap, ◌⊎◌, inl, inr, Bool, true, false, List, [], ◌∷◌, ◌++◌, length, take, leb,
  ◌==◌, if◌then◌else◌, if_lem, length-append, arith,
}
use mathlib.Core.List.{append-nil}
use minc.Descriptor.{vdir, vlnk, vreg}
use minc.Descriptor.Flags.{has}
use minc.Libgen.{dot}
use minc.Namei.{NameiData, Volume, no_attribs, attribute_directory, write_at}
use minc.Namei.Posix.{dot_lnk}
use minc.Namei.Find.{
  class_other, file_class, glob_class, path_glob, sh_glob_type, sh_glob_link, closed, path_close,
}

-- Every file is absent or ordinary: neither a node nor a mount point.
pub record IsPlain (volume : Volume) : Type 0 where
  pub ordinary :
      (n : List ℕ)
      → ((volume.attributes n == no_attribs) ≡ true)
        ⊎ (file_class (volume.attributes n) ≡ class_other)

abbrev pub dot_exe : List ℕ
dot_exe = dot ∷ b'e' ∷ b'x' ∷ b'e' ∷ []

abbrev pub IsAbsent : Volume → List ℕ → Type 0
IsAbsent volume n = (volume.attributes n == no_attribs) ≡ true

-- A file is there, or is neither as a program (.exe) nor as a link (.lnk).
abbrev pub IsExact : Volume → List ℕ → Type 0
IsExact volume n =
    ((volume.attributes n == no_attribs) ≡ false)
    ⊎ (IsAbsent volume (n ++ dot_exe) × IsAbsent volume (n ++ dot_lnk))

take_all : (xs ys : List ℕ) → take (length xs) (xs ++ ys) ≡ xs
take_all [] ys = refl
take_all (x ∷ xs) ys = ap (λ t. x ∷ t) (take_all xs ys)

pub take_self : (xs : List ℕ) → take (length xs) xs ≡ xs
take_self [] = refl
take_self (x ∷ xs) = ap (λ t. x ∷ t) (take_self xs)

-- A write at the end of the text.
pub write_at_end : (xs : List ℕ) (i : ℕ) (w : List ℕ) → i ≡ length xs → write_at xs i w ≡ xs ++ w
unfolding write_at
write_at_end xs i w e =
    let le : leb (length xs) (length xs) ≡ true = ground arith in rw (e, le, take_self xs) refl

-- A write that ends the text where it ended before.
write_at_undo : (xs ys : List ℕ) (i : ℕ) → i ≡ length xs → write_at (xs ++ ys) i [] ≡ xs
unfolding write_at
write_at_undo xs ys i e =
    let sum : length (xs ++ ys) ≡ length xs + length ys = length-append xs ys in
    let le : leb (length xs) (length xs + length ys) ≡ true = ground arith in
    rw (e, sum, le, take_all xs ys, append-nil xs) refl

-- R stands at the end of the text.
abbrev pub AtEnd : NameiData → Type 0
AtEnd p = p.r ≡ length p.resolved

-- The name and the rest of the source are kept.
abbrev pub Keeps : NameiData → NameiData → Type 0
Keeps p q = (q.source ≡ p.source) × (q.r ≡ p.r) × (q.resolved ≡ p.resolved)

module _ (volume : Volume) where
  sh_glob_type_absent :
      (type : List ℕ) (p : NameiData)
      → AtEnd p
      → IsAbsent volume (p.resolved ++ type)
      → sh_glob_type volume type p ≡ (p, false)
  unfolding sh_glob_type
  sh_glob_type_absent type p e a =
      rw (write_at_end p.resolved p.r type e, a, write_at_undo p.resolved type p.r e) refl

  sh_glob_link_absent :
      (p : NameiData) (flags : ℕ)
      → AtEnd p
      → IsAbsent volume (p.resolved ++ dot_lnk)
      → sh_glob_link volume p flags ≡ (p, false)
  unfolding sh_glob_link
  sh_glob_link_absent p flags e a = rw (sh_glob_type_absent dot_lnk p e a) refl

  close_step :
      (name : List ℕ) (g q l : NameiData) (found program link dir : Bool)
      → g.resolved ≡ name
      → (found ≡ false → (program ≡ false) × (l.resolved ≡ name))
      → (closed volume (
          if found
          then (if dir then record g { file_type = vdir } else g)
          else if program
          then record q { file_type = vreg }
          else if link
          then record l { file_type = vlnk }
          else l)).resolved
        ≡ name
  unfolding closed
  close_step name g q l true program link true a b = a
  close_step name g q l true program link false a b = a
  close_step name g q l false true link dir a b = let c = (b refl).0 in cc
  close_step name g q l false false true dir a b = (b refl).1
  close_step name g q l false false false dir a b = (b refl).1

  module _ (plain : IsPlain volume) where
    pub path_glob-Keeps : (p : NameiData) (flags : ℕ) → Keeps p (path_glob volume p flags).0
    unfolding path_glob glob_class
    path_glob-Keeps p flags = elim (plain.ordinary p.resolved) [
      | inl absent ↦ rw absent (refl, refl, refl)
      | inr other ↦ rw other (
          if_lem {A = NameiData × Bool} (λ t. Keeps p t.0)
            (volume.attributes p.resolved == no_attribs) (refl, refl, refl) (refl, refl, refl))
    ]

    path_glob_found :
        (p : NameiData) (flags : ℕ)
        → (volume.attributes p.resolved == no_attribs) ≡ false
        → (path_glob volume p flags).1 ≡ true
    unfolding path_glob glob_class
    path_glob_found p flags h = elim (plain.ordinary p.resolved) [
      | inl absent ↦ cc
      | inr other ↦ rw (h, other) refl
    ]

    -- What the probes leave where the file was not found.
    probes_kept :
        (p g : NameiData) (flags : ℕ)
        → Keeps p g
        → AtEnd p
        → IsAbsent volume (p.resolved ++ dot_exe)
        → IsAbsent volume (p.resolved ++ dot_lnk)
        → ((sh_glob_type volume dot_exe g).1 ≡ false)
          × ((sh_glob_link volume (sh_glob_type volume dot_exe g).0 flags).0.resolved ≡ p.resolved)
    probes_kept p g flags k e a b =
        let e' : AtEnd g = rw (k.1, k.2) e in
        let t = sh_glob_type_absent dot_exe g e' (rw (k.2) a) in
        rw t (refl, rw (sh_glob_link_absent g flags e' (rw (k.2) b)) (k.2))

    -- A path that is closed keeps its name, if that is exact.
    pub path_close-resolved :
        (p : NameiData) (flags : ℕ)
        → AtEnd p
        → IsExact volume p.resolved
        → (path_close volume p flags).resolved ≡ p.resolved
    unfolding path_close
    path_close-resolved p flags e exact =
        let g = path_glob volume p flags in
        let k = path_glob-Keeps p flags in
        let t = sh_glob_type volume dot_exe g.0 in
        let s = sh_glob_link volume t.0 flags in
        close_step p.resolved g.0 t.0 s.0 g.1 t.1 s.1 (has g.0.attribs attribute_directory) (k.2)
          (λ n. elim exact [
            | inl there ↦ let f = path_glob_found p flags there in cc
            | inr absent ↦ probes_kept p g.0 flags k e (absent.0) (absent.1)
          ])
