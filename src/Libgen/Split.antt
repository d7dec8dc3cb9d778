-- ===== src/Libgen/Split.antt =====
-- What the functions on file names cut off: proofs.
use minc.Prelude.{
  ℕ, suc, ◌≡◌, refl, sym, ap, ◌∙◌, ◌⊎◌, inl, inr, true, false, Option, none, some, List, [], ◌∷◌,
  ◌++◌, length, take, ◌==◌, ==_iff, if◌then◌else◌, Bool-cases, length-append, arith, ◌&&◌,
}
use mathlib.Core.List.{append-nil, append_assoc}
use minc.Libgen.{
  backslash, colon, dot, basename_loop, win_basename, dirname_loop, vfs_dirname, same_text,
  root_name, through_colon, win_volname, before_colon, drive_source, win_drivename, typename_loop,
  win_typename,
}

-- No character of the text is c.
abbrev pub Lacks : ℕ → List ℕ → Type 0
Lacks c [] = Unit {0}
Lacks c (d ∷ xs) = ((d == c) ≡ false) × Lacks c xs

Lacks-snoc : (k : ℕ) (xs : List ℕ) (c : ℕ) → Lacks k xs → (c == k) ≡ false → Lacks k (xs ++ c ∷ [])
Lacks-snoc k [] c l e = (e, tt)
Lacks-snoc k (x ∷ xs) c l e = (l.0, Lacks-snoc k xs c l.1 e)

take_all : (xs ys : List ℕ) → take (length xs) (xs ++ ys) ≡ xs
take_all [] ys = refl
take_all (x ∷ xs) ys = ap (λ t. x ∷ t) (take_all xs ys)

length-snoc : (xs : List ℕ) (c : ℕ) → length (xs ++ c ∷ []) ≡ suc (length xs)
length-snoc xs c = omega (arith, length-append {A = ℕ} xs (c ∷ []))

-- Where the two loops stand in step: what is written is what lies before Base and the base name
-- so far, and the rest follows both.
loops_meet :
    (d b f : List ℕ)
    → dirname_loop (d ++ b) (length d) f ++ basename_loop (b ++ f) f ≡ d ++ (b ++ f)
unfolding dirname_loop basename_loop
loops_meet d b [] = rw (append-nil b, take_all d b) refl
loops_meet d b (c ∷ f) = elim (Bool-cases (c == backslash)) [
  | inl cut ↦
      rw (cut, ← length-snoc (d ++ b) c)
        (ap (λ t. dirname_loop t (length ((d ++ b) ++ c ∷ [])) f ++ basename_loop f f)
            (sym (append-nil ((d ++ b) ++ c ∷ [])))
          ∙ loops_meet ((d ++ b) ++ c ∷ []) [] f
          ∙ append_assoc (d ++ b) (c ∷ []) f
          ∙ append_assoc d b (c ∷ f))
  | inr on ↦ rw on (
      ap (λ t. dirname_loop t (length d) f ++ basename_loop (b ++ c ∷ f) f)
        (append_assoc d b (c ∷ []))
      ∙ ap (λ t. dirname_loop (d ++ (b ++ c ∷ [])) (length d) f ++ basename_loop t f)
          (sym (append_assoc b (c ∷ []) f))
      ∙ loops_meet d (b ++ c ∷ []) f
      ∙ ap (λ t. d ++ t) (append_assoc b (c ∷ []) f))
]

base-Lacks : (b f : List ℕ) → Lacks backslash b → Lacks backslash (basename_loop (b ++ f) f)
unfolding basename_loop
base-Lacks b [] l = rw (append-nil b) l
base-Lacks b (c ∷ f) l = elim (Bool-cases (c == backslash)) [
  | inl cut ↦ rw cut (base-Lacks [] f tt)
  | inr on ↦ rw on (
      rw (← append_assoc b (c ∷ []) f) (base-Lacks (b ++ c ∷ []) f (Lacks-snoc backslash b c l on)))
]

-- The directory that vfs_dirname keeps and the base name together are the whole name, for every
-- name, and the base name has no backslash.
pub vfs_dirname-win_basename :
    (name : List ℕ)
    → (vfs_dirname name ++ win_basename name ≡ name) × Lacks backslash (win_basename name)
unfolding vfs_dirname win_basename
vfs_dirname-win_basename name = (loops_meet [] [] name, base-Lacks [] name tt)

-- What the type of a name is: nothing, where the base name has no dot, or the last dot of the base
-- name and what follows.
abbrev pub IsTypeOf : List ℕ → List ℕ → Type 0
IsTypeOf t base =
    ((t ≡ []) × Lacks dot base) ⊎ ((s e : List ℕ) × (t ≡ dot ∷ e) × Lacks dot e × (s ++ t ≡ base))

-- The same of R, when the base name so far is b and the rest is f.
abbrev SoFar : Option (List ℕ) → List ℕ → List ℕ → Type 0
SoFar none b f = Lacks dot b
SoFar (some r) b f = (s e : List ℕ) × (r ≡ dot ∷ (e ++ f)) × Lacks dot e × (s ++ r ≡ b ++ f)

backslash-ne-dot : (c : ℕ) → (c == backslash) ≡ true → (c == dot) ≡ false
backslash-ne-dot c e = ground arith

-- R after a character that is not a backslash.
abbrev next_type : Option (List ℕ) → ℕ → List ℕ → Option (List ℕ)
next_type R c f = if c == dot then some (c ∷ f) else R

SoFar-next :
    (R : Option (List ℕ)) (b : List ℕ) (c : ℕ) (f : List ℕ)
    → SoFar R b (c ∷ f)
    → SoFar (next_type R c f) (b ++ c ∷ []) f
SoFar-next none b c f h = elim (Bool-cases (c == dot)) [
  | inl p ↦ rw p (
    b,
    [],
    ap (λ t. t ∷ f) (omega (arith, (==_iff c dot).0 p)),
    tt,
    sym (append_assoc b (c ∷ []) f),
  )
  | inr q ↦ rw q (Lacks-snoc dot b c h q)
]
SoFar-next (some r) b c f (s, e, q, l, m) = elim (Bool-cases (c == dot)) [
  | inl p ↦ rw p (
    b,
    [],
    ap (λ t. t ∷ f) (omega (arith, (==_iff c dot).0 p)),
    tt,
    sym (append_assoc b (c ∷ []) f),
  )
  | inr n ↦ rw n (
    s,
    e ++ c ∷ [],
    q ∙ ap (λ t. dot ∷ t) (sym (append_assoc e (c ∷ []) f)),
    Lacks-snoc dot e c l n,
    m ∙ sym (append_assoc b (c ∷ []) f),
  )
]

-- One character on, by what the rest of the name gives.
type_step :
    (R : Option (List ℕ)) (b : List ℕ) (c : ℕ) (f : List ℕ)
    → IsTypeOf (typename_loop (next_type R c f) f) (basename_loop ((b ++ c ∷ []) ++ f) f)
    → IsTypeOf (typename_loop none f) (basename_loop f f)
    → IsTypeOf
        (typename_loop (if c == dot then some (c ∷ f) else if c == backslash then none else R) f)
        (basename_loop (if c == backslash then f else b ++ c ∷ f) f)
type_step R b c f on cut = elim (Bool-cases (c == backslash)) [
  | inl p ↦ rw (p, backslash-ne-dot c p) cut
  | inr q ↦ rw (q, ← append_assoc b (c ∷ []) f) on
]

type_loop :
    (R : Option (List ℕ)) (b f : List ℕ)
    → SoFar R b f
    → IsTypeOf (typename_loop R f) (basename_loop (b ++ f) f)
unfolding typename_loop basename_loop
type_loop none b [] h = inl (refl, rw (append-nil b) h)
type_loop (some r) b [] (s, e, q, l, m) = inr (s, e, q ∙ ap (λ t. dot ∷ t) (append-nil e), l, m)
type_loop none b (c ∷ f) h =
    type_step none b c f (type_loop (next_type none c f) (b ++ c ∷ []) f (SoFar-next none b c f h))
      (type_loop none [] f tt)
type_loop (some r) b (c ∷ f) h =
    type_step (some r) b c f
      (type_loop (next_type (some r) c f) (b ++ c ∷ []) f (SoFar-next (some r) b c f h))
      (type_loop none [] f tt)

-- The type that win_typename finds is that of the base name: nothing, where the base name has no
-- dot, and otherwise the last dot of the base name with all that follows. A dot in a directory
-- does not count.
pub win_typename-win_basename : (name : List ℕ) → IsTypeOf (win_typename name) (win_basename name)
unfolding win_typename win_basename
win_typename-win_basename name = type_loop none [] name tt

same_text-snoc : (a b : List ℕ) (c : ℕ) → same_text (a ++ c ∷ []) (b ++ c ∷ []) ≡ same_text a b
unfolding same_text
same_text-snoc [] [] c = ground arith
same_text-snoc [] (y ∷ []) c = ground arith
same_text-snoc [] (y ∷ z ∷ b) c = ground arith
same_text-snoc (x ∷ []) [] c = ground arith
same_text-snoc (x ∷ y ∷ a) [] c = ground arith
same_text-snoc (x ∷ a) (y ∷ b) c = ap (λ t. (x == y) && t) (same_text-snoc a b c)

before_colon-Lacks : (f : List ℕ) → Lacks colon (before_colon f)
unfolding before_colon
before_colon-Lacks [] = tt
before_colon-Lacks (c ∷ f) = elim (Bool-cases (c == colon)) [
  | inl p ↦ rw p tt
  | inr q ↦ rw q (q, before_colon-Lacks f)
]

through_colon-snoc :
    (a : List ℕ) → Lacks colon a → through_colon (a ++ colon ∷ []) ≡ a ++ colon ∷ []
unfolding through_colon
through_colon-snoc [] l = refl
through_colon-snoc (c ∷ a) l = rw l.0 (ap (λ t. c ∷ t) (through_colon-snoc a l.1))

-- A drive name made from a path is turned into the name of a volume: an empty path and a path whose
-- text up to the first colon is ROOT give the current directory and a null pointer, and any other
-- text up to the first colon gives that text with a colon and a backslash.
pub win_volname-win_drivename :
    (name : List ℕ)
    → win_volname (win_drivename name) ≡ (
        if same_text (before_colon (drive_source name)) root_name
        then (dot ∷ backslash ∷ [], true)
        else (before_colon (drive_source name) ++ colon ∷ backslash ∷ [], false))
unfolding win_volname win_drivename
win_volname-win_drivename name =
    rw
      (
        same_text-snoc (before_colon (drive_source name)) root_name colon,
        through_colon-snoc (before_colon (drive_source name))
            (before_colon-Lacks (drive_source name)),
        append_assoc (before_colon (drive_source name)) (colon ∷ []) (backslash ∷ []),
      )
      refl
