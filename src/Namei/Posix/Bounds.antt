-- ===== src/Namei/Posix/Bounds.antt =====
-- What any path of POSIX that pathnp_posix writes may hold, and its length: proofs.
use minc.Prelude.{
  ℕ, zero, suc, ◌+◌, ◌-◌, ◌≤◌, ◌<◌, ◌≡◌, refl, inl, inr, Bool, false, Option, none, some, List, [],
  ◌∷◌, ◌++◌, length, take, drop, get_or, ltb, ◌==◌, if◌then◌else◌, Bool-cases, if_lem,
  length-append, arith,
}
use minc.Libgen.{backslash, colon, dot}
use minc.Namei.{slash}
use minc.Namei.Posix.{
  starts_with, global_root, mnt, proc, dot_lnk, posix_prefix, posix_loop, chop_link, posix_result,
  pathnp_posix,
}

-- Every character is that of a POSIX path: not a backslash and not a colon.
abbrev pub IsPosix : List ℕ → Type 0
IsPosix [] = Unit {0}
IsPosix (c ∷ s) = ((c == backslash) ≡ false) × ((c == colon) ≡ false) × IsPosix s

IsPosix-append : (a b : List ℕ) → IsPosix a → IsPosix b → IsPosix (a ++ b)
IsPosix-append [] b h k = k
IsPosix-append (c ∷ a) b h k = (h.0, h.1, IsPosix-append a b h.2 k)

IsPosix-take : (t : ℕ) (a : List ℕ) → IsPosix a → IsPosix (take t a)
IsPosix-take zero a h = tt
IsPosix-take (suc t) [] h = tt
IsPosix-take (suc t) (c ∷ a) h = (h.0, h.1, IsPosix-take t a h.2)

length-take_le : (t : ℕ) (a : List ℕ) → length (take t a) ≤ length a
length-take_le zero a = omega arith
length-take_le (suc t) [] = omega arith
length-take_le (suc t) (c ∷ a) = omega (arith, length-take_le t a)

-- A path of POSIX, of fewer characters than the bound.
abbrev Fits : ℕ → List ℕ → Type 0
Fits n a = IsPosix a × (length a < n)

write_step :
    (out : List ℕ) (c n : ℕ)
    → Fits n out
    → Fits (n + 1) (if c == colon then out else out ++ (if c == backslash then slash else c) ∷ [])
write_step out c n h = elim (Bool-cases (c == colon)) [
  | inl p ↦ rw p (h.0, omega (arith, h.1))
  | inr q ↦ elim (Bool-cases (c == backslash)) [
    | inl b ↦
        rw (q, b)
          (
            IsPosix-append out (slash ∷ []) h.0 (refl, refl, tt),
            omega (arith, h.1, length-append {A = ℕ} out (slash ∷ [])),
          )
    | inr b ↦
        rw (q, b)
          (
            IsPosix-append out (c ∷ []) h.0 (b, q, tt),
            omega (arith, h.1, length-append {A = ℕ} out (c ∷ [])),
          )
  ]
]

loop_Fits :
    (out : List ℕ) (type : Option ℕ) (size n : ℕ) (src : List ℕ)
    → Fits n out
    → Fits (n + (size - 1)) (posix_loop out type size src).0
unfolding posix_loop
loop_Fits out type size n [] h = (h.0, omega (arith, h.1))
loop_Fits out type size n (zero ∷ src) h = (h.0, omega (arith, h.1))
loop_Fits out type size n (suc b ∷ src) h = elim (Bool-cases (ltb (size - 1) 1)) [
  | inl stop ↦ rw stop (h.0, omega (arith, h.1))
  | inr on ↦
      let c = suc b in
      let out' = if c == colon then out else out ++ (if c == backslash then slash else c) ∷ [] in
      let type' = if c == dot then some (length out) else type in
      let k = loop_Fits out' type' (size - 1) (n + 1) src (write_step out c n h) in
      rw on (k.0, ground (arith, k.1, on))
]

result_Fits : (n : ℕ) (t : List ℕ × Option ℕ) (e : Bool) → Fits n t.0 → Fits n (posix_result t e).0
unfolding posix_result chop_link
result_Fits n (out, none) e h = h
result_Fits n (out, some t) e h =
    if_lem (Fits n) (starts_with dot_lnk (drop t out))
      (IsPosix-take t out h.0, omega (arith, h.1, length-take_le t out)) h

mnt-IsPosix : IsPosix mnt
mnt-IsPosix = (refl, refl, (refl, refl, (refl, refl, (refl, refl, (refl, refl, tt)))))

proc-IsPosix : IsPosix proc
proc-IsPosix = (refl, refl, (refl, refl, (refl, refl, (refl, refl, (refl, refl, tt)))))

-- The prefix of the path, of at most five characters, and the size that it leaves.
prefix_Fits :
    (buf : List ℕ) (size : ℕ)
    → 5 < size
    → Fits (suc (length (posix_prefix buf size).0)) (posix_prefix buf size).0
      × (suc (length (posix_prefix buf size).0) + ((posix_prefix buf size).1 - 1) ≡ size)
unfolding posix_prefix
prefix_Fits buf size h =
    if_lem {A = List ℕ × ℕ × List ℕ}
      (λ t. Fits (suc (length t.0)) t.0 × (suc (length t.0) + (t.1 - 1) ≡ size))
      (get_or buf 1 0 == colon) ((mnt-IsPosix, omega arith), omega arith)
      (if_lem {A = List ℕ × ℕ × List ℕ}
        (λ t. Fits (suc (length t.0)) t.0 × (suc (length t.0) + (t.1 - 1) ≡ size))
        (get_or buf 0 0 == backslash) ((proc-IsPosix, omega arith), omega arith)
        (if_lem {A = List ℕ × ℕ × List ℕ}
          (λ t. Fits (suc (length t.0)) t.0 × (suc (length t.0) + (t.1 - 1) ≡ size))
          (get_or buf 1 0 == backslash) ((tt, omega arith), omega arith)
          ((tt, omega arith), omega arith)))

-- Whatever the name is and whatever the conversion leaves in the buffer, the path written has no
-- backslash and no colon, and with its 0 it fits in the size, where that is above five.
pub pathnp_posix_bounds :
    (wcstombs : List ℕ → ℕ → List ℕ) (source : List ℕ) (size : ℕ) (end_ptr : Bool)
    → 5 < size
    → IsPosix (pathnp_posix wcstombs source size end_ptr).0
      × (length (pathnp_posix wcstombs source size end_ptr).0 < size)
unfolding pathnp_posix
pathnp_posix_bounds wcstombs source size end_ptr h =
    let s = if starts_with global_root source then drop 14 source else source in
    let t = posix_prefix (wcstombs s size) size in
    let k = prefix_Fits (wcstombs s size) size h in
    let r =
      result_Fits (suc (length t.0) + (t.1 - 1)) (posix_loop t.0 none t.1 t.2) end_ptr
        (loop_Fits t.0 none t.1 (suc (length t.0)) t.2 k.0) in
    (r.0, omega (arith, r.1, k.1))
