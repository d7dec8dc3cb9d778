-- ===== src/Strings/Buffer.antt =====
-- What a copied string holds, and when it fits: proofs.
use minc.Prelude.{
  ℕ, zero, suc, ◌+◌, ◌-◌, ◌≤◌, ◌<◌, ◌≡◌, refl, sym, ap, false, Option, none, some, List, [], ◌∷◌,
  ◌++◌, length, take, ltb, if◌then◌else◌, arith,
}
use mathlib.Core.Path.{subst}
use minc.Strings.{prepend, win_strcpy, win_strcat, win_strncpy, win_wcscpy, win_wcscat, win_wcsncpy}

-- The string that a reader finds in memory.
abbrev pub text : List ℕ → List ℕ
text [] = []
text (zero ∷ m) = []
text (suc c ∷ m) = suc c ∷ text m

-- The memory ends a string.
abbrev pub Ends : List ℕ → Type 0
Ends [] = ⊥
Ends (zero ∷ m) = Unit {0}
Ends (suc c ∷ m) = Ends m

-- No character is 0.
abbrev pub IsText : List ℕ → Type 0
IsText [] = Unit {0}
IsText (c ∷ s) = (0 < c) × IsText s

-- What the memory holds after a copy of the string into it: the string, a 0, and the old memory.
abbrev pub Holds : Option (List ℕ) → List ℕ → List ℕ → Type 0
Holds o old s = (m : List ℕ) × (o ≡ some m) × (text m ≡ s) × (length m ≡ length old)

Holds-prepend :
    (x c : ℕ) (o : Option (List ℕ)) (old s : List ℕ)
    → 0 < c
    → Holds o old s
    → Holds (prepend c o) (x ∷ old) (c ∷ s)
unfolding prepend
Holds-prepend x zero o old s h k = elim h [ ]
Holds-prepend x (suc c) o old s h (m, e, t, l) =
    (suc c ∷ m, rw e refl, ap (λ u. suc c ∷ u) t, ap suc l)

strcpy-Holds : (m s : List ℕ) → IsText s → length s < length m → Holds (win_strcpy m s) m s
unfolding win_strcpy
strcpy-Holds [] s i h = absurd (omega arith)
strcpy-Holds (x ∷ m) [] i h = (zero ∷ m, refl, refl, refl)
strcpy-Holds (x ∷ m) (c ∷ s) i h =
    Holds-prepend x c (win_strcpy m s) m s i.0 (strcpy-Holds m s i.1 (omega arith))

strcpy_overflow : (m s : List ℕ) → length m ≤ length s → win_strcpy m s ≡ none
unfolding win_strcpy prepend
strcpy_overflow [] s h = refl
strcpy_overflow (x ∷ m) [] h = absurd (omega arith)
strcpy_overflow (x ∷ m) (c ∷ s) h = rw (strcpy_overflow m s (omega arith)) refl

strcat-Holds :
    (m s : List ℕ)
    → Ends m
    → IsText s
    → length (text m) + length s < length m
    → Holds (win_strcat m s) m (text m ++ s)
unfolding win_strcat
strcat-Holds [] s e i h = absurd e
strcat-Holds (zero ∷ m) s e i h = strcpy-Holds (zero ∷ m) s i (omega arith)
strcat-Holds (suc c ∷ m) s e i h =
    Holds-prepend (suc c) (suc c) (win_strcat m s) m (text m ++ s) (omega arith)
      (strcat-Holds m s e i (omega arith))

strcat_overflow : (m s : List ℕ) → length m ≤ length (text m) + length s → win_strcat m s ≡ none
unfolding win_strcat prepend
strcat_overflow [] s h = refl
strcat_overflow (zero ∷ m) s h = strcpy_overflow (zero ∷ m) s (omega arith)
strcat_overflow (suc c ∷ m) s h = rw (strcat_overflow m s (omega arith)) refl

-- win_strcat on a buffer that holds a string: where both strings and a 0 fit, the buffer then holds
-- the one followed by the other and has the same size; and where they do not, the write leaves the
-- buffer.
pub win_strcat_lem :
    (m s : List ℕ)
    → Ends m
    → IsText s
    → (length (text m) + length s < length m → Holds (win_strcat m s) m (text m ++ s))
      × (length m ≤ length (text m) + length s → win_strcat m s ≡ none)
win_strcat_lem m s e i = (strcat-Holds m s e i, strcat_overflow m s)

take_nil : (k : ℕ) → take {A = ℕ} k [] ≡ []
take_nil zero = refl
take_nil (suc k) = refl

-- win_strncpy with a length that is at least 1 and at most the size of the buffer never writes out
-- of the buffer, which then holds the first Length - 1 characters of the source, however long the
-- source is, ended by a 0, and has the same size.
pub win_strncpy_bounds :
    (m s : List ℕ) (n : ℕ)
    → IsText s
    → 0 < n
    → n ≤ length m
    → Holds (win_strncpy m s n) m (take (n - 1) s)
unfolding win_strncpy
win_strncpy_bounds [] s n i p h = absurd (omega arith)
win_strncpy_bounds (x ∷ m) [] n i p h = (zero ∷ m, refl, sym (take_nil (n - 1)), refl)
win_strncpy_bounds (x ∷ m) (c ∷ s) zero i p h = elim p [ ]
win_strncpy_bounds (x ∷ m) (c ∷ s) (suc zero) i p h = (zero ∷ m, refl, refl, refl)
win_strncpy_bounds (x ∷ m) (c ∷ s) (suc (suc n)) i p h =
    let less : suc (suc n) - 1 ≡ suc n = omega arith in
    let more : ltb (suc n) 1 ≡ false = ground arith in
    let shorter : suc n - 1 ≡ n = omega arith in
    rw (less, more)
      (Holds-prepend x c (win_strncpy m s (suc n)) m (take n s) i.0 (
        subst (λ k. Holds (win_strncpy m s (suc n)) m (take k s)) shorter
          (win_strncpy_bounds m s (suc n) i.1 (omega arith) (omega arith))))

-- The functions for wide characters do the same.
wcscpy-eq-strcpy : (m s : List ℕ) → win_wcscpy m s ≡ win_strcpy m s
unfolding win_wcscpy win_strcpy
wcscpy-eq-strcpy [] s = refl
wcscpy-eq-strcpy (x ∷ m) [] = refl
wcscpy-eq-strcpy (x ∷ m) (c ∷ s) = ap (prepend c) (wcscpy-eq-strcpy m s)

pub wcscat-eq-strcat : (m s : List ℕ) → win_wcscat m s ≡ win_strcat m s
unfolding win_wcscat win_strcat
wcscat-eq-strcat [] s = refl
wcscat-eq-strcat (zero ∷ m) s = wcscpy-eq-strcpy (zero ∷ m) s
wcscat-eq-strcat (suc c ∷ m) s = ap (prepend (suc c)) (wcscat-eq-strcat m s)

pub wcsncpy-eq-strncpy : (m s : List ℕ) (n : ℕ) → win_wcsncpy m s n ≡ win_strncpy m s n
unfolding win_wcsncpy win_strncpy
wcsncpy-eq-strncpy [] s n = refl
wcsncpy-eq-strncpy (x ∷ m) [] n = refl
wcsncpy-eq-strncpy (x ∷ m) (c ∷ s) n =
    ap (λ t. if ltb (n - 1) 1 then some (zero ∷ m) else prepend c t)
      (wcsncpy-eq-strncpy m s (n - 1))
