-- ===== src/Strings.antt =====
-- libposix/win/win_string.c and libposix/win/win_wchar.c: copying of strings, of bytes and of wide
-- characters alike. A source is the list of its characters before the terminating 0. A destination
-- is the memory from the pointer to the end of its buffer; a write past that end is undefined.
pub mod Buffer
use minc.Prelude.{
  ℕ, zero, suc, ◌-◌, Bool, true, false, Option, none, some, List, [], ◌∷◌, length, ltb, ◌==◌,
  bit_and, if◌then◌else◌,
}

-- The memory after the writes, or a write out of the buffer.
unfoldable pub prepend : ℕ → Option (List ℕ) → Option (List ℕ)
prepend c none = none
prepend c (some m) = some (c ∷ m)

-- while (*Destination = *Source++) Destination++;
unfoldable pub win_strcpy : List ℕ → List ℕ → Option (List ℕ)
unfolding prepend
win_strcpy [] source = none
win_strcpy (x ∷ m) [] = some (zero ∷ m)
win_strcpy (x ∷ m) (c ∷ source) = prepend c (win_strcpy m source)

unfoldable pub win_wcscpy : List ℕ → List ℕ → Option (List ℕ)
unfolding prepend
win_wcscpy [] source = none
win_wcscpy (x ∷ m) [] = some (zero ∷ m)
win_wcscpy (x ∷ m) (c ∷ source) = prepend c (win_wcscpy m source)

unfoldable pub win_strcat : List ℕ → List ℕ → Option (List ℕ)
unfolding prepend win_strcpy
win_strcat [] source = none
win_strcat (zero ∷ m) source = win_strcpy (zero ∷ m) source
win_strcat (suc c ∷ m) source = prepend (suc c) (win_strcat m source)

unfoldable pub win_wcscat : List ℕ → List ℕ → Option (List ℕ)
unfolding prepend win_wcscpy
win_wcscat [] source = none
win_wcscat (zero ∷ m) source = win_wcscpy (zero ∷ m) source
win_wcscat (suc c ∷ m) source = prepend (suc c) (win_wcscat m source)

-- The pointer that is returned stands on the 0, here by its distance from Destination.
unfoldable pub at_end : List ℕ → Option (List ℕ) → Option (List ℕ × ℕ)
at_end source none = none
at_end source (some m) = some (m, length source)

unfoldable pub win_stpcpy : List ℕ → List ℕ → Option (List ℕ × ℕ)
unfolding at_end win_strcpy
win_stpcpy m source = at_end source (win_strcpy m source)

unfoldable pub win_wcpcpy : List ℕ → List ℕ → Option (List ℕ × ℕ)
unfolding at_end win_wcscpy
win_wcpcpy m source = at_end source (win_wcscpy m source)

-- The loop counts Length down before it writes; a length below 1 stays below 1, so that ℕ serves.
unfoldable pub win_strncpy : List ℕ → List ℕ → ℕ → Option (List ℕ)
unfolding prepend
win_strncpy [] source n = none
win_strncpy (x ∷ m) [] n = some (zero ∷ m)
win_strncpy (x ∷ m) (c ∷ source) n =
    let rest = win_strncpy m source (n - 1) in
    if ltb (n - 1) 1 then some (zero ∷ m) else prepend c rest

unfoldable pub win_wcsncpy : List ℕ → List ℕ → ℕ → Option (List ℕ)
unfolding prepend
win_wcsncpy [] source n = none
win_wcsncpy (x ∷ m) [] n = some (zero ∷ m)
win_wcsncpy (x ∷ m) (c ∷ source) n =
    let rest = win_wcsncpy m source (n - 1) in
    if ltb (n - 1) 1 then some (zero ∷ m) else prepend c rest

-- The text from the first place where the character stands.
unfoldable pub win_index : List ℕ → ℕ → Option (List ℕ)
win_index [] chr = none
win_index (c ∷ string) chr = if c == chr then some (c ∷ string) else win_index string chr

unfoldable pub win_isu8cont : ℕ → Bool
win_isu8cont c = bit_and c 0xC0 == 0x80
