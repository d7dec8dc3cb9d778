-- ===== src/Libgen.antt =====
-- libposix/win/win_libgen.c and libposix/vfs/vfs_libgen.c: the parts of a file name of Windows. A
-- string is the list of its characters before the terminating 0; a pointer into it is the text
-- from there on, and a pointer into a result that is being written is the number of characters
-- before it.
pub mod Split
use minc.Prelude.{
  ℕ, suc, ◌≡◌, Bool, true, false, ◌&&◌, Option, none, some, List, [], ◌∷◌, ◌++◌, length, take, ◌==◌,
  if◌then◌else◌,
}

abbrev pub backslash : ℕ
backslash = b'\\'

abbrev pub colon : ℕ
colon = b':'

abbrev pub dot : ℕ
dot = b'.'

-- The loop of win_basename, with Base and F.
unfoldable pub basename_loop : List ℕ → List ℕ → List ℕ
basename_loop base [] = base
basename_loop base (c ∷ f) = basename_loop (if c == backslash then f else base) f

unfoldable pub win_basename : List ℕ → List ℕ
unfolding basename_loop
win_basename name = basename_loop name name

-- The loop of win_dirname finds the last backslash: the characters before F, and Base.
unfoldable pub last_backslash : ℕ → ℕ → List ℕ → ℕ
last_backslash i base [] = base
last_backslash i base (c ∷ f) = last_backslash (suc i) (if c == backslash then i else base) f

-- *Base = 0
unfoldable pub win_dirname : List ℕ → List ℕ
unfolding last_backslash
win_dirname name = take (last_backslash 0 0 name) name

-- The loop of vfs_dirname: what is written to Result, Base and FileName.
unfoldable pub dirname_loop : List ℕ → ℕ → List ℕ → List ℕ
dirname_loop r base [] = take base r
dirname_loop r base (c ∷ f) =
    dirname_loop (r ++ c ∷ []) (if c == backslash then suc (length r) else base) f

unfoldable pub vfs_dirname : List ℕ → List ℕ
unfolding dirname_loop
vfs_dirname name = dirname_loop [] 0 name

-- wcscmp(a, b) == 0
unfoldable pub same_text : List ℕ → List ℕ → Bool
same_text [] [] = true
same_text [] (d ∷ b) = false
same_text (c ∷ a) [] = false
same_text (c ∷ a) (d ∷ b) = c == d && same_text a b

-- L"ROOT"
abbrev pub root_name : List ℕ
root_name = b'R' ∷ b'O' ∷ b'O' ∷ b'T' ∷ []

-- The characters up to the first colon, the colon included.
unfoldable pub through_colon : List ℕ → List ℕ
through_colon [] = []
through_colon (c ∷ f) = if c == colon then c ∷ [] else c ∷ through_colon f

-- The text written to Result, and whether the pointer returned is null.
unfoldable pub win_volname : List ℕ → List ℕ × Bool
unfolding same_text through_colon
win_volname name =
    if same_text name (root_name ++ colon ∷ [])
    then (dot ∷ backslash ∷ [], true)
    else (through_colon name ++ backslash ∷ [], false)

-- The characters before the first colon.
unfoldable pub before_colon : List ℕ → List ℕ
before_colon [] = []
before_colon (c ∷ f) = if c == colon then [] else c ∷ before_colon f

unfoldable pub drive_source : List ℕ → List ℕ
drive_source [] = root_name
drive_source (c ∷ f) = c ∷ f

unfoldable pub win_drivename : List ℕ → List ℕ
unfolding before_colon drive_source
win_drivename name = before_colon (drive_source name) ++ colon ∷ []

-- The loop of win_typename, with R and F.
unfoldable pub typename_loop : Option (List ℕ) → List ℕ → List ℕ
typename_loop none [] = []
typename_loop (some r) [] = r
typename_loop r (c ∷ f) =
    typename_loop (if c == dot then some (c ∷ f) else if c == backslash then none else r) f

unfoldable pub win_typename : List ℕ → List ℕ
unfolding typename_loop
win_typename name = typename_loop none name
