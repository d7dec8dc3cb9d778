-- ===== src/Namei/Posix.antt =====
-- libposix/sys/namei.c: pathnp_posix, which makes a path of POSIX from a name of Windows, with its
-- three callers, and root_win, which starts the way back. WideCharToMultiByte, in win_wcstombs, is a
-- parameter: the memory of the buffer after the call.
pub mod Bounds
pub mod RoundTrip
use minc.Prelude.{
  ℕ, zero, suc, ◌+◌, ◌-◌, Bool, true, false, ◌&&◌, Option, none, some, List, [], ◌∷◌, ◌++◌, length,
  take, drop, get_or, ltb, ◌==◌, if◌then◌else◌,
}
use minc.Libgen.{backslash, colon, dot}
use minc.Namei.{slash}

-- strncmp(s, p, strlen(p)) == 0, and wcsncmp
unfoldable pub starts_with : List ℕ → List ℕ → Bool
starts_with [] s = true
starts_with (d ∷ p) [] = false
starts_with (d ∷ p) (c ∷ s) = c == d && starts_with p s

-- "\\\\.\\GLOBALROOT", the 14 characters of PROCESS_ROOT that are compared
abbrev pub global_root : List ℕ
global_root =
    backslash ∷ backslash ∷ dot ∷ backslash ∷ b'G' ∷ b'L' ∷ b'O' ∷ b'B' ∷ b'A' ∷ b'L' ∷ b'R' ∷ b'O'
    ∷ b'O' ∷ b'T' ∷ []

abbrev pub mnt : List ℕ
mnt = slash ∷ b'm' ∷ b'n' ∷ b't' ∷ slash ∷ []

abbrev pub proc : List ℕ
proc = slash ∷ b'p' ∷ b'r' ∷ b'o' ∷ b'c' ∷ []

-- TypeNameLink
abbrev pub dot_lnk : List ℕ
dot_lnk = dot ∷ b'l' ∷ b'n' ∷ b'k' ∷ []

-- What is written first, the size that is left, and where reading starts.
unfoldable pub posix_prefix : List ℕ → ℕ → List ℕ × ℕ × List ℕ
posix_prefix buf size =
    if get_or buf 1 0 == colon
    then (mnt, size - 5, buf)
    else if get_or buf 0 0 == backslash
    then (proc, size - 5, buf)
    else if get_or buf 1 0 == backslash
    then ([], size, drop 1 buf)
    else ([], size, buf)

-- The loop: what is written, the place of the last dot, the size (which stops the loop below 1,
-- so that ℕ serves) and the memory from src on.
unfoldable pub posix_loop : List ℕ → Option ℕ → ℕ → List ℕ → List ℕ × Option ℕ
posix_loop out type size [] = (out, type)
posix_loop out type size (zero ∷ src) = (out, type)
posix_loop out type size (suc b ∷ src) =
    let c = suc b in
    let out' = if c == colon then out else out ++ (if c == backslash then slash else c) ∷ [] in
    let type' = if c == dot then some (length out) else type in
    let rest = posix_loop out' type' (size - 1) src in
    if ltb (size - 1) 1 then (out, type) else rest

-- The four characters from the last dot are compared, and the text is cut there.
unfoldable pub chop_link : List ℕ → Option ℕ → List ℕ
unfolding starts_with
chop_link out none = out
chop_link out (some t) = if starts_with dot_lnk (drop t out) then take t out else out

-- The text written, and the pointer returned by its distance from dest.
unfoldable pub posix_result : List ℕ × Option ℕ → Bool → List ℕ × ℕ
unfolding chop_link
posix_result (out, type) end_ptr = (chop_link out type, if end_ptr then length out else 0)

module _ (wcstombs : List ℕ → ℕ → List ℕ) where
  unfoldable pub pathnp_posix : List ℕ → ℕ → Bool → List ℕ × ℕ
  unfolding starts_with posix_prefix posix_loop posix_result
  pathnp_posix source size end_ptr =
      let s = if starts_with global_root source then drop 14 source else source in
      let (out, left, src) = posix_prefix (wcstombs s size) size in
      posix_result (posix_loop out none left src) end_ptr

  -- path_posix, pathn_posix and pathp_posix; path_max is PATH_MAX of the program's own headers.
  unfoldable pub path_posix : ℕ → List ℕ → List ℕ × ℕ
  unfolding pathnp_posix
  path_posix path_max source = pathnp_posix source path_max false

  unfoldable pub pathn_posix : List ℕ → ℕ → List ℕ × ℕ
  unfolding pathnp_posix
  pathn_posix source size = pathnp_posix source size false

  unfoldable pub pathp_posix : ℕ → List ℕ → List ℕ × ℕ
  unfolding pathnp_posix
  pathp_posix path_max source = pathnp_posix source path_max true

-- The name that a path from the root starts with, and the rest of the path.
unfoldable pub root_win : List ℕ → List ℕ × List ℕ
unfolding starts_with
root_win path =
    if starts_with (proc ++ slash ∷ []) path
    then (global_root ++ backslash ∷ [], drop 6 path)
    else (dot ∷ [], drop 1 path)
