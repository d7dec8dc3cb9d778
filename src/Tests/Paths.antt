-- ===== src/Tests/Paths.antt =====
-- Tests and instances of the theorems on strings, file names and paths.
use minc.Prelude.{
  ℕ, ◌-◌, ◌<◌, ◌≡◌, refl, true, false, inl, inr, none, some, List, [], ◌∷◌, ◌++◌, length, take,
  arith,
}
use minc.Descriptor.{vnon, fs_disk}
use minc.Libgen.{win_basename, vfs_dirname, win_dirname, win_typename, win_volname, win_drivename}
use minc.Libgen.Split.{Lacks, vfs_dirname-win_basename}
use minc.Strings.{win_strncpy, win_strcat}
use minc.Strings.Buffer.{Holds, win_strncpy_bounds}
use minc.Namei.{NameiData, Volume}
use minc.Namei.Find.{file_class, vfs_lookup}
use minc.Namei.Lookup.{vfs_lookup_terminates}
use minc.Namei.Closing.{IsPlain}
use minc.Namei.Posix.{pathnp_posix, root_win}
use minc.Namei.Posix.Bounds.{IsPosix, pathnp_posix_bounds}
use minc.Namei.Posix.RoundTrip.{IsAsciiPath, CopiesAscii, pathnp_posix-vfs_lookup}

-- "a\b.c" and its parts
abbrev two_parts : List ℕ
two_parts = b'a' ∷ b'\\' ∷ b'b' ∷ b'.' ∷ b'c' ∷ []

basename_test : win_basename two_parts ≡ b'b' ∷ b'.' ∷ b'c' ∷ []
unfolding win_basename
basename_test = refl

dirname_test : win_dirname two_parts ≡ b'a' ∷ []
unfolding win_dirname
dirname_test = refl

typename_test : win_typename two_parts ≡ b'.' ∷ b'c' ∷ []
unfolding win_typename
typename_test = refl

volname_test : win_volname (win_drivename (b'c' ∷ [])) ≡ (b'c' ∷ b':' ∷ b'\\' ∷ [], false)
unfolding win_volname win_drivename
volname_test = refl

vfs_dirname-win_basename_example :
    (vfs_dirname two_parts ++ win_basename two_parts ≡ two_parts)
    × Lacks b'\\' (win_basename two_parts)
vfs_dirname-win_basename_example = vfs_dirname-win_basename two_parts

strcat_test : win_strcat (b'a' ∷ 0 ∷ 7 ∷ 7 ∷ []) (b'b' ∷ []) ≡ some (b'a' ∷ b'b' ∷ 0 ∷ 7 ∷ [])
unfolding win_strcat
strcat_test = refl

win_strncpy_bounds_example :
    Holds
      (win_strncpy (7 ∷ 7 ∷ 7 ∷ []) (b'a' ∷ b'b' ∷ b'c' ∷ []) 3)
      (7 ∷ 7 ∷ 7 ∷ [])
      (take (3 - 1) (b'a' ∷ b'b' ∷ b'c' ∷ []))
win_strncpy_bounds_example =
    win_strncpy_bounds (7 ∷ 7 ∷ 7 ∷ []) (b'a' ∷ b'b' ∷ b'c' ∷ []) 3 (omega arith) (omega arith)
      (omega arith)

-- A volume of directories.
abbrev directories : Volume
directories = record {
  attributes = λ n. 0x10;
  open_node = λ n. none;
  node_text = λ n. none;
  closes = true;
  shell_target = λ n. none;
}

directories-IsPlain : IsPlain directories
unfolding file_class
directories-IsPlain = record { ordinary = λ n. inr refl }

-- A path that starts in the root.
abbrev from_root : NameiData
from_root = record {
  mount_id = 0;
  device_id = 0;
  file_type = vnon;
  fs_type = fs_disk;
  size = 0;
  object = 0;
  attribs = 0;
  flags = 0;
  base = 0;
  last = 0;
  r = 1;
  source = [];
  resolved = b'.' ∷ [];
}

-- A conversion of ASCII.
abbrev ascii_copy : List ℕ → ℕ → List ℕ
ascii_copy w n = w ++ 0 ∷ []

ascii_copy-CopiesAscii : CopiesAscii ascii_copy
ascii_copy-CopiesAscii = λ w n h k. ([], refl)

-- "a/b"
abbrev short_path : List ℕ
short_path = b'a' ∷ b'/' ∷ b'b' ∷ []

vfs_lookup_terminates_example :
    (q : NameiData) × (vfs_lookup directories 4 from_root short_path 0 ≡ some q)
vfs_lookup_terminates_example =
    vfs_lookup_terminates directories 4 from_root short_path 0 (omega arith)

pathnp_posix_bounds_example :
    IsPosix (pathnp_posix ascii_copy two_parts 6 false).0
    × (length (pathnp_posix ascii_copy two_parts 6 false).0 < 6)
pathnp_posix_bounds_example = pathnp_posix_bounds ascii_copy two_parts 6 false (omega arith)

short_path-IsAsciiPath : IsAsciiPath short_path
short_path-IsAsciiPath = (
  omega arith,
  omega arith,
  refl,
  refl,
  (omega arith, omega arith, refl, refl, (omega arith, omega arith, refl, refl, tt)),
)

pathnp_posix-vfs_lookup_example :
    (q : NameiData) × (vfs_lookup directories 4 from_root short_path 0 ≡ some q)
    × (pathnp_posix ascii_copy q.resolved 16 false ≡ (b'/' ∷ short_path, 0))
unfolding root_win
pathnp_posix-vfs_lookup_example =
    pathnp_posix-vfs_lookup ascii_copy ascii_copy-CopiesAscii directories from_root short_path 16 4
      0 directories-IsPlain (inl refl) short_path-IsAsciiPath refl refl (omega arith) (omega arith)
      refl refl refl refl
