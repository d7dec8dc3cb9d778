-- ===== src/Stat.antt =====
-- libposix/sys/stat.c: modes and attributes of files between POSIX and Windows, and stat_posix but
-- for its times, which are converted in floating point. The bits of a mode and the flags of a file
-- are those of OpenBSD's sys/stat.h.
pub mod Mode
pub mod Attributes
use minc.Prelude.{
  ℕ, ◌+◌, ◌*◌, ◌/◌, ◌%◌, Bool, true, false, List, [], ◌∷◌, get_or, ltb, ◌==◌, bit_and, bit_or,
  if◌then◌else◌,
}
pub use minc.Descriptor.Flags.{win_s_iread, win_s_iwrite}
use minc.Descriptor.Flags.{has}

-- WIN_MODE
pub record WinMode : Type 0 where
  pub file_type : ℕ
  pub user : ℕ
  pub group : ℕ
  pub other : ℕ
  pub special : ℕ

abbrev pub win_s_iexec : ℕ
win_s_iexec = 0x20

abbrev pub win_s_irwx : ℕ
win_s_irwx = 0x37

abbrev pub win_s_istxt : ℕ
win_s_istxt = 0x01

abbrev pub win_s_isgid : ℕ
win_s_isgid = 0x02

abbrev pub win_s_isuid : ℕ
win_s_isuid = 0x04

abbrev s_ifmt : ℕ
s_ifmt = 0xF000

-- WIN_VMAX
abbrev pub win_vmax : ℕ
win_vmax = 9

-- __FTYPE_POSIX
abbrev pub ftype_posix : List ℕ
ftype_posix = 0 ∷ 0x8000 ∷ 0x4000 ∷ 0x6000 ∷ 0x2000 ∷ 0xA000 ∷ 0xC000 ∷ 0x1000 ∷ 0 ∷ []

-- What one test of a bit adds.
abbrev pub added : Bool → ℕ → ℕ
added b n = if b then n else 0

unfoldable pub permissions : ℕ → ℕ
permissions m =
    added (has m win_s_iread) 4 + added (has m win_s_iwrite) 2 + added (has m win_s_iexec) 1

unfoldable pub specials : ℕ → ℕ
specials m =
    added (has m win_s_isuid) 0x800
    + added (has m win_s_isgid) 0x400
    + added (has m win_s_istxt) 0x200

unfoldable pub type_bits : ℕ → ℕ
type_bits t = if ltb t win_vmax then get_or ftype_posix t 0 else 0

-- The bits of the user are S_IRUSR = 0400, S_IWUSR = 0200 and S_IXUSR = 0100, and so on.
pub mode_posix : WinMode → ℕ
mode_posix m =
    type_bits m.file_type
    + permissions m.user * 64
    + permissions m.group * 8
    + permissions m.other
    + specials m.special

-- The cases of the switch over the type.
unfoldable pub type_win : ℕ → ℕ
type_win f =
    if f == 0x8000
    then 1
    else if f == 0x4000
    then 2
    else if f == 0x6000
    then 3
    else if f == 0x2000
    then 4
    else if f == 0xA000
    then 5
    else if f == 0xC000
    then 6
    else if f == 0x1000
    then 7
    else 0

unfoldable pub permissions_win : Bool → Bool → Bool → ℕ
permissions_win r w x = added r win_s_iread + added w win_s_iwrite + added x win_s_iexec

unfoldable pub specials_win : Bool → Bool → Bool → ℕ
specials_win u g t = added u win_s_isuid + added g win_s_isgid + added t win_s_istxt

unfoldable pub mode_win : ℕ → WinMode
mode_win mode = record {
  file_type = type_win (bit_and mode s_ifmt);
  user = permissions_win (has mode 0x100) (has mode 0x80) (has mode 0x40);
  group = permissions_win (has mode 0x20) (has mode 0x10) (has mode 0x08);
  other = permissions_win (has mode 0x04) (has mode 0x02) (has mode 0x01);
  special = specials_win (has mode 0x800) (has mode 0x400) (has mode 0x200);
}

-- SF_ARCHIVED, SF_HIDDEN, SF_IMMUTABLE, SF_SYSTEM and SF_DEVICE
unfoldable pub attr_win : ℕ → ℕ
attr_win flags =
    let a = if has flags 0x10000 then 0x20 else 0 in
    let h = if has flags 0x80000 then bit_or a 0x02 else a in
    let r = if has flags 0x20000 then bit_or h 0x01 else h in
    let s = if has flags 0x100000 then bit_or r 0x04 else r in
    if has flags 0x200000 then bit_or s 0x40 else s

unfoldable pub attr_posix : ℕ → ℕ
attr_posix attribs =
    let a = if has attribs 0x20 then 0x10000 else 0 in
    let h = if has attribs 0x02 then bit_or a 0x80000 else a in
    let r = if has attribs 0x01 then bit_or h 0x20000 else h in
    let s = if has attribs 0x04 then bit_or r 0x100000 else r in
    if has attribs 0x40 then bit_or s 0x200000 else s
