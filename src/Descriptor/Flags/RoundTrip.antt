-- ===== src/Descriptor/Flags/RoundTrip.antt =====
-- What F_GETFL and F_GETFD report after F_SETFL and F_SETFD.
use minc.Prelude.{ℕ, Bool, true, false, ◌≡◌, refl, ◌+◌}
use minc.Descriptor.{VNode}
use minc.Descriptor.Flags.{flflags_posix, flflags_win, set_status_flags}

-- An access mode, and the flags of an open file.
pub data Mode : Type 0 where
  reading : Mode
  writing : Mode
  both : Mode

unfoldable pub number : Mode → ℕ
number reading = 0
number writing = 1
number both = 2

abbrev pub flag : Bool → ℕ → ℕ
flag true n = n
flag false n = 0

-- The number of a set of flags: O_NONBLOCK, O_APPEND, O_CLOEXEC.
unfoldable pub status : Mode → Bool → Bool → Bool → ℕ
unfolding number
status m nonblock append cloexec = number m + flag nonblock 4 + flag append 8 + flag cloexec 0x10000

-- What is reported of a mode and O_APPEND: append is lost where the mode allows writing, and
-- turns reading into appending.
unfoldable pub reported_mode : Mode → Bool → ℕ
unfolding number
reported_mode reading true = 9
reported_mode reading false = number reading
reported_mode writing append = number writing
reported_mode both append = number both

-- On a file or a terminal, F_GETFL after F_SETFL reports O_NONBLOCK and O_CLOEXEC as they were
-- set, and the access mode too unless O_APPEND is set. O_APPEND is not reported with a mode that
-- writes, and a file set to O_RDONLY with O_APPEND is reported as O_WRONLY with O_APPEND.
pub flflags_posix-flflags_win :
    (n : VNode) (m : Mode) (nonblock append cloexec : Bool)
    → flflags_posix (set_status_flags n (flflags_win (status m nonblock append cloexec)))
      ≡ reported_mode m append + flag nonblock 4 + flag cloexec 0x10000
unfolding flflags_posix set_status_flags flflags_win status reported_mode
flflags_posix-flflags_win n reading false false false = refl
flflags_posix-flflags_win n reading false false true = refl
flflags_posix-flflags_win n reading false true false = refl
flflags_posix-flflags_win n reading false true true = refl
flflags_posix-flflags_win n reading true false false = refl
flflags_posix-flflags_win n reading true false true = refl
flflags_posix-flflags_win n reading true true false = refl
flflags_posix-flflags_win n reading true true true = refl
flflags_posix-flflags_win n writing false false false = refl
flflags_posix-flflags_win n writing false false true = refl
flflags_posix-flflags_win n writing false true false = refl
flflags_posix-flflags_win n writing false true true = refl
flflags_posix-flflags_win n writing true false false = refl
flflags_posix-flflags_win n writing true false true = refl
flflags_posix-flflags_win n writing true true false = refl
flflags_posix-flflags_win n writing true true true = refl
flflags_posix-flflags_win n both false false false = refl
flflags_posix-flflags_win n both false false true = refl
flflags_posix-flflags_win n both false true false = refl
flflags_posix-flflags_win n both false true true = refl
flflags_posix-flflags_win n both true false false = refl
flflags_posix-flflags_win n both true false true = refl
flflags_posix-flflags_win n both true true false = refl
flflags_posix-flflags_win n both true true true = refl
