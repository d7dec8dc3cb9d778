-- ===== src/Signal/Tables.antt =====
-- The tables of libposix/sys/signal.c between the signals of POSIX, by the numbers of OpenBSD's
-- <signal.h>, and the CTRL_ events of include/vfs_types.h.
pub mod RoundTrip
use minc.Prelude.{ℕ, List, [], ◌∷◌, Option, none, some, get_elem?, Bool, true, false}
use minc.Prelude.Int.{ℤ, pos, negsuc}

-- __SIG_WIN: the event of each signal, from signal 0.
abbrev pub sig_win_table : List ℕ
sig_win_table =
    0 ∷ 5 ∷ 0 ∷ 12 ∷ 4 ∷ 28 ∷ 14 ∷ 20 ∷ 7 ∷ 2 ∷ 21 ∷ 3 ∷ 19 ∷ 13 ∷ 10 ∷ 6 ∷ 16 ∷ 23 ∷ 1 ∷ 24 ∷ 9
    ∷ 25 ∷ 26 ∷ 27 ∷ 29 ∷ 30 ∷ 15 ∷ 31 ∷ 8 ∷ 22 ∷ 17 ∷ 18 ∷ 11 ∷ []

-- __SIG_POSIX: the signal of each event.
abbrev pub sig_posix_table : List ℕ
sig_posix_table =
    2 ∷ 18 ∷ 9 ∷ 11 ∷ 4 ∷ 1 ∷ 15 ∷ 8 ∷ 28 ∷ 20 ∷ 14 ∷ 32 ∷ 3 ∷ 13 ∷ 6 ∷ 26 ∷ 16 ∷ 30 ∷ 31 ∷ 12 ∷ 7
    ∷ 10 ∷ 29 ∷ 17 ∷ 19 ∷ 21 ∷ 22 ∷ 23 ∷ 5 ∷ 24 ∷ 25 ∷ 27 ∷ 0 ∷ []

-- __SIG_WIN[sig]; there is no entry at a negative index or from NSIG on.
unfoldable pub sig_win : ℤ → Option ℕ
sig_win (pos n) = get_elem? sig_win_table n
sig_win (negsuc n) = none

-- __SIG_POSIX[CtrlType]
unfoldable pub sig_posix : ℕ → Option ℕ
sig_posix c = get_elem? sig_posix_table c
