-- ===== src/Errno.antt =====
-- libposix/sys/errno.c: the error numbers of Windows, translated to those of POSIX. The labels of
-- the switch are the numbers of the Windows headers, which the table lists in the source's order
-- (NERR_BASE is 2100, include/win/lmerr.h).
pub mod Reported
use minc.Prelude.{
  ℕ, Bool, true, false, if◌then◌else◌, ◌||◌, List, [], ◌∷◌, ◌++◌, Option, none, some, ◌==◌, ◌≡◌,
  refl,
}

-- The POSIX errors that errno_posix returns, and ebadf, eopnotsupp, esrch and the others that
-- the system calls return themselves.
pub data Errno : Type 0 where
  einval : Errno
  enoent : Errno
  eperm : Errno
  enotdir : Errno
  enobufs : Errno
  enomem : Errno
  e2big : Errno
  eoverflow : Errno
  enametoolong : Errno
  eacces : Errno
  eexist : Errno
  enotempty : Errno
  eisdir : Errno
  eftype : Errno
  enotconn : Errno
  ebadf : Errno
  etxtbsy : Errno
  enoexec : Errno
  eopnotsupp : Errno
  esrch : Errno
  epipe : Errno
  espipe : Errno
  echild : Errno
  emfile : Errno
  efault : Errno
  ebusy : Errno
  eintr : Errno
  enodev : Errno
  enxio : Errno
  eloop : Errno
  enotty : Errno
  eio : Errno
  eagain : Errno
  exdev : Errno
  enotblk : Errno
  econnaborted : Errno
  ealready : Errno
  ewouldblock : Errno
  etimedout : Errno
  econnreset : Errno
  enotsock : Errno
  eisconn : Errno
  epfnosupport : Errno
  econnrefused : Errno
  enoprotoopt : Errno
  ehostunreach : Errno
  eafnosupport : Errno
  eaddrnotavail : Errno
  einprogress : Errno
  eaddrinuse : Errno
  ecanceled : Errno

-- What a case does besides: raise SIGPIPE in the caller, or set the event __PipeEvent.
pub data Effect : Type 0 where
  raise_pipe : Effect
  set_pipe_event : Effect

-- The labels of a case with its result; none is the result 0.
pub record Case : Type 0 where
  pub labels : List ℕ
  pub result : Option Errno

unfoldable pub one_of : ℕ → List ℕ → Bool
one_of e [] = false
one_of e (l ∷ ls) = (e == l) || one_of e ls

-- The switch: the case that has the label, or the default.
unfoldable pub select : ℕ → List Case → Option Errno → Option Errno
unfolding one_of
select e [] d = d
select e (c ∷ cs) d = if one_of e c.labels then c.result else select e cs d

abbrev pub no_error : List ℕ
no_error = 18 ∷ 0 ∷ []

-- The cases up to EPIPE.
abbrev pub early_errors : List Case
early_errors =
    record { labels = 10022 ∷ 1308 ∷ 160 ∷ 158 ∷ 87 ∷ []; result = some einval }
    ∷ record {
      labels = 1376 ∷ 2220 ∷ 2221 ∷ 1332 ∷ 2148073494 ∷ 126 ∷ 2 ∷ 123 ∷ 127 ∷ 3 ∷ [];
      result = some enoent;
    }
    ∷ record { labels = 1314 ∷ 1300 ∷ 1363 ∷ 4317 ∷ 740 ∷ []; result = some eperm }
    ∷ record { labels = 267 ∷ 161 ∷ []; result = some enotdir }
    ∷ record { labels = 122 ∷ []; result = some enobufs }
    ∷ record { labels = 8 ∷ []; result = some enomem }
    ∷ record { labels = 1283 ∷ []; result = some e2big }
    ∷ record { labels = 111 ∷ []; result = some eoverflow }
    ∷ record { labels = 206 ∷ []; result = some enametoolong }
    ∷ record { labels = 10013 ∷ 15105 ∷ 5 ∷ []; result = some eacces }
    ∷ record { labels = 80 ∷ 183 ∷ []; result = some eexist }
    ∷ record { labels = 145 ∷ []; result = some enotempty }
    ∷ record { labels = 148 ∷ []; result = some eisdir }
    ∷ record { labels = 1005 ∷ 222 ∷ []; result = some eftype }
    ∷ record { labels = 230 ∷ []; result = some enotconn }
    ∷ record { labels = 10009 ∷ 6 ∷ []; result = some ebadf }
    ∷ record { labels = 32 ∷ []; result = some etxtbsy }
    ∷ record { labels = 193 ∷ []; result = some enoexec }
    ∷ record { labels = 1 ∷ 50 ∷ []; result = some eopnotsupp }
    ∷ record { labels = 1444 ∷ []; result = some esrch }
    ∷ record { labels = 232 ∷ 233 ∷ 109 ∷ []; result = some epipe }
    ∷ []

-- The cases from ESPIPE on.
abbrev pub late_errors : List Case
late_errors =
    record { labels = 535 ∷ []; result = some espipe }
    ∷ record { labels = 128 ∷ []; result = some echild }
    ∷ record { labels = 4 ∷ []; result = some emfile }
    ∷ record { labels = 10014 ∷ 998 ∷ 487 ∷ []; result = some efault }
    ∷ record { labels = 21 ∷ []; result = some ebusy }
    ∷ record { labels = 10004 ∷ 162 ∷ []; result = some eintr }
    ∷ record { labels = 1200 ∷ []; result = some enodev }
    ∷ record { labels = 1107 ∷ 4319 ∷ []; result = some enxio }
    ∷ record { labels = 1142 ∷ []; result = some eloop }
    ∷ record { labels = 7038 ∷ []; result = some enotty }
    ∷ record { labels = 259 ∷ 1117 ∷ 38 ∷ 1784 ∷ 995 ∷ []; result = some eio }
    ∷ record { labels = 231 ∷ 234 ∷ 997 ∷ 33 ∷ []; result = some eagain }
    ∷ record { labels = 17 ∷ []; result = some exdev }
    ∷ record { labels = 31 ∷ []; result = some enotblk }
    ∷ record { labels = 10053 ∷ 1236 ∷ 64 ∷ []; result = some econnaborted }
    ∷ record { labels = 10037 ∷ []; result = some ealready }
    ∷ record { labels = 10035 ∷ []; result = some ewouldblock }
    ∷ record { labels = 10060 ∷ []; result = some etimedout }
    ∷ record { labels = 10054 ∷ 536 ∷ []; result = some econnreset }
    ∷ record { labels = 10038 ∷ []; result = some enotsock }
    ∷ record { labels = 10056 ∷ []; result = some eisconn }
    ∷ record { labels = 10057 ∷ 59 ∷ []; result = some enotconn }
    ∷ record { labels = 10046 ∷ []; result = some epfnosupport }
    ∷ record { labels = 10061 ∷ []; result = some econnrefused }
    ∷ record { labels = 10042 ∷ []; result = some enoprotoopt }
    ∷ record { labels = 53 ∷ 10065 ∷ []; result = some ehostunreach }
    ∷ record { labels = 10047 ∷ []; result = some eafnosupport }
    ∷ record { labels = 10049 ∷ []; result = some eaddrnotavail }
    ∷ record { labels = 10036 ∷ []; result = some einprogress }
    ∷ record { labels = 10048 ∷ []; result = some eaddrinuse }
    ∷ []

abbrev pub errors : List Case
errors = early_errors ++ late_errors

-- errno_posix: its result; none is 0.
unfoldable pub errno_posix : ℕ → Option Errno
unfolding select
errno_posix e = select e (record { labels = no_error; result = none } ∷ errors) (some ecanceled)

-- What errno_posix does besides.
unfoldable pub errno_effects : ℕ → List Effect
unfolding one_of
errno_effects e =
    if one_of e (232 ∷ 233 ∷ [])
    then raise_pipe ∷ []
    else if e == 231
    then set_pipe_event ∷ []
    else []
