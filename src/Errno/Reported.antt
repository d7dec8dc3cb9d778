-- ===== src/Errno/Reported.antt =====
-- Which errors of Windows the system calls report as errors.
use minc.Prelude.{
  ℕ, Bool, true, false, ◌&&◌, List, [], ◌∷◌, Option, none, some, ◌≡◌, ◌≢◌, refl, ◌⊎◌, ◌↔◌, arith,
}
use minc.Errno.{Errno, Case, errno_posix, one_of, select, errors, ecanceled}

unfoldable is_some : Option Errno → Bool
is_some none = false
is_some (some x) = true

unfoldable all_errors : List Case → Bool
all_errors [] = true
all_errors (c ∷ cs) = is_some c.result && all_errors cs

-- A switch whose cases and default are errors selects an error.
select-is_some :
    (e : ℕ) (cs : List Case) (d : Option Errno)
    → all_errors cs ≡ true
    → is_some d ≡ true
    → is_some (select e cs d) ≡ true
unfolding select all_errors
select-is_some e [] d h k = k
select-is_some e (c ∷ cs) d h k = ground (arith, select-is_some e cs d)

errors_lem : (e : ℕ) → is_some (select e errors (some ecanceled)) ≡ true
unfolding all_errors is_some
errors_lem e = select-is_some e errors (some ecanceled) refl refl

errors-select : (e : ℕ) → select e errors (some ecanceled) ≢ none
unfolding is_some
errors-select e h = ground (arith, errors_lem e)

-- errno_posix gives 0 for the errors ERROR_SUCCESS (0) and ERROR_NO_MORE_FILES (18), and for no
-- others: a call that fails with any other error is reported as an error.
pub errno_posix-none : (e : ℕ) → (errno_posix e ≡ none) ↔ ((e ≡ 0) ⊎ (e ≡ 18))
unfolding errno_posix one_of select
errno_posix-none e = ground (arith, errors-select e)
