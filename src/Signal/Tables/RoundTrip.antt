-- ===== src/Signal/Tables/RoundTrip.antt =====
-- The two tables are inverse to each other.
use minc.Prelude.{
  ℕ, suc, ◌<◌, get_elem?, ◌≡◌, refl, List, some, get_or, ◌∙◌, ap, get_elem?-get_or, get_or-found,
  arith,
}
use minc.Prelude.Words.{table, table_sound}
use minc.Prelude.Int.{pos}
use minc.Signal.Tables.{sig_win, sig_posix, sig_win_table, sig_posix_table}

unfoldable there : ℕ → ℕ
there n = get_or sig_posix_table (get_or sig_win_table (suc n) 99) 99

unfoldable back : ℕ → ℕ
back c = get_or sig_win_table (get_or sig_posix_table c 99) 99

there_lem : (n : ℕ) → n < 32 → there n ≡ suc n
unfolding there table
there_lem = table_sound there suc 32 refl

back_lem : (c : ℕ) → c < 32 → back c ≡ c
unfolding back table
back_lem = table_sound back (λ c. c) 32 refl

-- What a table holds, when it is not the default.
found : (xs : List ℕ) (i v : ℕ) → get_or xs i 99 ≡ v → v < 99 → get_elem? xs i ≡ some v
found xs i v e h = get_or-found xs i 99 (λ d. absurd (omega arith)) ∙ ap some e

-- Every signal from 1 to 32 has an event, and that event is translated back to the signal; every
-- event from 0 to 31 is translated to a signal, and that signal to the event: no signal changes
-- on its way between two processes, and no two share an event.
pub sig_posix-sig_win :
    ((n : ℕ) → n < 32 → (c : ℕ) × ((sig_win (pos (suc n)) ≡ some c) × (sig_posix c ≡ some (suc n))))
    × ((c : ℕ) → c < 32 → (s : ℕ) × ((sig_posix c ≡ some s) × (sig_win (pos s) ≡ some c)))
unfolding sig_win sig_posix there back
sig_posix-sig_win = (
  (λ n h. (
    get_or sig_win_table (suc n) 99,
    (
      get_elem?-get_or sig_win_table (suc n) 99 (omega arith),
      found sig_posix_table (get_or sig_win_table (suc n) 99) (suc n) (there_lem n h) (omega arith),
    ),
  )),
  (λ c h. (
    get_or sig_posix_table c 99,
    (
      get_elem?-get_or sig_posix_table c 99 (omega arith),
      found sig_win_table (get_or sig_posix_table c 99) c (back_lem c h) (omega arith),
    ),
  )),
)
