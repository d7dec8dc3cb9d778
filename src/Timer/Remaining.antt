-- ===== src/Timer/Remaining.antt =====
-- What is left of an interval timer, and of a sleep: proofs.
use minc.Prelude.{
  ℕ, ◌+◌, ◌-◌, ◌/◌, ◌%◌, ◌≤◌, ◌<◌, ◌≡◌, refl, ap, ◌∙◌, inl, inr, Bool, false, not, Option, none,
  some, ◌==◌, if_lem, Bool-cases, arith,
}
use minc.Prelude.Int.{ℤ}
use minc.Timer.{
  quad, half_quad, set_timer, Timing, Clockwork, minus, remaining, Previous, new_itimer,
  vfs_getitimer, timer_call, setitimer_at, vfs_setitimer, sleep_remain, timeval_win,
}

remaining_lem : (a b : ℕ) → a < half_quad → b < half_quad → remaining a b ≡ a - b
unfolding remaining
remaining_lem a b h k = ground arith

-- The timer of a task exists, or can be made.
abbrev pub HasTimer : Clockwork → Timing → Type 0
HasTimer clockwork t = (h : ℕ) × ((vfs_getitimer clockwork t).1 ≡ some h)

module _ (clockwork : Clockwork) where
  -- What taking up the timer keeps.
  abbrev Kept : Timing → Timing × Option ℕ → Type 0
  Kept t r =
      (r.0.clock_time ≡ t.clock_time)
      × (r.0.timer_ticks ≡ t.timer_ticks)
      × (r.0.interval ≡ t.interval)

  new_itimer-Kept : (t : Timing) (o : Option ℕ) → Kept t (new_itimer clockwork t o)
  unfolding new_itimer
  new_itimer-Kept t none = (refl, refl, refl)
  new_itimer-Kept t (some h) = (refl, refl, refl)

  vfs_getitimer-Kept : (t : Timing) → Kept t (vfs_getitimer clockwork t)
  unfolding vfs_getitimer
  vfs_getitimer-Kept t =
      if_lem {A = Timing × Option ℕ} (Kept t) (not (t.timer == 0)) (refl, refl, refl)
        (new_itimer-Kept t clockwork.new_timer)

  -- What a setting leaves in the task, and what it gives back.
  abbrev IsArmed : ℤ → ℕ → Timing → Timing × Previous → Type 0
  IsArmed i v t r =
      (r.0.interval ≡ i)
      × (r.0.timer_ticks ≡ (t.clock_time + v) % quad)
      × (r.1.interval ≡ t.interval)
      × (r.1.time_out ≡ remaining t.timer_ticks t.clock_time)

  setitimer_at-IsArmed :
      (i : ℤ) (v : ℕ) (t : Timing) (r : Timing × Option ℕ)
      → Kept t r
      → (h : ℕ) × (r.1 ≡ some h)
      → IsArmed i v t (setitimer_at clockwork i v r)
  unfolding setitimer_at timer_call
  setitimer_at-IsArmed i v t (u, none) k (h, e) = cc
  setitimer_at-IsArmed i v t (u, some g) k (h, e) = (
    refl,
    ap (λ c. (c + v) % quad) k.0,
    k.2,
    ap (λ x. remaining x u.clock_time) k.1 ∙ ap (λ c. remaining t.timer_ticks c) k.0,
  )

  vfs_setitimer-IsArmed :
      (i : ℤ) (v : ℕ) (t : Timing)
      → HasTimer clockwork t
      → IsArmed i v t (vfs_setitimer clockwork i v t)
  unfolding vfs_setitimer
  vfs_setitimer-IsArmed i v t h =
      setitimer_at-IsArmed i v t (vfs_getitimer clockwork t) (vfs_getitimer-Kept t) h

  -- A timer that could be had once can be had again.
  has_timer_again :
      (s : Timing) (o : Option ℕ)
      → ((h : ℕ) × ((new_itimer clockwork s o).1 ≡ some h))
      → (u : Timing) → (h : ℕ) × ((new_itimer clockwork u o).1 ≡ some h)
  unfolding new_itimer
  has_timer_again s none (h, e) u = cc
  has_timer_again s (some g) h u = (g, refl)

  HasTimer-later :
      (t s : Timing)
      → HasTimer clockwork t
      → s.timer ≡ (vfs_getitimer clockwork t).0.timer
      → HasTimer clockwork s
  unfolding vfs_getitimer
  HasTimer-later t s h e = elim (Bool-cases (t.timer == 0)) [
    | inl none_yet ↦
        if_lem {A = Timing × Option ℕ} (λ r. (g : ℕ) × (r.1 ≡ some g)) (not (s.timer == 0))
          (s.timer, refl) (has_timer_again t clockwork.new_timer (rw none_yet at h) s)
    | inr one ↦
        let same : s.timer ≡ t.timer = rw one at e in
        let more : (s.timer == 0) ≡ false = rw same one in (s.timer, rw more refl)
  ]

  set_timer_kept :
      (i : ℤ) (v : ℕ) (r : Timing × Option ℕ) → (setitimer_at clockwork i v r).0.timer ≡ r.0.timer
  unfolding setitimer_at timer_call
  set_timer_kept i v (u, none) = refl
  set_timer_kept i v (u, some g) =
      if_lem {A = Timing × Bool} (λ q. q.0.timer ≡ u.timer)
        (clockwork.accepts (set_timer g (clockwork.due v) i (not (v == 0)))) refl refl

  timer_kept :
      (i : ℤ) (v : ℕ) (t : Timing)
      → (vfs_setitimer clockwork i v t).0.timer ≡ (vfs_getitimer clockwork t).0.timer
  unfolding vfs_setitimer
  timer_kept i v t = set_timer_kept i v (vfs_getitimer clockwork t)

  -- The timer of a task is set, and set again at a later time of its clock: the second call gives
  -- back the interval that the first one set, and what was left of its time at that moment, or 0 if
  -- nothing was; whether or not Windows accepted the calls, as long as the task has a timer or can
  -- have one, and the times stay below 2 ^ 63 nanoseconds.
  pub vfs_setitimer-vfs_setitimer :
      (i j : ℤ) (v w later : ℕ) (t : Timing)
      → HasTimer clockwork t
      → t.clock_time + v < half_quad
      → later < half_quad
      → ((vfs_setitimer clockwork j w
            (record (vfs_setitimer clockwork i v t).0 { clock_time = later })).1.interval
          ≡ i)
        × ((vfs_setitimer clockwork j w
              (record (vfs_setitimer clockwork i v t).0 { clock_time = later })).1.time_out
            ≡ t.clock_time + v - later)
  vfs_setitimer-vfs_setitimer i j v w later t h k l =
      let r = vfs_setitimer clockwork i v t in
      let a = vfs_setitimer-IsArmed i v t h in
      let s = record r.0 { clock_time = later } in
      let b = vfs_setitimer-IsArmed j w s (HasTimer-later t s h (timer_kept i v t)) in
      let small : (t.clock_time + v) % quad ≡ t.clock_time + v = omega arith in
      (
        b.2 ∙ a.0,
        b.3
            ∙ ap (λ x. remaining x later) (a.1 ∙ small)
            ∙ remaining_lem (t.clock_time + v) later k l,
      )

-- After a sleep that took longer than it should, what is left is more than 2 ^ 63 nanoseconds.
pub sleep_remain_wraps :
    (time_out started now : ℕ)
    → started ≤ now
    → now < half_quad
    → time_out < now - started
    → half_quad < sleep_remain time_out started (some now)
unfolding sleep_remain minus
sleep_remain_wraps time_out started now h k l = omega arith

-- The FILETIME of a time gives its seconds and microseconds back, for 50000 years.
pub timeval_win_lem :
    (sec usec : ℕ)
    → sec < 1600000000000
    → usec < 1000000
    → ((timeval_win sec usec - 116444736000000000) / 10000000 ≡ sec)
      × ((timeval_win sec usec - 116444736000000000) / 10 % 1000000 ≡ usec)
unfolding timeval_win
timeval_win_lem sec usec h k = omega arith
