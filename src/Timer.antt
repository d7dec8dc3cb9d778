-- ===== src/Timer.antt =====
-- libposix/vfs/vfs_time.c, with the conversion of libposix/sys/time.c that needs no floating point: the
-- interval timer of a task, and sleeping. Times are DWORDLONGs, in nanoseconds. The conversion to
-- the 100 nanosecond steps of Windows, by a multiplication in floating point, is a parameter.
pub mod Remaining
use minc.Prelude.{
  ℕ, zero, suc, ◌+◌, ◌-◌, ◌*◌, ◌%◌, Bool, true, false, not, Option, none, some, List, [], ◌∷◌, ltb,
  ◌==◌, ◌&&◌, if◌then◌else◌,
}
use minc.Prelude.Int.{ℤ}

-- 2 ^ 64 and 2 ^ 63
abbrev pub quad : ℕ
quad = 18446744073709551616

abbrev pub half_quad : ℕ
half_quad = 9223372036854775808

-- SetWaitableTimer: the handle, the time, the interval in milliseconds, and whether TimeProc is
-- called.
pub data TimerCall : Type 0 where
  set_timer : ℕ → ℤ → ℤ → Bool → TimerCall

-- The fields of WIN_TASK (include/vfs_types.h) that the timer uses, the calls made so far, the
-- latest first, and the last error. A null handle is 0.
pub record Timing : Type 0 where
  pub timer : ℕ
  pub clock_time : ℕ
  pub timer_ticks : ℕ
  pub interval : ℤ
  pub calls : List TimerCall
  pub last_error : ℕ

-- What Windows answers: a new timer, whether a call succeeds, the error of a failure; and the
-- conversion of a time.
pub record Clockwork : Type 0 where
  pub new_timer : Option ℕ
  pub accepts : TimerCall → Bool
  pub failure_error : ℕ
  pub due : ℕ → ℤ

-- a - b as a DWORDLONG
unfoldable pub minus : ℕ → ℕ → ℕ
minus a b = (a + quad - b) % quad

-- The difference as a LONGLONG, if it is above 0.
unfoldable pub remaining : ℕ → ℕ → ℕ
unfolding minus
remaining a b = let d = minus a b in if ltb 0 d && ltb d half_quad then d else 0

-- What vfs_setitimer leaves in *Interval and *TimeOut, with its result.
pub record Previous : Type 0 where
  pub fine : Bool
  pub interval : ℤ
  pub time_out : ℕ

module _ (clockwork : Clockwork) where
  unfoldable pub new_itimer : Timing → Option ℕ → Timing × Option ℕ
  new_itimer t none = (record t { last_error = clockwork.failure_error }, none)
  new_itimer t (some h) = (record t { timer = h }, some h)

  unfoldable pub vfs_getitimer : Timing → Timing × Option ℕ
  unfolding new_itimer
  vfs_getitimer t =
      if not (t.timer == 0) then (t, some t.timer) else new_itimer t clockwork.new_timer

  -- SetWaitableTimer, and whether it succeeded.
  unfoldable pub timer_call : TimerCall → Timing → Timing × Bool
  timer_call c t =
      if clockwork.accepts c
      then (record t { calls = c ∷ t.calls }, true)
      else (record t { last_error = clockwork.failure_error }, false)

  -- vfs_setitimer, after vfs_getitimer; the new setting is stored whatever became of the call.
  unfoldable pub setitimer_at : ℤ → ℕ → Timing × Option ℕ → Timing × Previous
  unfolding timer_call remaining
  setitimer_at interval time_out (t, none) =
      (t, record { fine = false; interval = interval; time_out = time_out })
  setitimer_at interval time_out (t, some h) =
      let (t', done) =
        timer_call (set_timer h (clockwork.due time_out) interval (not (time_out == 0))) t in
      (
        record t' { interval = interval; timer_ticks = (t.clock_time + time_out) % quad },
        record {
          fine = done;
          interval = t.interval;
          time_out = remaining t.timer_ticks t.clock_time;
        },
      )

  unfoldable pub vfs_setitimer : ℤ → ℕ → Timing → Timing × Previous
  unfolding vfs_getitimer setitimer_at
  vfs_setitimer interval time_out t = setitimer_at interval time_out (vfs_getitimer t)

-- *Remain of vfs_nanosleep, from what win_clock_gettime_MONOTONIC gave at the end.
unfoldable pub sleep_remain : ℕ → ℕ → Option ℕ → ℕ
unfolding minus
sleep_remain time_out started none = minus time_out 0
sleep_remain time_out started (some now) = minus time_out (minus now started)

-- timeval_win, of seconds and microseconds
unfoldable pub timeval_win : ℕ → ℕ → ℕ
timeval_win sec usec = (sec * 10000000 + 116444736000000000 + usec * 10) % quad
