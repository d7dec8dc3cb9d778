-- ===== src/Tests/Timers.antt =====
-- An instance of the theorem on the interval timer.
use minc.Prelude.{◌+◌, ◌-◌, ◌≡◌, refl, true, some, [], arith}
use minc.Prelude.Int.{pos}
use minc.Timer.{Timing, Clockwork, vfs_getitimer, vfs_setitimer}
use minc.Timer.Remaining.{HasTimer, vfs_setitimer-vfs_setitimer}

abbrev clockwork : Clockwork
clockwork = record { new_timer = some 40; accepts = λ c. true; failure_error = 6; due = λ t. pos t }

abbrev timing : Timing
timing = record {
  timer = 0;
  clock_time = 1000;
  timer_ticks = 0;
  interval = pos 0;
  calls = [];
  last_error = 0;
}

timing-HasTimer : HasTimer clockwork timing
unfolding vfs_getitimer
timing-HasTimer = (40, refl)

vfs_setitimer-vfs_setitimer_example :
    ((vfs_setitimer clockwork
        (pos 0)
        0
        (record (vfs_setitimer clockwork (pos 7) 500 timing).0 { clock_time = 1200 })).1.interval
      ≡ pos 7)
    × ((vfs_setitimer clockwork
          (pos 0)
          0
          (record (vfs_setitimer clockwork (pos 7) 500 timing).0 { clock_time = 1200 })).1.time_out
        ≡ 1000 + 500 - 1200)
vfs_setitimer-vfs_setitimer_example =
    vfs_setitimer-vfs_setitimer clockwork (pos 7) (pos 0) 500 0 1200 timing timing-HasTimer
      (omega arith) (omega arith)
