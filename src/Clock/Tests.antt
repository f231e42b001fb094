-- ===== src/Clock/Tests.antt =====
-- Runs of the clock of os/kernel/systemclock/clock.c, and its theorems at inputs that meet their
-- hypotheses.
use vsnx_os.Base.{ℕ, ◌≡◌, refl, arith, some, if◌then◌else◌, ◌==◌}
use vsnx_os.Clock.{
  Clock, SystemTime, system_clock_tick, init_system_clock, to_ms, time_now_ms, next_minute,
}
use vsnx_os.Clock.Ticks.{IsValid, ticks, to_ms-ticks}
use vsnx_os.Clock.Order.{Stable, time_now_ms-Stable}

-- One tick before midnight of the first day.
abbrev midnight : Clock
midnight = record {
  tick_count = 86399999;
  current_time = record { milliseconds = 999; seconds = 59; minutes = 59; hours = 23; days = 0 };
}

tick-midnight :
    (system_clock_tick midnight).current_time
    ≡ record { milliseconds = 0; seconds = 0; minutes = 0; hours = 0; days = 1 }
unfolding system_clock_tick next_minute
tick-midnight = refl

to_ms-ticks_example :
    IsValid (ticks 3 (init_system_clock (record midnight { tick_count = 0 })))
    × (to_ms (ticks 3 (init_system_clock (record midnight { tick_count = 0 }))).current_time ≡ 3)
    × ((ticks 3 (init_system_clock (record midnight { tick_count = 0 }))).tick_count ≡ 3)
to_ms-ticks_example = to_ms-ticks 3 (record midnight { tick_count = 0 }) refl (omega arith)

-- Reads that change once, between the first two.
abbrev reads : ℕ → SystemTime
reads k = record {
  milliseconds = if k == 0 then 4 else 5;
  seconds = 1;
  minutes = 0;
  hours = 0;
  days = 0;
}

time_now_ms-Stable_example : (ms : ℕ) × (time_now_ms reads 2 0 ≡ some ms) × Stable reads 0 ms
time_now_ms-Stable_example = time_now_ms-Stable reads 1 2 0 (omega arith) refl
