-- ===== src/Clock.antt =====
-- The system clock: os/kernel/systemclock/clock.c and clock.h.
-- `volatile` reads are the argument of `stable_read`: what each call of `get_system_time` copies.
pub mod Ticks
pub mod Order
mod Tests
use vsnx_os.Base.{
  ℕ, zero, suc, ◌+◌, ◌-◌, ◌*◌, ◌/◌, ◌%◌, ◌^◌, Bool, true, false, not, ◌&&◌, ◌||◌, ltb, leb, ◌==◌,
  if◌then◌else◌, Option, none, some, add64, sub64, mul64, add32, u32_mod,
}

-- `struct system_time`
pub record SystemTime : Type 0 where
  pub milliseconds : ℕ
  pub seconds : ℕ
  pub minutes : ℕ
  pub hours : ℕ
  pub days : ℕ

pub record Clock : Type 0 where
  pub tick_count : ℕ
  pub current_time : SystemTime

-- `++` on a `uint8_t`
abbrev inc8 : ℕ → ℕ
inc8 n = (n + 1) % 256

next_day : SystemTime → SystemTime
next_day t = if leb 24 t.hours then record t { hours = 0; days = add32 t.days 1 } else t

next_hour : SystemTime → SystemTime
unfolding next_day
next_hour t =
    if leb 60 t.minutes then next_day (record t { minutes = 0; hours = inc8 t.hours }) else t

next_minute : SystemTime → SystemTime
unfolding next_hour
next_minute t =
    if leb 60 t.seconds then next_hour (record t { seconds = 0; minutes = inc8 t.minutes }) else t

pub system_clock_tick : Clock → Clock
system_clock_tick c =
    let ticks = add32 c.tick_count 1 in
    let t : SystemTime =
      if ticks % 1000 == 0
      then next_minute (record c.current_time { seconds = inc8 c.current_time.seconds })
      else c.current_time in
    record { tick_count = ticks; current_time = record t { milliseconds = ticks % 1000 } }

pub init_system_clock : Clock → Clock
init_system_clock c = record c {
  current_time = record { milliseconds = 0; seconds = 0; minutes = 0; hours = 0; days = 0 };
}

abbrev same_time : SystemTime → SystemTime → Bool
same_time s t =
    s.milliseconds == t.milliseconds
    && s.seconds == t.seconds
    && s.minutes == t.minutes
    && s.hours == t.hours
    && s.days == t.days

-- The sum of `time_now_ms`, over `uint64_t`.
pub to_ms : SystemTime → ℕ
to_ms t =
    add64
      (add64
        (add64
          (add64 (mul64 (mul64 (mul64 (mul64 t.days 24) 60) 60) 1000)
            (mul64 (mul64 (mul64 t.hours 60) 60) 1000))
          (mul64 (mul64 t.minutes 60) 1000))
        (mul64 t.seconds 1000))
      t.milliseconds

-- `time_now_ms`: two reads at a time, until they agree; `none` when the rounds run out.
pub time_now_ms : (reads : ℕ → SystemTime) → (rounds k : ℕ) → Option ℕ
unfolding to_ms
time_now_ms reads zero k = none
time_now_ms reads (suc n) k =
    let rest = time_now_ms reads n (k + 2) in
    if same_time (reads k) (reads (k + 1)) then some (to_ms (reads k)) else rest

-- `(uint32_t)(time_now_ms() / 1000ULL)` and `/ 60000ULL`
pub uptime_seconds : ℕ → ℕ
uptime_seconds ms = ms / 1000 % u32_mod

pub uptime_minutes : ℕ → ℕ
uptime_minutes ms = ms / 60000 % u32_mod

-- `(int64_t)x < 0`
abbrev is_negative : ℕ → Bool
is_negative x = leb (2 ^ 63) x

pub time_after : ℕ → ℕ → Bool
time_after a b = is_negative (sub64 b a)

pub time_before : ℕ → ℕ → Bool
time_before a b = is_negative (sub64 a b)
