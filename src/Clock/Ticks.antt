-- ===== src/Clock/Ticks.antt =====
-- The clock of os/kernel/systemclock/clock.c against the number of ticks.
use vsnx_os.Base.{
  ℕ, zero, suc, ◌+◌, ◌-◌, ◌*◌, ◌%◌, ◌≤◌, ◌<◌, ◌≡◌, refl, true, false, arith, ◌==◌, if◌then◌else◌,
  u32_mod, add32, ==_iff, ==-ne_iff, Bool-cases, inl, inr,
}
use vsnx_os.Clock.{Clock, SystemTime, system_clock_tick, init_system_clock, to_ms, next_minute}

-- Every field is in its range, and the milliseconds follow the tick counter.
pub record IsValid (c : Clock) : Type 0 where
  pub counter : c.tick_count < u32_mod
  pub ms : c.current_time.milliseconds ≡ c.tick_count % 1000
  pub seconds : c.current_time.seconds < 60
  pub minutes : c.current_time.minutes < 60
  pub hours : c.current_time.hours < 24
  pub days : c.current_time.days < u32_mod

-- Carrying keeps the sum of the fields and brings each into its range.
next_minute-sum :
    (t : SystemTime) (ms : ℕ)
    → t.seconds ≤ 60
    → t.minutes < 60
    → t.hours < 24
    → t.days < u32_mod - 1
    → ms < 1000
    → (to_ms (record (next_minute t) { milliseconds = ms })
        ≡ ((t.days * 24 + t.hours) * 60 + t.minutes) * 60000 + t.seconds * 1000 + ms)
      × ((next_minute t).seconds < 60)
      × ((next_minute t).minutes < 60)
      × ((next_minute t).hours < 24)
      × ((next_minute t).days ≤ t.days + 1)
unfolding next_minute to_ms
next_minute-sum t ms hs hm hh hd hms = ground arith

to_ms_lem :
    {c : Clock}
    → IsValid c
    → to_ms c.current_time
      ≡ ((c.current_time.days * 24 + c.current_time.hours) * 60 + c.current_time.minutes) * 60000
        + c.current_time.seconds * 1000
        + c.current_time.milliseconds
unfolding to_ms
to_ms_lem v = omega (arith, v.ms, v.seconds, v.minutes, v.hours, v.days)

-- A tick inside a second changes the milliseconds alone.
tick_within :
    {c : Clock}
    → IsValid c
    → (add32 c.tick_count 1 % 1000 == 0) ≡ false
    → IsValid (system_clock_tick c)
      × (to_ms (system_clock_tick c).current_time ≡ to_ms c.current_time + 1)
unfolding system_clock_tick to_ms
tick_within {c} v inside = rw inside (
  omega (arith, v.ms, v.seconds, v.minutes, v.hours, v.days, (==-ne_iff _ 0).0 inside),
  omega (arith, v.ms, v.seconds, v.minutes, v.hours, v.days, (==-ne_iff _ 0).0 inside),
)

tick_second :
    {c : Clock}
    → IsValid c
    → c.current_time.days < u32_mod - 1
    → (add32 c.tick_count 1 % 1000 == 0) ≡ true
    → IsValid (system_clock_tick c)
      × (to_ms (system_clock_tick c).current_time
          ≡ to_ms c.current_time + (1000 - c.tick_count % 1000))
unfolding system_clock_tick
tick_second {c} v room over =
    let t : SystemTime = record c.current_time { seconds = (c.current_time.seconds + 1) % 256 } in
    let m =
      next_minute-sum t (add32 c.tick_count 1 % 1000) (omega (arith, v.seconds)) v.minutes v.hours
        room (omega arith) in
    rw over (
      omega (arith, m, v.counter, (==_iff _ 0).0 over),
      omega (arith, m, to_ms_lem v, v.ms, v.seconds, (==_iff _ 0).0 over),
    )

-- Of a valid clock whose days do not run over, a tick makes a valid clock and moves the time by one
-- millisecond; where the tick counter wraps, by 705.
pub tick_lem :
    {c : Clock}
    → IsValid c
    → c.current_time.days < u32_mod - 1
    → IsValid (system_clock_tick c)
      × (to_ms (system_clock_tick c).current_time
          ≡ to_ms c.current_time + (if c.tick_count == u32_mod - 1 then 705 else 1))
tick_lem {c} v room = elim (Bool-cases (add32 c.tick_count 1 % 1000 == 0)) [
  | inl over ↦ let (w, sum) = tick_second v room over in (w, ground (arith, sum, v.counter))
  | inr inside ↦ let (w, sum) = tick_within v inside in (w, ground (arith, sum, v.counter))
]

-- `n` ticks in a row.
unfoldable pub ticks : ℕ → Clock → Clock
ticks zero c = c
ticks (suc n) c = system_clock_tick (ticks n c)

tick_count-tick : (c : Clock) → (system_clock_tick c).tick_count ≡ add32 c.tick_count 1
unfolding system_clock_tick
tick_count-tick c = refl

init_valid :
    (c : Clock)
    → c.tick_count ≡ 0
    → IsValid (init_system_clock c)
      × (to_ms (init_system_clock c).current_time ≡ 0)
      × ((init_system_clock c).tick_count ≡ 0)
unfolding init_system_clock to_ms
init_valid c start = (omega (arith, start), refl, start)

-- From initialisation with the counter at 0 on, for the 2^32 - 1 ticks before the counter wraps, the
-- clock is valid, and the time in milliseconds and the counter are the number of ticks.
pub to_ms-ticks :
    (n : ℕ) (c : Clock)
    → c.tick_count ≡ 0
    → n < u32_mod
    → IsValid (ticks n (init_system_clock c))
      × (to_ms (ticks n (init_system_clock c)).current_time ≡ n)
      × ((ticks n (init_system_clock c)).tick_count ≡ n)
unfolding ticks
to_ms-ticks zero c start h = init_valid c start
to_ms-ticks (suc n) c start h =
    let (v, sum, count) = to_ms-ticks n c start (omega arith) in
    let room : (ticks n (init_system_clock c)).current_time.days < u32_mod - 1 =
      omega (arith, to_ms_lem v, sum) in
    let (w, next) = tick_lem v room in
    (
      w,
      ground (arith, next, sum, count),
      omega (arith, tick_count-tick (ticks n (init_system_clock c)), count),
    )
