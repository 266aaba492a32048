-- ===== src/Clock/Advance.antt =====
-- What ticks do to a clock.
use turnix.Base.{
  ℕ, zero, suc, ◌+◌, ◌-◌, ◌*◌, ◌/◌, ◌%◌, ◌^◌, ◌≡◌, ◌≤◌, ◌<◌, refl, ap, ◌∙◌, arith, some,
}
use turnix.Kernel.{Timeval}
use turnix.Clock.{
  ClockId, Timespec, clock_gettime, clock_settime, Clocks, update_timeval, tick, usecs_per_sec,
  usecs_per_tick,
}

-- The microseconds that a clock shows.
abbrev pub total : Timeval → ℕ
total tv = tv.tv_sec * usecs_per_sec + tv.tv_usec

-- A clock after some ticks.
abbrev pub after : ℕ → Clocks → Clocks
after zero c = c
after (suc n) c = tick (after n c)

-- A tick adds its length to a clock. Microseconds from 0 to a million stay there, and the million
-- itself is reached: it is not carried over to the seconds.
pub update_timeval_at :
    (tv : Timeval)
    → tv.tv_usec ≤ usecs_per_sec
    → (total (update_timeval tv) ≡ total tv + usecs_per_tick)
      × ((update_timeval tv).tv_usec ≤ usecs_per_sec)
      × (tv.tv_usec + usecs_per_tick ≡ usecs_per_sec → (update_timeval tv).tv_usec ≡ usecs_per_sec)
unfolding update_timeval
update_timeval_at tv h = (ground (arith, h), ground (arith, h), λ e. ground (arith, e))

tick_clocks :
    (c : Clocks)
    → ((tick c).wall ≡ update_timeval c.wall)
      × ((tick c).monotonic_clock ≡ update_timeval c.monotonic_clock)
      × ((tick c).ticks ≡ (c.ticks + 1) % 2 ^ 32)
unfolding tick
tick_clocks c = (refl, refl, refl)

-- After `n` ticks the count of ticks has grown by `n`, up to its wrap at 2^32, and both clocks by `n`
-- times the length of a tick; their microseconds stay between 0 and a million.
pub tick_total :
    (n : ℕ) (c : Clocks)
    → c.ticks < 2 ^ 32
    → c.wall.tv_usec ≤ usecs_per_sec
    → c.monotonic_clock.tv_usec ≤ usecs_per_sec
    → ((after n c).ticks ≡ (c.ticks + n) % 2 ^ 32)
      × (total (after n c).wall ≡ total c.wall + n * usecs_per_tick)
      × (total (after n c).monotonic_clock ≡ total c.monotonic_clock + n * usecs_per_tick)
      × ((after n c).wall.tv_usec ≤ usecs_per_sec)
      × ((after n c).monotonic_clock.tv_usec ≤ usecs_per_sec)
tick_total zero c w p q = (omega arith, omega arith, omega arith, p, q)
tick_total (suc n) c w p q =
    let (ticks, wall, mono, pw, pm) = tick_total n c w p q in
    let (tw, tm, tt) = tick_clocks (after n c) in
    let (sumw, boundw, _) = update_timeval_at (after n c).wall pw in
    let (summ, boundm, _) = update_timeval_at (after n c).monotonic_clock pm in
    (
      omega (arith, ticks, tt),
      ap total tw ∙ sumw ∙ omega (arith, wall),
      ap total tm ∙ summ ∙ omega (arith, mono),
      rw tw boundw,
      rw tm boundm,
    )

-- clock_settime of the real-time clock is read back by clock_gettime, rounded down to microseconds.
-- Of any other clock it fails with EINVAL and changes nothing but the error code.
pub clock_settime-clock_gettime :
    (tp : Timespec) (c : Clocks)
    → (clock_gettime ClockId.realtime (clock_settime ClockId.realtime tp c).1 ≡ (
      0,
      some (record { tv_sec = tp.tv_sec; tv_nsec = tp.tv_nsec / 1000 * 1000 }),
      (clock_settime ClockId.realtime tp c).1,
    ))
      × (clock_settime ClockId.monotonic tp c ≡ (2 ^ 32 - 1, record c { error_code = 2 }))
      × (clock_settime ClockId.other tp c ≡ (2 ^ 32 - 1, record c { error_code = 2 }))
unfolding clock_settime clock_gettime
clock_settime-clock_gettime tp c = (refl, refl, refl)
