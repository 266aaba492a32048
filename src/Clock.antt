-- ===== src/Clock.antt =====
-- The clocks of kernel/timer.c. A time before 1970 is left out, and seconds do not wrap round.
pub mod Advance
use turnix.Base.{
  ℕ, zero, suc, ◌+◌, ◌-◌, ◌*◌, ◌/◌, ◌%◌, ◌^◌, Bool, true, false, Option, none, some, ltb,
  if◌then◌else◌,
}
use turnix.Kernel.{Timeval, Run, ok, panic}

abbrev pub usecs_per_sec : ℕ
usecs_per_sec = 1000000

abbrev pub nsecs_per_usec : ℕ
nsecs_per_usec = 1000

-- `CONFIG_HZ`, and `USECS_PER_SEC / CONFIG_HZ`
abbrev pub ticks_per_sec : ℕ
ticks_per_sec = 100

abbrev pub usecs_per_tick : ℕ
usecs_per_tick = usecs_per_sec / ticks_per_sec

-- `enum clockid`, and any other value.
pub data ClockId : Type 0 where
  realtime monotonic other : ClockId

-- `struct timespec`
pub record Timespec : Type 0 where
  pub tv_sec : ℕ
  pub tv_nsec : ℕ

-- `ticks`, `wall_clock.tv`, `monotonic_clock`, and the `errno` of the caller.
pub record Clocks : Type 0 where
  pub ticks : ℕ
  pub wall : Timeval
  pub monotonic_clock : Timeval
  pub error_code : ℕ

unfoldable pub update_timeval : Timeval → Timeval
update_timeval tv =
    let usec = tv.tv_usec + usecs_per_tick in
    if ltb usecs_per_sec usec
    then record { tv_sec = tv.tv_sec + usec / usecs_per_sec; tv_usec = usec % usecs_per_sec }
    else record tv { tv_usec = usec }

-- The first half of `timer_update`, but for the time of the current thread.
unfoldable pub tick : Clocks → Clocks
tick c = record c {
  ticks = (c.ticks + 1) % 2 ^ 32;
  wall = update_timeval c.wall;
  monotonic_clock = update_timeval c.monotonic_clock;
}

-- `tp` is not written on an error.
unfoldable pub clock_gettime : ClockId → Clocks → ℕ × Option Timespec × Clocks
clock_gettime realtime c =
    (0, some (record { tv_sec = c.wall.tv_sec; tv_nsec = c.wall.tv_usec * nsecs_per_usec }), c)
clock_gettime monotonic c = (
  0,
  some (record {
    tv_sec = c.monotonic_clock.tv_sec;
    tv_nsec = c.monotonic_clock.tv_usec * nsecs_per_usec;
  }),
  c,
)
clock_gettime other c = (2 ^ 32 - 1, none, record c { error_code = 2 })

unfoldable pub clock_settime : ClockId → Timespec → Clocks → ℕ × Clocks
clock_settime realtime tp c =
    (0, record c { wall = record { tv_sec = tp.tv_sec; tv_usec = tp.tv_nsec / nsecs_per_usec } })
clock_settime monotonic tp c = (2 ^ 32 - 1, record c { error_code = 2 })
clock_settime other tp c = (2 ^ 32 - 1, record c { error_code = 2 })

-- `struct timezone`
pub record Timezone : Type 0 where
  pub tz_minuteswest : ℕ
  pub tz_dsttime : ℕ

-- `time`: what is stored where the argument is not NULL, and the result.
unfoldable pub time : Bool → Clocks → Option ℕ × ℕ
time true c = (some c.wall.tv_sec, c.wall.tv_sec)
time false c = (none, c.wall.tv_sec)

-- What is stored for a pointer that may be NULL.
abbrev stored {ℓ} : {A : Type ℓ} → Bool → A → Option A
stored wanted a = if wanted then some a else none

-- `wall_clock.tz` stands beside the clocks.
unfoldable pub gettimeofday : Bool → Bool → Clocks → Timezone → Option Timeval × Option Timezone
gettimeofday tv tz c zone = (stored tv c.wall, stored tz zone)

unfoldable pub settimeofday :
    Option Timeval → Option Timezone → Clocks → Timezone → Clocks × Timezone
settimeofday tv tz c zone =
    (elim tv [ none ↦ c | some t ↦ record c { wall = t } ], elim tz [ none ↦ zone | some z ↦ z ])

unfoldable pub uptime : Bool → Clocks → Run Timeval
uptime tv c = if tv then ok c.monotonic_clock else panic
