-- ===== src/Commands.antt =====
-- The commands of applications/shell.c that print: what they send to the screen.
pub mod Says
pub mod Cal
pub mod Title
use turnix.Base.{
  ℕ, zero, suc, ◌+◌, ◌-◌, ◌*◌, ◌/◌, ◌%◌, ◌^◌, Bool, true, false, not, ◌&&◌, Option, none, some,
  List, [], ◌∷◌, ◌++◌, codes, ◌==◌, ltb, leb, if◌then◌else◌, get_or, replicate,
}
use turnix.Kernel.{Kernel, Thread, State, Timeval, Run, ok, ◌>>=◌}
use turnix.Calendar.{Tm, secs_per_day, is_leapyear, bit, gmtime_r, localtime_r}
use turnix.Clock.{Clocks, Timezone}
use turnix.Ctype.{toupper}
use turnix.Stdio.{Arg, number, text, printf}
use turnix.Threads.Start.{pthread_foreach}
use turnix.Threads.Stack.{stack_check_size}

-- What a call of printf sends
unfoldable pub say : List ℕ → List Arg → Run (List ℕ)
say format args = printf 1 format args >>= λ (out, n). ok out

-- `abs` on a pattern of 32 bits
abbrev pub abs : ℕ → ℕ
abs v = if ltb v (2 ^ 31) then v else (2 ^ 32 - v) % 2 ^ 32

-- Whether the pattern is a number above 0
abbrev pub is_positive : ℕ → Bool
is_positive v = ltb 0 v && ltb v (2 ^ 31)

unfoldable pub do_date : Clocks → Timezone → Run (List ℕ)
do_date c zone =
    let tm = localtime_r zone.tz_minuteswest c.wall.tv_sec in
    let west = zone.tz_minuteswest in
    say (codes "%04d-%02d-%02dT%02d:%02d:%02d%c%02d:%02d\n") (
      number (tm.tm_year + 1900)
      ∷ number (tm.tm_mon + 1)
      ∷ number tm.tm_mday
      ∷ number tm.tm_hour
      ∷ number tm.tm_min
      ∷ number tm.tm_sec
      ∷ number (if is_positive west then b'-' else b'+')
      ∷ number (abs west / 60)
      ∷ number (abs west % 60)
      ∷ [])

-- What do_uptime prints of the days
abbrev pub uptime_days : ℕ → Run (List ℕ)
uptime_days sec =
    if leb secs_per_day sec
    then say (codes "%ld days, ") (number (sec / secs_per_day) ∷ [])
    else ok []

unfoldable pub do_uptime : Clocks → Run (List ℕ)
do_uptime c = do
  let tv = c.monotonic_clock
  let tm = gmtime_r (if leb secs_per_day tv.tv_sec then tv.tv_sec % secs_per_day else tv.tv_sec)
  days ← uptime_days tv.tv_sec
  rest ←
      say (codes "%02d:%02d:%02d.%06ld\n")
        (number tm.tm_hour ∷ number tm.tm_min ∷ number tm.tm_sec ∷ number tv.tv_usec ∷ [])
  ok (days ++ rest)

abbrev pub mon_str : List (List ℕ)
mon_str =
    codes "January"
    ∷ codes "February"
    ∷ codes "March"
    ∷ codes "April"
    ∷ codes "May"
    ∷ codes "June"
    ∷ codes "July"
    ∷ codes "August"
    ∷ codes "September"
    ∷ codes "October"
    ∷ codes "November"
    ∷ codes "December"
    ∷ []

abbrev pub days_of_mon : ℕ → ℕ
days_of_mon mon = get_or (31 ∷ 28 ∷ 31 ∷ 30 ∷ 31 ∷ 30 ∷ 31 ∷ 31 ∷ 30 ∷ 31 ∷ 30 ∷ 31 ∷ []) mon 0

-- The days of the month of a date
abbrev pub days_in : Tm → ℕ
days_in tm = days_of_mon tm.tm_mon + bit (tm.tm_mon == 1 && is_leapyear (1900 + tm.tm_year))

-- The day of the week of the first day of the month; before 1970 the day of the month is negative, and
-- the sum is not.
abbrev pub first_wday : Tm → ℕ
first_wday tm = (tm.tm_wday + 35 + 1 + 2 ^ 32 - tm.tm_mday) % 2 ^ 32 % 7

-- The loop over the days of the month, with the days left
unfoldable pub cal_days : ℕ → ℕ → ℕ → Run (List ℕ)
cal_days zero day wday = ok (if wday == 0 then [] else b'\n' ∷ [])
cal_days (suc n) day wday = do
  cell ← say (codes "%2d ") (number day ∷ [])
  rest ← cal_days n (day + 1) (if wday == 6 then 0 else wday + 1)
  ok (cell ++ (if wday == 6 then b'\n' ∷ [] else []) ++ rest)

-- The loop before the first day
unfoldable pub blank_days : ℕ → List ℕ
blank_days zero = []
blank_days (suc n) = codes "   " ++ blank_days n

unfoldable pub do_cal : Clocks → Timezone → Run (List ℕ)
do_cal c zone = do
  let tm = localtime_r zone.tz_minuteswest c.wall.tv_sec
  title ←
      say (codes "   %s %d\n")
        (text (get_or mon_str tm.tm_mon []) ∷ number (1900 + tm.tm_year) ∷ [])
  days ← cal_days (days_in tm) 1 (first_wday tm)
  ok (title ++ (codes "Su Mo Tu We Th Fr Sa\n" ++ (blank_days (first_wday tm) ++ days)))

abbrev pub state_str : State → List ℕ
state_str State.none = codes "none"
state_str State.init = codes "init"
state_str State.running = codes "running"
state_str State.sleeping = codes "sleeping"
state_str State.exit = codes "exit"

-- What show_thread prints; `address` gives the address of a thread's structure, and `words` the memory
-- of the stacks.
unfoldable pub show_thread : (ℕ → ℕ) → (ℕ → ℕ) → Kernel → ℕ → Run (List ℕ)
show_thread address words k t =
    let th = k.threads t in
    say (codes "%s %p %u %lu %ld.%03ld %s\n") (
      text (state_str th.state)
      ∷ number (address t)
      ∷ number th.priority
      ∷ number (stack_check_size th.stack_addr th.stack_size words)
      ∷ number th.stime.tv_sec
      ∷ number (th.stime.tv_usec / 1000)
      ∷ text th.name
      ∷ [])

unfoldable pub show_each : (ℕ → Run (List ℕ)) → List ℕ → Run (List ℕ)
show_each show [] = ok []
show_each show (t ∷ threads) = do line ← show t; rest ← show_each show threads; ok (line ++ rest)

unfoldable pub do_ps : (ℕ → ℕ) → (ℕ → ℕ) → Kernel → Run (List ℕ)
do_ps address words k = do
  lines ← show_each (show_thread address words k) (pthread_foreach k)
  ok (codes "state tid priority stack time name\n" ++ lines)

-- `EFAULT`
abbrev pub efault : ℕ
efault = 8

-- The texts of `uname`, which the build gives, but for the name of the host
pub record Build : Type 0 where
  pub kernel : List ℕ
  pub release : List ℕ
  pub version : List ℕ
  pub machine : List ℕ

-- `struct utsname`
pub record Utsname : Type 0 where
  pub sysname : List ℕ
  pub nodename : List ℕ
  pub release : List ℕ
  pub version : List ℕ
  pub machine : List ℕ

abbrev pub capital : List ℕ → List ℕ
capital [] = []
capital (c ∷ s) = toupper c ∷ s

-- The result, what errno is set to, and the structure, if the pointer is not NULL; -1 is its pattern
-- of 32 bits.
unfoldable pub uname : Build → Bool → ℕ × Option ℕ × Option Utsname
uname build false = (2 ^ 32 - 1, some efault, none)
uname build true = (
  0,
  none,
  some (record {
    sysname = capital build.kernel;
    nodename = codes "local";
    release = build.release;
    version = build.version;
    machine = build.machine;
  }),
)

-- The one call of uname in do_uname is with a structure.
unfoldable pub do_uname : Utsname → Run (List ℕ)
do_uname name = say (codes "%s %s %s %s %s\n") (
    text name.sysname
    ∷ text name.nodename
    ∷ text name.release
    ∷ text name.version
    ∷ text name.machine
    ∷ [])
