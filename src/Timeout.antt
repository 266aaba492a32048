-- ===== src/Timeout.antt =====
-- The sleeping calls of kernel/timer.c, and timer_update as a whole. The timer on the stack of a
-- thread has the number of the thread. A call is cut where schedule gives the processor away.
pub mod Update
pub mod Sleep
pub mod Early
use turnix.Base.{
  ℕ, zero, suc, ◌+◌, ◌-◌, ◌*◌, ◌/◌, ◌%◌, ◌^◌, Bool, true, false, none, List, [], ◌∷◌, ◌==◌, leb,
  if◌then◌else◌, update,
}
use turnix.Kernel.{Kernel, Thread, State, set_thread, Run, ok, panic, ◌>>=◌}
use turnix.Sched.{schedule, wake_up}
use turnix.Timer.{Timer, Timers, timer_add, timer_delete, fire}
use turnix.Clock.{Clocks, tick, update_timeval, ticks_per_sec, usecs_per_tick}

-- What these calls work on.
pub record Machine : Type 0 where
  pub kernel : Kernel
  pub timers : Timers
  pub clocks : Clocks

abbrev pub set_expires : ℕ → ℕ → Timers → Timers
set_expires t e s = record s { timer = update s.timer t (record (s.timer t) { expires = e }) }

-- `schedule_timeout` up to the end of timer_add. Interrupts are off in timer_add and in schedule only.
unfoldable pub timeout_arm : ℕ → Machine → Run Machine
timeout_arm timeout s =
    let t = s.kernel.current in
    let armed = timer_add t (set_expires t ((s.clocks.ticks + timeout) % 2 ^ 32) s.timers) >>= λ ts.
    ok (record s { timers = ts }) in
    if s.kernel.in_irq then panic else armed

-- Its call of schedule
unfoldable pub timeout_block : Machine → Run Machine
timeout_block s = schedule s.kernel >>= λ k. ok (record s { kernel = k })

-- Both, where no interrupt comes between them.
unfoldable pub timeout_begin : ℕ → Machine → Run Machine
timeout_begin timeout s = timeout_arm timeout s >>= timeout_block

-- The rest of `schedule_timeout`, once its thread runs again. The result is a `long`, as its pattern.
unfoldable pub timeout_end : Machine → Run (ℕ × Machine)
timeout_end s =
    let t = s.kernel.current in
    timer_delete t s.timers >>= λ ts.
    ok (((ts.timer t).expires + 2 ^ 32 - s.clocks.ticks) % 2 ^ 32, record s { timers = ts })

-- `pthread_current->state = PTHREAD_STATE_SLEEPING`
abbrev pub set_sleeping : Kernel → Kernel
set_sleeping k = set_thread k.current (record (k.threads k.current) { state = State.sleeping }) k

abbrev pub howmany : ℕ → ℕ → ℕ
howmany x y = (x + (y - 1)) / y

-- `sleep` up to there: set_sleeping, timeout_arm and timeout_block, where no interrupt comes between
-- these three. Early is about one that does.
unfoldable pub sleep_begin : ℕ → Machine → Run Machine
sleep_begin seconds s =
    timeout_begin (seconds * ticks_per_sec % 2 ^ 32) (record s { kernel = set_sleeping s.kernel })

unfoldable pub sleep_end : Machine → Run (ℕ × Machine)
sleep_end s = timeout_end s >>= λ (remain, s').
    ok (if leb (2 ^ 31) remain then 0 else howmany remain ticks_per_sec, s')

unfoldable pub usleep_begin : ℕ → Machine → Run Machine
usleep_begin usec s =
    timeout_begin ((usec + (usecs_per_tick - 1)) % 2 ^ 32 / usecs_per_tick)
      (record s { kernel = set_sleeping s.kernel })

-- `sched_timeout` for the timers that are due, in their order
unfoldable pub wake_all : List ℕ → Kernel → Run Kernel
wake_all [] k = ok k
wake_all (t ∷ ts) k = wake_up t k >>= wake_all ts

-- `stime` of the current thread
abbrev pub account : Kernel → Kernel
account k =
    let th = k.threads k.current in
    set_thread k.current (record th { stime = update_timeval th.stime }) k

-- `--pthread_current->timeslice`, a byte
abbrev pub spend : Kernel → Kernel
spend k =
    let th = k.threads k.current in
    let left = (th.timeslice + 256 - 1) % 256 in
    let k' = set_thread k.current (record th { timeslice = left }) k in
    if left == 0 then record k' { next = none } else k'

-- `timer_update`. The functions of the timers leave the heap alone, so they may run after its loop.
unfoldable pub timer_update : Machine → Run Machine
timer_update s =
    let clocks = tick s.clocks in
    fire (s.timers.n + 1) clocks.ticks s.timers >>= λ (timers, due).
    wake_all due (account s.kernel) >>= λ k.
    ok (record { kernel = spend k; timers = timers; clocks = clocks })
