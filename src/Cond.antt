-- ===== src/Cond.antt =====
-- The condition variables of kernel/pthread.c. A condition variable is its queue of threads; a thread
-- waits for one at most, and its entry stands in the queue until it is removed. pthread_cond_timedwait
-- is cut where the processor may be given away: in pthread_mutex_unlock, at its own wait, and in
-- pthread_mutex_lock.
pub mod Wait
pub mod Signal
use turnix.Base.{
  ℕ, zero, suc, ◌+◌, ◌-◌, ◌*◌, ◌/◌, ◌%◌, ◌^◌, Bool, true, false, ◌&&◌, ◌||◌, Option, none, some,
  List, [], ◌∷◌, ◌++◌, ◌==◌, ltb, leb, if◌then◌else◌,
}
use turnix.Kernel.{Kernel, Thread, State, Run, ok, ◌>>=◌}
use turnix.RunQueue.Queues.{is_empty, remove}
use turnix.Sched.{schedule, set_running, wake_up}
use turnix.Mutex.{Call, pick, mutex_lock, mutex_unlock}
use turnix.Clock.{Timespec, Clocks, clock_gettime, ClockId, ticks_per_sec}
use turnix.Timeout.{Machine, timeout_begin, timeout_end, set_sleeping}

abbrev pub Queue : Type 0
Queue = List ℕ

unfoldable pub cond_init : Queue → Queue
cond_init wq = []

-- `target` of pthread_cond_signal is found as the one of pthread_mutex_unlock is.
unfoldable pub cond_signal : Queue → Kernel → Run (Queue × Kernel)
cond_signal wq k = elim (pick k.threads wq none) [
  | none ↦ ok (wq, k)
  | some t ↦ wake_up t k >>= λ r. ok (remove t wq, r)
]

-- The loop of pthread_cond_broadcast, which empties the queue.
unfoldable pub run_all : Queue → Kernel → Kernel
run_all [] k = k
run_all (t ∷ wq) k = run_all wq (set_running t k)

unfoldable pub cond_broadcast : Queue → Kernel → Run (Queue × Kernel)
cond_broadcast wq k =
    if is_empty wq then ok (wq, k) else (schedule (run_all wq k) >>= λ r. ok ([], r))

-- The thread enters the queue, is marked as asleep, and unlocks the mutex.
unfoldable pub wait_begin : ℕ → ℕ → Queue → Kernel → Run (Queue × Kernel)
wait_begin fuel m wq k = mutex_unlock fuel m (set_sleeping k) >>= λ r. ok (wq ++ k.current ∷ [], r)

-- `NSECS_PER_TICK`
abbrev pub nsecs_per_tick : ℕ
nsecs_per_tick = 10000000

-- `abstime` lies after `now`
abbrev pub is_later : Timespec → Timespec → Bool
is_later a n = ltb n.tv_sec a.tv_sec || ((a.tv_sec == n.tv_sec) && ltb n.tv_nsec a.tv_nsec)

-- `delta`, of 32 bits; the division rounds towards zero.
unfoldable pub delta : Timespec → Timespec → ℕ
delta a n =
    let nsec =
      if leb n.tv_nsec a.tv_nsec
      then (a.tv_nsec - n.tv_nsec) / nsecs_per_tick
      else 2 ^ 32 - (n.tv_nsec - a.tv_nsec) / nsecs_per_tick in
    let d = ((a.tv_sec + 2 ^ 32 - n.tv_sec) * ticks_per_sec + nsec) % 2 ^ 32 in
    if d == 0 then 1 else d

-- How the wait goes on: after schedule, after schedule_timeout has begun, or with ETIMEDOUT.
pub data Waiting : Type 0 where
  scheduled timed expired : Waiting

-- `now`; the call of clock_gettime always stores it.
abbrev pub now : Clocks → Timespec
now c = elim (clock_gettime ClockId.realtime c).1 [
  | none ↦ record { tv_sec = 0; tv_nsec = 0 }
  | some n ↦ n
]

unfoldable pub wait_block : Option Timespec → Machine → Run (Waiting × Machine)
wait_block none s = schedule s.kernel >>= λ k. ok (scheduled, record s { kernel = k })
wait_block (some a) s =
    let begun = timeout_begin (delta a (now s.clocks)) s >>= λ s'. ok (timed, s') in
    if is_later a (now s.clocks) then begun else ok (expired, s)

-- `ETIMEDOUT`
abbrev pub etimedout : ℕ
etimedout = 7

-- The value of `retval`, once the thread runs again.
unfoldable pub wait_result : Waiting → Machine → Run (ℕ × Machine)
wait_result scheduled s = ok (0, s)
wait_result expired s = ok (etimedout, s)
wait_result timed s = timeout_end s >>= λ (remain, s').
    ok (if (remain == 0) || leb (2 ^ 31) remain then etimedout else 0, s')

-- The mutex is locked again, and an entry that is still in the queue is removed.
unfoldable pub wait_lock : ℕ → ℕ → Kernel → Run (Call × Kernel)
wait_lock fuel m k = mutex_lock fuel m k

unfoldable pub wait_leave : Queue → Kernel → Queue
wait_leave wq k = remove k.current wq
