-- ===== src/Mutex.antt =====
-- The mutexes of kernel/pthread.c. A call that blocks is cut where `schedule` gives the processor
-- away: `mutex_lock` runs up to there, and `mutex_relock` is what the thread does each time it runs
-- again.
pub mod Sound
pub mod Enter
pub mod Handover
pub mod Relock
pub mod Fast
pub mod Acquire
pub mod Orphan
pub mod Pick
pub mod Release
pub mod Unlock
use turnix.Base.{
  ℕ, zero, suc, ◌+◌, ◌-◌, ◌^◌, ◌%◌, Bool, true, false, Option, none, some, List, [], ◌∷◌, ◌++◌,
  ◌==◌, ltb, if◌then◌else◌, ◌&&◌, update,
}
use turnix.Kernel.{Kernel, Thread, Mutex, State, Lock, set_thread, set_mutex, Run, ok, panic, ◌>>=◌}
use turnix.RunQueue.Queues.{is_empty, remove}
use turnix.Sched.{schedule, set_running, is_thread}
use turnix.Inherit.{set_prio, spread}

-- How a call stands when it gives the processor back: it has returned, or it will go on later.
pub data Call : Type 0 where
  returned : ℕ → Call
  blocked : Call

-- `PTHREAD_MUTEX_RECURSIVE_NP`, `EBUSY`
abbrev pub recursive_np : ℕ
recursive_np = 1

abbrev pub ebusy : ℕ
ebusy = 1

abbrev pub is_free : Lock → Bool
is_free Lock.free = true
is_free _ = false

abbrev pub is_taken : Lock → Bool
is_taken Lock.taken = true
is_taken _ = false

unfoldable pub mutex_init : ℕ → ℕ → Kernel → Kernel
mutex_init m type k =
    set_mutex m
      (record { lock = Lock.free; wq = []; type = type; owner = none; recursive_count = 0 }) k

-- `pthread_mutex_destroy` only asserts.
unfoldable pub mutex_destroy : ℕ → Kernel → Run Kernel
mutex_destroy m k = if is_empty (k.mutexes m).wq then ok k else panic

-- The current thread becomes the owner, and `lock` takes the value given.
unfoldable pub own : ℕ → Lock → Kernel → Kernel
own m l k =
    let th = k.threads k.current in
    record k {
      threads = update k.threads k.current (record th { mutex_queue = th.mutex_queue ++ m ∷ [] });
      mutexes =
          update k.mutexes m
            (record (k.mutexes m) { lock = l; owner = some k.current; recursive_count = 1 });
    }

-- `recursive_count++` on an `int`.
abbrev pub count_up : ℕ → Kernel → Kernel
count_up m k =
    let mu = k.mutexes m in
    set_mutex m (record mu { recursive_count = (mu.recursive_count + 1) % 2 ^ 32 }) k

abbrev pub held_again : ℕ → Kernel → Bool
held_again m k = (k.mutexes m).type == recursive_np && is_thread (k.mutexes m).owner k.current

-- The thread enters the wait queue; `__pthread_spread` then hands its priority on.
unfoldable pub enter_queue : ℕ → Kernel → Kernel
enter_queue m k =
    let mu = k.mutexes m in
    let th = k.threads k.current in
    record k {
      mutexes = update k.mutexes m (record mu { wq = mu.wq ++ k.current ∷ [] });
      threads = update k.threads k.current (record th { sleep_on = some m });
    }

-- After the loop, where `lock` is -1: the waiter leaves the queue and owns the mutex.
unfoldable pub leave_queue : ℕ → Kernel → Kernel
leave_queue m k =
    let mu = k.mutexes m in
    let th = k.threads k.current in
    record k {
      mutexes =
          update k.mutexes m (record mu { lock = Lock.contended; wq = remove k.current mu.wq });
      threads = update k.threads k.current (record th { sleep_on = none });
    }

unfoldable pub take_over : ℕ → Kernel → Kernel
take_over m k =
    let k' = leave_queue m k in
    own m (if is_empty (k'.mutexes m).wq then Lock.taken else Lock.contended) k'

unfoldable pub fall_asleep : ℕ → Kernel → Kernel
fall_asleep m k =
    let mu = k.mutexes m in
    let th = k.threads k.current in
    record k {
      mutexes = update k.mutexes m (record mu { lock = Lock.contended });
      threads = update k.threads k.current (record th { state = State.sleeping });
    }

-- One round of the loop: `lock` becomes -1 whether it was 1 or not.
unfoldable pub mutex_relock : ℕ → ℕ → Kernel → Run (Call × Kernel)
mutex_relock fuel m k =
    if is_free (k.mutexes m).lock
    then (set_prio fuel k.current (take_over m k) >>= λ r. ok (returned 0, r))
    else (schedule (fall_asleep m k) >>= λ r. ok (blocked, r))

unfoldable pub mutex_lock : ℕ → ℕ → Kernel → Run (Call × Kernel)
mutex_lock fuel m k =
    let mu = k.mutexes m in
    if k.in_irq
    then panic
    else (if is_free mu.lock
        then ok (returned 0, own m Lock.taken k)
        else (if held_again m k
            then ok (returned 0, count_up m k)
            else (spread fuel k.current (enter_queue m k) >>= mutex_relock fuel m)))

unfoldable pub mutex_trylock : ℕ → Kernel → ℕ × Kernel
mutex_trylock m k =
    if is_free (k.mutexes m).lock
    then (0, own m Lock.taken k)
    else (if held_again m k then (0, count_up m k) else (ebusy, k))

-- The waiter that `pthread_mutex_unlock` picks.
unfoldable pub pick : (ℕ → Thread) → List ℕ → Option ℕ → Option ℕ
pick threads [] target = target
pick threads (w ∷ ws) none = pick threads ws (some w)
pick threads (w ∷ ws) (some t) =
    pick threads ws
      (some (if ltb (threads t).effective_priority (threads w).effective_priority then w else t))

-- The thread to wake, if the lock says that there may be waiters.
unfoldable pub target : ℕ → Kernel → Option ℕ
target m k = if is_taken (k.mutexes m).lock then none else pick k.threads (k.mutexes m).wq none

-- `--recursive_count` on an `int`.
abbrev pub count_down : ℕ → Kernel → ℕ
count_down m k = ((k.mutexes m).recursive_count + 2 ^ 32 - 1) % 2 ^ 32

unfoldable pub released : ℕ → Kernel → Kernel
released m k =
    let mu = k.mutexes m in
    let th = k.threads k.current in
    record k {
      threads = update k.threads k.current (record th { mutex_queue = remove m th.mutex_queue });
      mutexes =
          update k.mutexes m
            (record mu { lock = Lock.free; owner = none; recursive_count = count_down m k });
    }

unfoldable pub wake_target : Option ℕ → Kernel → Kernel
wake_target none k = k
wake_target (some t) k = set_running t k

-- Only a count of 0 releases the mutex.
unfoldable pub mutex_unlock : ℕ → ℕ → Kernel → Run Kernel
mutex_unlock fuel m k =
    let release =
      set_prio fuel k.current (released m k) >>= λ r. schedule (wake_target (target m k) r) in
    if count_down m k == 0
    then release
    else ok (set_mutex m (record (k.mutexes m) { recursive_count = count_down m k }) k)
