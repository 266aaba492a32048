-- ===== src/Tests/Locks.antt =====
-- The mutexes at the kernel of Desk.
use turnix.Base.{◌≡◌, ◌≢◌, refl, none, some, arith, [], ◌∷◌, ◌==◌, if◌then◌else◌}
use turnix.Kernel.{Kernel, Lock, ok, fault}
use turnix.RunQueue.{enqueue}
use turnix.RunQueue.Queues.{count}
use turnix.Sched.Choice.{IsScheduled}
use turnix.Inherit.Total.{Ends, done, next}
use turnix.Mutex.{Call, mutex_lock, mutex_unlock, count_down, enter_queue}
use turnix.Mutex.Sound.{IsSound}
use turnix.Mutex.Relock.{Ended}
use turnix.Mutex.Acquire.{mutex_lock-Ended}
use turnix.Mutex.Orphan.{mutex_lock_faults}
use turnix.Mutex.Unlock.{IsFreed, mutex_unlock-IsFreed}
use turnix.Tests.Desk.{mutex, desk, desk-IsScheduled, desk-IsSound}

mutex_unlock-IsFreed_example :
    (k' : Kernel) × (mutex_unlock 2 0 desk ≡ ok k')
    × IsScheduled k'
    × IsSound k'
    × (count_down 0 desk ≡ 0 → IsFreed 0 desk k')
    × (count_down 0 desk ≢ 0
        → ((k'.mutexes 0).owner ≡ some desk.current)
          × (k'.current ≡ desk.current)
          × ((k'.mutexes 0).recursive_count ≡ count_down 0 desk))
mutex_unlock-IsFreed_example =
    mutex_unlock-IsFreed desk 0 2 desk-IsScheduled desk-IsSound (unfold enqueue in refl)
      (unfold enqueue in refl) (unfold enqueue in refl) (omega arith)

wait-Ends : Ends (enter_queue 3 desk) desk.current 1
unfolding enqueue enter_queue
wait-Ends = next {t = 0} {m = 3} {o = 1} refl refl (done {t = 1} refl)

-- Thread 0 asks for the mutex that thread 1 holds.
mutex_lock-Ended_example :
    (c : Call) × (k' : Kernel) × (mutex_lock 4 3 desk ≡ ok (c, k'))
    × IsScheduled k'
    × IsSound k'
    × Ended 3 desk.current k' c
mutex_lock-Ended_example =
    mutex_lock-Ended desk 3 1 4 desk-IsScheduled desk-IsSound (unfold enqueue in refl)
      (unfold enqueue in ground arith) (unfold enqueue in refl, unfold enqueue in refl)
      (λ f h. wait-Ends) (omega arith)

-- Thread 0 waits for mutex 3, and runs again.
abbrev waiting : Kernel
waiting = enter_queue 3 desk

waiting-IsScheduled : IsScheduled waiting
unfolding enter_queue enqueue
waiting-IsScheduled = record {
  queue = record {
    placed = λ t p. ground (arith, desk-IsScheduled.queue.placed t p);
    bits = desk-IsScheduled.queue.bits;
    bounded = λ t. ground (arith, desk-IsScheduled.queue.bounded t);
    based = λ t. ground (arith, desk-IsScheduled.queue.based t);
  };
  ready = λ t. ground arith;
  kept = λ t. ground arith;
  idle_runs = refl;
}

waiting-IsSound : IsSound waiting
unfolding enter_queue enqueue count
waiting-IsSound = record {
  held = λ t m. ground arith;
  free = λ m. ground arith;
  waits = λ t m. ground arith;
  awake = λ m c e. (0, ground arith, refl);
}

-- Thread 0 holds mutex 3 and has been woken for mutex 0, which it has not taken; thread 1 runs.
abbrev handed : Kernel
handed = record desk {
  threads = λ t.
      if t == 0
      then record (desk.threads 0) { sleep_on = some 0; mutex_queue = 3 ∷ [] }
      else (if t == 1
          then record (desk.threads 1) { mutex_queue = [] }
          else (if t == 2 then record (desk.threads 2) { sleep_on = none } else desk.threads t));
  mutexes = λ m.
      if m == 0
      then mutex Lock.free (0 ∷ []) none 0
      else (if m == 3 then mutex Lock.taken [] (some 0) 1 else desk.mutexes m);
  current = 1;
}

handed-IsSound : IsSound handed
unfolding enqueue count
handed-IsSound = record {
  held = λ t m. ground arith;
  free = λ m. ground arith;
  waits = λ t m. ground arith;
  awake = λ m c e. (0, ground arith, refl);
}

handed-IsScheduled : IsScheduled handed
unfolding enqueue
handed-IsScheduled = record {
  queue = record {
    placed = λ t p. ground (arith, desk-IsScheduled.queue.placed t p);
    bits = desk-IsScheduled.queue.bits;
    bounded = λ t. ground (arith, desk-IsScheduled.queue.bounded t);
    based = λ t. ground (arith, desk-IsScheduled.queue.based t);
  };
  ready = λ t. ground arith;
  kept = λ t. ground arith;
  idle_runs = refl;
}

mutex_lock_faults_example : mutex_lock 9 3 handed ≡ fault
mutex_lock_faults_example =
    mutex_lock_faults handed 3 0 0 6 (unfold enqueue in refl) (unfold enqueue in refl) refl refl
      refl refl refl
