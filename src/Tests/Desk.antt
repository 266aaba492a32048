-- ===== src/Tests/Desk.antt =====
-- A kernel at work: threads 0 and 1 run, thread 2 waits for mutex 0, which thread 0 holds.
use turnix.Base.{
  ℕ, ◌-◌, refl, false, none, some, List, [], ◌∷◌, arith, ◌==◌, if◌then◌else◌, Option, test_bit-zero,
}
use turnix.Kernel.{Kernel, Thread, Mutex, State, Lock, idle, set_thread}
use turnix.RunQueue.{enqueue}
use turnix.RunQueue.Queues.{count}
use turnix.RunQueue.WellFormed.{IsQueued, enqueue-IsQueued, set_thread-IsQueued}
use turnix.Sched.Choice.{IsScheduled}
use turnix.Mutex.Sound.{IsSound}

abbrev pub thread : State → ℕ → Option ℕ → List ℕ → Thread
thread state prio sleep_on holds = record {
  state = state;
  retval = 0;
  stack_addr = 0;
  stack_size = 0;
  linked = false;
  effective_priority = prio;
  priority = prio;
  timeslice = 0;
  flags = 0;
  name = [];
  waiter = none;
  error_code = 0;
  stime = record { tv_sec = 0; tv_usec = 0 };
  sleep_on = sleep_on;
  mutex_queue = holds;
}

abbrev pub mutex : Lock → List ℕ → Option ℕ → ℕ → Mutex
mutex lock wq owner n = record {
  lock = lock;
  wq = wq;
  type = 0;
  owner = owner;
  recursive_count = n;
}

-- No thread is queued yet.
abbrev pub blank : Kernel
blank = record {
  threads = λ t.
      if t == 0
      then thread State.running 16 none (0 ∷ [])
      else (if t == 1
          then thread State.running 16 none (3 ∷ [])
          else (if t == 2
              then thread State.sleeping 16 (some 0) []
              else (if t == idle
                  then thread State.running 0 none []
                  else thread State.none 16 none [])));
  mutexes = λ m.
      if m == 0
      then mutex Lock.contended (2 ∷ []) (some 0) 1
      else (if m == 3 then mutex Lock.taken [] (some 1) 1 else mutex Lock.free [] none 0);
  level = λ p. [];
  bitmap = 0;
  current = 0;
  next = none;
  in_irq = false;
}

blank-IsQueued : IsQueued blank
unfolding count
blank-IsQueued = record {
  placed = λ t p. ground arith;
  bits = λ p h. test_bit-zero (31 - p);
  bounded = λ t. ground arith;
  based = λ t. ground arith;
}

abbrev pub queued : Kernel
queued = enqueue 1 false (enqueue 0 false (enqueue idle false blank))

queued-IsQueued : IsQueued queued
queued-IsQueued =
    let a = enqueue-IsQueued blank idle false blank-IsQueued refl in
    let b = enqueue-IsQueued (enqueue idle false blank) 0 false a (unfold enqueue in refl) in
    enqueue-IsQueued (enqueue 0 false (enqueue idle false blank)) 1 false b (unfold enqueue in refl)

-- Thread 0 has spent its time slice.
abbrev pub desk : Kernel
desk = set_thread 0 (record (queued.threads 0) { timeslice = 0 }) queued

pub desk-IsQueued : IsQueued desk
desk-IsQueued =
    set_thread-IsQueued queued 0 (record (queued.threads 0) { timeslice = 0 }) queued-IsQueued
      (queued-IsQueued.based 0) refl refl

pub desk-IsScheduled : IsScheduled desk
unfolding enqueue
desk-IsScheduled = record {
  queue = desk-IsQueued;
  ready = λ t. ground arith;
  kept = λ t. ground arith;
  idle_runs = refl;
}

pub desk-IsSound : IsSound desk
unfolding enqueue count
desk-IsSound = record {
  held = λ t m. ground arith;
  free = λ m. ground arith;
  waits = λ t m. ground arith;
  awake = λ m. ground arith;
}
