-- ===== src/Threads/Start.antt =====
-- pthread_init, the names and pthread_foreach of kernel/pthread.c.
use turnix.Base.{
  ℕ, zero, suc, ◌+◌, ◌-◌, ◌≡◌, ◌≤◌, refl, Bool, true, false, Option, none, some, List, [], ◌∷◌,
  arith, ◌==◌, leb, if◌then◌else◌, length, test_bit-zero,
}
use turnix.Kernel.{Kernel, Thread, State, idle, max_num, set_thread}
use turnix.RunQueue.{run_queue_init, enqueue, timeslice_max}
use turnix.RunQueue.Queues.{count}
use turnix.RunQueue.WellFormed.{IsQueued, enqueue-IsQueued, set_thread-IsQueued}
use turnix.Sched.Choice.{IsScheduled}

-- `"idle"`
abbrev pub idle_name : List ℕ
idle_name = 105 ∷ 100 ∷ 108 ∷ 101 ∷ []

-- The idle thread as pthread_init fills it in, with its stack at `stack`.
abbrev pub idle_thread : ℕ → Thread → Thread
idle_thread stack th = record th {
  state = State.running;
  stack_addr = stack;
  stack_size = 1024;
  linked = false;
  priority = 0;
  effective_priority = 0;
  timeslice = timeslice_max;
  flags = 1;
  name = idle_name;
  waiter = none;
  error_code = 0;
  stime = record { tv_sec = 0; tv_usec = 0 };
}

-- The last two lines of pthread_init
abbrev pub at_rest : Kernel → Kernel
at_rest k = set_thread idle (record (k.threads idle) { sleep_on = none; mutex_queue = [] }) k

unfoldable pub pthread_init : ℕ → Kernel → Kernel
pthread_init stack k =
    let k' = run_queue_init (record k { next = some idle; current = idle }) in
    at_rest (enqueue idle false (set_thread idle (idle_thread stack (k'.threads idle)) k'))

-- `PTHREAD_NAME_SIZE`, `ERANGE`
abbrev pub name_size : ℕ
name_size = 16

abbrev pub erange : ℕ
erange = 4

-- The result, and what is written to the buffer, if anything.
unfoldable pub pthread_getname_np : ℕ → ℕ → Kernel → ℕ × Option (List ℕ)
pthread_getname_np t size k =
    let name = (k.threads t).name in
    if leb size (length name) then (erange, none) else (0, some name)

unfoldable pub pthread_setname_np : ℕ → List ℕ → Kernel → ℕ × Kernel
pthread_setname_np t name k =
    if leb name_size (length name)
    then (erange, k)
    else (0, set_thread t (record (k.threads t) { name = name }) k)

abbrev pub is_alive : State → Bool
is_alive State.none = false
is_alive State.init = false
is_alive State.running = true
is_alive State.sleeping = true
is_alive State.exit = true

-- The threads for which pthread_foreach calls its callback, from entry `i` on, in order.
unfoldable pub visited : ℕ → ℕ → Kernel → List ℕ
visited zero i k = idle ∷ []
visited (suc n) i k =
    let rest = visited n (i + 1) k in if is_alive (k.threads i).state then i ∷ rest else rest

unfoldable pub pthread_foreach : Kernel → List ℕ
pthread_foreach k = visited max_num 0 k

-- What the cleared memory holds of the threads before pthread_init: none is in use or queued. Of the
-- mutexes, and of the mutexes that the idle thread holds or waits for, nothing is asked.
pub record IsUnused (k : Kernel) : Type 0 where
  pub states : (t : ℕ) → (k.threads t).state ≡ State.none
  pub linked : (t : ℕ) → (k.threads t).linked ≡ false
  pub bounded : (t : ℕ) → (k.threads t).effective_priority ≤ 31
  pub based : (t : ℕ) → (k.threads t).priority ≤ 31

module _ (stack : ℕ) (k : Kernel) (u : IsUnused k) where
  -- Before the idle thread is queued
  abbrev prepared : Kernel
  prepared =
      let k' = run_queue_init (record k { next = some idle; current = idle }) in
      set_thread idle (idle_thread stack (k'.threads idle)) k'

  prepared-IsQueued : IsQueued prepared
  unfolding run_queue_init count
  prepared-IsQueued = record {
    placed = λ t p. ground (arith, u.linked t);
    bits = λ p h. test_bit-zero (31 - p);
    bounded = λ t. ground (arith, u.bounded t);
    based = λ t. ground (arith, u.based t);
  }

  -- The idle thread in the queue
  abbrev queued : Kernel
  queued = enqueue idle false prepared

  queued-IsQueued : IsQueued queued
  queued-IsQueued = enqueue-IsQueued prepared idle false prepared-IsQueued refl

  init_result : pthread_init stack k ≡ at_rest queued
  unfolding pthread_init
  init_result = refl

  init_linked : (t : ℕ) → ((at_rest queued).threads t).linked ≡ (idle == t)
  unfolding enqueue run_queue_init
  init_linked t = ground (arith, u.linked t)

  init_state :
      (t : ℕ)
      → ((at_rest queued).threads t).state ≡ (if idle == t then State.running else State.none)
  unfolding enqueue run_queue_init
  init_state t = ground (arith, u.states t)

  init-IsScheduled : IsScheduled (at_rest queued)
  init-IsScheduled = record {
    queue =
        set_thread-IsQueued queued idle
          (record (queued.threads idle) { sleep_on = none; mutex_queue = [] }) queued-IsQueued
          (queued-IsQueued.based idle) refl refl;
    ready = λ t n on. ground (arith, init_linked t, init_state t, on);
    kept = λ t run. ground (arith, init_linked t, init_state t, run);
    idle_runs = init_state idle;
  }

  none_visited : (n i : ℕ) → i + n ≤ 32 → visited n i (at_rest queued) ≡ idle ∷ []
  unfolding visited
  none_visited zero i h = refl
  none_visited (suc n) i h =
      let unused : is_alive ((at_rest queued).threads i).state ≡ false =
        ground (arith, init_state i, h) in
      rw unused (none_visited n (i + 1) (omega (arith, h)))

  -- pthread_init where no thread is in use, whatever the mutexes and the idle thread's list of mutexes
  -- hold: the invariant of the scheduler holds; the idle thread has the processor, is the only one
  -- queued and the only one that pthread_foreach visits, holds no mutex and waits for none, and has the
  -- least priority and a whole time slice; and the mutexes are as they were.
  pub pthread_init-IsScheduled :
      let k' = pthread_init stack k in
      let th = k'.threads idle in
      IsScheduled k'
      × ((t : ℕ) → (k'.threads t).linked ≡ (idle == t))
      × (k'.current ≡ idle)
      × (pthread_foreach k' ≡ idle ∷ [])
      × (th.mutex_queue ≡ [])
      × (th.sleep_on ≡ none)
      × (th.effective_priority ≡ 0)
      × (th.priority ≡ 0)
      × (th.timeslice ≡ timeslice_max)
      × (k'.mutexes ≡ k.mutexes)
  unfolding pthread_foreach
  pthread_init-IsScheduled = rw init_result (
    init-IsScheduled,
    init_linked,
    unfold enqueue in unfold run_queue_init in refl,
    none_visited 32 0 (omega arith),
    refl,
    refl,
    unfold enqueue in unfold run_queue_init in refl,
    unfold enqueue in unfold run_queue_init in refl,
    unfold enqueue in unfold run_queue_init in refl,
    unfold enqueue in unfold run_queue_init in refl,
  )
