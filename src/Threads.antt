-- ===== src/Threads.antt =====
-- The life of a thread in kernel/pthread.c: creation, the end, detaching and joining. The fill of
-- the stack and the registers of a new thread are left out.
pub mod Exit
pub mod Create
pub mod Join
pub mod Start
pub mod Settings
pub mod Stack
use Prim.Native.Nat.{bit_or}
use turnix.Base.{
  ℕ, zero, suc, ◌+◌, Bool, true, false, Option, none, some, List, [], ◌∷◌, ◌==◌, if◌then◌else◌,
  test_bit,
}
use turnix.Kernel.{Kernel, Thread, State, set_thread, Run, ok, out_of_fuel, ◌>>=◌, max_num}
use turnix.RunQueue.{timeslice_max}
use turnix.Sched.{schedule, wake_up}

-- `EINVAL`, `EAGAIN`, `EDEADLK`, `ESRCH`
abbrev pub einval : ℕ
einval = 2

abbrev pub eagain : ℕ
eagain = 3

abbrev pub edeadlk : ℕ
edeadlk = 5

abbrev pub esrch : ℕ
esrch = 6

-- `flags & PTHREAD_FLAG_DETACH`
abbrev pub is_detached : Thread → Bool
is_detached th = test_bit 0 th.flags

-- The thread's last state.
abbrev pub last_state : Thread → State
last_state th = if is_detached th then State.none else State.exit

-- Whom to wake: a detached thread wakes nobody.
abbrev pub joiner : Thread → Option ℕ
joiner th = if is_detached th then none else th.waiter

unfoldable pub schedule_waking : Option ℕ → Kernel → Run Kernel
schedule_waking none k = schedule k
schedule_waking (some w) k = wake_up w k

-- `__pthread_exit`. The call of `wake_up` already switches away from the thread, which does not run
-- again: so the last call of `schedule` matters only where nobody is woken.
unfoldable pub finish : Kernel → Run Kernel
finish k =
    let th = k.threads k.current in
    schedule_waking (joiner th) (set_thread k.current (record th { state = last_state th }) k)

unfoldable pub pthread_exit : ℕ → Kernel → Run Kernel
pthread_exit retval k =
    finish (set_thread k.current (record (k.threads k.current) { retval = retval }) k)

-- Detaching a thread that runs or sleeps.
unfoldable pub detach_live : ℕ → Kernel → Run (ℕ × Kernel)
detach_live t k =
    let th = k.threads t in
    let k' = set_thread t (record th { flags = bit_or th.flags 1 }) k in
    if is_detached th
    then ok (einval, k)
    else elim th.waiter [ none ↦ ok (0, k') | some w ↦ wake_up w k' >>= λ r. ok (0, r) ]

unfoldable pub pthread_detach : ℕ → Kernel → Run (ℕ × Kernel)
pthread_detach t k = elim (k.threads t).state [
  | State.none ↦ ok (esrch, k)
  | State.init ↦ ok (esrch, k)
  | State.running ↦ detach_live t k
  | State.sleeping ↦ detach_live t k
  | State.exit ↦ ok (0, set_thread t (record (k.threads t) { state = State.none }) k)
]

-- The loop of `has_loop`, along the threads that wait for each other.
unfoldable pub has_loop_from : ℕ → ℕ → Option ℕ → Kernel → Run Bool
has_loop_from zero t i k = out_of_fuel
has_loop_from (suc f) t none k = ok false
has_loop_from (suc f) t (some i) k =
    let rest = has_loop_from f t (k.threads i).waiter k in if i == t then ok true else rest

unfoldable pub has_loop : ℕ → ℕ → Kernel → Run Bool
has_loop f t k = has_loop_from f t (k.threads t).waiter k

-- How a round of `pthread_join` ends: with the thread's result, with an error, or asleep.
pub data Joining : Type 0 where
  joined : ℕ → Joining
  failed : ℕ → Joining
  waiting : Joining

abbrev pub set_waiter : ℕ → Option ℕ → Kernel → Kernel
set_waiter t w k = set_thread t (record (k.threads t) { waiter = w }) k

unfoldable pub join_wait : ℕ → Kernel → Bool → Run (Joining × Kernel)
join_wait t k true = ok (failed edeadlk, set_waiter t none k)
join_wait t k false =
    let th = k.threads k.current in
    schedule (set_thread k.current (record th { state = State.sleeping }) k) >>= λ r.
    ok (waiting, r)

unfoldable pub join_live : ℕ → ℕ → Kernel → Run (Joining × Kernel)
join_live fuel t k =
    let k' = set_waiter t (some k.current) k in
    let asked = has_loop fuel t k' >>= join_wait t k' in
    if is_detached (k.threads t)
    then ok (failed einval, k)
    else elim (k.threads t).waiter [ none ↦ asked | some w ↦ ok (failed einval, k) ]

-- A round of the loop of `pthread_join`, up to the next wait.
unfoldable pub join_round : ℕ → ℕ → Kernel → Run (Joining × Kernel)
join_round fuel t k =
    let th = k.threads t in
    elim th.state [
      | State.none ↦ ok (failed esrch, k)
      | State.init ↦ join_live fuel t k
      | State.running ↦ join_live fuel t k
      | State.sleeping ↦ join_live fuel t k
      | State.exit ↦ ok (joined th.retval, set_thread t (record th { state = State.none }) k)
    ]

-- After the wait the thread's waiter is cleared, and the loop goes on.
unfoldable pub join_again : ℕ → ℕ → Kernel → Run (Joining × Kernel)
join_again fuel t k = join_round fuel t (set_waiter t none k)

-- `struct pthread_attr`
pub record Attr : Type 0 where
  pub stack_addr : ℕ
  pub stack_size : ℕ
  pub priority : ℕ
  pub flags : ℕ

-- `"unnamed"`
abbrev pub unnamed : List ℕ
unnamed = 117 ∷ 110 ∷ 110 ∷ 97 ∷ 109 ∷ 101 ∷ 100 ∷ []

abbrev pub is_none_state : State → Bool
is_none_state State.none = true
is_none_state _ = false

-- The search for an entry in state NONE: `n` entries are left, from `i` on.
unfoldable pub find_slot : ℕ → ℕ → Kernel → Option ℕ
find_slot zero i k = none
find_slot (suc n) i k =
    let rest = find_slot n (i + 1) k in if is_none_state (k.threads i).state then some i else rest

-- The structure of a new thread.
abbrev pub fresh : Attr → Thread → Thread
fresh attr th = record th {
  retval = 0;
  stack_addr = attr.stack_addr;
  stack_size = attr.stack_size;
  linked = false;
  priority = attr.priority;
  effective_priority = attr.priority;
  timeslice = timeslice_max;
  sleep_on = none;
  mutex_queue = [];
  flags = attr.flags;
  name = unnamed;
  waiter = none;
  error_code = 0;
  stime = record { tv_sec = 0; tv_usec = 0 };
}

abbrev pub claim : ℕ → Kernel → Kernel
claim i k = set_thread i (record (k.threads i) { state = State.init }) k

-- The error, and the thread that is made.
unfoldable pub pthread_create : Attr → Kernel → Run (ℕ × Option ℕ × Kernel)
pthread_create attr k = elim (find_slot max_num 0 k) [
  | none ↦ ok (eagain, none, k)
  | some i ↦ wake_up i (set_thread i (fresh attr ((claim i k).threads i)) (claim i k)) >>= λ r.
      ok (0, some i, r)
]
