-- ===== src/Kernel.antt =====
-- The kernel's shared state: include/errno.h (struct pthread), include/pthread.h (struct
-- pthread_mutex), and the globals of kernel/pthread.c. Threads and mutexes are numbers, the indices
-- of tables: a thread below 32 is `pthreads[i]`, and 32 is `pthread_idle`.
use turnix.Base.{ℕ, Bool, Option, List, update}

-- `enum pthread_state`
pub data State : Type 0 where
  none init running sleeping exit : State

-- `struct timeval`
pub record Timeval : Type 0 where
  pub tv_sec : ℕ
  pub tv_usec : ℕ

-- `struct pthread`, but for the saved stack pointer. `linked` says that `link.pprev` is not NULL;
-- a `void *` is its address.
pub record Thread : Type 0 where
  pub state : State
  pub retval : ℕ
  pub stack_addr : ℕ
  pub stack_size : ℕ
  pub linked : Bool
  pub effective_priority : ℕ
  pub priority : ℕ
  pub timeslice : ℕ
  pub flags : ℕ
  pub name : List ℕ
  pub waiter : Option ℕ
  pub error_code : ℕ
  pub stime : Timeval
  pub sleep_on : Option ℕ
  pub mutex_queue : List ℕ

-- The values 1, 0 and -1 of `lock`.
pub data Lock : Type 0 where
  free taken contended : Lock

-- `struct pthread_mutex`. An entry of `wq` stands for the thread that it names: a thread waits in
-- one queue at a time. `recursive_count` is the bit pattern of an `int`.
pub record Mutex : Type 0 where
  pub lock : Lock
  pub wq : List ℕ
  pub type : ℕ
  pub owner : Option ℕ
  pub recursive_count : ℕ

-- `pthreads` with `pthread_idle`, the mutexes, `run_queue`, `pthread_current`, `pthread_next` and
-- `in_irq`.
pub record Kernel : Type 0 where
  pub threads : ℕ → Thread
  pub mutexes : ℕ → Mutex
  pub level : ℕ → List ℕ
  pub bitmap : ℕ
  pub current : ℕ
  pub next : Option ℕ
  pub in_irq : Bool

abbrev pub max_num : ℕ
max_num = 32

abbrev pub idle : ℕ
idle = 32

-- The write of one thread's structure, and of one mutex.
abbrev pub set_thread : ℕ → Thread → Kernel → Kernel
set_thread t th k = record k { threads = update k.threads t th }

abbrev pub set_mutex : ℕ → Mutex → Kernel → Kernel
set_mutex m mu k = record k { mutexes = update k.mutexes m mu }

-- How a call ends: it returns, an assertion fails (`abort` loops for ever), it follows a NULL
-- pointer, or the model's fuel runs out.
pub data Run {ℓ} (A : Type ℓ) : Type ℓ where
  ok : A → Run A
  panic fault out_of_fuel : Run A

infixl 5 ◌>>=◌
abbrev pub ◌>>=◌ {ℓ κ} : {A : Type ℓ} {B : Type κ} → Run A → (A → Run B) → Run B
ok a >>= f = f a
panic >>= f = panic
fault >>= f = fault
out_of_fuel >>= f = out_of_fuel
