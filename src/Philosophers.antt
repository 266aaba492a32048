-- ===== src/Philosophers.antt =====
-- applications/philosophers.c: five philosophers and five forks. A fork is a mutex by its contract:
-- pthread_mutex_lock goes on when the mutex is free, and it then belongs to the caller. The
-- pthread_mutex_lock of kernel/pthread.c keeps it where it returns (Mutex/Acquire), but it may also
-- follow a NULL pointer (Mutex/Orphan); such a run ends there, and what stands here of all runs is about
-- their statements up to that.
pub mod Forks
pub mod Dinner
use turnix.Base.{
  ℕ, zero, suc, ◌+◌, ◌≡◌, ◌<◌, Option, none, some, List, [], ◌∷◌, ◌++◌, leb, if◌then◌else◌, update,
}

-- `PHILOSOPHERS_NUM`
abbrev pub philosophers_num : ℕ
philosophers_num = 5

-- The next statement of a philosopher. `eating` stands at the sleep between the two lines.
pub data Stage : Type 0 where
  lock_first lock_second start eating unlock_second unlock_first finished : Stage

-- The lines that are printed
pub data Message : Type 0 where
  starts : ℕ → Message
  finishes : ℕ → Message

pub record Table : Type 0 where
  pub stage : ℕ → Stage
  pub forks : ℕ → Option ℕ
  pub printed : List Message

abbrev pub first_fork : ℕ → ℕ
first_fork id = if leb philosophers_num (id + 1) then 0 else id

abbrev pub second_fork : ℕ → ℕ
second_fork id = if leb philosophers_num (id + 1) then id else id + 1

abbrev pub goes_on : ℕ → Stage → Table → Table
goes_on id next t = record t { stage = update t.stage id next }

abbrev pub lock_fork : ℕ → ℕ → Stage → Table → Option Table
lock_fork fork id next t = elim (t.forks fork) [
  | none ↦ some (goes_on id next (record t { forks = update t.forks fork (some id) }))
  | some owner ↦ none
]

abbrev pub unlock_fork : ℕ → ℕ → Stage → Table → Table
unlock_fork fork id next t = goes_on id next (record t { forks = update t.forks fork none })

abbrev pub print : Message → ℕ → Stage → Table → Table
print line id next t = goes_on id next (record t { printed = t.printed ++ line ∷ [] })

-- A statement of `philosopher`, if it does not block and there is one.
unfoldable pub philosopher : ℕ → Table → Option Table
philosopher id t = elim (t.stage id) [
  | lock_first ↦ lock_fork (first_fork id) id lock_second t
  | lock_second ↦ lock_fork (second_fork id) id start t
  | start ↦ some (print (starts id) id eating t)
  | eating ↦ some (print (finishes id) id unlock_second t)
  | unlock_second ↦ some (unlock_fork (second_fork id) id unlock_first t)
  | unlock_first ↦ some (unlock_fork (first_fork id) id finished t)
  | finished ↦ none
]

-- What philosophers_init sets up: the attributes of the mutexes, which pthread_mutex_init reads through
-- the NULL that it is given, decide only whether a mutex is recursive, and no philosopher locks a fork
-- that it holds.
abbrev pub philosophers_init : Table
philosophers_init = record { stage = λ id. lock_first; forks = λ fork. none; printed = [] }

-- The tables that are reached in a number of statements, in any order of the philosophers.
pub data Reach (s : Table) : ℕ → Table → Type 0 where
  here : Reach s zero s
  next :
      {n : ℕ} {t u : Table} (id : ℕ)
      → Reach s n t
      → id < philosophers_num
      → philosopher id t ≡ some u
      → Reach s (suc n) u
