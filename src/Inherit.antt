-- ===== src/Inherit.antt =====
-- Priority inheritance in kernel/pthread.c: a thread runs at the highest priority among its own and
-- those of the threads that wait for a mutex of its.
pub mod Highest
pub mod Chain
pub mod Total
pub mod Cycle
pub mod Orphan
pub mod Change
use turnix.Base.{
  ℕ, zero, suc, Bool, true, false, Option, none, some, List, [], ◌∷◌, ◌==◌, ltb, if◌then◌else◌,
}
use turnix.Kernel.{Kernel, Thread, set_thread, Run, ok, fault, out_of_fuel, ◌>>=◌}
use turnix.RunQueue.{enqueue, dequeue}
use turnix.Sched.{schedule}

-- The inner loop of `__pthread_setschedprio`, over the waiters of one mutex.
unfoldable pub boost_waiters : (ℕ → Thread) → List ℕ → ℕ → ℕ
boost_waiters threads [] prio = prio
boost_waiters threads (w ∷ ws) prio =
    let p = (threads w).effective_priority in
    boost_waiters threads ws (if ltb prio p then p else prio)

-- The outer loop, over the mutexes that the thread holds.
unfoldable pub boost_mutexes : Kernel → List ℕ → ℕ → ℕ
boost_mutexes k [] prio = prio
boost_mutexes k (m ∷ ms) prio = boost_mutexes k ms (boost_waiters k.threads (k.mutexes m).wq prio)

unfoldable pub inherited : Kernel → ℕ → ℕ
inherited k t = boost_mutexes k (k.threads t).mutex_queue (k.threads t).priority

abbrev pub set_effective : ℕ → ℕ → Kernel → Kernel
set_effective t prio k = set_thread t (record (k.threads t) { effective_priority = prio }) k

-- `__pthread_setschedprio` and `__pthread_spread`. Fuel stands for the calls still to come; a
-- mutex without an owner makes `__pthread_spread` pass NULL on.
unfoldable mutual
  pub set_prio : ℕ → ℕ → Kernel → Run Kernel
  set_prio zero t k = out_of_fuel
  set_prio (suc f) t k =
      let prio = inherited k t in
      let requeued = ok (enqueue t true (set_effective t prio (dequeue t k))) in
      let spreading = spread f t (set_effective t prio k) in
      if (k.threads t).effective_priority == prio
      then ok k
      else (if (k.threads t).linked then requeued else spreading)

  pub spread : ℕ → ℕ → Kernel → Run Kernel
  spread zero t k = out_of_fuel
  spread (suc f) t k = elim (k.threads t).sleep_on [
    | none ↦ ok k
    | some m ↦ elim (k.mutexes m).owner [
      | none ↦ fault
      | some o ↦ set_prio f o k >>= λ k'. spread f o k'
    ]
  ]

-- The inner test repeats the outer one, since no interrupt comes between them.
unfoldable pub pthread_setschedprio : ℕ → ℕ → ℕ → Kernel → Run Kernel
pthread_setschedprio fuel t priority k =
    let k' = set_thread t (record (k.threads t) { priority = priority }) k in
    if (k.threads t).priority == priority
    then ok k
    else (if (k.threads t).effective_priority == priority
        then ok k'
        else set_prio fuel t k' >>= schedule)
