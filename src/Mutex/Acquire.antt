-- ===== src/Mutex/Acquire.antt =====
-- pthread_mutex_lock: how it ends, and that it keeps the invariants.
use turnix.Base.{
  ℕ, ◌+◌, ◌*◌, ◌≡◌, ◌≢◌, ◌<◌, refl, sym, ap, subst, ◌∙◌, false, arith, inl, inr, Bool-cases,
}
use turnix.Kernel.{Kernel, Lock, ok, idle}
use turnix.Sched.Choice.{IsScheduled}
use turnix.Inherit.Total.{Ends, spread-IsKept}
use turnix.Inherit.Change.{IsKept-IsScheduled}
use turnix.Mutex.{Call, returned, is_free, own, enter_queue, mutex_lock, held_again, count_up}
use turnix.Mutex.Sound.{IsSound, Agrees-IsSound, IsKept-Agrees}
use turnix.Mutex.Enter.{Asks, enter_queue-IsSound, enter_queue-IsScheduled}
use turnix.Mutex.Relock.{Ended, mutex_relock-Ended}
use turnix.Mutex.Fast.{
  own_result, own_fast-IsSound, own-IsScheduled, count_up-IsSound, count_up-IsScheduled,
  again_result, lock_free, lock_again, lock_waits, entered,
}

-- pthread_mutex_lock, called outside an interrupt by a running thread other than the idle one that
-- waits for no mutex. If the chain of waits that it may join, from the mutex on, ends and every mutex on
-- it has an owner, and the fuel is enough for the chain, then the call returns or goes to sleep without a fault. Where it returns the
-- caller owns the mutex; where it sleeps the lock is marked as contended; and the invariants of the
-- scheduler and of the mutexes hold.
pub mutex_lock-Ended :
    (k : Kernel) (m d fuel : ℕ)
    → IsScheduled k
    → IsSound k
    → k.in_irq ≡ false
    → k.current ≢ idle
    → Asks k m
    → (is_free (k.mutexes m).lock ≡ false
        → held_again m k ≡ false
        → Ends (enter_queue m k) k.current d)
    → 2 * d + 1 < fuel
    → (c : Call) × (k' : Kernel) × (mutex_lock fuel m k ≡ ok (c, k'))
      × IsScheduled k'
      × IsSound k'
      × Ended m k.current k' c
mutex_lock-Ended k m d fuel v s out busy (r, e) ends enough =
    elim (Bool-cases (is_free (k.mutexes m).lock)) [
      | inl free ↦
          let (owned, here, still) = own_result k m e in
          (
            returned 0,
            own m Lock.taken k,
            lock_free k m fuel out free,
            own-IsScheduled k m v,
            own_fast-IsSound k m s free,
            (refl, owned, here, still),
          )
      | inr locked ↦ elim (Bool-cases (held_again m k)) [
        | inl again ↦ (
          returned 0,
          count_up m k,
          lock_again k m fuel out locked again,
          count_up-IsScheduled k m v,
          count_up-IsSound k m s,
          (refl, again_result k m again e, refl, e),
        )
        | inr other ↦
            let joined = enter_queue m k in
            let (asked, here, same) = entered k m fuel out e in
            let (k1, ran1, p) =
              spread-IsKept fuel k.current d joined (omega arith) (ends locked other) in
            let now = p.current ∙ here in
            let (c, k2, ran2, v2, s2, post) =
              mutex_relock-Ended k1 m fuel
                (IsKept-IsScheduled joined k1 p (enter_queue-IsScheduled k m v))
                (Agrees-IsSound joined k1 (IsKept-Agrees joined k1 p)
                  (enter_queue-IsSound k m s (r, e)))
                (p.in_irq ∙ same ∙ out) (λ i. busy (sym now ∙ i))
                (ap (λ (t : ℕ). (k1.threads t).sleep_on) now ∙ p.sleeps k.current ∙ asked)
                (omega arith) in
            (
              c,
              k2,
              lock_waits k m fuel out locked other ∙ rw ran1 ran2,
              v2,
              s2,
              subst (λ t. Ended m t k2 c) now post,
            )
      ]
    ]
