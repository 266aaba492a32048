-- ===== src/Mutex/Relock.antt =====
-- What a waiter does when it runs again.
use turnix.Base.{
  ℕ, ◌≡◌, ◌≢◌, ◌<◌, refl, ap, ◌∙◌, true, false, none, some, arith, inl, inr, Bool-cases,
}
use turnix.Kernel.{Kernel, Mutex, State, Lock, ok, ◌>>=◌, idle}
use turnix.Sched.{schedule}
use turnix.Sched.Choice.{IsScheduled, schedule-IsChosen}
use turnix.Inherit.{set_prio}
use turnix.Inherit.Total.{done, set_prio-IsKept}
use turnix.Inherit.Change.{IsKept-IsScheduled}
use turnix.Mutex.{Call, returned, blocked, is_free, take_over, fall_asleep, mutex_relock}
use turnix.Mutex.Sound.{IsSound, Agrees-IsSound, IsKept-Agrees, IsChosen-Agrees}
use turnix.Mutex.Handover.{
  take_over-IsSound, take_over-IsScheduled, take_over_result, fall_asleep-IsSound,
  fall_asleep-IsScheduled, fall_asleep_result,
}

-- How a call of thread `t` for mutex `m` leaves the kernel: it has returned 0, `t` still runs and
-- owns the mutex; or `t` sleeps in the queue of the mutex, whose lock says that there are waiters.
abbrev pub Ended : ℕ → ℕ → Kernel → Call → Type 0
Ended m t k (returned r) =
    (r ≡ 0) × ((k.mutexes m).owner ≡ some t) × (k.current ≡ t) × ((k.threads t).sleep_on ≡ none)
Ended m t k blocked =
    ((k.threads t).state ≡ State.sleeping)
    × ((k.mutexes m).lock ≡ Lock.contended)
    × ((k.threads t).sleep_on ≡ some m)

module _ (k : Kernel) (m fuel : ℕ) where
  relock_takes :
      is_free (k.mutexes m).lock ≡ true
      → mutex_relock fuel m k
        ≡ (set_prio fuel k.current (take_over m k) >>= λ r. ok (returned 0, r))
  unfolding mutex_relock
  relock_takes e = rw e

  relock_sleeps :
      is_free (k.mutexes m).lock ≡ false
      → mutex_relock fuel m k ≡ (schedule (fall_asleep m k) >>= λ r. ok (blocked, r))
  unfolding mutex_relock
  relock_sleeps e = rw e

  fall_asleep_waits :
      ((fall_asleep m k).threads k.current).sleep_on ≡ (k.threads k.current).sleep_on
  unfolding fall_asleep
  fall_asleep_waits = ground arith

-- A waiter that runs again either takes the mutex over, if the lock is free, or goes back to sleep;
-- in both cases the call comes to its end or its next wait without a fault, and the invariants of
-- the scheduler and of the mutexes hold. Two calls of inheritance are fuel enough.
pub mutex_relock-Ended :
    (k : Kernel) (m fuel : ℕ)
    → IsScheduled k
    → IsSound k
    → k.in_irq ≡ false
    → k.current ≢ idle
    → (k.threads k.current).sleep_on ≡ some m
    → 1 < fuel
    → (c : Call) × (k' : Kernel) × (mutex_relock fuel m k ≡ ok (c, k'))
      × IsScheduled k'
      × IsSound k'
      × Ended m k.current k' c
mutex_relock-Ended k m fuel v s out busy e enough = elim (Bool-cases (is_free (k.mutexes m).lock)) [
  | inl free ↦
      let taken = take_over m k in
      let (owned, here, idle_now) = take_over_result k m in
      let (k', ran, p, stored) = set_prio-IsKept fuel k.current 0 taken enough (done idle_now) in
      (
        returned 0,
        k',
        relock_takes k m fuel free ∙ rw ran,
        IsKept-IsScheduled taken k' p (take_over-IsScheduled k m v),
        Agrees-IsSound taken k' (IsKept-Agrees taken k' p) (take_over-IsSound k m s e free),
        (
          refl,
          ap (λ (mu : Mutex). mu.owner) (p.mutexes m) ∙ owned,
          p.current ∙ here,
          p.sleeps k.current ∙ idle_now,
        ),
      )
  | inr locked ↦
      let asleep = fall_asleep m k in
      let (sleeping, contended, same) = fall_asleep_result k m in
      let w = fall_asleep-IsScheduled k m busy v in
      let (k', ran, c) = schedule-IsChosen asleep w (same ∙ out) in
      let agrees = IsChosen-Agrees asleep k' c in
      (
        blocked,
        k',
        relock_sleeps k m fuel locked ∙ rw ran,
        c.scheduled,
        Agrees-IsSound asleep k' agrees (fall_asleep-IsSound k m s e locked),
        (
          c.states k.current ∙ sleeping,
          ap (λ (mu : Mutex). mu.lock) (c.mutexes m) ∙ contended,
          agrees.sleeps k.current ∙ fall_asleep_waits k m fuel ∙ e,
        ),
      )
]
