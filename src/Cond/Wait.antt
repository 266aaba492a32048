-- ===== src/Cond/Wait.antt =====
-- What pthread_cond_timedwait does before it looks at its time.
use turnix.Base.{
  ℕ, ◌≡◌, ◌≢◌, ◌<◌, sym, ap, ◌∙◌, false, none, some, [], ◌∷◌, ◌++◌, arith, inl, inr, Bool-cases,
}
use turnix.Kernel.{Kernel, State, ok, idle}
use turnix.RunQueue.Queues.{count}
use turnix.Sched.Choice.{IsScheduled}
use turnix.Mutex.{count_down}
use turnix.Mutex.Sound.{IsSound}
use turnix.Mutex.Unlock.{mutex_unlock-IsFreed}
use turnix.Timeout.{set_sleeping}
use turnix.Timeout.Sleep.{set_sleeping-IsScheduled}
use turnix.Cond.{Queue, wait_begin}

module _ (k : Kernel) (awake : (k.threads k.current).sleep_on ≡ none) where
  -- A thread that waits for no mutex stands in no queue.
  not_queued : (m : ℕ) → IsSound k → count k.current (k.mutexes m).wq ≡ 0
  not_queued m s = ground (arith, s.waits k.current m, awake)

  set_sleeping-IsSound : IsSound k → IsSound (set_sleeping k)
  set_sleeping-IsSound s = record {
    held = λ t m. ground (arith, s.held t m);
    free = s.free;
    waits = λ t m. ground (arith, s.waits t m);
    awake = λ m c e.
        let (w, inside, runs) = s.awake m c e in
        let apart : k.current ≢ w =
          λ x. omega (arith, inside, not_queued m s, ap (λ (y : ℕ). count y (k.mutexes m).wq) x) in
        (w, inside, ground (arith, apart, runs));
  }

-- The caller sleeps outside the run queue, and another thread runs.
pub record IsAsleep (t m : ℕ) (k' : Kernel) : Type 0 where
  pub scheduled : IsScheduled k'
  pub sound : IsSound k'
  pub unlocked : (k'.mutexes m).owner ≡ none
  pub sleeps : (k'.threads t).state ≡ State.sleeping
  pub unlinked : (k'.threads t).linked ≡ false
  pub other : k'.current ≢ t

-- pthread_cond_timedwait by the owner of the mutex, with a count of 1, which is not the idle thread and
-- waits for no mutex, outside an interrupt: the unlock of the mutex already gives the processor to
-- another thread, and the caller sleeps outside the run queue, whatever its time is, before any timer
-- is set.
pub wait_begin-IsAsleep :
    (k : Kernel) (m fuel : ℕ) (wq : Queue)
    → IsScheduled k
    → IsSound k
    → k.in_irq ≡ false
    → k.current ≢ idle
    → (k.mutexes m).owner ≡ some k.current
    → (k.threads k.current).sleep_on ≡ none
    → count_down m k ≡ 0
    → 1 < fuel
    → (k' : Kernel) × (wait_begin fuel m wq k ≡ ok (wq ++ k.current ∷ [], k'))
      × IsAsleep k.current m k'
unfolding wait_begin
wait_begin-IsAsleep k m fuel wq v s out ne own awake one enough =
    let (k', ran, v', s', freed, kept) =
      mutex_unlock-IsFreed (set_sleeping k) m fuel (set_sleeping-IsScheduled k ne v)
        (set_sleeping-IsSound k awake s) out own (ground (arith, awake)) enough in
    let f = freed one in
    let before : ((set_sleeping k).threads k.current).state ≡ State.sleeping = ground arith in
    let sleeps : (k'.threads k.current).state ≡ State.sleeping =
      f.others k.current (not_queued k awake m s) ∙ before in
    let other : k'.current ≢ k.current =
      λ e. absurd (ground (arith, sleeps, f.running, ap (λ (t : ℕ). (k'.threads t).state) e)) in
    (
      k',
      rw ran,
      record {
        scheduled = v';
        sound = s';
        unlocked = f.owner;
        sleeps = sleeps;
        unlinked = elim (Bool-cases (k'.threads k.current).linked) [
          | inl on ↦ absurd (ground (arith, sleeps, v'.ready k.current (λ e. other (sym e)) on))
          | inr off ↦ off
        ];
        other = other;
      },
    )
