-- ===== src/Mutex/Handover.antt =====
-- A waiter that takes the mutex over, and one that goes back to sleep, keep the invariants.
use turnix.Base.{ℕ, ◌≡◌, ◌≢◌, refl, sym, ◌∙◌, true, false, none, some, arith, if◌then◌else◌}
use turnix.Kernel.{Kernel, State, Lock, idle}
use turnix.RunQueue.Queues.{count, is_empty, count-remove}
use turnix.Sched.{is_thread}
use turnix.Sched.Choice.{IsScheduled}
use turnix.Sched.Settle.{IsPlaced, settle-IsScheduled}
use turnix.Mutex.{is_free, own, leave_queue, take_over, fall_asleep}
use turnix.Mutex.Sound.{IsSound, IsSoundBut, HasAwake, is_contended, own-IsSound, HasAwake-move}

module _ (k : Kernel) (m : ℕ) where
  abbrev pub me : ℕ
  me = k.current

  leave_queue_waits :
      IsSound k
      → (k.threads me).sleep_on ≡ some m
      → (t i : ℕ)
      → count t ((leave_queue m k).mutexes i).wq
        ≡ (if is_thread ((leave_queue m k).threads t).sleep_on i then 1 else 0)
  unfolding leave_queue
  leave_queue_waits s e t i = ground (
    arith,
    s.waits t i,
    s.waits me i,
    s.waits t m,
    s.waits me m,
    count-remove t me (k.mutexes m).wq,
  )

  leave_queue_state : (t : ℕ) → ((leave_queue m k).threads t).state ≡ (k.threads t).state
  unfolding leave_queue
  leave_queue_state t = ground arith

  leave_queue-IsSoundBut :
      IsSound k → (k.threads me).sleep_on ≡ some m → IsSoundBut m (leave_queue m k)
  unfolding leave_queue
  leave_queue-IsSoundBut s e = record {
    held = λ t i. ground (arith, s.held t i);
    free = λ i n. ground (arith, s.free i);
    waits = leave_queue_waits s e;
    awake = λ i n c f.
        HasAwake-move k (leave_queue m k) (k.mutexes i).wq _ (ground arith)
          (λ t run. leave_queue_state t ∙ run) (s.awake i (ground arith) (ground arith));
  }

  nobody :
      IsSound k → is_free (k.mutexes m).lock ≡ true → ((leave_queue m k).mutexes m).owner ≡ none
  unfolding leave_queue
  nobody s e = ground (arith, s.free m)

  pub take_over-IsSound :
      IsSound k
      → (k.threads me).sleep_on ≡ some m
      → is_free (k.mutexes m).lock ≡ true
      → IsSound (take_over m k)
  unfolding take_over
  take_over-IsSound s e f =
      own-IsSound (leave_queue m k) m _ (leave_queue-IsSoundBut s e) (nobody s f) (ground arith)
        (λ c q. absurd (ground arith))

  take_over-IsPlaced : (t : ℕ) → IsPlaced (k.threads t) ((take_over m k).threads t)
  unfolding take_over leave_queue own
  take_over-IsPlaced t = ground arith

  take_over_state : (t : ℕ) → ((take_over m k).threads t).state ≡ (k.threads t).state
  unfolding take_over leave_queue own
  take_over_state t = ground arith

  pub take_over-IsScheduled : IsScheduled k → IsScheduled (take_over m k)
  unfolding take_over leave_queue own
  take_over-IsScheduled v =
      settle-IsScheduled k (take_over m k) refl refl refl take_over-IsPlaced
        (λ t n. take_over_state t) (λ t r. sym (take_over_state t) ∙ r)
        (take_over_state idle ∙ v.idle_runs) v

  pub take_over_result :
      (((take_over m k).mutexes m).owner ≡ some me)
      × ((take_over m k).current ≡ me)
      × (((take_over m k).threads me).sleep_on ≡ none)
  unfolding take_over leave_queue own
  take_over_result = ground arith

  fall_asleep_awake :
      IsSound k
      → (k.threads me).sleep_on ≡ some m
      → (i : ℕ) → is_contended ((fall_asleep m k).mutexes i).lock ≡ false
      → is_empty ((fall_asleep m k).mutexes i).wq ≡ false
      → HasAwake (fall_asleep m k) ((fall_asleep m k).mutexes i).wq
  unfolding fall_asleep
  fall_asleep_awake s e i c f =
      let (w, at, r) = s.awake i (ground arith) (ground arith) in
      (w, ground arith, ground (arith, s.waits me i))

  pub fall_asleep-IsSound :
      IsSound k
      → (k.threads me).sleep_on ≡ some m
      → is_free (k.mutexes m).lock ≡ false
      → IsSound (fall_asleep m k)
  unfolding fall_asleep
  fall_asleep-IsSound s e f = record {
    held = λ t i. ground (arith, s.held t i);
    free = λ i. ground (arith, s.free i);
    waits = λ t i. ground (arith, s.waits t i);
    awake = fall_asleep_awake s e;
  }

  fall_asleep-IsPlaced : (t : ℕ) → IsPlaced (k.threads t) ((fall_asleep m k).threads t)
  unfolding fall_asleep
  fall_asleep-IsPlaced t = ground arith

  pub fall_asleep-IsScheduled : me ≢ idle → IsScheduled k → IsScheduled (fall_asleep m k)
  unfolding fall_asleep
  fall_asleep-IsScheduled n v =
      settle-IsScheduled k (fall_asleep m k) refl refl refl fall_asleep-IsPlaced
        (λ t other. ground arith) (λ t r. ground arith) (ground (arith, v.idle_runs)) v

  pub fall_asleep_result :
      (((fall_asleep m k).threads me).state ≡ State.sleeping)
      × (((fall_asleep m k).mutexes m).lock ≡ Lock.contended)
      × ((fall_asleep m k).in_irq ≡ k.in_irq)
  unfolding fall_asleep
  fall_asleep_result = ground arith
