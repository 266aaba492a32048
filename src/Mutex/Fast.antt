-- ===== src/Mutex/Fast.antt =====
-- The branches of pthread_mutex_lock.
use turnix.Base.{ℕ, ◌≡◌, refl, sym, ◌∙◌, true, false, none, some, arith}
use turnix.Kernel.{Kernel, Lock, ok, ◌>>=◌, idle}
use turnix.Sched.Choice.{IsScheduled}
use turnix.Sched.Settle.{IsPlaced, settle-IsScheduled}
use turnix.Inherit.{spread}
use turnix.Mutex.{
  returned, is_free, own, enter_queue, mutex_relock, mutex_lock, held_again, count_up,
}
use turnix.Mutex.Sound.{IsSound, IsSound-but, own-IsSound, HasAwake-move}

module _ (k : Kernel) (m : ℕ) where
  own-IsPlaced : (t : ℕ) → IsPlaced (k.threads t) ((own m Lock.taken k).threads t)
  unfolding own
  own-IsPlaced t = ground arith

  own_state : (t : ℕ) → ((own m Lock.taken k).threads t).state ≡ (k.threads t).state
  unfolding own
  own_state t = ground arith

  pub own-IsScheduled : IsScheduled k → IsScheduled (own m Lock.taken k)
  unfolding own
  own-IsScheduled v =
      settle-IsScheduled k (own m Lock.taken k) refl refl refl own-IsPlaced (λ t n. own_state t)
        (λ t r. sym (own_state t) ∙ r) (own_state idle ∙ v.idle_runs) v

  pub own_result :
      (k.threads k.current).sleep_on ≡ none
      → (((own m Lock.taken k).mutexes m).owner ≡ some k.current)
        × ((own m Lock.taken k).current ≡ k.current)
        × (((own m Lock.taken k).threads k.current).sleep_on ≡ none)
  unfolding own
  own_result e = ground arith

  -- The fast path: the lock is free, so nobody owns the mutex.
  pub own_fast-IsSound :
      IsSound k → is_free (k.mutexes m).lock ≡ true → IsSound (own m Lock.taken k)
  own_fast-IsSound s f =
      own-IsSound k m Lock.taken (IsSound-but m k s) (ground (arith, s.free m)) refl
        (λ c q. s.awake m (ground arith) q)

  pub count_up-IsSound : IsSound k → IsSound (count_up m k)
  count_up-IsSound s = record {
    held = λ t i. ground (arith, s.held t i);
    free = λ i. ground (arith, s.free i);
    waits = λ t i. ground (arith, s.waits t i);
    awake = λ i c e.
        HasAwake-move k (count_up m k) (k.mutexes i).wq _ (ground arith) (λ t r. r)
          (s.awake i (ground arith) (ground arith));
  }

  pub count_up-IsScheduled : IsScheduled k → IsScheduled (count_up m k)
  count_up-IsScheduled v =
      settle-IsScheduled k (count_up m k) refl refl refl (λ t. ground arith) (λ t n. refl)
        (λ t r. r) v.idle_runs v

  pub again_result :
      held_again m k ≡ true
      → (k.threads k.current).sleep_on ≡ none
      → ((count_up m k).mutexes m).owner ≡ some k.current
  again_result h e = ground arith

module _ (k : Kernel) (m fuel : ℕ) (out : k.in_irq ≡ false) where
  pub lock_free :
      is_free (k.mutexes m).lock ≡ true → mutex_lock fuel m k ≡ ok (returned 0, own m Lock.taken k)
  unfolding mutex_lock
  lock_free f = rw (out, f)

  pub lock_again :
      is_free (k.mutexes m).lock ≡ false
      → held_again m k ≡ true
      → mutex_lock fuel m k ≡ ok (returned 0, count_up m k)
  unfolding mutex_lock
  lock_again f h = rw (out, f, h)

  pub lock_waits :
      is_free (k.mutexes m).lock ≡ false
      → held_again m k ≡ false
      → mutex_lock fuel m k ≡ (spread fuel k.current (enter_queue m k) >>= mutex_relock fuel m)
  unfolding mutex_lock
  lock_waits f h = rw (out, f, h)

  pub entered :
      (k.threads k.current).sleep_on ≡ none
      → (((enter_queue m k).threads k.current).sleep_on ≡ some m)
        × ((enter_queue m k).current ≡ k.current)
        × ((enter_queue m k).in_irq ≡ k.in_irq)
  unfolding enter_queue
  entered e = ground arith
