-- ===== src/Mutex/Enter.antt =====
-- A thread that enters the wait queue of a mutex keeps the invariants.
use turnix.Base.{
  ℕ, ◌≡◌, refl, sym, ◌∙◌, false, none, [], ◌∷◌, arith, ◌==◌, inl, inr, if◌then◌else◌, Bool-cases,
}
use turnix.Kernel.{Kernel, State, idle}
use turnix.RunQueue.Queues.{count, is_empty, count-append}
use turnix.Sched.{is_thread}
use turnix.Sched.Choice.{IsScheduled}
use turnix.Sched.Settle.{IsPlaced, settle-IsScheduled}
use turnix.Mutex.{enter_queue}
use turnix.Mutex.Sound.{IsSound, HasAwake, is_contended, HasAwake-move}

module _ (k : Kernel) (m : ℕ) where
  abbrev pub me : ℕ
  me = k.current

  abbrev pub Asks : Type 0
  Asks = ((k.threads me).state ≡ State.running) × ((k.threads me).sleep_on ≡ none)

  enter_queue_waits :
      IsSound k
      → (k.threads me).sleep_on ≡ none
      → (t i : ℕ)
      → count t ((enter_queue m k).mutexes i).wq
        ≡ (if is_thread ((enter_queue m k).threads t).sleep_on i then 1 else 0)
  unfolding enter_queue count
  enter_queue_waits s e t i =
      ground
        (arith, s.waits t i, s.waits me i, s.waits t m, count-append t (k.mutexes m).wq (me ∷ []))

  enter_queue_state : (t : ℕ) → ((enter_queue m k).threads t).state ≡ (k.threads t).state
  unfolding enter_queue
  enter_queue_state t = ground arith

  enter_queue_awake :
      IsSound k
      → (k.threads me).state ≡ State.running
      → (i : ℕ) → is_contended ((enter_queue m k).mutexes i).lock ≡ false
      → is_empty ((enter_queue m k).mutexes i).wq ≡ false
      → HasAwake (enter_queue m k) ((enter_queue m k).mutexes i).wq
  unfolding enter_queue count
  enter_queue_awake s r i c e = elim (Bool-cases (m == i)) [
    | inl same ↦
        (me, ground (arith, count-append me (k.mutexes m).wq (me ∷ [])), enter_queue_state me ∙ r)
    | inr other ↦
        HasAwake-move k (enter_queue m k) (k.mutexes i).wq _ (ground arith)
          (λ t run. enter_queue_state t ∙ run) (s.awake i (ground arith) (ground arith))
  ]

  pub enter_queue-IsSound : IsSound k → Asks → IsSound (enter_queue m k)
  unfolding enter_queue
  enter_queue-IsSound s (r, e) = record {
    held = λ t i. ground (arith, s.held t i);
    free = λ i. ground (arith, s.free i);
    waits = enter_queue_waits s e;
    awake = enter_queue_awake s r;
  }

  enter_queue-IsPlaced : (t : ℕ) → IsPlaced (k.threads t) ((enter_queue m k).threads t)
  unfolding enter_queue
  enter_queue-IsPlaced t = ground arith

  pub enter_queue-IsScheduled : IsScheduled k → IsScheduled (enter_queue m k)
  unfolding enter_queue
  enter_queue-IsScheduled v =
      settle-IsScheduled k (enter_queue m k) refl refl refl enter_queue-IsPlaced
        (λ t n. enter_queue_state t) (λ t r. sym (enter_queue_state t) ∙ r)
        (enter_queue_state idle ∙ v.idle_runs) v
