-- ===== src/Mutex/Release.antt =====
-- The steps of pthread_mutex_unlock and the invariants: the mutex is released, then a waiter wakes.
use turnix.Base.{
  ℕ, ◌≡◌, refl, sym, ◌∙◌, false, none, some, arith, inl, inr, if◌then◌else◌, Bool-cases, ℕ_discrete,
  subst, ◌⊎◌,
}
use turnix.Kernel.{Kernel, Lock, idle}
use turnix.RunQueue.Queues.{count, is_empty, count-remove}
use turnix.Sched.{is_thread}
use turnix.Sched.Choice.{IsScheduled}
use turnix.Sched.Settle.{IsPlaced, settle-IsScheduled}
use turnix.Mutex.{is_free, own, target, released, is_taken}
use turnix.Mutex.Sound.{IsSound, IsSoundBut, HasAwake, HasAwake-move}
use turnix.RunQueue.{enqueue}
use turnix.Sched.{set_running}
use turnix.Mutex.Sound.{Agrees}
use turnix.Mutex.Pick.{IsPicked, pick-IsPicked, pick_none}

module _ (k : Kernel) (m : ℕ) where
  abbrev pub me : ℕ
  me = k.current

  -- Either nobody has to be woken, or the thread to wake is a best waiter.
  pub target_cases :
      IsSound k
      → is_free (k.mutexes m).lock ≡ false
      → ((target m k ≡ none) × (is_empty (k.mutexes m).wq ≡ false → HasAwake k (k.mutexes m).wq))
        ⊎ ((t : ℕ) × (target m k ≡ some t) × IsPicked k.threads (k.mutexes m).wq t)
  unfolding target
  target_cases s f = elim (Bool-cases (is_taken (k.mutexes m).lock)) [
    | inl taken ↦ inl (rw taken, λ e. s.awake m (ground arith) e)
    | inr other ↦ elim (Bool-cases (is_empty (k.mutexes m).wq)) [
      | inl empty ↦ inl (rw other (pick_none k.threads _ empty), λ e. absurd (ground arith))
      | inr filled ↦
          let (r, e, p) = pick-IsPicked k.threads (k.mutexes m).wq filled in inr (r, rw other e, p)
    ]
  ]

  released_held :
      IsSound k
      → (k.mutexes m).owner ≡ some me
      → (t i : ℕ)
      → count i ((released m k).threads t).mutex_queue
        ≡ (if is_thread ((released m k).mutexes i).owner t then 1 else 0)
  unfolding released
  released_held s own t i =
      ground
        (arith, s.held t i, s.held me i, s.held t m, count-remove i m (k.threads me).mutex_queue)

  pub released_state : (t : ℕ) → ((released m k).threads t).state ≡ (k.threads t).state
  unfolding released
  released_state t = ground arith

  pub released-IsSoundBut : IsSound k → (k.mutexes m).owner ≡ some me → IsSoundBut m (released m k)
  unfolding released
  released-IsSoundBut s own = record {
    held = released_held s own;
    free = λ i n. ground (arith, s.free i);
    waits = λ t i. ground (arith, s.waits t i);
    awake = λ i n c f.
        HasAwake-move k (released m k) (k.mutexes i).wq _ (ground arith)
          (λ t run. released_state t ∙ run) (s.awake i (ground arith) (ground arith));
  }

  released-IsPlaced : (t : ℕ) → IsPlaced (k.threads t) ((released m k).threads t)
  unfolding released
  released-IsPlaced t = ground arith

  pub released-IsScheduled : IsScheduled k → IsScheduled (released m k)
  unfolding released
  released-IsScheduled v =
      settle-IsScheduled k (released m k) refl refl refl released-IsPlaced (λ t n. released_state t)
        (λ t r. sym (released_state t) ∙ r) (released_state idle ∙ v.idle_runs) v

  pub released_result :
      (((released m k).mutexes m).owner ≡ none)
      × (((released m k).mutexes m).lock ≡ Lock.free)
      × (((released m k).mutexes m).wq ≡ (k.mutexes m).wq)
      × ((released m k).in_irq ≡ k.in_irq)
      × (((released m k).threads me).sleep_on ≡ (k.threads me).sleep_on)
  unfolding released
  released_result = ground arith

-- Waking agrees with what the invariant reads.
pub set_running-Agrees : (k : Kernel) (t : ℕ) → Agrees k (set_running t k)
unfolding set_running enqueue
set_running-Agrees k t = record {
  holds = λ s. ground arith;
  sleeps = λ s. ground arith;
  mutexes = λ i. ground arith;
  runs = λ s r. ground arith;
}

pub Agrees-IsSoundBut : (m : ℕ) (k k' : Kernel) → Agrees k k' → IsSoundBut m k → IsSoundBut m k'
Agrees-IsSoundBut m k k' a s = record {
  held = λ t i. rw (a.holds t, a.mutexes i) (s.held t i);
  free = λ i n. rw (a.mutexes i) (s.free i n);
  waits = λ t i. rw (a.sleeps t, a.mutexes i) (s.waits t i);
  awake = λ i n. rw (a.mutexes i) λ c e. let (w, h, r) = s.awake i n c e in (w, h, a.runs w r);
}

-- The one mutex put right again.
pub IsSound-mend :
    (m : ℕ) (k : Kernel)
    → IsSoundBut m k
    → (k.mutexes m).lock ≡ Lock.free
    → (k.mutexes m).owner ≡ none
    → (is_empty (k.mutexes m).wq ≡ false → HasAwake k (k.mutexes m).wq)
    → IsSound k
IsSound-mend m k s f o a = record {
  held = s.held;
  free = λ i. elim (ℕ_discrete m i) [ yes e ↦ rw (← e) (ground arith) | no n ↦ s.free i n ];
  waits = s.waits;
  awake = λ i c e. elim (ℕ_discrete m i) [
    | yes at ↦ subst (λ j. HasAwake k (k.mutexes j).wq) at (a (rw at e))
    | no n ↦ s.awake i n c e
  ];
}
