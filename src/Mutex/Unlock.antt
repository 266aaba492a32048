-- ===== src/Mutex/Unlock.antt =====
-- pthread_mutex_unlock: it keeps the invariants, and no waiter is forgotten.
use turnix.Base.{
  ℕ, suc, ◌-◌, ◌≡◌, ◌≢◌, ◌<◌, refl, ap, ◌∙◌, false, none, some, arith, inl, inr, ℕ_discrete,
}
use turnix.Kernel.{Kernel, Mutex, State, Lock, ok, ◌>>=◌, set_mutex}
use turnix.RunQueue.Queues.{count, is_empty}
use turnix.Sched.{schedule}
use turnix.Sched.Choice.{IsScheduled, schedule-IsChosen}
use turnix.Sched.Settle.{settle-IsScheduled}
use turnix.Inherit.{set_prio}
use turnix.Inherit.Total.{done, IsKept, set_prio-IsKept}
use turnix.Inherit.Change.{IsKept-IsScheduled}
use turnix.Mutex.{own, target, released, wake_target, count_down, mutex_unlock}
use turnix.Mutex.Sound.{
  IsSound, IsSoundBut, HasAwake, HasAwake-move, Agrees-IsSound, IsKept-Agrees, IsChosen-Agrees,
}
use turnix.RunQueue.Peek.{IsHighest}
use turnix.Sched.{set_running}
use turnix.Sched.Irq.{
  set_running-IsScheduled, set_running_state, set_running_irq, set_running_others,
}
use turnix.Mutex.Pick.{IsPicked, pick-IsPicked}
use turnix.Mutex.Release.{
  target_cases, released-IsSoundBut, released-IsScheduled, released_result, released_state,
  set_running-Agrees, Agrees-IsSoundBut, IsSound-mend,
}

-- The mutex has no owner; where the lock said that threads wait, a waiter of the highest effective
-- priority has been woken; the processor goes to the first thread of the highest priority, which runs;
-- and a thread that is not in the queue is in the state that it was in.
pub record IsFreed (m : ℕ) (k k' : Kernel) : Type 0 where
  pub owner : (k'.mutexes m).owner ≡ none
  pub lock : (k'.mutexes m).lock ≡ Lock.free
  pub woken :
      (k.mutexes m).lock ≡ Lock.contended
      → is_empty (k.mutexes m).wq ≡ false
      → (t : ℕ) × IsPicked k.threads (k.mutexes m).wq t × ((k'.threads t).state ≡ State.running)
  pub runs : IsHighest k' k'.current
  pub running : (k'.threads k'.current).state ≡ State.running
  pub others : (t : ℕ) → count t (k.mutexes m).wq ≡ 0 → (k'.threads t).state ≡ (k.threads t).state

module _ (k : Kernel) (m : ℕ) where
  unlock_frees :
      (fuel : ℕ)
      → count_down m k ≡ 0
      → mutex_unlock fuel m k
        ≡ (set_prio fuel k.current (released m k) >>= λ r. schedule (wake_target (target m k) r))
  unfolding mutex_unlock
  unlock_frees fuel e = rw e

  -- What is left once the mutex is released and a waiter may have been woken.
  record Woken (r w : Kernel) : Type 0 where
    scheduled : IsScheduled w
    sound : IsSound w
    out : w.in_irq ≡ false
    owner : (w.mutexes m).owner ≡ none
    lock : (w.mutexes m).lock ≡ Lock.free
    woken :
        (k.mutexes m).lock ≡ Lock.contended
        → is_empty (k.mutexes m).wq ≡ false
        → (t : ℕ) × IsPicked k.threads (k.mutexes m).wq t × ((w.threads t).state ≡ State.running)
    others : (t : ℕ) → count t (k.mutexes m).wq ≡ 0 → (w.threads t).state ≡ (k.threads t).state

  wake_none :
      (r : Kernel)
      → IsScheduled r
      → IsSoundBut m r
      → r.in_irq ≡ false
      → (r.mutexes m).owner ≡ none
      → (r.mutexes m).lock ≡ Lock.free
      → (r.mutexes m).wq ≡ (k.mutexes m).wq
      → ((t : ℕ) → (r.threads t).state ≡ (k.threads t).state)
      → target m k ≡ none
      → (is_empty (k.mutexes m).wq ≡ false → HasAwake k (k.mutexes m).wq)
      → Woken r r
  unfolding target
  wake_none r v s out o l q states e a = record {
    scheduled = v;
    sound = IsSound-mend m r s l o (λ f.
        HasAwake-move k r (k.mutexes m).wq (r.mutexes m).wq q (λ t run. states t ∙ run)
          (a (rw q at f)));
    out = out;
    owner = o;
    lock = l;
    woken = λ c f. absurd (ground (arith, pick-IsPicked k.threads (k.mutexes m).wq f));
    others = λ t none. states t;
  }

  wake_some :
      (r : Kernel) (t : ℕ)
      → IsScheduled r
      → IsSoundBut m r
      → r.in_irq ≡ false
      → (r.mutexes m).owner ≡ none
      → (r.mutexes m).lock ≡ Lock.free
      → (r.mutexes m).wq ≡ (k.mutexes m).wq
      → ((u : ℕ) → (r.threads u).state ≡ (k.threads u).state)
      → IsPicked k.threads (k.mutexes m).wq t
      → Woken r (set_running t r)
  wake_some r t v s out o l q states p =
      let w = set_running t r in
      let a = set_running-Agrees r t in
      let same = a.mutexes m in
      let lock : (w.mutexes m).lock ≡ Lock.free = ap (λ (mu : Mutex). mu.lock) same ∙ l in
      let owner : (w.mutexes m).owner ≡ none = ap (λ (mu : Mutex). mu.owner) same ∙ o in
      let queue : (w.mutexes m).wq ≡ (k.mutexes m).wq = ap (λ (mu : Mutex). mu.wq) same ∙ q in
      record {
        scheduled = set_running-IsScheduled r t v;
        sound =
            IsSound-mend m w (Agrees-IsSoundBut m r w a s) lock owner
              (λ f. (t, rw queue p.inside, set_running_state r t));
        out = set_running_irq r t ∙ out;
        owner = owner;
        lock = lock;
        woken = λ c f. (t, p, set_running_state r t);
        others = λ u none.
            let apart : t ≢ u =
              λ e. omega (arith, none, p.inside, ap (λ (x : ℕ). count x (k.mutexes m).wq) e) in
            set_running_others r t u apart ∙ states u;
      }

  unlock_nested :
      (fuel n : ℕ)
      → count_down m k ≡ suc n
      → mutex_unlock fuel m k
        ≡ ok (set_mutex m (record (k.mutexes m) { recursive_count = count_down m k }) k)
  unfolding mutex_unlock
  unlock_nested fuel n e = ground arith

  abbrev fewer : Kernel
  fewer = set_mutex m (record (k.mutexes m) { recursive_count = count_down m k }) k

  fewer-IsSound : IsSound k → IsSound fewer
  fewer-IsSound s = record {
    held = λ t i. ground (arith, s.held t i);
    free = λ i. ground (arith, s.free i);
    waits = λ t i. ground (arith, s.waits t i);
    awake = λ i c e.
        HasAwake-move k fewer (k.mutexes i).wq _ (ground arith) (λ t r. r)
          (s.awake i (ground arith) (ground arith));
  }

  fewer-IsScheduled : IsScheduled k → IsScheduled fewer
  fewer-IsScheduled v =
      settle-IsScheduled k fewer refl refl refl (λ t. ground arith) (λ t n. refl) (λ t r. r)
        v.idle_runs v

  -- After the release and the new priority of the caller, somebody is woken if need be.
  awoken :
      (r : Kernel)
      → IsScheduled k
      → IsSound k
      → k.in_irq ≡ false
      → (k.mutexes m).owner ≡ some k.current
      → IsKept (released m k) r
      → Woken r (wake_target (target m k) r)
  unfolding wake_target
  awoken r v s out own p =
      let (owner, lock, queue, irq, asleep) = released_result k m in
      let agrees = IsKept-Agrees (released m k) r p in
      let still = Agrees-IsSoundBut m (released m k) r agrees (released-IsSoundBut k m s own) in
      let ready = IsKept-IsScheduled (released m k) r p (released-IsScheduled k m v) in
      let same = p.mutexes m in
      let owner' = ap (λ (mu : Mutex). mu.owner) same ∙ owner in
      let lock' = ap (λ (mu : Mutex). mu.lock) same ∙ lock in
      let queue' = ap (λ (mu : Mutex). mu.wq) same ∙ queue in
      let out' = p.in_irq ∙ irq ∙ out in
      elim (target_cases k m s (ground (arith, s.free m))) [
        | inl (e, a) ↦ rw e (
            wake_none r ready still out' owner' lock' queue'
              (λ t. p.states t ∙ released_state k m t) e a)
        | inr (t, e, picked) ↦ rw e (
            wake_some r t ready still out' owner' lock' queue'
              (λ t. p.states t ∙ released_state k m t) picked)
      ]

-- pthread_mutex_unlock by the owner of the mutex, outside an interrupt, while it waits for no mutex:
-- the call returns without a fault, and the invariants of the scheduler and of the mutexes hold. If
-- the count falls to 0 the mutex is freed, a best waiter is woken where the lock is contended, and
-- the first thread of the highest priority goes on; else the caller keeps the mutex.
pub mutex_unlock-IsFreed :
    (k : Kernel) (m fuel : ℕ)
    → IsScheduled k
    → IsSound k
    → k.in_irq ≡ false
    → (k.mutexes m).owner ≡ some k.current
    → (k.threads k.current).sleep_on ≡ none
    → 1 < fuel
    → (k' : Kernel) × (mutex_unlock fuel m k ≡ ok k')
      × IsScheduled k'
      × IsSound k'
      × (count_down m k ≡ 0 → IsFreed m k k')
      × (count_down m k ≢ 0
          → ((k'.mutexes m).owner ≡ some k.current)
            × (k'.current ≡ k.current)
            × ((k'.mutexes m).recursive_count ≡ count_down m k))
mutex_unlock-IsFreed k m fuel v s out own awake enough = elim (ℕ_discrete (count_down m k) 0) [
  | yes e ↦
      let (owner, lock, queue, irq, asleep) = released_result k m in
      let (r, ran, p, stored) =
        set_prio-IsKept fuel k.current 0 (released m k) enough (done (asleep ∙ awake)) in
      let w = awoken k m r v s out own p in
      let wk = wake_target (target m k) r in
      let (k', chose, c) = schedule-IsChosen wk w.scheduled w.out in
      let same = c.mutexes m in
      (
        k',
        unlock_frees k m fuel e ∙ rw ran chose,
        c.scheduled,
        Agrees-IsSound wk k' (IsChosen-Agrees wk k' c) w.sound,
        (λ z. record {
          owner = ap (λ (mu : Mutex). mu.owner) same ∙ w.owner;
          lock = ap (λ (mu : Mutex). mu.lock) same ∙ w.lock;
          woken = λ l f. let (t, picked, run) = w.woken l f in (t, picked, c.states t ∙ run);
          runs = c.highest;
          running = c.running;
          others = λ t none. c.states t ∙ w.others t none;
        }),
        λ n. absurd (n e),
      )
  | no n ↦ (
    fewer k m,
    unlock_nested k m fuel (count_down m k - 1) (omega arith),
    fewer-IsScheduled k m v,
    fewer-IsSound k m s,
    (λ e. absurd (n e)),
    λ z. (ground arith, refl, ground arith),
  )
]
