-- ===== src/Sched/Choice.antt =====
-- What `schedule` chooses, and the invariant that every call of it finds and leaves.
use turnix.Base.{ℕ, ◌≡◌, ◌≢◌, sym, ap, ◌∙◌, true, false, arith, ◌==◌, if◌then◌else◌, some}
use turnix.Kernel.{Kernel, Mutex, State, ok, idle, ◌>>=◌}
use turnix.RunQueue.{enqueue, dequeue}
use turnix.RunQueue.WellFormed.{IsQueued, enqueue-IsQueued, dequeue-IsQueued}
use turnix.RunQueue.Peek.{IsHighest, peek-IsHighest}
use turnix.Sched.{requeue, choose, schedule, switch_if_other}

-- Before a call of `schedule`: the queued threads run, but for the caller, which may have left the
-- running state; no running thread is left out; and the idle thread runs.
pub record IsScheduled (k : Kernel) : Type 0 where
  pub queue : IsQueued k
  pub ready :
      (t : ℕ) → t ≢ k.current → (k.threads t).linked ≡ true → (k.threads t).state ≡ State.running
  pub kept : (t : ℕ) → (k.threads t).state ≡ State.running → (k.threads t).linked ≡ true
  pub idle_runs : (k.threads idle).state ≡ State.running

-- After it: the queued threads are the running ones, and the current one is first among them. Of
-- each thread only the link and the time slice may have changed.
pub record IsChosen (k k' : Kernel) : Type 0 where
  pub scheduled : IsScheduled k'
  pub running : (k'.threads k'.current).state ≡ State.running
  pub all_ready : (t : ℕ) → (k'.threads t).linked ≡ true → (k'.threads t).state ≡ State.running
  pub highest : IsHighest k' k'.current
  pub states : (t : ℕ) → (k'.threads t).state ≡ (k.threads t).state
  pub threads :
      (t : ℕ)
      → k'.threads t ≡ record (k.threads t) {
        linked = (k'.threads t).linked;
        timeslice = (k'.threads t).timeslice;
      }
  pub irq : k'.in_irq ≡ k.in_irq
  pub mutexes : (m : ℕ) → k'.mutexes m ≡ k.mutexes m

dequeue_linked :
    (k : Kernel) (t s : ℕ)
    → ((dequeue t k).threads s).linked ≡ (if t == s then false else (k.threads s).linked)
unfolding dequeue
dequeue_linked k t s = ground arith

module _ (k : Kernel) (v : IsScheduled k) where
  requeue-IsQueued : IsQueued (requeue k)
  unfolding requeue
  requeue-IsQueued = ground (
    arith,
    v.queue,
    dequeue-IsQueued k k.current v.queue,
    dequeue_linked k k.current k.current,
    enqueue-IsQueued (dequeue k.current k) k.current false (dequeue-IsQueued k k.current v.queue),
  )

  requeue_states : (s : ℕ) → ((requeue k).threads s).state ≡ (k.threads s).state
  unfolding requeue enqueue dequeue
  requeue_states s = ground arith

  requeue_threads :
      (s : ℕ)
      → (requeue k).threads s ≡ record (k.threads s) {
        linked = ((requeue k).threads s).linked;
        timeslice = ((requeue k).threads s).timeslice;
      }
  unfolding requeue enqueue dequeue
  requeue_threads s = ground arith

  requeue_irq : (requeue k).in_irq ≡ k.in_irq
  unfolding requeue enqueue dequeue
  requeue_irq = ground arith

  requeue_others : (requeue k).mutexes ≡ k.mutexes
  unfolding requeue enqueue dequeue
  requeue_others = ground arith

  requeue_ready :
      (s : ℕ) → ((requeue k).threads s).linked ≡ true → (k.threads s).state ≡ State.running
  unfolding requeue enqueue dequeue
  requeue_ready s = ground (arith, v.ready s)

  requeue_kept :
      (s : ℕ) → (k.threads s).state ≡ State.running → ((requeue k).threads s).linked ≡ true
  unfolding requeue enqueue dequeue
  requeue_kept s = ground (arith, v.kept s)

  -- The state with the chosen thread, before the switch and after it.
  abbrev pub chosen : ℕ → Kernel
  chosen h = record (requeue k) { next = some h; current = h }

  chosen-IsChosen : (h : ℕ) → IsHighest (requeue k) h → IsChosen k (chosen h)
  chosen-IsChosen h m =
      let all : (t : ℕ)
          → ((requeue k).threads t).linked ≡ true
          → ((requeue k).threads t).state ≡ State.running =
        λ t on. requeue_states t ∙ requeue_ready t on in
      record {
        scheduled = record {
          queue = record {
            placed = requeue-IsQueued.placed;
            bits = requeue-IsQueued.bits;
            bounded = requeue-IsQueued.bounded;
            based = requeue-IsQueued.based;
          };
          ready = λ t other. all t;
          kept = λ t runs. requeue_kept t (sym (requeue_states t) ∙ runs);
          idle_runs = requeue_states idle ∙ v.idle_runs;
        };
        running = all h m.queued;
        all_ready = all;
        highest = record { queued = m.queued; first = m.first; most = m.most };
        states = requeue_states;
        threads = requeue_threads;
        irq = requeue_irq;
        mutexes = λ i. ap (λ (f : ℕ → Mutex). f i) requeue_others;
      }

  -- `__schedule` passes its assertions, and names the head of the highest queue in use.
  pub choose-chosen :
      (h : ℕ) × (choose k ≡ ok (record (requeue k) { next = some h })) × IsChosen k (chosen h)
  unfolding choose
  choose-chosen =
      let on = requeue_kept idle v.idle_runs in
      let (h, found, m) = peek-IsHighest (requeue k) idle requeue-IsQueued on in
      (h, rw found, chosen-IsChosen h m)

  switch_chosen : (h : ℕ) → switch_if_other (record (requeue k) { next = some h }) ≡ ok (chosen h)
  unfolding switch_if_other
  switch_chosen h = ground arith

  -- `__schedule` and the switch after it, as in `schedule` and at the end of an interrupt.
  pub choose_switch-IsChosen :
      (k' : Kernel) × ((choose k >>= switch_if_other) ≡ ok k') × IsChosen k k'
  choose_switch-IsChosen =
      let (h, found, c) = choose-chosen in (chosen h, rw found (switch_chosen h), c)

  schedule_out : k.in_irq ≡ false → schedule k ≡ (choose k >>= switch_if_other)
  unfolding schedule
  schedule_out out = ground arith

  -- Outside an interrupt `schedule` returns, without a failed assertion or a NULL pointer, and the
  -- thread that then runs is a running one, the first of the highest effective priority in use; no
  -- thread changes but for its link and time slice, and no mutex.
  pub schedule-IsChosen : k.in_irq ≡ false → (k' : Kernel) × (schedule k ≡ ok k') × IsChosen k k'
  schedule-IsChosen out =
      let (k', found, c) = choose_switch-IsChosen in (k', schedule_out out ∙ found, c)

  -- The same with the state that `schedule` leaves written out.
  pub schedule-requeue :
      k.in_irq ≡ false → (h : ℕ) × (schedule k ≡ ok (chosen h)) × IsChosen k (chosen h)
  schedule-requeue out =
      let (h, found, c) = choose-chosen in (h, schedule_out out ∙ rw found (switch_chosen h), c)
