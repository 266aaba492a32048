-- ===== src/Sched/Irq.antt =====
-- Waking a thread, and the scheduling that an interrupt defers to its end.
use turnix.Base.{ℕ, ◌≡◌, ◌≢◌, ◌≤◌, refl, ◌∙◌, Bool, true, false, arith, none, update_self}
use turnix.Kernel.{Kernel, Thread, State, ok, ◌>>=◌, set_thread}
use turnix.RunQueue.{enqueue}
use turnix.RunQueue.WellFormed.{IsQueued, enqueue-IsQueued, set_thread-IsQueued}
use turnix.Sched.{
  choose, schedule, switch_if_other, isr_return, interrupt_dispatch, set_running, wake_up,
}
use turnix.Sched.Choice.{IsScheduled, IsChosen, choose_switch-IsChosen}

module _ (k : Kernel) (t : ℕ) where
  abbrev awake : Thread
  awake = record (k.threads t) { state = State.running }

  set_running-IsQueued : IsQueued k → IsQueued (set_running t k)
  unfolding set_running
  set_running-IsQueued v =
      let w = set_thread-IsQueued k t awake v (v.based t) refl refl in
      ground
        (arith, w, update_self k.threads t awake, enqueue-IsQueued (set_thread t awake k) t false w)

  -- Waking a thread keeps the scheduler's invariant.
  pub set_running-IsScheduled : IsScheduled k → IsScheduled (set_running t k)
  unfolding set_running enqueue
  set_running-IsScheduled v = record {
    queue = set_running-IsQueued v.queue;
    ready = λ s. ground (arith, v.ready s);
    kept = λ s. ground (arith, v.kept s);
    idle_runs = ground (arith, v.idle_runs);
  }

-- The invariant does not depend on `pthread_next` and `in_irq`.
pub relabel :
    (k : Kernel) (b : Bool) → IsScheduled k → IsScheduled (record k { next = none; in_irq = b })
relabel k b v = record {
  queue = record {
    placed = v.queue.placed;
    bits = v.queue.bits;
    bounded = v.queue.bounded;
    based = v.queue.based;
  };
  ready = v.ready;
  kept = v.kept;
  idle_runs = v.idle_runs;
}

-- What an interrupt leaves to schedule when its handler wakes `t`.
abbrev pub woken : ℕ → Kernel → Kernel
woken t k = record (set_running t k) { next = none; in_irq = false }

-- In the handler `schedule` only clears `pthread_next`; the end of the interrupt then chooses.
dispatch_wakes :
    (k : Kernel) (t : ℕ)
    → interrupt_dispatch (wake_up t) k ≡ (choose (woken t k) >>= switch_if_other)
unfolding interrupt_dispatch wake_up schedule isr_return set_running enqueue
dispatch_wakes k t = ground arith

pub set_running_state : (k : Kernel) (t : ℕ) → ((set_running t k).threads t).state ≡ State.running
unfolding set_running enqueue
set_running_state k t = ground arith

pub set_running_irq : (k : Kernel) (t : ℕ) → (set_running t k).in_irq ≡ k.in_irq
unfolding set_running enqueue
set_running_irq k t = ground arith

pub set_running_others :
    (k : Kernel) (t u : ℕ) → t ≢ u → ((set_running t k).threads u).state ≡ (k.threads u).state
unfolding set_running enqueue
set_running_others k t u h = ground (arith, h)

-- An interrupt whose handler wakes a thread ends in a running thread, the first of the highest
-- effective priority in use, with the woken thread among the running ones: so a woken thread of a
-- higher priority than all others runs at once.
pub interrupt_wakes :
    (k : Kernel) (t : ℕ)
    → IsScheduled k
    → (k' : Kernel) × (interrupt_dispatch (wake_up t) k ≡ ok k')
      × IsChosen (woken t k) k'
      × ((k'.threads t).linked ≡ true)
      × ((k'.threads t).effective_priority ≤ (k'.threads k'.current).effective_priority)
interrupt_wakes k t v =
    let w = relabel (set_running t k) false (set_running-IsScheduled k t v) in
    let (k', ran, c) = choose_switch-IsChosen (woken t k) w in
    let on = c.scheduled.kept t (c.states t ∙ set_running_state k t) in
    (k', dispatch_wakes k t ∙ ran, c, on, c.highest.most t on)
