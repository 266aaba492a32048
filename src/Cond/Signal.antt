-- ===== src/Cond/Signal.antt =====
-- pthread_cond_signal and pthread_cond_broadcast: who runs afterwards.
use turnix.Base.{ℕ, ◌≡◌, ap, ◌∙◌, false, [], ◌∷◌, arith, ◌==◌, ltb, if◌then◌else◌, ℕ_discrete}
use turnix.Kernel.{Kernel, State, ok}
use turnix.RunQueue.Queues.{count, is_empty, remove}
use turnix.Sched.{set_running, wake_up}
use turnix.Sched.Choice.{IsScheduled, IsChosen, schedule-IsChosen}
use turnix.Sched.Irq.{
  set_running-IsScheduled, set_running_state, set_running_irq, set_running_others,
}
use turnix.Sched.Awake.{AllRun, AllRun-nil, AllRun-cons, AllRun-states}
use turnix.Mutex.Pick.{IsPicked, pick-IsPicked}
use turnix.Cond.{Queue, cond_signal, run_all, cond_broadcast}

-- pthread_cond_signal on a queue that is not empty, outside an interrupt: a waiter of the highest
-- effective priority leaves the queue and runs, no other thread changes its state, the invariant of
-- the scheduler holds, and the first thread of the highest priority has the processor.
pub cond_signal-IsPicked :
    (k : Kernel) (wq : Queue)
    → IsScheduled k
    → k.in_irq ≡ false
    → is_empty wq ≡ false
    → (t : ℕ) × (k' : Kernel) × (cond_signal wq k ≡ ok (remove t wq, k'))
      × IsPicked k.threads wq t
      × IsChosen (set_running t k) k'
      × ((u : ℕ) → (k'.threads u).state ≡ (if t == u then State.running else (k.threads u).state))
unfolding cond_signal wake_up
cond_signal-IsPicked k wq v out some_wait =
    let (t, found, p) = pick-IsPicked k.threads wq some_wait in
    let (k', chose, c) =
      schedule-IsChosen (set_running t k) (set_running-IsScheduled k t v)
        (set_running_irq k t ∙ out) in
    (
      t,
      k',
      rw (found, cond_signal) (rw chose),
      p,
      c,
      λ u. c.states u ∙ elim (ℕ_discrete t u) [
        | yes e ↦
            ground
              (arith, set_running_state k t, ap (λ (x : ℕ). ((set_running t k).threads x).state) e)
        | no ne ↦ ground (arith, set_running_others k t u ne)
      ],
    )

run_all-AllRun : (wq : Queue) (k : Kernel) → IsScheduled k → AllRun k (run_all wq k) wq
unfolding run_all
run_all-AllRun [] k v = AllRun-nil k v
run_all-AllRun (t ∷ wq) k v =
    AllRun-cons k (set_running t k) (run_all wq (set_running t k)) t wq (set_running_irq k t)
      (set_running_state k t) (set_running_others k t)
      (run_all-AllRun wq (set_running t k) (set_running-IsScheduled k t v))

-- pthread_cond_broadcast on a queue that is not empty, outside an interrupt: the queue is empty, all
-- threads that stood in it run and no other changes its state, the invariant of the scheduler holds,
-- and the first thread of the highest priority has the processor.
pub cond_broadcast-IsChosen :
    (k : Kernel) (wq : Queue)
    → IsScheduled k
    → k.in_irq ≡ false
    → is_empty wq ≡ false
    → (k' : Kernel) × (cond_broadcast wq k ≡ ok ([], k'))
      × IsChosen (run_all wq k) k'
      × ((u : ℕ)
          → (k'.threads u).state
            ≡ (if ltb 0 (count u wq) then State.running else (k.threads u).state))
unfolding cond_broadcast
cond_broadcast-IsChosen k wq v out some_wait =
    let all = run_all-AllRun wq k v in
    let (k', chose, c) = schedule-IsChosen (run_all wq k) all.scheduled (all.irq ∙ out) in
    (k', rw (some_wait, chose), c, λ u. c.states u ∙ AllRun-states k (run_all wq k) wq u all)
