-- ===== src/Sched/Rotate.antt =====
-- Round robin: a thread whose time slice is spent goes behind the others of its priority.
use turnix.Base.{ℕ, ◌≡◌, ◌≤◌, true, false, List, [], ◌∷◌, ◌++◌, arith}
use turnix.Kernel.{Kernel, State, ok}
use turnix.RunQueue.{enqueue, dequeue, timeslice_max}
use turnix.RunQueue.Queues.{remove, count}
use turnix.RunQueue.WellFormed.{IsQueued}
use turnix.Sched.{requeue, schedule}
use turnix.Sched.Choice.{IsScheduled, schedule-requeue}

module _ (k : Kernel) (t : ℕ) (q : List ℕ) where
  abbrev cur : ℕ
  cur = k.current

  abbrev prio : ℕ
  prio = (k.threads cur).effective_priority

  requeue_rotates :
      IsScheduled k
      → (k.threads cur).state ≡ State.running
      → (k.threads cur).timeslice ≡ 0
      → k.level prio ≡ cur ∷ t ∷ q
      → ((requeue k).level prio ≡ t ∷ q ++ cur ∷ [])
        × (((requeue k).threads cur).timeslice ≡ timeslice_max)
  unfolding requeue enqueue dequeue remove
  requeue_rotates v runs spent e = ground (arith, v.kept cur)

  requeue_priorities :
      (s : ℕ)
      → IsScheduled k
      → (k.threads cur).state ≡ State.running
      → (((requeue k).threads s).effective_priority ≡ (k.threads s).effective_priority)
        × (((requeue k).threads s).linked ≡ (k.threads s).linked)
  unfolding requeue enqueue dequeue
  requeue_priorities s v runs = ground (arith, v.kept cur)

  behind :
      IsQueued k
      → k.level prio ≡ cur ∷ t ∷ q
      → ((k.threads t).linked ≡ true) × ((k.threads t).effective_priority ≡ prio)
  unfolding count
  behind v e = ground (arith, v.placed t prio)

  -- If the current thread is of the highest priority in use and has spent its time slice, and `t`
  -- stands behind it, then `schedule` gives the processor to `t`, and the old thread goes to the
  -- tail of their queue with a whole time slice.
  schedule_rotates :
      IsScheduled k
      → k.in_irq ≡ false
      → (k.threads cur).state ≡ State.running
      → (k.threads cur).timeslice ≡ 0
      → ((s : ℕ) → (k.threads s).linked ≡ true → (k.threads s).effective_priority ≤ prio)
      → k.level prio ≡ cur ∷ t ∷ q
      → (k' : Kernel) × (schedule k ≡ ok k')
        × (k'.current ≡ t)
        × (k'.level prio ≡ t ∷ q ++ cur ∷ [])
        × ((k'.threads cur).timeslice ≡ timeslice_max)
  schedule_rotates v out runs spent top e =
      let (h, ran, c) = schedule-requeue k v out in
      let (moved, renewed) = requeue_rotates v runs spent e in
      let (on, same) = behind v.queue e in
      let kept = λ (s : ℕ). requeue_priorities s v runs in
      let level : ((requeue k).threads h).effective_priority ≡ prio =
        ground (arith, c.highest.queued, c.highest.most t, kept t, kept h, top h) in
      let (rest, at) = c.highest.first in (_, ran, ground (arith, at, moved, level), moved, renewed)
