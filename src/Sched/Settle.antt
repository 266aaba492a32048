-- ===== src/Sched/Settle.antt =====
-- The scheduler's invariant across a change that leaves the run queue alone.
use turnix.Base.{ℕ, ◌≡◌, ◌≢◌, sym, ◌∙◌}
use turnix.Kernel.{Kernel, Thread, State, idle}
use turnix.RunQueue.WellFormed.{IsQueued}
use turnix.Sched.Choice.{IsScheduled}

-- What the run queue reads of a thread.
pub record IsPlaced (a b : Thread) : Type 0 where
  pub linked : b.linked ≡ a.linked
  pub effective : b.effective_priority ≡ a.effective_priority
  pub base : b.priority ≡ a.priority

module _ (k k' : Kernel) where
  settle-IsQueued :
      k'.level ≡ k.level
      → k'.bitmap ≡ k.bitmap
      → ((t : ℕ) → IsPlaced (k.threads t) (k'.threads t))
      → IsQueued k
      → IsQueued k'
  settle-IsQueued l b p v = record {
    placed = λ t i. rw (l, (p t).linked, (p t).effective) (v.placed t i);
    bits = rw (l, b) v.bits;
    bounded = λ t. rw ((p t).effective) (v.bounded t);
    based = λ t. rw ((p t).base) (v.based t);
  }

  -- The current thread may leave the running state, unless it is the idle thread.
  pub settle-IsScheduled :
      k'.level ≡ k.level
      → k'.bitmap ≡ k.bitmap
      → k'.current ≡ k.current
      → ((t : ℕ) → IsPlaced (k.threads t) (k'.threads t))
      → ((t : ℕ) → t ≢ k.current → (k'.threads t).state ≡ (k.threads t).state)
      → ((t : ℕ) → (k'.threads t).state ≡ State.running → (k.threads t).state ≡ State.running)
      → (k'.threads idle).state ≡ State.running
      → IsScheduled k
      → IsScheduled k'
  settle-IsScheduled l b c p others runs awake v = record {
    queue = settle-IsQueued l b p v.queue;
    ready = λ t other on.
        let was : t ≢ k.current = λ e. other (e ∙ sym c) in
        others t was ∙ v.ready t was (sym ((p t).linked) ∙ on);
    kept = λ t r. (p t).linked ∙ v.kept t (runs t r);
    idle_runs = awake;
  }
