-- ===== src/Inherit/Change.antt =====
-- pthread_setschedprio, and the scheduler's invariant under inheritance.
use turnix.Base.{ℕ, ◌||◌, if◌then◌else◌, sym, ◌∙◌, ◌==◌}
use turnix.Kernel.{Kernel, set_thread, idle}
use turnix.Sched.Choice.{IsScheduled}
use turnix.Inherit.{inherited}
use turnix.Inherit.Total.{IsKept}

pub IsKept-IsScheduled : (k k' : Kernel) → IsKept k k' → IsScheduled k → IsScheduled k'
IsKept-IsScheduled k k' p v = record {
  queue = p.queue v.queue;
  ready =
      λ t other on. p.states t ∙ v.ready t (λ e. other (e ∙ sym p.current)) (sym (p.links t) ∙ on);
  kept = λ t runs. p.links t ∙ v.kept t (sym (p.states t) ∙ runs);
  idle_runs = p.states idle ∙ v.idle_runs;
}

module _ (k : Kernel) (t p : ℕ) where
  -- The thread with its new priority stored.
  abbrev pub based : Kernel
  based = set_thread t (record (k.threads t) { priority = p }) k

-- The effective priority that pthread_setschedprio leaves: the old one if the priority does not change or is
-- the old effective priority, and else the highest among the new priority and the effective priorities
-- of those who wait for a mutex of the thread.
abbrev pub new_effective : Kernel → ℕ → ℕ → ℕ
new_effective k t p =
    if (k.threads t).priority == p || (k.threads t).effective_priority == p
    then (k.threads t).effective_priority
    else inherited (based k t p) t
