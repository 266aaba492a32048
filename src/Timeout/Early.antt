-- ===== src/Timeout/Early.antt =====
-- A tick between the two steps of sleep in kernel/timer.c: interrupts are on when the caller is marked as
-- sleeping and has no timer yet.
use turnix.Base.{ℕ, ◌≡◌, ◌≢◌, false, arith, none}
use turnix.Kernel.{Kernel, State}
use turnix.Sched.Choice.{IsScheduled}
use turnix.Timeout.{spend}

-- The thread is asleep and out of the run queue, and another has the processor.
pub record IsLost (t : ℕ) (k : Kernel) : Type 0 where
  pub scheduled : IsScheduled k
  pub sleeps : (k.threads t).state ≡ State.sleeping
  pub unlinked : (k.threads t).linked ≡ false
  pub other : k.current ≢ t

spent : (k : Kernel) → (k.threads k.current).timeslice ≡ 1 → (spend k).next ≡ none
spent k e = ground (arith, e)
