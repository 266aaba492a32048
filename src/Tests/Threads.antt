-- ===== src/Tests/Threads.antt =====
-- The scheduler and inheritance at the kernel of Desk.
use turnix.Base.{ℕ, ◌≡◌, ◌≤◌, refl, true, some, arith}
use turnix.Kernel.{Kernel, ok, out_of_fuel, set_thread}
use turnix.RunQueue.{enqueue}
use turnix.Sched.{schedule, interrupt_dispatch, wake_up}
use turnix.Sched.Choice.{IsChosen, schedule-IsChosen}
use turnix.Sched.Irq.{interrupt_wakes, woken}
use turnix.Inherit.{spread}
use turnix.Inherit.Total.{Ends, done, next, IsKept, spread-IsKept}
use turnix.Inherit.Cycle.{spread_hangs}
use turnix.Tests.Desk.{desk, desk-IsScheduled}

schedule-IsChosen_example : (k' : Kernel) × (schedule desk ≡ ok k') × IsChosen desk k'
schedule-IsChosen_example = schedule-IsChosen desk desk-IsScheduled (unfold enqueue in refl)

interrupt_wakes_example :
    (k' : Kernel) × (interrupt_dispatch (wake_up 2) desk ≡ ok k')
    × IsChosen (woken 2 desk) k'
    × ((k'.threads 2).linked ≡ true)
    × ((k'.threads 2).effective_priority ≤ (k'.threads k'.current).effective_priority)
interrupt_wakes_example = interrupt_wakes desk 2 desk-IsScheduled

-- Nobody is queued above the current thread.
desk_top :
    (s : ℕ)
    → (desk.threads s).linked ≡ true
    → (desk.threads s).effective_priority ≤ (desk.threads desk.current).effective_priority
unfolding enqueue
desk_top s = ground arith

waiter-Ends : Ends desk 2 1
unfolding enqueue
waiter-Ends = next {t = 2} {m = 0} {o = 0} refl refl (done {t = 0} refl)

spread-IsKept_example : (k' : Kernel) × (spread 3 2 desk ≡ ok k') × IsKept desk k'
spread-IsKept_example = spread-IsKept 3 2 1 desk (omega arith) waiter-Ends

-- Thread 0 waits for the mutex that it holds.
abbrev stuck : Kernel
stuck = set_thread 0 (record (desk.threads 0) { sleep_on = some 0 }) desk

spread_hangs_example : spread 100 0 stuck ≡ out_of_fuel
spread_hangs_example =
    spread_hangs (λ (t : ℕ). t ≡ 0) 100 0 stuck
      (λ t e. (0, 0, ground (arith, e), unfold enqueue in refl, refl)) refl
