-- ===== src/Tests/Waits.antt =====
-- Condition variables and sleeping calls: threads 1 and 2 of the desk wait.
use turnix.Base.{
  none, ℕ, ◌+◌, ◌-◌, ◌*◌, ◌%◌, ◌^◌, ◌≡◌, ◌≢◌, refl, true, List, [], ◌∷◌, arith, ◌==◌, if◌then◌else◌,
  ltb,
}
use turnix.Kernel.{Lock, Kernel, State, ok, idle, set_thread}
use turnix.RunQueue.{enqueue}
use turnix.RunQueue.Queues.{count, remove}
use turnix.Sched.{set_running}
use turnix.Sched.Choice.{IsScheduled, IsChosen}
use turnix.Sched.Settle.{settle-IsScheduled}
use turnix.Mutex.Pick.{IsPicked}
use turnix.Timer.Fire.{IsFired}
use turnix.Clock.{Clocks, tick}
use turnix.Cond.{cond_signal, run_all, cond_broadcast, wait_begin}
use turnix.Cond.Signal.{cond_signal-IsPicked, cond_broadcast-IsChosen}
use turnix.Cond.Wait.{IsAsleep, wait_begin-IsAsleep}
use turnix.Timeout.{Machine, timer_update, sleep_begin}
use turnix.Timeout.Update.{timer_update-IsFired}
use turnix.Timeout.Sleep.{IsSleeping, sleep_begin-IsSleeping}
use turnix.RunQueue.{timeslice_max}
use turnix.Threads.Start.{pthread_init, pthread_foreach, IsUnused, pthread_init-IsScheduled}
use turnix.Tests.Desk.{thread, mutex, blank, desk, desk-IsScheduled, desk-IsSound}
use turnix.Tests.Ticks.{pair, pair-IsValid}

cond_signal-IsPicked_example :
    (t : ℕ) × (k' : Kernel) × (cond_signal (2 ∷ 1 ∷ []) desk ≡ ok (remove t (2 ∷ 1 ∷ []), k'))
    × IsPicked desk.threads (2 ∷ 1 ∷ []) t
    × IsChosen (set_running t desk) k'
    × ((u : ℕ) → (k'.threads u).state ≡ (if t == u then State.running else (desk.threads u).state))
cond_signal-IsPicked_example =
    cond_signal-IsPicked desk (2 ∷ 1 ∷ []) desk-IsScheduled (unfold enqueue in refl) refl

cond_broadcast-IsChosen_example :
    (k' : Kernel) × (cond_broadcast (2 ∷ 1 ∷ []) desk ≡ ok ([], k'))
    × IsChosen (run_all (2 ∷ 1 ∷ []) desk) k'
    × ((u : ℕ)
        → (k'.threads u).state
          ≡ (if ltb 0 (count u (2 ∷ 1 ∷ [])) then State.running else (desk.threads u).state))
cond_broadcast-IsChosen_example =
    cond_broadcast-IsChosen desk (2 ∷ 1 ∷ []) desk-IsScheduled (unfold enqueue in refl) refl

desk_busy : desk.current ≢ idle
unfolding enqueue
desk_busy = λ e. absurd (omega (arith, e))

wait_begin-IsAsleep_example :
    (k' : Kernel) × (wait_begin 2 0 (1 ∷ []) desk ≡ ok (1 ∷ desk.current ∷ [], k'))
    × IsAsleep desk.current 0 k'
wait_begin-IsAsleep_example =
    wait_begin-IsAsleep desk 0 2 (1 ∷ []) desk-IsScheduled desk-IsSound (unfold enqueue in refl)
      desk_busy (unfold enqueue in refl) (unfold enqueue in refl) (unfold enqueue in refl)
      (omega arith)

abbrev clocks : Clocks
clocks = record {
  ticks = 2 ^ 32 - 1;
  wall = record { tv_sec = 0; tv_usec = 0 };
  monotonic_clock = record { tv_sec = 0; tv_usec = 0 };
  error_code = 0;
}

abbrev machine : Machine
machine = record { kernel = desk; timers = pair; clocks = clocks }

desk_timer : (pair.timer desk.current).i ≡ 2 ^ 32 - 1
unfolding enqueue
desk_timer = refl

sleep_begin-IsSleeping_example :
    (s' : Machine) × (sleep_begin 3 machine ≡ ok s')
    × IsSleeping (2 ^ 32 - 10) desk.current ((2 ^ 32 - 1 + 3 * 100) % 2 ^ 32) s'
sleep_begin-IsSleeping_example =
    sleep_begin-IsSleeping (2 ^ 32 - 10) 3 machine pair-IsValid (omega arith)
      (λ h. absurd (omega (arith, h.0, desk_timer))) (omega arith) desk-IsScheduled
      (unfold enqueue in refl) desk_busy

-- Thread 0 of Desk with a last tick of its time slice
abbrev nearly_spent : Kernel
nearly_spent = set_thread 0 (record (desk.threads 0) { timeslice = 1 }) desk

-- The same in an interrupt
abbrev in_interrupt : Machine
in_interrupt = record machine { kernel = record desk { in_irq = true } }

interrupted-IsScheduled : IsScheduled in_interrupt.kernel
interrupted-IsScheduled =
    settle-IsScheduled desk in_interrupt.kernel refl refl refl
      (λ t. record { linked = refl; effective = refl; base = refl }) (λ t n. refl) (λ t r. r)
      desk-IsScheduled.idle_runs desk-IsScheduled

timer_update-IsFired_example :
    (s' : Machine) × (due : List ℕ) × (timer_update in_interrupt ≡ ok s')
    × (s'.clocks ≡ tick clocks)
    × IsFired (2 ^ 32 - 10) (tick clocks).ticks pair s'.timers due
    × IsScheduled s'.kernel
    × ((t : ℕ)
        → (s'.kernel.threads t).state
          ≡ (if ltb 0 (count t due) then State.running else (desk.threads t).state))
timer_update-IsFired_example =
    timer_update-IsFired (2 ^ 32 - 10) in_interrupt pair-IsValid (unfold tick in omega arith)
      interrupted-IsScheduled refl

-- Memory before the kernel starts
abbrev unused : Kernel
unused = record blank {
  threads = λ t. thread State.none 0 none [];
  mutexes = λ m. mutex Lock.taken [] none 0;
}

unused-IsUnused : IsUnused unused
unused-IsUnused = record {
  states = λ t. refl;
  linked = λ t. refl;
  bounded = λ t. omega arith;
  based = λ t. omega arith;
}

abbrev started : Kernel
started = pthread_init 4096 unused

pthread_init-IsScheduled_example :
    IsScheduled started
    × ((t : ℕ) → (started.threads t).linked ≡ (idle == t))
    × (started.current ≡ idle)
    × (pthread_foreach started ≡ idle ∷ [])
    × ((started.threads idle).mutex_queue ≡ [])
    × ((started.threads idle).sleep_on ≡ none)
    × ((started.threads idle).effective_priority ≡ 0)
    × ((started.threads idle).priority ≡ 0)
    × ((started.threads idle).timeslice ≡ timeslice_max)
    × (started.mutexes ≡ unused.mutexes)
pthread_init-IsScheduled_example = pthread_init-IsScheduled 4096 unused unused-IsUnused
