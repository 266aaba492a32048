-- ===== src/Threads/Exit.antt =====
-- pthread_exit.
use turnix.Base.{ℕ, ◌≡◌, ◌≢◌, refl, sym, ap, ◌∙◌, false, Option, none, some, arith}
use turnix.Kernel.{Kernel, Thread, State, set_thread, ok, idle}
use turnix.RunQueue.{enqueue}
use turnix.Sched.{schedule, wake_up, set_running}
use turnix.Sched.Choice.{IsScheduled, schedule-IsChosen}
use turnix.Sched.Settle.{settle-IsScheduled}
use turnix.Sched.Irq.{set_running-IsScheduled}
use turnix.Threads.{joiner, last_state, schedule_waking, finish, pthread_exit}

-- The thread has its result and its last state, another thread runs, and the one that waits for a
-- thread which is not detached is awake.
pub record IsExited (retval : ℕ) (k k' : Kernel) : Type 0 where
  pub scheduled : IsScheduled k'
  pub state : (k'.threads k.current).state ≡ last_state (k.threads k.current)
  pub result : (k'.threads k.current).retval ≡ retval
  pub away : k'.current ≢ k.current
  pub woken : (w : ℕ) → joiner (k.threads k.current) ≡ some w → (k'.threads w).state ≡ State.running

module _ (k : Kernel) (retval : ℕ) where
  abbrev me : ℕ
  me = k.current

  abbrev ended : Kernel
  ended =
      set_thread me (record (k.threads me) { retval = retval; state = last_state (k.threads me) }) k

  ended-IsScheduled : me ≢ idle → IsScheduled k → IsScheduled ended
  ended-IsScheduled busy v =
      settle-IsScheduled k ended refl refl refl (λ t. ground arith) (λ t n. ground arith)
        (λ t. ground arith) (ground (arith, v.idle_runs)) v

  exit_steps : pthread_exit retval k ≡ schedule_waking (joiner (k.threads me)) ended
  unfolding pthread_exit finish
  exit_steps = ground arith

-- What is scheduled once the thread has ended.
abbrev roused : Option ℕ → Kernel → Kernel
roused none k = k
roused (some w) k = set_running w k

schedule_waking-roused : (w : Option ℕ) (k : Kernel) → schedule_waking w k ≡ schedule (roused w k)
unfolding schedule_waking wake_up
schedule_waking-roused none k = refl
schedule_waking-roused (some w) k = refl

roused-IsScheduled : (w : Option ℕ) (k : Kernel) → IsScheduled k → IsScheduled (roused w k)
roused-IsScheduled none k v = v
roused-IsScheduled (some w) k v = set_running-IsScheduled k w v

roused_irq : (w : Option ℕ) (k : Kernel) → (roused w k).in_irq ≡ k.in_irq
unfolding set_running enqueue
roused_irq none k = refl
roused_irq (some w) k = ground arith

roused_state :
    (w : Option ℕ) (t : ℕ) (k : Kernel)
    → w ≢ some t
    → ((roused w k).threads t).state ≡ (k.threads t).state
unfolding set_running enqueue
roused_state none t k n = refl
roused_state (some w) t k n = ground arith

roused_awake : (w : ℕ) (k : Kernel) → ((roused (some w) k).threads w).state ≡ State.running
unfolding set_running enqueue
roused_awake w k = ground arith

roused_retval :
    (w : Option ℕ) (t : ℕ) (k : Kernel) → ((roused w k).threads t).retval ≡ (k.threads t).retval
unfolding set_running enqueue
roused_retval none t k = refl
roused_retval (some w) t k = ground arith

roused_current : (w : Option ℕ) (k : Kernel) → (roused w k).current ≡ k.current
unfolding set_running enqueue
roused_current none k = refl
roused_current (some w) k = ground arith

ended_state : (th : Thread) → last_state th ≢ State.running
ended_state th = ground arith

-- pthread_exit outside an interrupt, by a thread that is not the idle one and is not its own waiter:
-- the thread keeps its result and never runs on, its waiter is woken unless it is detached, and the
-- scheduler's invariant holds.
pub pthread_exit-IsExited :
    (k : Kernel) (retval : ℕ)
    → IsScheduled k
    → k.in_irq ≡ false
    → k.current ≢ idle
    → (k.threads k.current).waiter ≢ some k.current
    → (k' : Kernel) × (pthread_exit retval k ≡ ok k') × IsExited retval k k'
pthread_exit-IsExited k retval v out busy other =
    let w = joiner (k.threads k.current) in
    let e = ended k retval in
    let not_self : w ≢ some k.current = ground (arith, other) in
    let r = roused w e in
    let (k', ran, c) =
      schedule-IsChosen r (roused-IsScheduled w e (ended-IsScheduled k retval busy v))
        (roused_irq w e ∙ out) in
    let last : (k'.threads k.current).state ≡ last_state (k.threads k.current) =
      c.states k.current ∙ roused_state w k.current e not_self ∙ ground arith in
    (
      k',
      exit_steps k retval ∙ schedule_waking-roused w e ∙ ran,
      record {
        scheduled = c.scheduled;
        state = last;
        result =
            ap (λ (th : Thread). th.retval) (c.threads k.current)
            ∙ roused_retval w k.current e
            ∙ ground arith;
        away = λ same.
            ended_state (k.threads k.current)
              (sym last ∙ ap (λ (t : ℕ). (k'.threads t).state) (sym same) ∙ c.running);
        woken = λ j is.
            c.states j
            ∙ ap (λ (o : Option ℕ). ((roused o e).threads j).state) is
            ∙ roused_awake j e;
      },
    )
