-- ===== src/Timeout/Update.antt =====
-- timer_update: the sleepers whose time has come run.
use turnix.Base.{
  ℕ, ◌+◌, ◌-◌, ◌%◌, ◌^◌, ◌≡◌, ◌<◌, refl, sym, ap, ◌∙◌, true, none, List, [], ◌∷◌, arith, ◌==◌,
  if◌then◌else◌, ltb, Bool-cases, inl, inr,
}
use turnix.Kernel.{Kernel, State, ok, set_thread}
use turnix.RunQueue.Queues.{count}
use turnix.Sched.{schedule, set_running, wake_up}
use turnix.Sched.Choice.{IsScheduled}
use turnix.Sched.Settle.{settle-IsScheduled}
use turnix.Sched.Irq.{
  set_running-IsScheduled, set_running_state, set_running_irq, set_running_others,
}
use turnix.Sched.Awake.{AllRun, AllRun-nil, AllRun-cons, AllRun-states}
use turnix.Timer.Window.{distance}
use turnix.Timer.Insert.{IsValid}
use turnix.Timer.Fire.{IsFired, fire-IsFired}
use turnix.Clock.{Clocks, tick}
use turnix.Timeout.{Machine, wake_all, account, spend, timer_update}

-- In an interrupt `wake_up` leaves the choice to the end of the interrupt.
abbrev deferred : ℕ → Kernel → Kernel
deferred t k = record (set_running t k) { next = none }

wake_up-deferred : (k : Kernel) (t : ℕ) → k.in_irq ≡ true → wake_up t k ≡ ok (deferred t k)
unfolding wake_up schedule
wake_up-deferred k t e = rw (set_running_irq k t ∙ e)

settled :
    (k k' : Kernel)
    → k'.level ≡ k.level
    → k'.bitmap ≡ k.bitmap
    → k'.current ≡ k.current
    → k'.threads ≡ k.threads
    → IsScheduled k
    → IsScheduled k'
settled k k' l b c th v =
    settle-IsScheduled k k' l b c
      (λ t. rw th (record { linked = refl; effective = refl; base = refl })) (λ t n. rw th)
      (λ t r. sym (ap (λ f. (f t).state) th) ∙ r) (rw th v.idle_runs) v

wake_all-AllRun :
    (ts : List ℕ) (k : Kernel)
    → IsScheduled k
    → k.in_irq ≡ true
    → (r : Kernel) × (wake_all ts k ≡ ok r) × AllRun k r ts
unfolding wake_all
wake_all-AllRun [] k v e = (k, refl, AllRun-nil k v)
wake_all-AllRun (t ∷ ts) k v e =
    let k1 = deferred t k in
    let v1 = settled (set_running t k) k1 refl refl refl refl (set_running-IsScheduled k t v) in
    let (r, ran, all) = wake_all-AllRun ts k1 v1 (set_running_irq k t ∙ e) in
    (
      r,
      rw (wake_up-deferred k t e) ran,
      AllRun-cons k k1 r t ts (set_running_irq k t) (set_running_state k t) (set_running_others k t)
          all,
    )

account-IsScheduled : (k : Kernel) → IsScheduled k → IsScheduled (account k)
account-IsScheduled k v =
    settle-IsScheduled k (account k) refl refl refl (λ t. ground arith) (λ t n. ground arith)
      (λ t r. ground (arith, r)) (ground (arith, v.idle_runs)) v

account_state : (k : Kernel) (t : ℕ) → ((account k).threads t).state ≡ (k.threads t).state
account_state k t = ground arith

tick_word : (c : Clocks) → (tick c).ticks < 2 ^ 32
unfolding tick
tick_word c = omega arith

-- The current thread has another time slice.
abbrev with_slice : ℕ → Kernel → Kernel
with_slice n k = set_thread k.current (record (k.threads k.current) { timeslice = n }) k

with_slice-IsScheduled : (n : ℕ) (k : Kernel) → IsScheduled k → IsScheduled (with_slice n k)
with_slice-IsScheduled n k v =
    settle-IsScheduled k (with_slice n k) refl refl refl (λ t. ground arith) (λ t h. ground arith)
      (λ t r. ground (arith, r)) (ground (arith, v.idle_runs)) v

pub spend_kept :
    (k : Kernel)
    → IsScheduled k
    → IsScheduled (spend k) × ((t : ℕ) → ((spend k).threads t).state ≡ (k.threads t).state)
spend_kept k v =
    let left = ((k.threads k.current).timeslice + 256 - 1) % 256 in
    let k' = with_slice left k in
    let w = with_slice-IsScheduled left k v in
    let same : (t : ℕ) → (k'.threads t).state ≡ (k.threads t).state = λ t. ground arith in
    elim (Bool-cases (left == 0)) [
      | inl e ↦ rw e (settled k' (record k' { next = none }) refl refl refl refl w, same)
      | inr e ↦ rw e (w, same)
    ]

-- timer_update in the interrupt of the timer, in a window of the tick count that all timers lie in: it
-- returns; the ticks and the clocks advance; the timers that are due, and no others, leave the heap;
-- the thread of each of them runs, every other is in the state that it was in, and the invariant of
-- the scheduler holds.
pub timer_update-IsFired :
    (base : ℕ) (s : Machine)
    → IsValid base s.timers
    → distance base (tick s.clocks).ticks < 2 ^ 31
    → IsScheduled s.kernel
    → s.kernel.in_irq ≡ true
    → (s' : Machine) × (due : List ℕ) × (timer_update s ≡ ok s')
      × (s'.clocks ≡ tick s.clocks)
      × IsFired base (tick s.clocks).ticks s.timers s'.timers due
      × IsScheduled s'.kernel
      × ((t : ℕ)
          → (s'.kernel.threads t).state
            ≡ (if ltb 0 (count t due) then State.running else (s.kernel.threads t).state))
unfolding timer_update
timer_update-IsFired base s valid near v irq =
    let now = (tick s.clocks).ticks in
    let (timers, due, fired, f) =
      fire-IsFired (s.timers.n + 1) base now s.timers (omega arith) valid (tick_word s.clocks)
        near in
    let (k, ran, all) =
      wake_all-AllRun due (account s.kernel) (account-IsScheduled s.kernel v) irq in
    let (v', same) = spend_kept k all.scheduled in
    (
      record { kernel = spend k; timers = timers; clocks = tick s.clocks },
      due,
      rw (fired, ran),
      refl,
      f,
      v',
      λ t.
          same t
          ∙ AllRun-states (account s.kernel) k due t all
          ∙ ap (λ st. if ltb 0 (count t due) then State.running else st) (account_state s.kernel t),
    )
