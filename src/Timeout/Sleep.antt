-- ===== src/Timeout/Sleep.antt =====
-- sleep and schedule_timeout: the caller sleeps, and its timer is in the heap.
use turnix.Base.{ℕ, ◌+◌, ◌*◌, ◌%◌, ◌^◌, ◌≡◌, ◌≢◌, ◌<◌, refl, sym, ap, ◌∙◌, false, arith, subst}
use turnix.Kernel.{Kernel, State, Run, ok, ◌>>=◌, idle}
use turnix.Sched.{schedule}
use turnix.Sched.Choice.{IsScheduled, schedule-IsChosen}
use turnix.Sched.Settle.{settle-IsScheduled}
use turnix.Timer.{Timers, timer_add, timer_max, expiry}
use turnix.Timer.Window.{distance, parent}
use turnix.Timer.Swap.{Holds}
use turnix.Timer.Insert.{IsValid, timer_add-IsAdded}
use turnix.Timeout.{
  Machine, set_expires, timeout_arm, timeout_block, timeout_begin, set_sleeping, sleep_begin,
}

pub set_sleeping-IsScheduled :
    (k : Kernel) → k.current ≢ idle → IsScheduled k → IsScheduled (set_sleeping k)
set_sleeping-IsScheduled k ne v =
    settle-IsScheduled k (set_sleeping k) refl refl refl (λ t. ground arith)
      (λ t n. ground (arith, n)) (λ t r. ground (arith, r)) (ground (arith, ne, v.idle_runs)) v

-- The time of a timer that is not in the heap may change.
module _ (base t e : ℕ) (s : Timers) (v : IsValid base s) (out : ¬ (Holds s t)) where
  not_there : (j : ℕ) → j < s.n → t ≢ s.heap j
  not_there j h x =
      let at : (s.timer t).i ≡ j = ap (λ (u : ℕ). (s.timer u).i) x ∙ v.timed.links j h in
      out (omega (arith, at, h), ap s.heap at ∙ sym x)

  still_out : ¬ (Holds (set_expires t e s) t)
  still_out (inside, at) =
      let same : ((set_expires t e s).timer t).i ≡ (s.timer t).i = ground arith in
      out (omega (arith, inside, same), ap s.heap (sym same) ∙ at)

  same_expiry : (j : ℕ) → j < s.n → expiry (set_expires t e s) j ≡ expiry s j
  same_expiry j h = ground (arith, not_there j h)

  set_expires-IsValid : IsValid base (set_expires t e s)
  set_expires-IsValid = record {
    timed = record {
      start = v.timed.start;
      links = λ j h. ground (arith, v.timed.links j h);
      word = λ j h. omega (arith, same_expiry j h, v.timed.word j h);
      near = λ j h. rw (same_expiry j h) (v.timed.near j h);
    };
    heap = λ c p q. rw (same_expiry (parent c) (omega (arith, q)), same_expiry c q) (v.heap c p q);
    fits = v.fits;
  }

-- What `schedule_timeout` leaves when its thread has gone to sleep.
pub record IsSleeping (base t e : ℕ) (s' : Machine) : Type 0 where
  pub valid : IsValid base s'.timers
  pub armed : Holds s'.timers t
  pub expires : (s'.timers.timer t).expires ≡ e
  pub scheduled : IsScheduled s'.kernel
  pub sleeps : (s'.kernel.threads t).state ≡ State.sleeping
  pub other : s'.kernel.current ≢ t

begin_runs :
    (timeout : ℕ) (s : Machine) (ts : Timers) (k : Kernel)
    → s.kernel.in_irq ≡ false
    → timer_add s.kernel.current
        (set_expires s.kernel.current ((s.clocks.ticks + timeout) % 2 ^ 32) s.timers)
      ≡ ok ts
    → schedule s.kernel ≡ ok k
    → timeout_begin timeout s ≡ ok (record s { kernel = k; timers = ts })
unfolding timeout_begin timeout_arm timeout_block
begin_runs timeout s ts k out added chose =
    let arms : timeout_arm timeout s ≡ ok (record s { timers = ts }) = rw (added, out) in
    ap (λ r. r >>= timeout_block) arms
    ∙ ap (λ (r : Run Kernel). r >>= λ u. ok (record s { kernel = u; timers = ts })) chose

begin :
    (base timeout : ℕ) (s : Machine)
    → let t = s.kernel.current in
      let e = (s.clocks.ticks + timeout) % 2 ^ 32 in
      IsValid base s.timers
      → s.timers.n < timer_max
      → ¬ (Holds s.timers t)
      → distance base e < 2 ^ 31
      → IsScheduled s.kernel
      → s.kernel.in_irq ≡ false
      → (s.kernel.threads t).state ≡ State.sleeping
      → (s' : Machine) × (timeout_begin timeout s ≡ ok s') × IsSleeping base t e s'
begin base timeout s v room out near ready irq asleep =
    let t = s.kernel.current in
    let e = (s.clocks.ticks + timeout) % 2 ^ 32 in
    let armed = set_expires t e s.timers in
    let set : (armed.timer t).expires ≡ e = ground arith in
    let (ts, added, a) =
      timer_add-IsAdded base t armed (set_expires-IsValid base t e s.timers v out) room
        (still_out base t e s.timers v out) (omega (arith, set)) (rw set near) in
    let (k, chose, c) = schedule-IsChosen s.kernel ready irq in
    (
      record s { kernel = k; timers = ts },
      begin_runs timeout s ts k irq added chose,
      record {
        valid = a.valid;
        armed = a.inside;
        expires = a.times t ∙ set;
        scheduled = c.scheduled;
        sleeps = c.states t ∙ asleep;
        other = λ x.
            absurd (
              ground (arith, c.running, c.states t, asleep, ap (λ (u : ℕ). (k.threads u).state) x));
      },
    )

-- sleep, outside an interrupt and with no interrupt up to its call of schedule, by a thread that is not the idle one and has no timer in the heap, with
-- room in the heap and a time within 2^31 ticks: another thread goes on, the caller sleeps, and its
-- timer is in the heap, which stays valid, and expires after so many seconds of ticks.
pub sleep_begin-IsSleeping :
    (base seconds : ℕ) (s : Machine)
    → IsValid base s.timers
    → s.timers.n < timer_max
    → ¬ (Holds s.timers s.kernel.current)
    → distance base ((s.clocks.ticks + seconds * 100) % 2 ^ 32) < 2 ^ 31
    → IsScheduled s.kernel
    → s.kernel.in_irq ≡ false
    → s.kernel.current ≢ idle
    → (s' : Machine) × (sleep_begin seconds s ≡ ok s')
      × IsSleeping base s.kernel.current ((s.clocks.ticks + seconds * 100) % 2 ^ 32) s'
unfolding sleep_begin
sleep_begin-IsSleeping base seconds s v room out near ready irq ne =
    let same : (s.clocks.ticks + seconds * 100 % 2 ^ 32) % 2 ^ 32
        ≡ (s.clocks.ticks + seconds * 100) % 2 ^ 32 =
      omega arith in
    let (s', ran, z) =
      begin base (seconds * 100 % 2 ^ 32) (record s { kernel = set_sleeping s.kernel }) v room out
        (rw same near) (set_sleeping-IsScheduled s.kernel ne ready) irq (ground arith) in
    (s', ran, subst (λ (e : ℕ). IsSleeping base s.kernel.current e s') same z)
