-- ===== src/Threads/Create.antt =====
-- pthread_create.
use turnix.Base.{
  ℕ, zero, suc, ◌+◌, ◌≡◌, ◌≢◌, ◌≤◌, ◌<◌, ◌⊎◌, inl, inr, refl, ap, ◌∙◌, true, false, Option, none,
  some, arith, Bool-cases, Option-cases, ℕ_discrete,
}
use turnix.Kernel.{Kernel, Thread, State, set_thread, ok, max_num, ◌>>=◌}
use turnix.RunQueue.WellFormed.{set_thread-IsQueued, unqueued-IsQueued}
use turnix.RunQueue.{enqueue}
use turnix.Sched.{schedule, wake_up, set_running}
use turnix.Sched.Choice.{IsScheduled, IsChosen, schedule-IsChosen}
use turnix.Sched.Irq.{set_running-IsScheduled}
use turnix.Threads.{Attr, is_none_state, find_slot, fresh, claim, pthread_create, eagain}

-- What the search returns: the first unused entry, or none where there is none.
abbrev pub IsSlot : ℕ → ℕ → Kernel → Option ℕ → Type 0
IsSlot n i k none = (j : ℕ) → i ≤ j → j < i + n → (k.threads j).state ≢ State.none
IsSlot n i k (some s) =
    (i ≤ s)
    × (s < i + n)
    × ((k.threads s).state ≡ State.none)
    × ((j : ℕ) → i ≤ j → j < s → (k.threads j).state ≢ State.none)

used : (s : State) → is_none_state s ≡ false → s ≢ State.none
used s h e = ground (arith, ap is_none_state e)

unused : (s : State) → is_none_state s ≡ true → s ≡ State.none
unused State.none h = refl
unused State.init h = absurd (ground arith)
unused State.running h = absurd (ground arith)
unused State.sleeping h = absurd (ground arith)
unused State.exit h = absurd (ground arith)

extend :
    (n i : ℕ) (k : Kernel) (r : Option ℕ)
    → (k.threads i).state ≢ State.none
    → IsSlot n (i + 1) k r
    → IsSlot (suc n) i k r
extend n i k none h f = λ j p q. elim (ℕ_discrete i j) [
  | yes e ↦ λ z. h (ap (λ (x : ℕ). (k.threads x).state) e ∙ z)
  | no ne ↦ f j (omega arith) (omega arith)
]
extend n i k (some s) h (a, b, c, f) = (
  omega arith,
  omega arith,
  c,
  λ j p q. elim (ℕ_discrete i j) [
    | yes e ↦ λ z. h (ap (λ (x : ℕ). (k.threads x).state) e ∙ z)
    | no ne ↦ f j (omega arith) q
  ],
)

find_slot-IsSlot : (n i : ℕ) (k : Kernel) → IsSlot n i k (find_slot n i k)
unfolding find_slot
find_slot-IsSlot zero i k = λ j p q. absurd (omega arith)
find_slot-IsSlot (suc n) i k = elim (Bool-cases (is_none_state (k.threads i).state)) [
  | inl yes_none ↦
      rw yes_none (omega arith, omega arith, unused _ yes_none, λ j p q. absurd (omega arith))
  | inr other ↦ rw other (extend n i k _ (used _ other) (find_slot-IsSlot n (i + 1) k))
]

-- The thread is new, has the attributes given, and runs.
pub record IsCreated (attr : Attr) (k : Kernel) (i : ℕ) (k' : Kernel) : Type 0 where
  pub scheduled : IsScheduled k'
  pub state : (k'.threads i).state ≡ State.running
  pub linked : (k'.threads i).linked ≡ true
  pub priority : (k'.threads i).priority ≡ attr.priority
  pub effective : (k'.threads i).effective_priority ≡ attr.priority
  pub flags : (k'.threads i).flags ≡ attr.flags
  pub waiter : (k'.threads i).waiter ≡ none
  pub others : (t : ℕ) → t ≢ i → (k'.threads t).state ≡ (k.threads t).state

module _ (attr : Attr) (k : Kernel) (i : ℕ) where
  abbrev filled : Kernel
  filled = set_thread i (fresh attr ((claim i k).threads i)) (claim i k)

  filled-IsScheduled :
      attr.priority ≤ 31
      → i < 32
      → (k.threads i).state ≡ State.none
      → (k.threads k.current).state ≡ State.running
      → IsScheduled k
      → IsScheduled filled
  filled-IsScheduled p h e runs v =
      let off : (k.threads i).linked ≡ false = ground (arith, v.ready i) in
      let a =
        set_thread-IsQueued k i (record (k.threads i) { state = State.init }) v.queue
          (v.queue.based i) refl refl in
      record {
        queue =
            unqueued-IsQueued (claim i k) i (fresh attr ((claim i k).threads i)) a refl
              (ground (arith, off)) p p;
        ready = λ t. ground (arith, v.ready t);
        kept = λ t. ground (arith, v.kept t);
        idle_runs = ground (arith, v.idle_runs);
      }

  create_fails : find_slot max_num 0 k ≡ none → pthread_create attr k ≡ ok (eagain, none, k)
  unfolding pthread_create
  create_fails e = rw (pthread_create, e)

  create_wakes :
      find_slot max_num 0 k ≡ some i
      → pthread_create attr k ≡ (schedule (set_running i filled) >>= λ r. ok (0, some i, r))
  unfolding pthread_create wake_up
  create_wakes e = rw (pthread_create, e)

  -- Waking the thread changes its state and its link, and of the others nothing.
  woken_fields :
      (((set_running i filled).threads i).state ≡ State.running)
      × (((set_running i filled).threads i).priority ≡ attr.priority)
      × (((set_running i filled).threads i).effective_priority ≡ attr.priority)
      × (((set_running i filled).threads i).flags ≡ attr.flags)
      × (((set_running i filled).threads i).waiter ≡ none)
      × ((set_running i filled).in_irq ≡ k.in_irq)
  unfolding set_running enqueue
  woken_fields = ground arith

  woken_others : (t : ℕ) → t ≢ i → ((set_running i filled).threads t).state ≡ (k.threads t).state
  unfolding set_running enqueue
  woken_others t n = ground arith

  woken-IsCreated : (k' : Kernel) → IsChosen (set_running i filled) k' → IsCreated attr k i k'
  woken-IsCreated k' c =
      let (state, prio, eff, flags, waiter, irq) = woken_fields in
      let runs = c.states i ∙ state in
      record {
        scheduled = c.scheduled;
        state = runs;
        linked = c.scheduled.kept i runs;
        priority = ap (λ (th : Thread). th.priority) (c.threads i) ∙ prio;
        effective = ap (λ (th : Thread). th.effective_priority) (c.threads i) ∙ eff;
        flags = ap (λ (th : Thread). th.flags) (c.threads i) ∙ flags;
        waiter = ap (λ (th : Thread). th.waiter) (c.threads i) ∙ waiter;
        others = λ t n. c.states t ∙ woken_others t n;
      }

-- pthread_create outside an interrupt, by a running thread and with a priority in range: with no
-- unused entry it changes nothing and fails; else it makes a running thread with the attributes
-- given of the first unused entry, and keeps the scheduler's invariant.
pub pthread_create-IsCreated :
    (attr : Attr) (k : Kernel)
    → IsScheduled k
    → k.in_irq ≡ false
    → (k.threads k.current).state ≡ State.running
    → attr.priority ≤ 31
    → (((j : ℕ) → j < 32 → (k.threads j).state ≢ State.none)
        × (pthread_create attr k ≡ ok (eagain, none, k)))
      ⊎ ((i : ℕ) × (k' : Kernel) × (pthread_create attr k ≡ ok (0, some i, k'))
          × IsSlot max_num 0 k (some i)
          × IsCreated attr k i k')
pthread_create-IsCreated attr k v out runs p =
    let s = find_slot-IsSlot max_num 0 k in
    elim (Option-cases (find_slot max_num 0 k)) [
      | inl e ↦
          let full : IsSlot max_num 0 k none = rw e at s in
          inl ((λ j h. full j (omega arith) (omega arith)), create_fails attr k 0 e)
      | inr (i, e) ↦
          let slot : IsSlot max_num 0 k (some i) = rw e at s in
          let (from, low, unused_now, first) = slot in
          let (state, prio, eff, flags, waiter, irq) = woken_fields attr k i in
          let w = filled-IsScheduled attr k i p (omega (arith, low)) unused_now runs v in
          let (k', ran, c) =
            schedule-IsChosen (set_running i (filled attr k i))
              (set_running-IsScheduled (filled attr k i) i w) (irq ∙ out) in
          inr (i, k', create_wakes attr k i e ∙ rw ran, slot, woken-IsCreated attr k i k' c)
    ]
