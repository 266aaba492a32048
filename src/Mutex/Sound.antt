-- ===== src/Mutex/Sound.antt =====
-- The invariant of the mutexes.
use turnix.Base.{
  ℕ, ◌≡◌, ◌≢◌, ◌<◌, sym, ap, ◌∙◌, Bool, true, false, Option, none, some, List, [], ◌∷◌, arith, ◌==◌,
  ==_iff, inl, inr, if◌then◌else◌, Bool-cases,
}
use turnix.Kernel.{Kernel, Thread, State, Lock}
use turnix.RunQueue.Queues.{count, is_empty, count-append}
use turnix.Sched.{is_thread}
use turnix.Sched.Choice.{IsChosen}
use turnix.Inherit.Total.{IsKept}
use turnix.Mutex.{is_free, own}

abbrev pub is_contended : Lock → Bool
is_contended Lock.contended = true
is_contended _ = false

abbrev pub is_none : Option ℕ → Bool
is_none none = true
is_none (some x) = false

-- Some thread in the queue is awake, and will look at the lock.
abbrev pub HasAwake : Kernel → List ℕ → Type 0
HasAwake k q = (w : ℕ) × (0 < count w q) × ((k.threads w).state ≡ State.running)

-- A mutex stands in the list of its owner, once, and in no other; it is free exactly if it has no
-- owner; a thread stands in the queue of the mutex that it waits for, once, and in no other; and
-- where the lock does not say that there are waiters, one of them is awake if there is any.
pub record IsSound (k : Kernel) : Type 0 where
  pub held :
      (t m : ℕ)
      → count m (k.threads t).mutex_queue ≡ (if is_thread (k.mutexes m).owner t then 1 else 0)
  pub free : (m : ℕ) → is_free (k.mutexes m).lock ≡ is_none (k.mutexes m).owner
  pub waits :
      (t m : ℕ) → count t (k.mutexes m).wq ≡ (if is_thread (k.threads t).sleep_on m then 1 else 0)
  pub awake :
      (m : ℕ)
      → is_contended (k.mutexes m).lock ≡ false
      → is_empty (k.mutexes m).wq ≡ false
      → HasAwake k (k.mutexes m).wq

-- The same, but for the lock of one mutex, which is being handed over.
pub record IsSoundBut (m : ℕ) (k : Kernel) : Type 0 where
  pub held :
      (t i : ℕ)
      → count i (k.threads t).mutex_queue ≡ (if is_thread (k.mutexes i).owner t then 1 else 0)
  pub free : (i : ℕ) → m ≢ i → is_free (k.mutexes i).lock ≡ is_none (k.mutexes i).owner
  pub waits :
      (t i : ℕ) → count t (k.mutexes i).wq ≡ (if is_thread (k.threads t).sleep_on i then 1 else 0)
  pub awake :
      (i : ℕ)
      → m ≢ i
      → is_contended (k.mutexes i).lock ≡ false
      → is_empty (k.mutexes i).wq ≡ false
      → HasAwake k (k.mutexes i).wq

pub IsSound-but : (m : ℕ) (k : Kernel) → IsSound k → IsSoundBut m k
IsSound-but m k s = record {
  held = s.held;
  free = λ i n. s.free i;
  waits = s.waits;
  awake = λ i n. s.awake i;
}

-- What the invariant reads is unchanged, and nobody went to sleep.
pub record Agrees (k k' : Kernel) : Type 0 where
  pub holds : (t : ℕ) → (k'.threads t).mutex_queue ≡ (k.threads t).mutex_queue
  pub sleeps : (t : ℕ) → (k'.threads t).sleep_on ≡ (k.threads t).sleep_on
  pub mutexes : (m : ℕ) → k'.mutexes m ≡ k.mutexes m
  pub runs : (t : ℕ) → (k.threads t).state ≡ State.running → (k'.threads t).state ≡ State.running

pub Agrees-IsSound : (k k' : Kernel) → Agrees k k' → IsSound k → IsSound k'
Agrees-IsSound k k' a s = record {
  held = λ t m. rw (a.holds t, a.mutexes m) (s.held t m);
  free = λ m. rw (a.mutexes m) (s.free m);
  waits = λ t m. rw (a.sleeps t, a.mutexes m) (s.waits t m);
  awake = λ m. rw (a.mutexes m) λ c e. let (w, i, r) = s.awake m c e in (w, i, a.runs w r);
}

pub IsKept-Agrees : (k k' : Kernel) → IsKept k k' → Agrees k k'
IsKept-Agrees k k' p = record {
  holds = p.holds;
  sleeps = p.sleeps;
  mutexes = p.mutexes;
  runs = λ t r. p.states t ∙ r;
}

pub IsChosen-Agrees : (k k' : Kernel) → IsChosen k k' → Agrees k k'
IsChosen-Agrees k k' c = record {
  holds = λ t. ap (λ (th : Thread). th.mutex_queue) (c.threads t);
  sleeps = λ t. ap (λ (th : Thread). th.sleep_on) (c.threads t);
  mutexes = c.mutexes;
  runs = λ t r. c.states t ∙ r;
}

-- Only the owner has the mutex in its list.
pub owner_only :
    (k : Kernel) (t m : ℕ)
    → IsSound k
    → 0 < count m (k.threads t).mutex_queue
    → (k.mutexes m).owner ≡ some t
owner_only k t m s h = ground (arith, s.held t m)

pub HasAwake-move :
    (k k' : Kernel) (q q' : List ℕ)
    → q' ≡ q
    → ((t : ℕ) → (k.threads t).state ≡ State.running → (k'.threads t).state ≡ State.running)
    → HasAwake k q
    → HasAwake k' q'
HasAwake-move k k' q q' e runs (w, i, r) = (w, rw e i, runs w r)

module _ (k : Kernel) (m : ℕ) (l : Lock) where
  own_state : (t : ℕ) → ((own m l k).threads t).state ≡ (k.threads t).state
  unfolding own
  own_state t = ground arith

  own_wq : (i : ℕ) → ((own m l k).mutexes i).wq ≡ (k.mutexes i).wq
  unfolding own
  own_wq i = ground arith

  own_lock : (i : ℕ) → ((own m l k).mutexes i).lock ≡ (if m == i then l else (k.mutexes i).lock)
  unfolding own
  own_lock i = ground arith

  own_held :
      IsSoundBut m k
      → (k.mutexes m).owner ≡ none
      → (t i : ℕ)
      → count i ((own m l k).threads t).mutex_queue
        ≡ (if is_thread ((own m l k).mutexes i).owner t then 1 else 0)
  unfolding own count
  own_held s nobody t i = ground (
    arith,
    s.held t i,
    s.held k.current i,
    s.held t m,
    count-append i (k.threads k.current).mutex_queue (m ∷ []),
  )

  own_awake :
      IsSoundBut m k
      → (is_contended l ≡ false → is_empty (k.mutexes m).wq ≡ false → HasAwake k (k.mutexes m).wq)
      → (i : ℕ) → is_contended ((own m l k).mutexes i).lock ≡ false
      → is_empty ((own m l k).mutexes i).wq ≡ false
      → HasAwake (own m l k) ((own m l k).mutexes i).wq
  own_awake s fresh i c e =
      let filled : is_empty (k.mutexes i).wq ≡ false = rw (own_wq i) at e in
      HasAwake-move k (own m l k) (k.mutexes i).wq _ (own_wq i) (λ t r. own_state t ∙ r)
        (elim (Bool-cases (m == i)) [
          | inl same ↦
              let at : m ≡ i = (==_iff m i).0 same in
              rw (← at) (fresh (ground (arith, own_lock i)) (rw at filled))
          | inr other ↦
              s.awake i (λ e. cc (sym other ∙ (==_iff m i).1 e)) (ground (arith, own_lock i)) filled
        ])

  -- Taking a mutex that nobody owns, with a lock value that says whether there are waiters.
  pub own-IsSound :
      IsSoundBut m k
      → (k.mutexes m).owner ≡ none
      → is_free l ≡ false
      → (is_contended l ≡ false → is_empty (k.mutexes m).wq ≡ false → HasAwake k (k.mutexes m).wq)
      → IsSound (own m l k)
  unfolding own
  own-IsSound s nobody taken fresh = record {
    held = own_held s nobody;
    free = λ i. ground (arith, s.free i);
    waits = λ t i. ground (arith, s.waits t i);
    awake = own_awake s fresh;
  }
