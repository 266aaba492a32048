-- ===== src/RunQueue/WellFormed.antt =====
-- The invariant of the run queue, and that its operations keep it.
use turnix.Base.{
  ℕ, ◌-◌, ◌^◌, ◌≡◌, ◌≤◌, Bool, false, not, ◌&&◌, [], ◌∷◌, arith, ◌==◌, if◌then◌else◌, test_bit,
  test_bit-bit_and, test_bit-bit_or, test_bit-pow, test_bit_complement,
}
use turnix.Kernel.{Kernel, Thread, set_thread}
use turnix.RunQueue.{enqueue, dequeue}
use turnix.RunQueue.Queues.{
  is_empty, count, count-append, count-remove, count_of_empty, is_empty-append,
}

-- A linked thread stands once in the queue of its effective priority and in no other, no other
-- thread stands in any, the bitmap has a digit for each queue that is not empty, and
-- no priority is above 31.
pub record IsQueued (k : Kernel) : Type 0 where
  pub placed :
      (t p : ℕ)
      → count t (k.level p)
        ≡ (if (k.threads t).linked && ((k.threads t).effective_priority == p) then 1 else 0)
  pub bits : (p : ℕ) → p ≤ 31 → test_bit (31 - p) k.bitmap ≡ not (is_empty (k.level p))
  pub bounded : (t : ℕ) → (k.threads t).effective_priority ≤ 31
  pub based : (t : ℕ) → (k.threads t).priority ≤ 31

module _ (k : Kernel) (v : IsQueued k) (t : ℕ) where
  abbrev eff : ℕ
  eff = (k.threads t).effective_priority

  enqueue_placed :
      (head : Bool)
      → (k.threads t).linked ≡ false
      → (s p : ℕ)
      → count s ((enqueue t head k).level p) ≡ (
          if ((enqueue t head k).threads s).linked
            && (((enqueue t head k).threads s).effective_priority == p)
          then 1
          else 0)
  unfolding enqueue count
  enqueue_placed head h s p =
      ground (arith, v.placed s p, v.placed t p, count-append s (k.level eff) (t ∷ []))

  enqueue_bits :
      (head : Bool) (p : ℕ)
      → p ≤ 31
      → test_bit (31 - p) (enqueue t head k).bitmap ≡ not (is_empty ((enqueue t head k).level p))
  unfolding enqueue
  enqueue_bits head p h = ground (
    arith,
    v.bits p h,
    v.bounded t,
    test_bit-bit_or (31 - p) k.bitmap (2 ^ (31 - eff)),
    test_bit-pow (31 - p) (31 - eff),
    is_empty-append (k.level eff) t,
  )

  dequeue_placed :
      (s p : ℕ)
      → count s ((dequeue t k).level p) ≡ (
          if ((dequeue t k).threads s).linked && (((dequeue t k).threads s).effective_priority == p)
          then 1
          else 0)
  unfolding dequeue
  dequeue_placed s p =
      ground (arith, v.placed s p, v.placed t p, v.placed t eff, count-remove s t (k.level eff))

  dequeue_bits :
      (p : ℕ)
      → p ≤ 31
      → test_bit (31 - p) (dequeue t k).bitmap ≡ not (is_empty ((dequeue t k).level p))
  unfolding dequeue
  dequeue_bits p h = ground (
    arith,
    v.bits p h,
    v.bits eff (v.bounded t),
    v.bounded t,
    v.placed t eff,
    test_bit-bit_and (31 - p) k.bitmap (2 ^ 32 - 1 - 2 ^ (31 - eff)),
    test_bit_complement 32 (31 - p) (31 - eff),
    count_of_empty t (k.level eff),
  )

-- Queueing a thread that stands in no queue keeps the run queue well formed, at either end.
pub enqueue-IsQueued :
    (k : Kernel) (t : ℕ) (head : Bool)
    → IsQueued k
    → (k.threads t).linked ≡ false
    → IsQueued (enqueue t head k)
unfolding enqueue
enqueue-IsQueued k t head v h = record {
  placed = enqueue_placed k v t head h;
  bits = enqueue_bits k v t head;
  bounded = λ s. ground (arith, v.bounded s);
  based = λ s. ground (arith, v.based s);
}

-- Taking a thread out of the run queue keeps it well formed, whether the thread was queued or not.
pub dequeue-IsQueued : (k : Kernel) (t : ℕ) → IsQueued k → IsQueued (dequeue t k)
unfolding dequeue
dequeue-IsQueued k t v = record {
  placed = dequeue_placed k v t;
  bits = dequeue_bits k v t;
  bounded = λ s. ground (arith, v.bounded s);
  based = λ s. ground (arith, v.based s);
}

-- A write of a thread that leaves its link and its effective priority alone.
pub set_thread-IsQueued :
    (k : Kernel) (t : ℕ) (th : Thread)
    → IsQueued k
    → th.priority ≤ 31
    → th.linked ≡ (k.threads t).linked
    → th.effective_priority ≡ (k.threads t).effective_priority
    → IsQueued (set_thread t th k)
set_thread-IsQueued k t th v base a b = record {
  placed = λ s p. ground (arith, v.placed s p);
  bits = v.bits;
  bounded = λ s. ground (arith, v.bounded s);
  based = λ s. ground (arith, v.based s);
}

-- A new effective priority for a thread that stands in no queue.
pub unqueued-IsQueued :
    (k : Kernel) (t : ℕ) (th : Thread)
    → IsQueued k
    → th.linked ≡ false
    → (k.threads t).linked ≡ false
    → th.effective_priority ≤ 31
    → th.priority ≤ 31
    → IsQueued (set_thread t th k)
unqueued-IsQueued k t th v a b c base = record {
  placed = λ s p. ground (arith, v.placed s p);
  bits = v.bits;
  bounded = λ s. ground (arith, v.bounded s);
  based = λ s. ground (arith, v.based s);
}
