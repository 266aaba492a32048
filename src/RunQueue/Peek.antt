-- ===== src/RunQueue/Peek.antt =====
-- run_queue_peek finds the head of the queue of the highest priority in use.
use turnix.Base.{
  ℕ, zero, suc, ◌-◌, ◌≡◌, ◌≤◌, ◌<◌, refl, ap, true, false, List, [], ◌∷◌, arith, ffs, FirstSet,
  ffs-FirstSet, test_bit,
}
use turnix.Kernel.{Kernel, ok, panic}
use turnix.RunQueue.{peek}
use turnix.RunQueue.Queues.{count, count_pos-is_empty, count_head, is_empty}
use turnix.RunQueue.WellFormed.{IsQueued}

-- `h` is queued, first of its queue, and no queued thread has a higher effective priority.
pub record IsHighest (k : Kernel) (h : ℕ) : Type 0 where
  pub queued : (k.threads h).linked ≡ true
  pub first : (q : List ℕ) × (k.level ((k.threads h).effective_priority) ≡ h ∷ q)
  pub most :
      (s : ℕ)
      → (k.threads s).linked ≡ true
      → (k.threads s).effective_priority ≤ (k.threads h).effective_priority

module _ (k : Kernel) (v : IsQueued k) where
  -- A queued thread sets the digit of its priority.
  queued_bit :
      (t : ℕ)
      → (k.threads t).linked ≡ true
      → test_bit (31 - (k.threads t).effective_priority) k.bitmap ≡ true
  queued_bit t h =
      let p = (k.threads t).effective_priority in
      ground (arith, v.placed t p, v.bits p (v.bounded t), count_pos-is_empty t (k.level p))

  found :
      (i h : ℕ) (q : List ℕ)
      → i < 32
      → k.level (31 - i) ≡ h ∷ q
      → ((j : ℕ) → 0 ≤ j → j < i → test_bit j k.bitmap ≡ false)
      → IsHighest k h
  found i h q lt e clear =
      let here : 0 < count h (k.level (31 - i)) = rw e (count_head h q) in
      let at : (k.threads h).effective_priority ≡ 31 - i = ground (arith, v.placed h (31 - i)) in
      record {
        queued = ground (arith, v.placed h (31 - i));
        first = (q, rw at e);
        most = λ s on.
            ground
              (arith, queued_bit s on, v.bounded s, clear (31 - (k.threads s).effective_priority));
      }

  peek_digit :
      (i : ℕ) (q : List ℕ)
      → k.level (31 - i) ≡ q
      → FirstSet 32 0 k.bitmap (suc i)
      → (h : ℕ) × (elim q [ [] ↦ panic | t ∷ q ↦ ok t ] ≡ ok h) × IsHighest k h
  peek_digit i [] e (_, lt, on, clear) =
      absurd (ground (arith, v.bits (31 - i) (omega arith), ap is_empty e))
  peek_digit i (h ∷ q) e (_, lt, on, clear) = (h, refl, found i h q lt e clear)

  peek_result :
      (r : ℕ)
      → FirstSet 32 0 k.bitmap r
      → (t : ℕ) → (k.threads t).linked ≡ true
      → (h : ℕ) × (elim r [
        | zero ↦ panic
        | suc i ↦ elim (k.level (31 - i)) [ [] ↦ panic | t ∷ q ↦ ok t ]
      ]
          ≡ ok h)
        × IsHighest k h
  peek_result zero clear t on =
      let p = (k.threads t).effective_priority in
      absurd (ground (arith, v.bounded t, queued_bit t on, clear (31 - p)))
  peek_result (suc i) f t on = peek_digit i (k.level (31 - i)) refl f

-- If any thread is queued, run_queue_peek passes both its assertions and returns the first thread
-- of the highest effective priority that any queued thread has.
pub peek-IsHighest :
    (k : Kernel) (t : ℕ)
    → IsQueued k
    → (k.threads t).linked ≡ true
    → (h : ℕ) × (peek k ≡ ok h) × IsHighest k h
unfolding peek
peek-IsHighest k t v on = peek_result k v (ffs k.bitmap) (ffs-FirstSet k.bitmap) t on
