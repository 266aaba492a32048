-- ===== src/Mutex/Pick.antt =====
-- The waiter that pthread_mutex_unlock picks.
use turnix.Base.{
  ℕ, ◌≡◌, ◌≤◌, ◌<◌, refl, true, false, none, some, List, [], ◌∷◌, arith, if◌then◌else◌, ltb,
}
use turnix.Kernel.{Thread}
use turnix.RunQueue.Queues.{count, is_empty}
use turnix.Mutex.{pick}

-- `t` stands in the queue, and no other entry has a higher effective priority.
pub record IsPicked (threads : ℕ → Thread) (q : List ℕ) (t : ℕ) : Type 0 where
  pub inside : 0 < count t q
  pub most :
      (w : ℕ) → 0 < count w q → (threads w).effective_priority ≤ (threads t).effective_priority

module _ (threads : ℕ → Thread) where
  abbrev better : ℕ → ℕ → ℕ
  better t w = if ltb (threads t).effective_priority (threads w).effective_priority then w else t

  IsPicked-better :
      (q : List ℕ) (t w r : ℕ)
      → IsPicked threads (better t w ∷ q) r
      → IsPicked threads (t ∷ w ∷ q) r
  unfolding count
  IsPicked-better q t w r p = record {
    inside = ground (arith, p.inside);
    most = λ x h. ground (arith, p.most x, p.most t, p.most w);
  }

  pick_from :
      (q : List ℕ) (t : ℕ)
      → (r : ℕ) × (pick threads q (some t) ≡ some r) × IsPicked threads (t ∷ q) r
  unfolding pick count
  pick_from [] t = (t, refl, record { inside = ground arith; most = λ w h. ground arith })
  pick_from (w ∷ q) t =
      let (r, e, p) = pick_from q (better t w) in (r, e, IsPicked-better q t w r p)

  -- Of a queue that is not empty `pthread_mutex_unlock` picks a waiter of the highest effective
  -- priority in it.
  pub pick-IsPicked :
      (q : List ℕ)
      → is_empty q ≡ false
      → (r : ℕ) × (pick threads q none ≡ some r) × IsPicked threads q r
  unfolding pick
  pick-IsPicked [] h = absurd (ground arith)
  pick-IsPicked (w ∷ q) h = pick_from q w

  pub pick_none : (q : List ℕ) → is_empty q ≡ true → pick threads q none ≡ none
  unfolding pick
  pick_none [] h = refl
  pick_none (w ∷ q) h = absurd (ground arith)
