-- ===== src/Inherit/Highest.antt =====
-- What the two loops compute.
use turnix.Base.{ℕ, ◌≤◌, ◌<◌, List, [], ◌∷◌, arith, ltb, if◌then◌else◌}
use turnix.Kernel.{Kernel}
use turnix.RunQueue.Queues.{count}
use turnix.Inherit.{boost_waiters, boost_mutexes, inherited}

module _ (k : Kernel) where
  abbrev eff : ℕ → ℕ
  eff w = (k.threads w).effective_priority

  waiters_above : (ws : List ℕ) (p : ℕ) → p ≤ boost_waiters k.threads ws p
  unfolding boost_waiters
  waiters_above [] p = omega arith
  waiters_above (w ∷ ws) p = ground (arith, waiters_above ws (if ltb p (eff w) then eff w else p))

  waiters_cover : (ws : List ℕ) (p w : ℕ) → 0 < count w ws → eff w ≤ boost_waiters k.threads ws p
  unfolding boost_waiters count
  waiters_cover [] p w h = absurd (omega arith)
  waiters_cover (x ∷ ws) p w h =
      let q = if ltb p (eff x) then eff x else p in
      ground (arith, waiters_above ws q, waiters_cover ws q w)

  mutexes_above : (ms : List ℕ) (p : ℕ) → p ≤ boost_mutexes k ms p
  unfolding boost_mutexes
  mutexes_above [] p = omega arith
  mutexes_above (m ∷ ms) p =
      let q = boost_waiters k.threads (k.mutexes m).wq p in
      omega (arith, waiters_above (k.mutexes m).wq p, mutexes_above ms q)

  mutexes_cover :
      (ms : List ℕ) (p m w : ℕ)
      → 0 < count m ms
      → 0 < count w (k.mutexes m).wq
      → eff w ≤ boost_mutexes k ms p
  unfolding boost_mutexes count
  mutexes_cover [] p m w h i = absurd (omega arith)
  mutexes_cover (x ∷ ms) p m w h i =
      let q = boost_waiters k.threads (k.mutexes x).wq p in
      ground (arith, waiters_cover (k.mutexes x).wq p w, mutexes_above ms q, mutexes_cover ms q m w)

  -- A bound on the thread's own priority and on the waiters' bounds the result.
  waiters_least :
      (ws : List ℕ) (p b : ℕ)
      → p ≤ b
      → ((w : ℕ) → 0 < count w ws → eff w ≤ b)
      → boost_waiters k.threads ws p ≤ b
  unfolding boost_waiters count
  waiters_least [] p b h all = h
  waiters_least (x ∷ ws) p b h all =
      waiters_least ws (if ltb p (eff x) then eff x else p) b (ground (arith, all x))
        (λ w i. ground (arith, all w))

  mutexes_least :
      (ms : List ℕ) (p b : ℕ)
      → p ≤ b
      → ((m w : ℕ) → 0 < count m ms → 0 < count w (k.mutexes m).wq → eff w ≤ b)
      → boost_mutexes k ms p ≤ b
  unfolding boost_mutexes count
  mutexes_least [] p b h all = h
  mutexes_least (x ∷ ms) p b h all =
      mutexes_least ms (boost_waiters k.threads (k.mutexes x).wq p) b
        (waiters_least (k.mutexes x).wq p b h (λ w i. all x w (ground arith) i))
        (λ m w i j. all m w (ground arith) j)

-- The priority that `__pthread_setschedprio` computes for a thread is the least number that is no
-- lower than the thread's own priority and than the effective priority of each thread that waits
-- for a mutex which the thread holds.
pub inherited_least :
    (k : Kernel) (t : ℕ)
    → ((k.threads t).priority ≤ inherited k t)
      × ((m w : ℕ)
          → 0 < count m (k.threads t).mutex_queue
          → 0 < count w (k.mutexes m).wq
          → (k.threads w).effective_priority ≤ inherited k t)
      × ((b : ℕ)
          → (k.threads t).priority ≤ b
          → ((m w : ℕ)
              → 0 < count m (k.threads t).mutex_queue
              → 0 < count w (k.mutexes m).wq
              → (k.threads w).effective_priority ≤ b)
          → inherited k t ≤ b)
unfolding inherited
inherited_least k t =
    let ms = (k.threads t).mutex_queue in
    let p = (k.threads t).priority in
    (mutexes_above k ms p, mutexes_cover k ms p, mutexes_least k ms p)
