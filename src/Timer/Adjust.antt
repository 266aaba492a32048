-- ===== src/Timer/Adjust.antt =====
-- heap_adjust repairs the heap around an entry that was replaced.
use turnix.Base.{ℕ, ◌≡◌, ◌≢◌, ◌≤◌, ◌<◌, ◌∙◌, true, false, inl, inr, arith, Bool-cases, ℕ_discrete}
use turnix.Kernel.{ok}
use turnix.Timer.{Timers, expiry, heap_adjust, pull_up, push_down, time_after}
use turnix.Timer.Window.{key, parent}
use turnix.Timer.Order.{IsTimed, IsOrdered, UpInv, DownInv, after_keys}
use turnix.Timer.Up.{pull_up-IsOrdered}
use turnix.Timer.Down.{push_down-IsOrdered}

-- Order may fail only at `i`, above it or below it.
pub record AtInv (base : ℕ) (s : Timers) (i : ℕ) : Type 0 where
  pub inside : i < s.n
  pub edges :
      (c : ℕ) → 0 < c → c < s.n → c ≢ i → parent c ≢ i → key base s (parent c) ≤ key base s c
  pub bridged :
      (c : ℕ) → 0 < c → c < s.n → parent c ≡ i → 0 < i → key base s (parent i) ≤ key base s c

module _ (f i : ℕ) (s : Timers) (inside : i < s.n) where
  adjust_up :
      0 < i
      → time_after (expiry s (parent i)) (expiry s i) ≡ true
      → heap_adjust f i s ≡ pull_up f i s
  unfolding heap_adjust
  adjust_up p e = ground arith

  adjust_down :
      0 < i
      → time_after (expiry s (parent i)) (expiry s i) ≡ false
      → heap_adjust f i s ≡ push_down f i s
  unfolding heap_adjust
  adjust_down p e = ground arith

  adjust_root : i ≡ 0 → heap_adjust f i s ≡ push_down f i s
  unfolding heap_adjust
  adjust_root e = ground arith

-- heap_adjust repairs a heap whose order may fail at one entry, in either direction.
pub heap_adjust-IsOrdered :
    (base f i : ℕ) (s : Timers)
    → s.n < f
    → IsTimed base s
    → AtInv base s i
    → (r : Timers) × (heap_adjust f i s ≡ ok r) × IsOrdered base s r
heap_adjust-IsOrdered base f i s h v a = elim (ℕ_discrete i 0) [
  | yes root ↦
      let d : DownInv base s i = record {
        inside = a.inside;
        edges = λ c p q n. a.edges c p q (omega arith) n;
        bridged = a.bridged;
      } in
      let (r, ran, o) = push_down-IsOrdered base f i s h v d in
      (r, adjust_root f i s a.inside root ∙ ran, o)
  | no low ↦
      let pos : 0 < i = omega arith in
      let up : parent i < s.n = omega (arith, a.inside) in
      let keys = after_keys base s v (parent i) i up a.inside in
      elim (Bool-cases (time_after (expiry s (parent i)) (expiry s i))) [
        | inl early ↦
            let u : UpInv base s i = record {
              inside = a.inside;
              edges = λ c p q n. elim (ℕ_discrete (parent c) i) [
                | yes e ↦ rw e (omega (arith, a.bridged c p q e pos, keys.0 early))
                | no other ↦ a.edges c p q n other
              ];
              bridged = a.bridged;
            } in
            let (r, ran, o) = pull_up-IsOrdered base f i s (omega (arith, a.inside)) v u in
            (r, adjust_up f i s a.inside pos early ∙ ran, o)
        | inr late ↦
            let d : DownInv base s i = record {
              inside = a.inside;
              edges = λ c p q n. elim (ℕ_discrete c i) [
                | yes e ↦ rw e (keys.1 late)
                | no other ↦ a.edges c p q other n
              ];
              bridged = a.bridged;
            } in
            let (r, ran, o) = push_down-IsOrdered base f i s h v d in
            (r, adjust_down f i s a.inside pos late ∙ ran, o)
      ]
]
