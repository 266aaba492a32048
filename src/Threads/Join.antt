-- ===== src/Threads/Join.antt =====
-- pthread_join: no wait closes a cycle.
use turnix.Base.{
  ℕ, zero, suc, ◌+◌, ◌≡◌, ◌≢◌, ◌<◌, refl, ap, ◌∙◌, Bool, true, false, Option, none, some, arith,
  ◌==◌, ℕ_discrete, update, subst,
}
use turnix.Kernel.{Kernel, ok}
use turnix.Threads.{has_loop_from, has_loop, set_waiter}

-- The threads that wait for each other, from the one named on: whether `t` is among them.
pub data Chain (k : Kernel) (t : ℕ) : Option ℕ → Bool → ℕ → Type 0 where
  stops : {d : ℕ} → Chain k t none false d
  meets : {d : ℕ} → Chain k t (some t) true d
  passes :
      {i d : ℕ} {b : Bool}
      → i ≢ t
      → Chain k t (k.threads i).waiter b d
      → Chain k t (some i) b (suc d)

-- From every thread the waits end within `d` steps.
pub data Halts (k : Kernel) : Option ℕ → ℕ → Type 0 where
  halt : {d : ℕ} → Halts k none d
  more : {i d : ℕ} → Halts k (k.threads i).waiter d → Halts k (some i) (suc d)

abbrev pub IsAcyclic : ℕ → Kernel → Type 0
IsAcyclic d k = (i : Option ℕ) → Halts k i d

module _ (k : Kernel) (t w : ℕ) where
  -- The kernel in which `w` waits for `t`.
  abbrev asked : Kernel
  asked = set_waiter t (some w) k

  loop_here : (f i : ℕ) → i ≡ t → has_loop_from (suc f) t (some i) asked ≡ ok true
  unfolding has_loop_from
  loop_here f i e = ground arith

  loop_next :
      (f i : ℕ)
      → i ≢ t
      → has_loop_from (suc f) t (some i) asked ≡ has_loop_from f t (k.threads i).waiter asked
  unfolding has_loop_from
  loop_next f i n =
      let same : update k.threads t (record (k.threads t) { waiter = some w }) i ≡ k.threads i =
        ground (arith, n) in
      let other : (i == t) ≡ false = ground (arith, n) in rw (other, same)

  -- The loop finds out whether `t` is among the threads from `i` on.
  walk :
      {i : Option ℕ} {d : ℕ}
      → Halts k i d
      → (f : ℕ) → d < f
      → (b : Bool) × (has_loop_from f t i asked ≡ ok b) × Chain k t i b d
  walk halt zero h = absurd (omega arith)
  walk halt (suc f) h = (false, unfold has_loop_from in refl, stops)
  walk (more {i = i} r) zero h = absurd (omega arith)
  walk (more {i = i} {d = d} r) (suc f) h = elim (ℕ_discrete i t) [
    | yes e ↦ (true, loop_here f i e, rw e meets)
    | no n ↦ let (b, found, c) = walk r f (omega arith) in (b, loop_next f i n ∙ found, passes n c)
  ]

  asked_waiter : (i : ℕ) → i ≢ t → (k.threads i).waiter ≡ (asked.threads i).waiter
  asked_waiter i n = ground (arith, n)

  -- A chain that does not meet `t` is the same in both kernels.
  missed : {i : Option ℕ} {d : ℕ} → Chain k t i false d → Halts asked i d
  missed stops = halt
  missed (passes {i = i} {d = d} n c) =
      more (subst (λ (o : Option ℕ). Halts asked o d) (asked_waiter i n) (missed c))

  longer : {i : Option ℕ} {d : ℕ} → Halts asked i d → Halts asked i (suc d)
  longer halt = halt
  longer (more r) = more (longer r)

  longer_by : {i : Option ℕ} {d : ℕ} (e : ℕ) → Halts asked i d → Halts asked i (e + d)
  longer_by {i} {d} zero r = let z : 0 + d ≡ d = omega arith in rw z r
  longer_by {i} {d} (suc e) r =
      let z : suc e + d ≡ suc (e + d) = omega arith in rw z (longer (longer_by e r))

  joined_one :
      {d : ℕ}
      → Halts asked (some w) d
      → (i e : ℕ) → Halts asked (k.threads i).waiter (e + d)
      → Halts asked (some i) (suc (e + d))
  joined_one {d} r i e c = elim (ℕ_discrete i t) [
    | yes same ↦
        let to_w : some w ≡ (asked.threads i).waiter = ground (arith, same) in
        more (subst (λ (o : Option ℕ). Halts asked o (e + d)) to_w (longer_by e r))
    | no n ↦ more (subst (λ (o : Option ℕ). Halts asked o (e + d)) (asked_waiter i n) c)
  ]

  -- Any other chain either misses `t`, or goes on with the one of `w`.
  joined-Halts :
      {d : ℕ}
      → Halts asked (some w) d
      → {i : Option ℕ} {e : ℕ} → Halts k i e
      → Halts asked i (e + d)
  joined-Halts r halt = halt
  joined-Halts {d} r (more {i = i} {d = e} c) =
      let z : suc e + d ≡ suc (e + d) = omega arith in rw z (joined_one r i e (joined-Halts r c))

-- The test of pthread_join, in the kernel in which `w` is the waiter of `t`. If no chain of waits was
-- longer than `d`, then with more fuel than that the test returns. Where it finds no loop, all chains
-- of waits still end; where it finds one, the chain from `w` led to `t` already, so the join would
-- close a cycle.
pub has_loop_closes :
    (k : Kernel) (t w d f : ℕ)
    → IsAcyclic d k
    → d < f
    → (b : Bool) × (has_loop f t (set_waiter t (some w) k) ≡ ok b)
      × (b ≡ false → IsAcyclic (d + d) (set_waiter t (some w) k))
      × (b ≡ true → Chain k t (some w) true d)
unfolding has_loop
has_loop_closes k t w d f v h =
    let (b, found, c) = walk k t w (v (some w)) f h in
    let to_w : ((asked k t w).threads t).waiter ≡ some w = ground arith in
    (
      b,
      ap (λ (o : Option ℕ). has_loop_from f t o (asked k t w)) to_w ∙ found,
      (λ e i. joined-Halts k t w (missed k t w (rw e at c)) (v i)),
      λ e. rw e at c,
    )
