-- ===== src/Timer/Down.antt =====
-- heap_push_down puts an entry that expires too late where it belongs.
use turnix.Base.{
  ℕ, zero, suc, ◌+◌, ◌-◌, ◌*◌, ◌≡◌, ◌≢◌, ◌≤◌, ◌<◌, ◌⊎◌, ◌∙◌, refl, arith, dec_lt, ℕ_discrete, sym,
  ap,
}
use turnix.Kernel.{ok}
use turnix.Timer.{Timers, heap_swap, smallest, sift, push_down}
use turnix.Timer.Window.{key, parent}
use turnix.Timer.Swap.{swap-IsSame, IsSame-refl, IsSame-trans, swap_size}
use turnix.Timer.Order.{IsTimed, IsOrdered, DownInv, after_keys, key-swap, swap-IsTimed}

-- `m` is `i` or a child of it, and none of the three expires before it.
record IsSmallest (base i : ℕ) (s : Timers) (m : ℕ) : Type 0 where
  inside : m < s.n
  one : (m ≡ i) ⊎ ((0 < m) × (parent m ≡ i) × (key base s m < key base s i))
  least : (c : ℕ) → 0 < c → c < s.n → parent c ≡ i → key base s m ≤ key base s c

smallest-IsSmallest :
    (base i : ℕ) (s : Timers)
    → IsTimed base s
    → i * 2 + 1 < s.n
    → IsSmallest base i s (smallest i (i * 2 + 1) s)
unfolding smallest
smallest-IsSmallest base i s v h =
    let c = i * 2 + 1 in
    let hi : i < s.n = omega arith in
    let left = after_keys base s v i c hi h in
    let both = λ (p : c + 1 < s.n). after_keys base s v i (c + 1) hi p in
    let pair = λ (p : c + 1 < s.n). after_keys base s v c (c + 1) h p in
    record {
      inside = ground arith;
      one = grind (arith, left, both, pair);
      least = λ d p q r. grind (arith, left, both, pair);
    }

module _ (f i : ℕ) (s : Timers) where
  sift_leaf : s.n ≤ i * 2 + 1 → sift (suc f) i s ≡ ok s
  unfolding sift
  sift_leaf h = ground arith

  sift_settled : i * 2 + 1 < s.n → i ≡ smallest i (i * 2 + 1) s → sift (suc f) i s ≡ ok s
  unfolding sift
  sift_settled h e = ground arith

  sift_sinks :
      (m : ℕ)
      → i * 2 + 1 < s.n
      → m ≡ smallest i (i * 2 + 1) s
      → i ≢ m
      → sift (suc f) i s ≡ sift f m (heap_swap i m s)
  unfolding sift
  sift_sinks m h e n = rw e (ground arith)

module _ (base i m : ℕ) (s : Timers) (v : IsTimed base s) (u : DownInv base s i) where
  swap-DownInv : IsSmallest base i s m → m ≢ i → DownInv base (heap_swap i m s) m
  swap-DownInv w ne =
      let at = key-swap base s v i m u.inside w.inside in
      let size = swap_size s i m in
      record {
        inside = omega (arith, size, w.inside);
        edges = λ c p q r.
            ground (arith, size, at c, at (parent c), u.edges c, u.bridged m, w.least c, w.one);
        bridged = λ c p q r t. ground (arith, size, at c, at (parent m), u.edges c, w.one);
      }

sift-IsOrdered :
    (base f i : ℕ) (s : Timers)
    → s.n - i < f
    → IsTimed base s
    → DownInv base s i
    → (r : Timers) × (sift f i s ≡ ok r) × IsOrdered base s r
sift-IsOrdered base zero i s h v u = absurd (omega arith)
sift-IsOrdered base (suc f) i s h v u = elim (dec_lt (i * 2 + 1) s.n) [
  | no leaf ↦ (
    s,
    sift_leaf f i s (omega arith),
    record { heap = λ c p q. u.edges c p q (omega arith); same = IsSame-refl s; timed = v },
  )
  | yes inner ↦
      let m = smallest i (i * 2 + 1) s in
      let w = smallest-IsSmallest base i s v inner in
      elim (ℕ_discrete i m) [
        | yes e ↦ (
          s,
          sift_settled f i s inner e,
          record {
            heap = λ c p q. ground (arith, u.edges c p q, w.least c p q, ap (key base s) e);
            same = IsSame-refl s;
            timed = v;
          },
        )
        | no ne ↦
            let x = swap-IsTimed base s v i m u.inside w.inside ne in
            let d = swap-DownInv base i m s v u w (λ e. ne (sym e)) in
            let (r, ran, o) =
              sift-IsOrdered base f m (heap_swap i m s)
                (ground (arith, w.one, swap_size s i m, w.inside)) x d in
            (
              r,
              sift_sinks f i s m inner refl ne ∙ ran,
              record {
                heap = o.heap;
                same = IsSame-trans s _ r (swap-IsSame s i m v.links u.inside w.inside ne) o.same;
                timed = o.timed;
              },
            )
      ]
]

-- heap_push_down in a heap whose order may fail only below `i` makes a heap of the same timers; more
-- rounds than there are timers suffice.
pub push_down-IsOrdered :
    (base f i : ℕ) (s : Timers)
    → s.n < f
    → IsTimed base s
    → DownInv base s i
    → (r : Timers) × (push_down f i s ≡ ok r) × IsOrdered base s r
unfolding push_down
push_down-IsOrdered base f i s h v u =
    let (r, ran, o) = sift-IsOrdered base f i s (omega arith) v u in
    (r, ground (arith, u.inside, ran), o)
