-- ===== src/Timer/Up.antt =====
-- heap_pull_up puts an entry that expires too early where it belongs.
use turnix.Base.{ℕ, zero, suc, ◌≡◌, ◌≢◌, ◌<◌, ◌∙◌, true, false, inl, inr, arith, ◌==◌, Bool-cases}
use turnix.Kernel.{ok}
use turnix.Timer.{Timers, heap_swap, expiry, time_after, pull_up}
use turnix.Timer.Window.{key, parent}
use turnix.Timer.Swap.{swap-IsSame, IsSame-refl, IsSame-trans, swap_size}
use turnix.Timer.Order.{IsTimed, IsOrdered, UpInv, after_keys, key-swap, swap-IsTimed}

module _ (base f i : ℕ) (s : Timers) where
  up_root : i ≡ 0 → pull_up (suc f) i s ≡ ok s
  unfolding pull_up
  up_root e = ground arith

  up_settled :
      i ≢ 0 → time_after (expiry s (parent i)) (expiry s i) ≡ false → pull_up (suc f) i s ≡ ok s
  unfolding pull_up
  up_settled n e = ground arith

  up_rises :
      i ≢ 0
      → time_after (expiry s (parent i)) (expiry s i) ≡ true
      → pull_up (suc f) i s ≡ pull_up f (parent i) (heap_swap i (parent i) s)
  unfolding pull_up
  up_rises n e = ground arith

swap-UpInv :
    (base i : ℕ) (s : Timers)
    → IsTimed base s
    → UpInv base s i
    → i ≢ 0
    → key base s i < key base s (parent i)
    → UpInv base (heap_swap i (parent i) s) (parent i)
swap-UpInv base i s v u n lt =
    let at = key-swap base s v i (parent i) u.inside (omega arith) in
    let size = swap_size s i (parent i) in
    record {
      inside = omega (arith, size);
      edges = λ c p q r. ground (arith, size, at c, at (parent c), u.edges c, u.bridged c);
      bridged = λ c p q r t.
          ground (arith, size, at c, at (parent (parent i)), u.edges c, u.edges (parent i));
    }

-- heap_pull_up in a heap whose order may fail only above `i` makes a heap of the same timers; more
-- rounds than the index suffice.
pub pull_up-IsOrdered :
    (base f i : ℕ) (s : Timers)
    → i < f
    → IsTimed base s
    → UpInv base s i
    → (r : Timers) × (pull_up f i s ≡ ok r) × IsOrdered base s r
pull_up-IsOrdered base zero i s h v u = absurd (omega arith)
pull_up-IsOrdered base (suc f) i s h v u = elim (Bool-cases (i == 0)) [
  | inl root ↦ (
    s,
    up_root base f i s (ground arith),
    record { heap = λ c p q. u.edges c p q (ground arith); same = IsSame-refl s; timed = v },
  )
  | inr below ↦
      let n : i ≢ 0 = ground arith in
      let p = parent i in
      let hp : p < s.n = omega (arith, u.inside) in
      let keys = after_keys base s v p i hp u.inside in
      elim (Bool-cases (time_after (expiry s p) (expiry s i))) [
        | inr settled ↦ (
          s,
          up_settled base f i s n settled,
          record {
            heap = λ c a b. ground (arith, u.edges c, keys.1 settled);
            same = IsSame-refl s;
            timed = v;
          },
        )
        | inl rises ↦
            let ne : i ≢ p = omega arith in
            let w = swap-IsTimed base s v i p u.inside hp ne in
            let up = swap-UpInv base i s v u n (keys.0 rises) in
            let (r, ran, o) = pull_up-IsOrdered base f p (heap_swap i p s) (omega arith) w up in
            (
              r,
              up_rises base f i s n rises ∙ ran,
              record {
                heap = o.heap;
                same = IsSame-trans s _ r (swap-IsSame s i p v.links u.inside hp ne) o.same;
                timed = o.timed;
              },
            )
      ]
]
