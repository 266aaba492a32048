-- ===== src/Timer/Swap.antt =====
-- What an exchange of two entries of the heap keeps and moves.
use turnix.Base.{ℕ, ◌≡◌, ◌≢◌, ◌<◌, refl, ◌∙◌, arith, ◌==◌, if◌then◌else◌}
use turnix.Timer.{Timers, heap_swap, expiry}

-- Each entry below `n` knows its index: so no timer stands at two.
abbrev pub IsLinked : Timers → Type 0
IsLinked s = (j : ℕ) → j < s.n → (s.timer (s.heap j)).i ≡ j

-- The timer is in the heap.
abbrev pub Holds : Timers → ℕ → Type 0
Holds s t = ((s.timer t).i < s.n) × (s.heap ((s.timer t).i) ≡ t)

-- The same timers are in the heap, with the same times.
pub record IsSame (s s' : Timers) : Type 0 where
  pub size : s'.n ≡ s.n
  pub times : (t : ℕ) → (s'.timer t).expires ≡ (s.timer t).expires
  pub keeps : (t : ℕ) → Holds s t → Holds s' t
  pub adds : (t : ℕ) → Holds s' t → Holds s t
  pub linked : IsLinked s → IsLinked s'

module _ (s : Timers) (i j : ℕ) where
  pub expiry-swap :
      (c : ℕ)
      → expiry (heap_swap i j s) c
        ≡ (if j == c then expiry s i else if i == c then expiry s j else expiry s c)
  unfolding heap_swap
  expiry-swap c = ground arith

  pub swap_size : (heap_swap i j s).n ≡ s.n
  unfolding heap_swap
  swap_size = ground arith

  swap_times : (t : ℕ) → ((heap_swap i j s).timer t).expires ≡ (s.timer t).expires
  unfolding heap_swap
  swap_times t = ground arith

  module _ (v : IsLinked s) (hi : i < s.n) (hj : j < s.n) (ne : i ≢ j) where
    swap-IsLinked : IsLinked (heap_swap i j s)
    unfolding heap_swap
    swap-IsLinked c h = ground (arith, v c, v i, v j)

    swap_keeps : (t : ℕ) → Holds s t → Holds (heap_swap i j s) t
    unfolding heap_swap
    swap_keeps t h = ground (arith, v i, v j, h)

    swap_adds : (t : ℕ) → Holds (heap_swap i j s) t → Holds s t
    unfolding heap_swap
    swap_adds t h = ground (arith, v i, v j, h)

    pub swap-IsSame : IsSame s (heap_swap i j s)
    swap-IsSame = record {
      size = swap_size;
      times = swap_times;
      keeps = swap_keeps;
      adds = swap_adds;
      linked = λ w. swap-IsLinked;
    }

pub IsSame-refl : (s : Timers) → IsSame s s
IsSame-refl s = record {
  size = refl;
  times = λ t. refl;
  keeps = λ t h. h;
  adds = λ t h. h;
  linked = λ v. v;
}

pub IsSame-trans : (a b c : Timers) → IsSame a b → IsSame b c → IsSame a c
IsSame-trans a b c p q = record {
  size = q.size ∙ p.size;
  times = λ t. q.times t ∙ p.times t;
  keeps = λ t h. q.keeps t (p.keeps t h);
  adds = λ t h. p.adds t (q.adds t h);
  linked = λ v. q.linked (p.linked v);
}
