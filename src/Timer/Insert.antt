-- ===== src/Timer/Insert.antt =====
-- timer_add, and the invariant of the timers.
use turnix.Base.{
  ℕ, zero, suc, ◌+◌, ◌^◌, ◌≡◌, ◌≤◌, ◌<◌, ◌⊎◌, inl, inr, arith, update, ℕ_discrete, sym,
}
use turnix.Kernel.{ok}
use turnix.Timer.{Timers, expiry, link, timer_add, timer_max, rounds}
use turnix.Timer.Window.{key, parent, distance}
use turnix.Timer.Swap.{IsLinked, Holds}
use turnix.Timer.Order.{IsTimed, IsHeap, UpInv}
use turnix.Timer.Up.{pull_up-IsOrdered}

-- The timers form a heap that fits the array, by time from `base` on.
pub record IsValid (base : ℕ) (s : Timers) : Type 0 where
  pub timed : IsTimed base s
  pub heap : IsHeap base s
  pub fits : s.n ≤ timer_max

root_least_below :
    (k base c : ℕ) (s : Timers) → IsHeap base s → c < k → c < s.n → key base s 0 ≤ key base s c
root_least_below zero base c s h f p = absurd (omega arith)
root_least_below (suc k) base c s h f p =
    ground (arith, h c, root_least_below k base (parent c) s h)

-- No timer of the heap expires before the one at the root.
pub root_least : (base c : ℕ) (s : Timers) → IsHeap base s → c < s.n → key base s 0 ≤ key base s c
root_least base c s h p = root_least_below (suc c) base c s h (omega arith) p

module _ (t : ℕ) (s : Timers) where
  -- The array with the timer at its end, before heap_pull_up.
  abbrev placed : Timers
  placed = link s.n (record s { heap = update s.heap s.n t; n = s.n + 1 })

  placed-IsLinked : IsLinked s → ¬ (Holds s t) → IsLinked placed
  placed-IsLinked v out j h = elim (ℕ_discrete s.n j) [
    | yes e ↦ ground arith
    | no n ↦ elim (ℕ_discrete (s.heap j) t) [
      | yes at ↦ let l = v j (omega arith) in absurd (out (ground arith, ground arith))
      | no other ↦ ground (arith, v j)
    ]
  ]

  placed_key : (base c : ℕ) → c < s.n → key base placed c ≡ key base s c
  placed_key base c h = ground arith

  placed_last : expiry placed s.n ≡ (s.timer t).expires
  placed_last = ground arith

  placed_word : (c : ℕ) → c < s.n → expiry placed c ≡ expiry s c
  placed_word c h = ground arith

  placed-IsTimed :
      (base : ℕ)
      → IsTimed base s
      → ¬ (Holds s t)
      → (s.timer t).expires < 2 ^ 32
      → distance base (s.timer t).expires < 2 ^ 31
      → IsTimed base placed
  placed-IsTimed base v out w d = record {
    start = v.start;
    links = placed-IsLinked v.links out;
    word = λ j h. elim (ℕ_discrete s.n j) [
      | yes e ↦ rw (← e, placed_last) w
      | no n ↦ rw (placed_word j (omega arith)) (v.word j (omega arith))
    ];
    near = λ j h. elim (ℕ_discrete s.n j) [
      | yes e ↦ rw (← e, placed_last) d
      | no n ↦ rw (placed_key base j (omega arith)) (v.near j (omega arith))
    ];
  }

  placed-UpInv : (base : ℕ) → IsHeap base s → UpInv base placed s.n
  placed-UpInv base h = record {
    inside = omega arith;
    edges = λ c p q n.
        rw (placed_key base c (omega arith), placed_key base (parent c) (omega arith))
          (h c p (omega arith));
    bridged = λ c p q e r. absurd (omega arith);
  }

  placed-Holds :
      IsLinked s
      → ¬ (Holds s t)
      → (u : ℕ) → (Holds s u → Holds placed u) × (Holds placed u → (u ≡ t) ⊎ Holds s u)
  placed-Holds v out u = (
    (λ h. elim (ℕ_discrete t u) [ yes e ↦ absurd (out (rw e h)) | no n ↦ ground (arith, h) ]),
    (λ h. elim (ℕ_discrete t u) [ yes e ↦ inl (sym e) | no n ↦ inr (ground (arith, h)) ]),
  )

  placed_self : Holds placed t
  placed_self = ground arith

-- What timer_add makes of the timers: a valid heap of the old ones and the new one.
pub record IsAdded (base t : ℕ) (s r : Timers) : Type 0 where
  pub valid : IsValid base r
  pub size : r.n ≡ s.n + 1
  pub inside : Holds r t
  pub kept : (u : ℕ) → Holds s u → Holds r u
  pub only : (u : ℕ) → Holds r u → (u ≡ t) ⊎ Holds s u
  pub times : (u : ℕ) → (r.timer u).expires ≡ (s.timer u).expires

-- timer_add with room in the array, for a timer that is not in the heap and expires within 2^31
-- ticks: it returns a valid heap of the old timers and the new one, all with their times.
pub timer_add-IsAdded :
    (base t : ℕ) (s : Timers)
    → IsValid base s
    → s.n < timer_max
    → ¬ (Holds s t)
    → (s.timer t).expires < 2 ^ 32
    → distance base (s.timer t).expires < 2 ^ 31
    → (r : Timers) × (timer_add t s ≡ ok r) × IsAdded base t s r
unfolding timer_add
timer_add-IsAdded base t s v room out w d =
    let timed = placed-IsTimed t s base v.timed out w d in
    let (r, ran, o) =
      pull_up-IsOrdered base (rounds (placed t s)) s.n (placed t s) (omega arith) timed
        (placed-UpInv t s base v.heap) in
    let holds = placed-Holds t s v.timed.links out in
    (
      r,
      ground (arith, ran),
      record {
        valid = record { timed = o.timed; heap = o.heap; fits = omega (arith, o.same.size) };
        size = o.same.size;
        inside = o.same.keeps t (placed_self t s);
        kept = λ u h. o.same.keeps u ((holds u).0 h);
        only = λ u h. (holds u).1 (o.same.adds u h);
        times = λ u. ground (arith, o.same.times u);
      },
    )
