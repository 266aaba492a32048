-- ===== src/Timer/Remove.antt =====
-- __timer_delete and timer_delete.
use turnix.Base.{
  ℕ, ◌+◌, ◌-◌, ◌≡◌, ◌≢◌, ◌<◌, ◌∙◌, refl, sym, arith, ◌==◌, if◌then◌else◌, update, ℕ_discrete,
}
use turnix.Kernel.{ok, ◌>>=◌}
use turnix.Timer.{
  Timers, expiry, link, unlink, heap_adjust, remove_timer, timer_delete, rounds, invalid_index,
}
use turnix.Timer.Window.{parent}
use turnix.Timer.Swap.{IsLinked, Holds}
use turnix.Timer.Order.{IsTimed, IsHeap}
use turnix.Timer.Adjust.{AtInv, heap_adjust-IsOrdered}
use turnix.Timer.Insert.{IsValid}

-- What __timer_delete makes of the timers: a valid heap of the others.
pub record IsRemoved (base t : ℕ) (s r : Timers) : Type 0 where
  pub valid : IsValid base r
  pub size : r.n + 1 ≡ s.n
  pub marked : (r.timer t).i ≡ invalid_index
  pub kept : (u : ℕ) → u ≢ t → Holds s u → Holds r u
  pub only : (u : ℕ) → Holds r u → (u ≢ t) × Holds s u
  pub times : (u : ℕ) → (r.timer u).expires ≡ (s.timer u).expires

module _ (base t : ℕ) (s : Timers) (v : IsValid base s) (h : Holds s t) where
  abbrev at : ℕ
  at = (s.timer t).i

  abbrev last : ℕ
  last = s.n - 1

  -- The last entry in the place of the timer.
  abbrev moved : Timers
  moved = link at (record s { heap = update s.heap at (s.heap last); n = last })

  module _ (ne : at ≢ last) where
    moved-expiry : (c : ℕ) → expiry moved c ≡ (if at == c then expiry s last else expiry s c)
    moved-expiry c = ground arith

    moved-IsLinked : IsLinked moved
    moved-IsLinked c p = ground (arith, v.timed.links c, v.timed.links last, h)

    moved-IsTimed : IsTimed base moved
    moved-IsTimed = record {
      start = v.timed.start;
      links = moved-IsLinked;
      word = λ c p. ground (arith, moved-expiry c, v.timed.word c, v.timed.word last, h);
      near = λ c p. ground (arith, moved-expiry c, v.timed.near c, v.timed.near last, h);
    }

    moved-AtInv : AtInv base moved at
    moved-AtInv = record {
      inside = omega (arith, h.0);
      edges = λ c p q n m. ground (arith, moved-expiry c, moved-expiry (parent c), v.heap c);
      bridged = λ c p q e pos.
          ground (arith, moved-expiry c, moved-expiry (parent at), v.heap c, v.heap at, h);
    }

    moved-Holds : (u : ℕ) → u ≢ t → Holds s u → Holds moved u
    moved-Holds u n k = ground (arith, h, k, v.timed.links last)

    moved_only : (u : ℕ) → Holds moved u → (u ≢ t) × Holds s u
    moved_only u k =
        ((λ e. ground (arith, h, k, v.timed.links last)), ground (arith, h, k, v.timed.links last))

    moved_times : (u : ℕ) → (moved.timer u).expires ≡ (s.timer u).expires
    moved_times u = ground arith

    remove_moves : remove_timer t s ≡ (heap_adjust (rounds s) at moved >>= λ r. ok (unlink t r))
    unfolding remove_timer
    remove_moves = ground arith

  remove_last : at ≡ last → remove_timer t s ≡ ok (unlink t (record s { n = last }))
  unfolding remove_timer
  remove_last e = ground arith

-- Marking a timer that is not in the heap changes neither.
unlink_keeps :
    (base t : ℕ) (r : Timers)
    → IsTimed base r
    → IsHeap base r
    → ¬ (Holds r t)
    → IsTimed base (unlink t r) × IsHeap base (unlink t r)
unlink_keeps base t r v h out = (
  record {
    start = v.start;
    links = λ j p. elim (ℕ_discrete (r.heap j) t) [
      | yes e ↦ let l = v.links j p in absurd (out (ground arith, ground arith))
      | no n ↦ ground (arith, v.links j p)
    ];
    word = λ j p. ground (arith, v.word j p);
    near = λ j p. ground (arith, v.near j p);
  },
  λ c p q. ground (arith, h c p q),
)

unlink-Holds :
    (t u : ℕ) (r : Timers)
    → ¬ (Holds r t)
    → r.n < invalid_index
    → (u ≢ t → Holds r u → Holds (unlink t r) u) × (Holds (unlink t r) u → (u ≢ t) × Holds r u)
unlink-Holds t u r out small = (
  (λ n k. ground (arith, k)),
  λ k. elim (ℕ_discrete t u) [
    | yes e ↦ ground (arith, k)
    | no n ↦ ((λ e. n (sym e)), ground (arith, k))
  ],
)

module _ (base t : ℕ) (s : Timers) (v : IsValid base s) (h : Holds s t) where
  abbrev cut : Timers
  cut = record s { n = (s.n - 1) }

  cut-IsTimed : IsTimed base cut
  cut-IsTimed = record {
    start = v.timed.start;
    links = λ j p. v.timed.links j (omega arith);
    word = λ j p. v.timed.word j (omega arith);
    near = λ j p. v.timed.near j (omega arith);
  }

  remove_at_last :
      (s.timer t).i ≡ s.n - 1 → (r : Timers) × (remove_timer t s ≡ ok r) × IsRemoved base t s r
  remove_at_last e =
      let out : ¬ (Holds cut t) = λ k. omega (arith, k.0) in
      let (timed, heap) =
        unlink_keeps base t cut cut-IsTimed (λ c p q. v.heap c p (omega arith)) out in
      let holds = λ (u : ℕ). unlink-Holds t u cut out (omega (arith, v.fits)) in
      (
        unlink t cut,
        remove_last base t s v h e,
        record {
          valid = record { timed = timed; heap = heap; fits = omega (arith, v.fits) };
          size = omega (arith, h.0);
          marked = ground arith;
          kept = λ u n k. (holds u).0 n (ground (arith, k, h));
          only = λ u k. let (n, w) = (holds u).1 k in (n, (omega (arith, w.0), w.1));
          times = λ u. ground arith;
        },
      )

  remove_within :
      (s.timer t).i ≢ s.n - 1 → (r : Timers) × (remove_timer t s ≡ ok r) × IsRemoved base t s r
  remove_within ne =
      let m = moved base t s v h in
      let (r, ran, o) =
        heap_adjust-IsOrdered base (rounds s) (s.timer t).i m (omega arith)
          (moved-IsTimed base t s v h ne) (moved-AtInv base t s v h ne) in
      let only = moved_only base t s v h ne in
      let out : ¬ (Holds r t) = λ k. (only t (o.same.adds t k)).0 refl in
      let (timed, heap) = unlink_keeps base t r o.timed o.heap out in
      let holds = λ (u : ℕ). unlink-Holds t u r out (omega (arith, v.fits, o.same.size)) in
      (
        unlink t r,
        remove_moves base t s v h ne ∙ rw ran,
        record {
          valid = record { timed = timed; heap = heap; fits = omega (arith, v.fits, o.same.size) };
          size = omega (arith, h.0, o.same.size);
          marked = ground arith;
          kept = λ u n k. (holds u).0 n (o.same.keeps u (moved-Holds base t s v h ne u n k));
          only = λ u k. let (n, w) = (holds u).1 k in (n, (only u (o.same.adds u w)).1);
          times = λ u. ground (arith, o.same.times u, moved_times base t s v h ne u);
        },
      )

  pub remove_timer-IsRemoved : (r : Timers) × (remove_timer t s ≡ ok r) × IsRemoved base t s r
  remove_timer-IsRemoved = elim (ℕ_discrete (s.timer t).i (s.n - 1)) [
    | yes e ↦ remove_at_last e
    | no ne ↦ remove_within ne
  ]

-- timer_delete of a timer that is in the heap leaves a valid heap of the other timers, with their
-- times, and marks the timer; of a timer that is marked it changes nothing.
pub timer_delete-IsRemoved :
    (base t : ℕ) (s : Timers)
    → IsValid base s
    → (Holds s t → (r : Timers) × (timer_delete t s ≡ ok r) × IsRemoved base t s r)
      × ((s.timer t).i ≡ invalid_index → timer_delete t s ≡ ok s)
unfolding timer_delete
timer_delete-IsRemoved base t s v = (
  (λ h.
      let (r, ran, o) = remove_timer-IsRemoved base t s v h in
      (r, ground (arith, ran, h.0, v.fits), o)),
  λ e. ground arith,
)
