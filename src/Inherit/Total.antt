-- ===== src/Inherit/Total.antt =====
-- Priority inheritance ends when the chain of waits ends, and keeps the run queue well formed.
use turnix.Base.{
  ℕ, zero, suc, ◌+◌, ◌*◌, ◌≡◌, ◌<◌, inl, inr, refl, subst, ◌≢◌, ==_iff, ◌∙◌, true, arith, ◌==◌,
  Bool-cases,
}
use turnix.Kernel.{Kernel, ok}
use turnix.RunQueue.{enqueue, dequeue}
use turnix.Inherit.{inherited, set_effective, set_prio, spread}
pub use turnix.Inherit.Chain.{
  Ends, done, next, IsKept, Ends-same, requeued-IsKept, stored-IsKept, set_prio_same, set_prio_on,
  set_prio_off, spread_next,
}
use turnix.Inherit.Chain.{
  IsKept-refl, IsKept-trans, Ends-kept, On, here, Behind, Behind-On, Behind-kept, no_return,
  spread_last,
}

-- A thread whose effective priority stays
abbrev pub SameAt : Kernel → Kernel → ℕ → Type 0
SameAt k k' s = (k'.threads s).effective_priority ≡ (k.threads s).effective_priority

requeued-SameAt :
    (k : Kernel) (t s : ℕ)
    → t ≢ s
    → SameAt k (enqueue t true (set_effective t (inherited k t) (dequeue t k))) s
unfolding enqueue dequeue
requeued-SameAt k t s n = ground (arith, n)

-- Enough fuel: two calls for each mutex of the chain. Only threads on the chain change.
mutual
  set_prio-Ends :
      (f t d : ℕ) (k : Kernel)
      → 2 * d + 1 < f
      → Ends k t d
      → (k' : Kernel) × (set_prio f t k ≡ ok k')
        × IsKept k k'
        × ((s : ℕ) → ¬ (On k t s) → SameAt k k' s)
  set_prio-Ends zero t d k h e = absurd (omega arith)
  set_prio-Ends (suc f) t d k h e =
      elim (Bool-cases ((k.threads t).effective_priority == inherited k t)) [
        | inl same ↦ (k, set_prio_same f t k same, IsKept-refl k, λ s n. refl)
        | inr other ↦ elim (Bool-cases (k.threads t).linked) [
          | inl on ↦ (
            _,
            set_prio_on f t k other on,
            requeued-IsKept k t on,
            λ s n. requeued-SameAt k t s (λ x. n (subst (λ u. On k t u) x here)),
          )
          | inr off ↦
              let k1 = set_effective t (inherited k t) k in
              let p = stored-IsKept k t off in
              let (k', ran, q, far) = spread-Ends f t d k1 (omega arith) (Ends-kept k1 p e) in
              (
                k',
                set_prio_off f t k other off ∙ ran,
                IsKept-trans k k1 k' p q,
                λ s n.
                    let apart : t ≢ s = λ x. n (subst (λ u. On k t u) x here) in
                    far s (λ b. n (Behind-On (Behind-kept k1 p b))) ∙ ground (arith, apart),
              )
        ]
      ]

  spread-Ends :
      (f t d : ℕ) (k : Kernel)
      → 2 * d < f
      → Ends k t d
      → (k' : Kernel) × (spread f t k ≡ ok k')
        × IsKept k k'
        × ((s : ℕ) → ¬ (Behind k t s) → SameAt k k' s)
  spread-Ends zero t d k h e = absurd (omega arith)
  spread-Ends (suc f) t d k h (done e) = (k, spread_last f t k e, IsKept-refl k, λ s n. refl)
  spread-Ends (suc f) t d k h (next {d = d'} {m = m} {o = o} e g r) =
      let (k1, ran1, p, far1) = set_prio-Ends f o d' k (omega arith) r in
      let (k2, ran2, q, far2) = spread-Ends f o d' k1 (omega arith) (Ends-kept k1 p r) in
      (
        k2,
        spread_next f t k e g ∙ rw ran1 ran2,
        IsKept-trans k k1 k2 p q,
        λ s n.
            far2 s (λ b. n (m, o, e, g, Behind-On (Behind-kept k1 p b)))
            ∙ far1 s (λ on. n (m, o, e, g, on)),
      )

-- Where the chain of waits from a thread ends within `d` mutexes, all of them owned, more than
-- `2 * d` calls suffice: `__pthread_spread` returns, it changes nothing but effective priorities and
-- places in the run queue, and it keeps the run queue well formed.
pub spread-IsKept :
    (f t d : ℕ) (k : Kernel)
    → 2 * d < f
    → Ends k t d
    → (k' : Kernel) × (spread f t k ≡ ok k') × IsKept k k'
spread-IsKept f t d k h e = let (k', ran, p, far) = spread-Ends f t d k h e in (k', ran, p)

requeued_effective :
    (k : Kernel) (t : ℕ)
    → ((enqueue t true (set_effective t (inherited k t) (dequeue t k))).threads
        t).effective_priority
      ≡ inherited k t
unfolding enqueue dequeue
requeued_effective k t = ground arith

pub set_prio-IsKept :
    (f t d : ℕ) (k : Kernel)
    → 2 * d + 1 < f
    → Ends k t d
    → (k' : Kernel) × (set_prio f t k ≡ ok k')
      × IsKept k k'
      × ((k'.threads t).effective_priority ≡ inherited k t)
set_prio-IsKept zero t d k h e = absurd (omega arith)
set_prio-IsKept (suc f) t d k h e =
    elim (Bool-cases ((k.threads t).effective_priority == inherited k t)) [
      | inl same ↦ (k, set_prio_same f t k same, IsKept-refl k, (==_iff _ _).0 same)
      | inr other ↦ elim (Bool-cases (k.threads t).linked) [
        | inl on ↦ (_, set_prio_on f t k other on, requeued-IsKept k t on, requeued_effective k t)
        | inr off ↦
            let k1 = set_effective t (inherited k t) k in
            let p = stored-IsKept k t off in
            let (k', ran, q, far) = spread-Ends f t d k1 (omega arith) (Ends-kept k1 p e) in
            (
              k',
              set_prio_off f t k other off ∙ ran,
              IsKept-trans k k1 k' p q,
              far t (no_return k1 d t (Ends-kept k1 p e)) ∙ ground arith,
            )
      ]
    ]
