-- ===== src/Inherit/Cycle.antt =====
-- Where priority inheritance does not return: a cycle of waits, and a mutex without an owner.
use turnix.Base.{ℕ, zero, suc, ◌≡◌, ◌⊎◌, inl, inr, refl, ap, ◌∙◌, none, some, Bool-cases, ◌==◌}
use turnix.Kernel.{Kernel, Mutex, ok, fault, out_of_fuel}
use turnix.Inherit.{inherited, set_effective, set_prio, spread}
use turnix.Inherit.Total.{
  IsKept, requeued-IsKept, stored-IsKept, set_prio_same, set_prio_on, set_prio_off, spread_next,
}

-- Each thread of `c` waits for a mutex whose owner is of `c`: a deadlock.
abbrev pub IsClosed {ℓ} : (ℕ → Type ℓ) → Kernel → Type ℓ
IsClosed c k =
    (t : ℕ)
    → c t
    → (m : ℕ) × (o : ℕ) × ((k.threads t).sleep_on ≡ some m) × ((k.mutexes m).owner ≡ some o) × c o

set_prio-zero : (t : ℕ) (k : Kernel) → set_prio zero t k ≡ out_of_fuel
unfolding set_prio
set_prio-zero t k = refl

spread-zero : (t : ℕ) (k : Kernel) → spread zero t k ≡ out_of_fuel
unfolding spread
spread-zero t k = refl

module _ {ℓ} (c : ℕ → Type ℓ) where
  IsClosed-kept : (k k' : Kernel) → IsKept k k' → IsClosed c k → IsClosed c k'
  IsClosed-kept k k' p closed t h =
      let (m, o, e, g, r) = closed t h in
      (m, o, p.sleeps t ∙ e, ap (λ (mu : Mutex). mu.owner) (p.mutexes m) ∙ g, r)

  mutual
    set_prio_stuck :
        (f t : ℕ) (k : Kernel)
        → IsClosed c k
        → c t
        → (set_prio f t k ≡ out_of_fuel)
          ⊎ ((k' : Kernel) × (set_prio f t k ≡ ok k') × IsClosed c k')
    set_prio_stuck zero t k closed h = inl (set_prio-zero t k)
    set_prio_stuck (suc f) t k closed h =
        elim (Bool-cases ((k.threads t).effective_priority == inherited k t)) [
          | inl same ↦ inr (k, set_prio_same f t k same, closed)
          | inr other ↦ elim (Bool-cases (k.threads t).linked) [
            | inl on ↦
                inr
                  (_, set_prio_on f t k other on, IsClosed-kept k _ (requeued-IsKept k t on) closed)
            | inr off ↦
                let k1 = set_effective t (inherited k t) k in
                let still = IsClosed-kept k k1 (stored-IsKept k t off) closed in
                inl (set_prio_off f t k other off ∙ spread_stuck f t k1 still h)
          ]
        ]

    spread_stuck : (f t : ℕ) (k : Kernel) → IsClosed c k → c t → spread f t k ≡ out_of_fuel
    spread_stuck zero t k closed h = spread-zero t k
    spread_stuck (suc f) t k closed h =
        let (m, o, e, g, r) = closed t h in
        elim (set_prio_stuck f o k closed r) [
          | inl stuck ↦ spread_next f t k e g ∙ rw stuck
          | inr (k', ran, still) ↦ spread_next f t k e g ∙ rw ran (spread_stuck f o k' still r)
        ]

  -- In a deadlock `__pthread_spread` never returns: started at a thread of a cycle of waits, it has
  -- no result with any amount of fuel.
  pub spread_hangs : (f t : ℕ) (k : Kernel) → IsClosed c k → c t → spread f t k ≡ out_of_fuel
  spread_hangs f t k closed h = spread_stuck f t k closed h

-- A thread that waits for a mutex without an owner makes `__pthread_spread` follow a NULL pointer.
pub spread_orphan :
    (f t m : ℕ) (k : Kernel)
    → (k.threads t).sleep_on ≡ some m
    → (k.mutexes m).owner ≡ none
    → spread (suc f) t k ≡ fault
unfolding spread
spread_orphan f t m k e g = rw (e, g)
