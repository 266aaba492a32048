-- ===== src/Sched/Awake.antt =====
-- Several threads woken one after the other.
use turnix.Base.{
  ℕ, ◌≡◌, ◌≢◌, ◌<◌, refl, sym, ap, ◌∙◌, List, [], ◌∷◌, arith, if◌then◌else◌, ltb, ℕ_discrete,
}
use turnix.Kernel.{Kernel, State}
use turnix.RunQueue.Queues.{count}
use turnix.Sched.Choice.{IsScheduled}

-- From `k` the threads of `ts` were woken: they run, and the others are in the states they were in.
pub record AllRun (k r : Kernel) (ts : List ℕ) : Type 0 where
  pub scheduled : IsScheduled r
  pub irq : r.in_irq ≡ k.in_irq
  pub woken : (u : ℕ) → 0 < count u ts → (r.threads u).state ≡ State.running
  pub others : (u : ℕ) → count u ts ≡ 0 → (r.threads u).state ≡ (k.threads u).state

pub AllRun-nil : (k : Kernel) → IsScheduled k → AllRun k k []
unfolding count
AllRun-nil k v = record {
  scheduled = v;
  irq = refl;
  woken = λ u h. absurd (omega arith);
  others = λ u h. refl;
}

-- `k1` is `k` with `t` woken.
pub AllRun-cons :
    (k k1 r : Kernel) (t : ℕ) (ts : List ℕ)
    → k1.in_irq ≡ k.in_irq
    → (k1.threads t).state ≡ State.running
    → ((u : ℕ) → t ≢ u → (k1.threads u).state ≡ (k.threads u).state)
    → AllRun k1 r ts
    → AllRun k r (t ∷ ts)
unfolding count
AllRun-cons k k1 r t ts irq on off rest = record {
  scheduled = rest.scheduled;
  irq = rest.irq ∙ irq;
  woken = λ u h. elim (ℕ_discrete (count u ts) 0) [
    | yes e ↦
        let same : t ≡ u = ground (arith, h, e) in
        rest.others u e ∙ ap (λ (x : ℕ). (k1.threads x).state) (sym same) ∙ on
    | no ne ↦ rest.woken u (omega arith)
  ];
  others = λ u h.
      let apart : t ≢ u = λ e. absurd (ground (arith, h, e)) in
      rest.others u (ground (arith, h, apart)) ∙ off u apart;
}

-- The states that this leaves.
pub AllRun-states :
    (k r : Kernel) (ts : List ℕ) (u : ℕ)
    → AllRun k r ts
    → (r.threads u).state ≡ (if ltb 0 (count u ts) then State.running else (k.threads u).state)
AllRun-states k r ts u a = elim (ℕ_discrete (count u ts) 0) [
  | yes e ↦ ground (arith, e, a.others u e)
  | no ne ↦ ground (arith, ne, a.woken u (omega arith))
]
