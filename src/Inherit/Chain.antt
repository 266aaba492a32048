-- ===== src/Inherit/Chain.antt =====
-- The chain of waits from a thread, and the calls of inheritance step by step.
use turnix.Base.{
  ℕ, zero, suc, ◌≡◌, ◌≤◌, refl, sym, subst, Option, ap, ◌∙◌, true, false, none, some, arith, ◌==◌,
}
use turnix.Kernel.{Kernel, Thread, Mutex, ok, ◌>>=◌, set_thread}
use turnix.RunQueue.{enqueue, dequeue}
use turnix.RunQueue.WellFormed.{IsQueued, enqueue-IsQueued, dequeue-IsQueued, unqueued-IsQueued}
use turnix.Inherit.{inherited, set_effective, set_prio, spread}
use turnix.Inherit.Highest.{inherited_least}

-- The chain from a thread: the mutex that it waits for, the owner of that, and so on. It ends, with
-- a thread that waits for no mutex, within `d` mutexes, and each of them has an owner.
pub data Ends (k : Kernel) : ℕ → ℕ → Type 0 where
  done : {t d : ℕ} → (k.threads t).sleep_on ≡ none → Ends k t d
  next :
      {t d m o : ℕ}
      → (k.threads t).sleep_on ≡ some m
      → (k.mutexes m).owner ≡ some o
      → Ends k o d
      → Ends k t (suc d)

-- What inheritance leaves alone: all but effective priorities, queues and time slices.
pub record IsKept (k k' : Kernel) : Type 0 where
  pub sleeps : (t : ℕ) → (k'.threads t).sleep_on ≡ (k.threads t).sleep_on
  pub states : (t : ℕ) → (k'.threads t).state ≡ (k.threads t).state
  pub links : (t : ℕ) → (k'.threads t).linked ≡ (k.threads t).linked
  pub bases : (t : ℕ) → (k'.threads t).priority ≡ (k.threads t).priority
  pub holds : (t : ℕ) → (k'.threads t).mutex_queue ≡ (k.threads t).mutex_queue
  pub mutexes : (m : ℕ) → k'.mutexes m ≡ k.mutexes m
  pub current : k'.current ≡ k.current
  pub in_irq : k'.in_irq ≡ k.in_irq
  pub queue : IsQueued k → IsQueued k'

pub IsKept-refl : (k : Kernel) → IsKept k k
IsKept-refl k = ground arith

pub IsKept-trans : (a b c : Kernel) → IsKept a b → IsKept b c → IsKept a c
IsKept-trans a b c p q = record {
  sleeps = λ t. q.sleeps t ∙ p.sleeps t;
  states = λ t. q.states t ∙ p.states t;
  links = λ t. q.links t ∙ p.links t;
  bases = λ t. q.bases t ∙ p.bases t;
  holds = λ t. q.holds t ∙ p.holds t;
  mutexes = λ m. q.mutexes m ∙ p.mutexes m;
  current = q.current ∙ p.current;
  in_irq = q.in_irq ∙ p.in_irq;
  queue = λ v. q.queue (p.queue v);
}

-- The chain depends only on who waits for what, and on the owners.
pub Ends-same :
    {k : Kernel} (k' : Kernel) {t d : ℕ}
    → ((s : ℕ) → (k'.threads s).sleep_on ≡ (k.threads s).sleep_on)
    → ((m : ℕ) → (k'.mutexes m).owner ≡ (k.mutexes m).owner)
    → Ends k t d
    → Ends k' t d
Ends-same k' {t} p q (done e) = done (p t ∙ e)
Ends-same k' {t} p q (next {m = m} e f g) = next (p t ∙ e) (q m ∙ f) (Ends-same k' p q g)

pub Ends-kept : {k : Kernel} (k' : Kernel) {t d : ℕ} → IsKept k k' → Ends k t d → Ends k' t d
Ends-kept k' p = Ends-same k' p.sleeps (λ m. ap (λ (mu : Mutex). mu.owner) (p.mutexes m))

module _ (k : Kernel) (t : ℕ) where
  abbrev prio : ℕ
  prio = inherited k t

  -- The inherited priority is in range.
  prio_bounded : IsQueued k → prio ≤ 31
  prio_bounded v = (inherited_least k t).2 31 (v.based t) (λ m w i j. v.bounded w)

  dequeue_off : ((dequeue t k).threads t).linked ≡ false
  unfolding dequeue
  dequeue_off = ground arith

  requeued-IsQueued : IsQueued k → IsQueued (enqueue t true (set_effective t prio (dequeue t k)))
  requeued-IsQueued v =
      let w = dequeue-IsQueued k t v in
      let th : Thread = record ((dequeue t k).threads t) { effective_priority = prio } in
      let u =
        unqueued-IsQueued (dequeue t k) t th w dequeue_off dequeue_off (prio_bounded v)
          (w.based t) in
      enqueue-IsQueued (set_thread t th (dequeue t k)) t true u (ground (arith, dequeue_off))

  -- Both ways in which `__pthread_setschedprio` stores the new priority.
  pub requeued-IsKept :
      (k.threads t).linked ≡ true → IsKept k (enqueue t true (set_effective t prio (dequeue t k)))
  unfolding enqueue dequeue
  requeued-IsKept on = record {
    sleeps = λ s. ground arith;
    states = λ s. ground arith;
    links = λ s. ground arith;
    bases = λ s. ground arith;
    holds = λ s. ground arith;
    mutexes = λ m. ground arith;
    current = ground arith;
    in_irq = ground arith;
    queue = requeued-IsQueued;
  }

  pub stored-IsKept : (k.threads t).linked ≡ false → IsKept k (set_effective t prio k)
  stored-IsKept off = record {
    sleeps = λ s. ground arith;
    states = λ s. ground arith;
    links = λ s. ground arith;
    bases = λ s. ground arith;
    holds = λ s. ground arith;
    mutexes = λ m. refl;
    current = refl;
    in_irq = refl;
    queue = λ v. unqueued-IsQueued k t _ v off off (prio_bounded v) (v.based t);
  }

-- One step of each function, by cases.
module _ (f t : ℕ) (k : Kernel) where
  pub set_prio_same :
      ((k.threads t).effective_priority == inherited k t) ≡ true → set_prio (suc f) t k ≡ ok k
  unfolding set_prio
  set_prio_same same = ground arith

  pub set_prio_on :
      ((k.threads t).effective_priority == inherited k t) ≡ false
      → (k.threads t).linked ≡ true
      → set_prio (suc f) t k ≡ ok (enqueue t true (set_effective t (inherited k t) (dequeue t k)))
  unfolding set_prio
  set_prio_on other on = ground arith

  pub set_prio_off :
      ((k.threads t).effective_priority == inherited k t) ≡ false
      → (k.threads t).linked ≡ false
      → set_prio (suc f) t k ≡ spread f t (set_effective t (inherited k t) k)
  unfolding set_prio spread
  set_prio_off other off = ground arith

  pub spread_last : (k.threads t).sleep_on ≡ none → spread (suc f) t k ≡ ok k
  unfolding spread
  spread_last e = rw e

  pub spread_next :
      {m o : ℕ}
      → (k.threads t).sleep_on ≡ some m
      → (k.mutexes m).owner ≡ some o
      → spread (suc f) t k ≡ (set_prio f o k >>= spread f o)
  unfolding spread set_prio
  spread_next e g = rw (e, g)

-- The threads on the chain from a thread, and those behind its start
pub data On (k : Kernel) : ℕ → ℕ → Type 0 where
  here : {t : ℕ} → On k t t
  step :
      {t m o s : ℕ}
      → (k.threads t).sleep_on ≡ some m
      → (k.mutexes m).owner ≡ some o
      → On k o s
      → On k t s

abbrev pub Behind : Kernel → ℕ → ℕ → Type 0
Behind k t s =
    (m : ℕ) × (o : ℕ) × ((k.threads t).sleep_on ≡ some m)
    × ((k.mutexes m).owner ≡ some o)
    × On k o s

pub On-kept : {k : Kernel} (k' : Kernel) {t s : ℕ} → IsKept k k' → On k' t s → On k t s
On-kept k' p here = here
On-kept {k} k' p (step {t = t} {m = m} e g on) =
    step (sym (p.sleeps t) ∙ e) (sym (ap (λ (mu : Mutex). mu.owner) (p.mutexes m)) ∙ g)
      (On-kept k' p on)

pub Behind-On : {k : Kernel} {t s : ℕ} → Behind k t s → On k t s
Behind-On (m, o, e, g, on) = step e g on

pub Behind-kept : {k : Kernel} (k' : Kernel) {t s : ℕ} → IsKept k k' → Behind k' t s → Behind k t s
Behind-kept {k} k' {t} p (m, o, e, g, on) = (
  m,
  o,
  sym (p.sleeps t) ∙ e,
  sym (ap (λ (mu : Mutex). mu.owner) (p.mutexes m)) ∙ g,
  On-kept k' p on,
)

some_same : {a b : ℕ} (x : Option ℕ) → x ≡ some a → x ≡ some b → a ≡ b
some_same x p q = ground (arith, p, q)

-- A chain that ends does not come back to its start.
Ends-weaken : {k : Kernel} {t d : ℕ} → Ends k t d → Ends k t (suc d)
Ends-weaken (done e) = done e
Ends-weaken (next e g r) = next e g (Ends-weaken r)

Ends-on : {k : Kernel} {t s d : ℕ} → Ends k t d → On k t s → Ends k s d
Ends-on r here = r
Ends-on (done e) (step e' g' on) = absurd (ground (arith, e, e'))
Ends-on {k} {t} {s} (next {d = d} {m = m} {o = o} e g r) (step {m = m'} {o = o'} e' g' on) =
    let same : m' ≡ m = some_same (k.threads t).sleep_on e' e in
    let owner : o' ≡ o =
      some_same (k.mutexes m).owner (subst (λ x. (k.mutexes x).owner ≡ some o') same g') g in
    Ends-weaken (Ends-on r (subst (λ x. On k x s) owner on))

pub no_return : (k : Kernel) (d t : ℕ) → Ends k t d → ¬ (Behind k t t)
no_return k zero t (done e) (m, o, e', g', on) = absurd (ground (arith, e, e'))
no_return k (suc d) t (done e) (m, o, e', g', on) = absurd (ground (arith, e, e'))
no_return k (suc d) t (next {m = m} {o = o} e g r) (m', o', e', g', on) =
    let same : m' ≡ m = some_same (k.threads t).sleep_on e' e in
    let owner : o' ≡ o =
      some_same (k.mutexes m).owner (subst (λ x. (k.mutexes x).owner ≡ some o') same g') g in
    no_return k d t (Ends-on r (subst (λ x. On k x t) owner on)) (m', o', e', g', on)
