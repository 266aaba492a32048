-- ===== src/Philosophers/Forks.antt =====
-- Who holds which fork.
use turnix.Base.{ℕ, ◌≡◌, ◌≢◌, ◌<◌, Bool, true, false, ◌||◌, some, arith, ◌==◌}
use turnix.Philosophers.{
  Stage, lock_first, lock_second, start, eating, unlock_second, unlock_first, finished, Table,
  first_fork, second_fork, philosopher, philosophers_init, Reach, here, next,
}

abbrev pub holds : ℕ → Stage → ℕ → Bool
holds id lock_first fork = false
holds id lock_second fork = fork == first_fork id
holds id start fork = (fork == first_fork id) || (fork == second_fork id)
holds id eating fork = (fork == first_fork id) || (fork == second_fork id)
holds id unlock_second fork = (fork == first_fork id) || (fork == second_fork id)
holds id unlock_first fork = fork == first_fork id
holds id finished fork = false

-- A fork belongs to the philosopher who holds it, and to nobody if there is none.
pub record IsSound (t : Table) : Type 0 where
  pub owner :
      (fork id : ℕ) → t.forks fork ≡ some id → (id < 5) × (holds id (t.stage id) fork ≡ true)
  pub owned : (id fork : ℕ) → id < 5 → holds id (t.stage id) fork ≡ true → t.forks fork ≡ some id

module _ (t u : Table) (id : ℕ) (near : id < 5) (ran : philosopher id t ≡ some u)
    (s : IsSound t) where
  step_owner : (fork p : ℕ) → u.forks fork ≡ some p → (p < 5) × (holds p (u.stage p) fork ≡ true)
  unfolding philosopher
  step_owner fork p e =
      ground (arith, ran, s.owner fork p, s.owned id (first_fork id), s.owned id (second_fork id))

  step_owned : (p fork : ℕ) → p < 5 → holds p (u.stage p) fork ≡ true → u.forks fork ≡ some p
  unfolding philosopher
  step_owned p fork h e = ground (
    arith,
    ran,
    s.owned p fork,
    s.owned id fork,
    s.owned id (first_fork id),
    s.owned id (second_fork id),
  )

  step-IsSound : IsSound u
  step-IsSound = record { owner = step_owner; owned = step_owned }

init-IsSound : IsSound philosophers_init
init-IsSound = record { owner = λ f p e. absurd (cc e); owned = λ p f h e. absurd (cc e) }

pub Reach-IsSound : {n : ℕ} {t : Table} → Reach philosophers_init n t → IsSound t
Reach-IsSound here = init-IsSound
Reach-IsSound (next {t = t} {u = u} id r near ran) = step-IsSound t u id near ran (Reach-IsSound r)

shares :
    (t : Table) (i j fork : ℕ)
    → IsSound t
    → i < 5
    → j < 5
    → t.stage i ≡ eating
    → t.stage j ≡ eating
    → holds i eating fork ≡ true
    → holds j eating fork ≡ true
    → i ≡ j
shares t i j fork s hi hj ei ej hold_i hold_j =
    ground (arith, s.owned i fork hi (rw ei hold_i), s.owned j fork hj (rw ej hold_j))

-- Two philosophers who eat at the same time share no fork: each of the two forks of one is not among
-- those of the other.
pub Reach-eating :
    (n : ℕ) (t : Table) (i j : ℕ)
    → Reach philosophers_init n t
    → i < 5
    → j < 5
    → i ≢ j
    → t.stage i ≡ eating
    → t.stage j ≡ eating
    → (first_fork i ≢ first_fork j)
      × (first_fork i ≢ second_fork j)
      × (second_fork i ≢ first_fork j)
      × (second_fork i ≢ second_fork j)
Reach-eating n t i j r hi hj ne ei ej =
    let clash = λ (f : ℕ). shares t i j f (Reach-IsSound r) hi hj ei ej in
    (
      λ e. ne (clash (first_fork i) (ground arith) (ground (arith, e))),
      λ e. ne (clash (first_fork i) (ground arith) (ground (arith, e))),
      λ e. ne (clash (second_fork i) (ground arith) (ground (arith, e))),
      λ e. ne (clash (second_fork i) (ground arith) (ground (arith, e))),
    )
