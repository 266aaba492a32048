-- ===== src/Philosophers/Dinner.antt =====
-- Somebody can always go on, until all have finished, where the mutexes keep their contract.
use turnix.Base.{
  ℕ, zero, suc, ◌+◌, ◌≡◌, ◌≢◌, ◌≤◌, ◌<◌, ◌⊎◌, inl, inr, refl, true, none, some, arith, Option-cases,
  ℕ_discrete,
}
use turnix.Philosophers.{
  Stage, lock_first, lock_second, start, eating, unlock_second, unlock_first, finished, Table,
  first_fork, second_fork, philosopher, philosophers_init, Reach, here, next,
}
use turnix.Philosophers.Forks.{IsSound, holds, Reach-IsSound}

-- The statements that are left
pub rest : Stage → ℕ
rest lock_first = 6
rest lock_second = 5
rest start = 4
rest eating = 3
rest unlock_second = 2
rest unlock_first = 1
rest finished = 0

-- Somebody has a statement that does not block.
abbrev pub CanGo : Table → Type 0
CanGo t = (id : ℕ) × (id < 5) × (philosopher id t ≢ none)

module _ (t : Table) where
  not_blocked :
      (id : ℕ) (stage : Stage)
      → t.stage id ≡ stage
      → (stage ≡ lock_first → t.forks (first_fork id) ≡ none)
      → (stage ≡ lock_second → t.forks (second_fork id) ≡ none)
      → stage ≢ finished
      → philosopher id t ≢ none
  unfolding philosopher
  not_blocked id lock_first e f g n = let free = f refl in ground (arith, e, free)
  not_blocked id lock_second e f g n = let free = g refl in ground (arith, e, free)
  not_blocked id start e f g n = ground (arith, e)
  not_blocked id eating e f g n = ground (arith, e)
  not_blocked id unlock_second e f g n = ground (arith, e)
  not_blocked id unlock_first e f g n = ground (arith, e)
  not_blocked id finished e f g n = absurd (n refl)

  -- Who holds a fork can go on, or waits for the second one.
  holder :
      (fork id : ℕ) (stage : Stage)
      → id < 5
      → t.stage id ≡ stage
      → holds id stage fork ≡ true
      → ((stage ≡ lock_second) × (fork ≡ first_fork id)) ⊎ CanGo t
  holder fork id lock_first h e held = absurd (cc held)
  holder fork id lock_second h e held = inl (refl, ground (arith, held))
  holder fork id finished h e held = absurd (cc held)
  holder fork id stage h e held =
      inr (
        id,
        h,
        not_blocked id stage e (λ p. absurd (cc p)) (λ p. absurd (cc p)) (λ p. absurd (cc p)),
      )

  module _ (s : IsSound t) where
    -- The second fork has the higher number, so a chain of waits ends.
    climb : (n id : ℕ) → id < 5 → t.stage id ≡ lock_second → 5 ≤ n + first_fork id → CanGo t
    climb zero id h e far = absurd (ground (arith, h, far))
    climb (suc n) id h e far = elim (Option-cases (t.forks (second_fork id))) [
      | inl free ↦ (
        id,
        h,
        not_blocked id lock_second e (λ p. absurd (cc p)) (λ _. free) (λ p. absurd (cc p)),
      )
      | inr (q, taken) ↦
          let (near, held) = s.owner (second_fork id) q taken in
          elim (holder (second_fork id) q (t.stage q) near refl held) [
            | inl (waits, same) ↦ climb n q near waits (ground (arith, same, far, h))
            | inr can ↦ can
          ]
    ]

    goes_on_or_done :
        (id : ℕ) (stage : Stage) → id < 5 → t.stage id ≡ stage → (t.stage id ≡ finished) ⊎ CanGo t
    goes_on_or_done id lock_first h e = elim (Option-cases (t.forks (first_fork id))) [
      | inl free ↦
          inr (
            id,
            h,
            not_blocked id lock_first e (λ _. free) (λ p. absurd (cc p)) (λ p. absurd (cc p)),
          )
      | inr (q, taken) ↦
          let (near, held) = s.owner (first_fork id) q taken in
          elim (holder (first_fork id) q (t.stage q) near refl held) [
            | inl (waits, same) ↦ inr (climb 5 q near waits (omega arith))
            | inr can ↦ inr can
          ]
    ]
    goes_on_or_done id lock_second h e = inr (climb 5 id h e (omega arith))
    goes_on_or_done id finished h e = inl e
    goes_on_or_done id stage h e = inr (
      id,
      h,
      not_blocked id stage e (λ p. absurd (cc p)) (λ p. absurd (cc p)) (λ p. absurd (cc p)),
    )

-- All those below `n` have finished.
abbrev pub AllFinished : ℕ → Table → Type 0
AllFinished n t = (id : ℕ) → id < n → t.stage id ≡ finished

finished_or_can : (n : ℕ) (t : Table) → IsSound t → n ≤ 5 → AllFinished n t ⊎ CanGo t
finished_or_can zero t s le = inl (λ id h. absurd (omega arith))
finished_or_can (suc n) t s le = elim (finished_or_can n t s (omega arith)) [
  | inr can ↦ inr can
  | inl all ↦ elim (goes_on_or_done t s n (t.stage n) (omega arith) refl) [
    | inr can ↦ inr can
    | inl e ↦
        inl (λ id h. elim (ℕ_discrete id n) [
          | yes same ↦ rw same e
          | no other ↦ all id (omega arith)
        ])
  ]
]

-- The statements that are left to all of them
abbrev pub left : Table → ℕ
left t =
    rest (t.stage 0) + rest (t.stage 1) + rest (t.stage 2) + rest (t.stage 3) + rest (t.stage 4)

step_rest :
    (t u : Table) (id : ℕ)
    → philosopher id t ≡ some u
    → (rest (u.stage id) + 1 ≡ rest (t.stage id)) × ((j : ℕ) → j ≢ id → u.stage j ≡ t.stage j)
unfolding philosopher rest
step_rest t u id ran = (ground (arith, ran), λ j n. ground (arith, ran, n))

step-left : (t u : Table) (id : ℕ) → id < 5 → philosopher id t ≡ some u → left u + 1 ≡ left t
step-left t u id near ran =
    let (one, same) = step_rest t u id ran in
    ground (arith, one, same 0, same 1, same 2, same 3, same 4)

Reach-left : {n : ℕ} {t : Table} → Reach philosophers_init n t → n + left t ≡ 30
unfolding rest
Reach-left here = refl
Reach-left (next {n = n} {t = t} {u = u} id r near ran) =
    omega (arith, Reach-left r, step-left t u id near ran)

-- Where the mutexes keep their contract: after any `n` statements in any order, all five have finished
-- or one of them has a statement that does not block, and 30 - n statements are left.
pub dinner_ends :
    (n : ℕ) (t : Table)
    → Reach philosophers_init n t
    → (AllFinished 5 t ⊎ CanGo t) × (n + left t ≡ 30)
dinner_ends n t r = (finished_or_can 5 t (Reach-IsSound r) (omega arith), Reach-left r)
