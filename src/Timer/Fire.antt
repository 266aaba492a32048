-- ===== src/Timer/Fire.antt =====
-- The timers that a tick runs.
use turnix.Base.{
  ℕ, zero, suc, ◌^◌, ◌≡◌, ◌≢◌, ◌≤◌, ◌<◌, ◌⊎◌, ◌∙◌, true, false, inl, inr, arith, Bool-cases, List,
  [], ◌∷◌, ℕ_discrete,
}
use turnix.Kernel.{ok, ◌>>=◌}
use turnix.RunQueue.Queues.{count}
use turnix.Timer.{Timers, expiry, remove_timer, fire, time_after}
use turnix.Timer.Window.{key, distance, time_after-distance}
use turnix.Timer.Swap.{Holds}
use turnix.Timer.Insert.{IsValid, root_least}
use turnix.Timer.Remove.{IsRemoved, remove_timer-IsRemoved}

abbrev pub due : ℕ → Timers → ℕ → ℕ
due base s t = distance base (s.timer t).expires

-- The heap after the loop, and the timers that it ran.
pub record IsFired (base now : ℕ) (s r : Timers) (ts : List ℕ) : Type 0 where
  pub valid : IsValid base r
  pub left : (u : ℕ) → Holds r u → distance base now < due base s u
  pub kept : (u : ℕ) → Holds r u → Holds s u
  pub ran : (u : ℕ) → 0 < count u ts → Holds s u × (due base s u ≤ distance base now)
  pub all : (u : ℕ) → Holds s u → Holds r u ⊎ (0 < count u ts)

module _ (f now : ℕ) (s : Timers) where
  fire_stops : s.n ≡ 0 → fire (suc f) now s ≡ ok (s, [])
  unfolding fire
  fire_stops e = ground arith

  fire_waits : time_after (expiry s 0) now ≡ true → fire (suc f) now s ≡ ok (s, [])
  unfolding fire
  fire_waits e = ground arith

  fire_runs :
      0 < s.n
      → time_after (expiry s 0) now ≡ false
      → fire (suc f) now s
        ≡ (remove_timer (s.heap 0) s >>= λ r. fire f now r >>= λ (s', ts). ok (s', s.heap 0 ∷ ts))
  unfolding fire
  fire_runs p e = ground arith

-- A timer of the heap expires no earlier than the root.
Holds-root :
    (base u : ℕ) (s : Timers)
    → IsValid base s
    → Holds s u
    → (key base s 0 ≤ due base s u) × (s.n ≢ 0)
Holds-root base u s v h =
    (ground (arith, root_least base (s.timer u).i s v.heap, h), omega (arith, h.0))

step-IsFired :
    (base now : ℕ) (s r x : Timers) (ts : List ℕ)
    → IsRemoved base (s.heap 0) s r
    → Holds s (s.heap 0)
    → key base s 0 ≤ distance base now
    → IsFired base now r x ts
    → IsFired base now s x (s.heap 0 ∷ ts)
unfolding count
step-IsFired base now s r x ts o h d g = record {
  valid = g.valid;
  left = λ u k. ground (arith, g.left u k, o.times u);
  kept = λ u k. (o.only u (g.kept u k)).1;
  ran = λ u p. elim (ℕ_discrete (s.heap 0) u) [
    | yes e ↦ rw (← e) (h, d)
    | no n ↦
        let (k, early) = g.ran u (ground arith) in
        ((o.only u k).1, ground (arith, early, o.times u))
  ];
  all = λ u k. elim (ℕ_discrete u (s.heap 0)) [
    | yes e ↦ inr (ground arith)
    | no n ↦ elim (g.all u (o.kept u n k)) [ inl here ↦ inl here | inr there ↦ inr (ground arith) ]
  ];
}

-- The loop of timer_update, at a time less than 2^31 ticks after `base`: more rounds than there are
-- timers suffice; it runs exactly the timers of the heap that have expired by now, removes each of
-- them, and leaves a valid heap of the others.
pub fire-IsFired :
    (f base now : ℕ) (s : Timers)
    → s.n < f
    → IsValid base s
    → now < 2 ^ 32
    → distance base now < 2 ^ 31
    → (r : Timers) × (ts : List ℕ) × (fire f now s ≡ ok (r, ts)) × IsFired base now s r ts
unfolding count
fire-IsFired zero base now s h v w d = absurd (omega arith)
fire-IsFired (suc f) base now s h v w d = elim (ℕ_discrete s.n 0) [
  | yes empty ↦ (
    s,
    [],
    fire_stops f now s empty,
    record {
      valid = v;
      left = λ u k. absurd ((Holds-root base u s v k).1 empty);
      kept = λ u k. k;
      ran = λ u p. absurd (omega arith);
      all = λ u k. inl k;
    },
  )
  | no some_left ↦
      let pos : 0 < s.n = omega arith in
      let tests =
        time_after-distance base (expiry s 0) now v.timed.start (v.timed.word 0 pos) w
          (v.timed.near 0 pos) d in
      elim (Bool-cases (time_after (expiry s 0) now)) [
        | inl late ↦ (
          s,
          [],
          fire_waits f now s late,
          record {
            valid = v;
            left = λ u k. omega (arith, (Holds-root base u s v k).0, tests.0 late);
            kept = λ u k. k;
            ran = λ u p. absurd (omega arith);
            all = λ u k. inl k;
          },
        )
        | inr early ↦
            let link = v.timed.links 0 pos in
            let root : Holds s (s.heap 0) = (ground arith, ground arith) in
            let (r, gone, o) = remove_timer-IsRemoved base (s.heap 0) s v root in
            let (x, ts, rest, g) = fire-IsFired f base now r (omega (arith, o.size)) o.valid w d in
            (
              x,
              s.heap 0 ∷ ts,
              fire_runs f now s pos early ∙ rw gone (rw rest),
              step-IsFired base now s r x ts o root (tests.1 early) g,
            )
      ]
]
