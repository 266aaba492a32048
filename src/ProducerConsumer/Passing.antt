-- ===== src/ProducerConsumer/Passing.antt =====
-- The numbers that the consumer prints.
use turnix.Base.{
  ℕ, zero, suc, ◌+◌, ◌-◌, ◌%◌, ◌^◌, ◌≡◌, ◌≢◌, ◌≤◌, ◌<◌, ◌⊎◌, inl, inr, refl, Bool, true, false,
  none, some, List, [], ◌∷◌, ◌++◌, arith, length, get_or, ◌==◌, if◌then◌else◌, length-append,
  Option-cases,
}
use turnix.ProducerConsumer.{
  Who, producing, consuming, Phase, testing, waiting, signalling, unlocking, adding, Desk,
  producer_step, consumer_step, step, producer_consumer_init, Reach, here, next,
}

get_or-append :
    (xs : List ℕ) (k x d : ℕ)
    → k < length xs + 1
    → get_or (xs ++ x ∷ []) k d ≡ (if k == length xs then x else get_or xs k d)
get_or-append [] zero x d h = refl
get_or-append [] (suc k) x d h = absurd (omega arith)
get_or-append (y ∷ xs) zero x d h = ground arith
get_or-append (y ∷ xs) (suc k) x d h = ground (arith, get_or-append xs k x d)

-- Whether a thread holds the mutex
pub inside : Phase → Bool
inside testing = true
inside signalling = true
inside unlocking = true
inside other = false

-- The producer has passed its counter on and not yet counted.
pub behind : Phase → ℕ
behind signalling = 1
behind unlocking = 1
behind adding = 1
behind other = 0

-- The consumer has a number that it has not printed.
pub carried : Phase → ℕ
carried signalling = 1
carried unlocking = 1
carried adding = 1
carried other = 0

abbrev pub flag : Bool → ℕ
flag true = 1
flag false = 0

-- How many numbers the consumer has taken
abbrev pub taken : Desk → ℕ
taken d = length d.printed + carried d.consumer

-- The `k`-th number is `k` or the one after it, in 32 bits.
abbrev pub Near : ℕ → ℕ → Type 0
Near k v = (v ≡ k % 2 ^ 32) ⊎ (v ≡ (k + 1) % 2 ^ 32)

pub record IsPassing (d : Desk) : Type 0 where
  pub producer_holds : inside d.producer ≡ true → d.mutex ≡ some producing
  pub consumer_holds : inside d.consumer ≡ true → d.mutex ≡ some consuming
  pub producer_held : d.mutex ≡ some producing → inside d.producer ≡ true
  pub consumer_held : d.mutex ≡ some consuming → inside d.consumer ≡ true
  pub started : behind d.producer ≤ taken d + flag d.pcount
  pub counted : d.count ≡ (taken d + flag d.pcount - behind d.producer) % 2 ^ 32
  pub carries : carried d.consumer ≡ 1 → Near (length d.printed) d.copy
  pub prints : (k : ℕ) → k < length d.printed → Near k (get_or d.printed k 0)
  -- No signal is lost: who waits has a reason, or is about to be woken.
  pub producer_waits : d.producer ≡ waiting → (d.pcount ≡ true) ⊎ (d.consumer ≡ signalling)
  pub consumer_waits : d.consumer ≡ waiting → (d.pcount ≡ false) ⊎ (d.producer ≡ signalling)

module _ (d e : Desk) (v : IsPassing d) where
  producer_step-IsPassing : producer_step d ≡ some e → IsPassing e
  unfolding producer_step inside behind carried
  producer_step-IsPassing ran = record {
    producer_holds = ground (arith, ran);
    consumer_holds = ground (arith, ran);
    producer_held = ground (arith, ran);
    consumer_held = ground (arith, ran);
    started = ground (arith, ran);
    counted = ground (arith, ran);
    carries = ground (arith, ran);
    prints = λ k h. ground (arith, ran, v.prints k);
    producer_waits = ground (arith, ran);
    consumer_waits = ground (arith, ran);
  }

  consumer_prints :
      consumer_step d ≡ some e → (k : ℕ) → k < length e.printed → Near k (get_or e.printed k 0)
  unfolding consumer_step carried
  consumer_prints ran k h = ground (
    arith,
    ran,
    v.prints k,
    get_or-append d.printed k d.copy 0,
    length-append d.printed (d.copy ∷ []),
  )

  consumer_step-IsPassing : consumer_step d ≡ some e → IsPassing e
  unfolding consumer_step inside behind carried
  consumer_step-IsPassing ran =
      let longer = length-append d.printed (d.copy ∷ []) in
      record {
        producer_holds = ground (arith, ran);
        consumer_holds = ground (arith, ran);
        producer_held = ground (arith, ran);
        consumer_held = ground (arith, ran);
        started = ground (arith, ran, longer);
        counted = ground (arith, ran, longer);
        carries = ground (arith, ran);
        prints = consumer_prints ran;
        producer_waits = ground (arith, ran);
        consumer_waits = ground (arith, ran);
      }

init-IsPassing : IsPassing producer_consumer_init
unfolding inside behind carried
init-IsPassing = record {
  producer_holds = λ h. absurd (cc h);
  consumer_holds = λ h. absurd (cc h);
  producer_held = λ h. absurd (cc h);
  consumer_held = λ h. absurd (cc h);
  started = omega arith;
  counted = omega arith;
  carries = λ h. absurd (omega arith);
  prints = λ k h. absurd (omega arith);
  producer_waits = λ h. absurd (cc h);
  consumer_waits = λ h. absurd (cc h);
}

step-IsPassing : (who : Who) (d e : Desk) → IsPassing d → step who d ≡ some e → IsPassing e
step-IsPassing producing d e v ran = producer_step-IsPassing d e v ran
step-IsPassing consuming d e v ran = consumer_step-IsPassing d e v ran

Reach-IsPassing : {d : Desk} → Reach producer_consumer_init d → IsPassing d
Reach-IsPassing here = init-IsPassing
Reach-IsPassing (next {d = d} {e = e} who r ran) = step-IsPassing who d e (Reach-IsPassing r) ran

Phase-discrete : Discrete Phase
Phase-discrete = hlevel

module _ (d : Desk) where
  producer_inside : inside d.producer ≡ true → producer_step d ≢ none
  unfolding producer_step inside
  producer_inside h = ground (arith, h)

  consumer_inside : inside d.consumer ≡ true → consumer_step d ≢ none
  unfolding consumer_step inside
  consumer_inside h = ground (arith, h)

  producer_free : d.mutex ≡ none → d.producer ≢ waiting → producer_step d ≢ none
  unfolding producer_step
  producer_free free n = ground (arith, free, n)

  consumer_free : d.mutex ≡ none → d.consumer ≢ waiting → consumer_step d ≢ none
  unfolding consumer_step
  consumer_free free n = ground (arith, free, n)

  -- Somebody has a step that does not block.
  abbrev pub CanGo : Type 0
  CanGo = (producer_step d ≢ none) ⊎ (consumer_step d ≢ none)

  can_go_free : IsPassing d → d.mutex ≡ none → CanGo
  can_go_free v free = elim (Phase-discrete d.producer waiting) [
    | no n ↦ inl (producer_free free n)
    | yes p ↦ elim (Phase-discrete d.consumer waiting) [
      | no n ↦ inr (consumer_free free n)
      | yes q ↦ absurd (ground (arith, v.producer_waits p, v.consumer_waits q))
    ]
  ]

  can_go_owned : (who : Who) → IsPassing d → d.mutex ≡ some who → CanGo
  can_go_owned producing v e = inl (producer_inside (v.producer_held e))
  can_go_owned consuming v e = inr (consumer_inside (v.consumer_held e))

  can_go : IsPassing d → CanGo
  can_go v = elim (Option-cases d.mutex) [
    | inl free ↦ can_go_free v free
    | inr (who, e) ↦ can_go_owned who v e
  ]

-- On every run of the two threads, the k-th number that is printed is k or the one after it, in 32
-- bits, and one of the threads has a step that does not block.
pub printed-Near :
    (d : Desk)
    → Reach producer_consumer_init d
    → ((k : ℕ) → k < length d.printed → Near k (get_or d.printed k 0)) × CanGo d
printed-Near d r = let v = Reach-IsPassing r in (v.prints, can_go d v)
