-- ===== src/ProducerConsumer.antt =====
-- applications/producer_consumer.c: a producer that passes the address of its counter to a consumer.
-- The mutex and the condition variables are taken by their contracts: lock goes on when the mutex is
-- free, pthread_cond_wait frees it and waits for a signal, and then locks it again.
pub mod Passing
use turnix.Base.{
  ℕ, zero, suc, ◌+◌, ◌%◌, ◌^◌, ◌≡◌, Bool, true, false, Option, none, some, List, [], ◌∷◌, ◌++◌,
}

pub data Who : Type 0 where
  producing consuming : Who

-- The next step of a thread. `adding` is the `++count` of the producer and the printf of the consumer,
-- after the unlock; `waiting` is within pthread_cond_wait.
pub data Phase : Type 0 where
  locking testing waiting relocking signalling unlocking adding : Phase

-- The shared variables, the counter of the producer, the copy of the consumer, and what is printed.
pub record Desk : Type 0 where
  pub producer : Phase
  pub consumer : Phase
  pub mutex : Option Who
  pub pcount : Bool
  pub count : ℕ
  pub copy : ℕ
  pub printed : List ℕ

abbrev pub locked : Desk → Who → (Desk → Desk) → Option Desk
locked d who next = elim d.mutex [
  | none ↦ some (next (record d { mutex = some who }))
  | some other ↦ none
]

-- A signal wakes the thread that waits, if it does.
abbrev pub woken_phase : Phase → Phase
woken_phase waiting = relocking
woken_phase phase = phase

abbrev pub to_producer : Phase → Desk → Desk
to_producer phase d = record d { producer = phase }

abbrev pub to_consumer : Phase → Desk → Desk
to_consumer phase d = record d { consumer = phase }

-- A step of `producer`, if it does not block
unfoldable pub producer_step : Desk → Option Desk
producer_step d = elim d.producer [
  | locking ↦ locked d producing (to_producer testing)
  | testing ↦ some (elim d.pcount [
    | true ↦ record d { producer = waiting; mutex = none }
    | false ↦ record d { producer = signalling; pcount = true }
  ])
  | waiting ↦ none
  | relocking ↦ locked d producing (to_producer testing)
  | signalling ↦ some (record d { producer = unlocking; consumer = woken_phase d.consumer })
  | unlocking ↦ some (record d { producer = adding; mutex = none })
  | adding ↦ some (record d { producer = locking; count = (d.count + 1) % 2 ^ 32 })
]

-- A step of `consumer`, if it does not block
unfoldable pub consumer_step : Desk → Option Desk
consumer_step d = elim d.consumer [
  | locking ↦ locked d consuming (to_consumer testing)
  | testing ↦ some (elim d.pcount [
    | true ↦ record d { consumer = signalling; copy = d.count; pcount = false }
    | false ↦ record d { consumer = waiting; mutex = none }
  ])
  | waiting ↦ none
  | relocking ↦ locked d consuming (to_consumer testing)
  | signalling ↦ some (record d { consumer = unlocking; producer = woken_phase d.producer })
  | unlocking ↦ some (record d { consumer = adding; mutex = none })
  | adding ↦ some (record d { consumer = locking; printed = d.printed ++ d.copy ∷ [] })
]

abbrev pub step : Who → Desk → Option Desk
step producing d = producer_step d
step consuming d = consumer_step d

-- What producer_consumer_init starts from; the type of the mutex, which pthread_mutex_init reads through
-- the NULL that it is given, matters only to a thread that locks a mutex that it holds.
abbrev pub producer_consumer_init : Desk
producer_consumer_init = record {
  producer = locking;
  consumer = locking;
  mutex = none;
  pcount = false;
  count = 0;
  copy = 0;
  printed = [];
}

pub data Reach (s : Desk) : Desk → Type 0 where
  here : Reach s s
  next : {d e : Desk} (who : Who) → Reach s d → step who d ≡ some e → Reach s e
