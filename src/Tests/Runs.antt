-- ===== src/Tests/Runs.antt =====
-- Runs of the demonstrations.
use turnix.Base.{ℕ, ◌≡◌, ◌≢◌, ◌<◌, refl, [], ◌∷◌, arith, length, get_or}
use turnix.Philosophers
use turnix.Philosophers.{Table, eating, first_fork, second_fork, philosopher, philosophers_init}
use turnix.Philosophers.Forks.{Reach-eating}
use turnix.ProducerConsumer
use turnix.ProducerConsumer.{
  Desk, producing, consuming, producer_step, consumer_step, producer_consumer_init,
}
use turnix.ProducerConsumer.Passing
use turnix.ProducerConsumer.Passing.{Near, printed-Near}

-- The philosophers 0 and 2 have reached their meal.
two_eat :
    (t : Table) × Philosophers.Reach philosophers_init 6 t
    × (t.stage 0 ≡ eating)
    × (t.stage 2 ≡ eating)
unfolding philosopher
two_eat =
    let a : Philosophers.Reach philosophers_init 0 philosophers_init = Philosophers.here in
    let b = Philosophers.next 0 a (omega arith) refl in
    let c = Philosophers.next 2 b (omega arith) refl in
    let d = Philosophers.next 2 c (omega arith) refl in
    let e = Philosophers.next 0 d (omega arith) refl in
    let f = Philosophers.next 2 e (omega arith) refl in
    (_, Philosophers.next 0 f (omega arith) refl, refl, refl)

-- The consumer reads the counter after the producer has gone on: the first number that it prints is 1.
late_read : (d : Desk) × ProducerConsumer.Reach producer_consumer_init d × (d.printed ≡ 1 ∷ [])
unfolding producer_step consumer_step
late_read =
    let a : ProducerConsumer.Reach producer_consumer_init producer_consumer_init =
      ProducerConsumer.here in
    let b = ProducerConsumer.next producing a refl in
    let c = ProducerConsumer.next producing b refl in
    let d = ProducerConsumer.next producing c refl in
    let e = ProducerConsumer.next producing d refl in
    let f = ProducerConsumer.next producing e refl in
    let g = ProducerConsumer.next consuming f refl in
    let h = ProducerConsumer.next consuming g refl in
    let i = ProducerConsumer.next consuming h refl in
    let j = ProducerConsumer.next consuming i refl in
    (_, ProducerConsumer.next consuming j refl, refl)

Reach-eating_example :
    (first_fork 0 ≢ first_fork 2)
    × (first_fork 0 ≢ second_fork 2)
    × (second_fork 0 ≢ first_fork 2)
    × (second_fork 0 ≢ second_fork 2)
Reach-eating_example =
    Reach-eating 6 (two_eat.0) 0 2 (two_eat.1) (omega arith) (omega arith) (omega arith) (two_eat.2)
      (two_eat.3)

printed-Near_example :
    ((k : ℕ) → k < length (late_read.0).printed → Near k (get_or (late_read.0).printed k 0))
    × Passing.CanGo (late_read.0)
printed-Near_example = printed-Near (late_read.0) (late_read.1)
