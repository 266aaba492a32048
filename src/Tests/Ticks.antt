-- ===== src/Tests/Ticks.antt =====
-- Timers on both sides of the wrap of the tick count, and a date.
use turnix.Base.{ℕ, ◌-◌, ◌≡◌, ◌^◌, List, arith, ◌==◌, if◌then◌else◌}
use turnix.Kernel.{ok}
use turnix.Timer.{Timers, timer_add, timer_delete, fire, invalid_index}
use turnix.Timer.Swap.{Holds}
use turnix.Timer.Insert.{IsValid, IsAdded, timer_add-IsAdded}
use turnix.Timer.Remove.{IsRemoved, timer_delete-IsRemoved}
use turnix.Timer.Fire.{IsFired, fire-IsFired}
use turnix.Calendar.{gmtime_r, mktime}
use turnix.Calendar.RoundTrip.{mktime-gmtime_r}

-- Timers 7 and 8 are in the heap, timer 9 is not.
abbrev pub pair : Timers
pair = record {
  timer = λ t.
      if t == 7
      then record { expires = 2 ^ 32 - 5; i = 0 }
      else (if t == 8
          then record { expires = 5; i = 1 }
          else record { expires = 2; i = invalid_index });
  heap = λ j. if j == 0 then 7 else 8;
  n = 2;
}

pub pair-IsValid : IsValid (2 ^ 32 - 10) pair
pair-IsValid = record {
  timed = record {
    start = omega arith;
    links = λ j h. ground arith;
    word = λ j h. ground arith;
    near = λ j h. ground arith;
  };
  heap = λ c p q. ground arith;
  fits = omega arith;
}

timer_add-IsAdded_example :
    (r : Timers) × (timer_add 9 pair ≡ ok r) × IsAdded (2 ^ 32 - 10) 9 pair r
timer_add-IsAdded_example =
    timer_add-IsAdded (2 ^ 32 - 10) 9 pair pair-IsValid (omega arith)
      (λ h. absurd (omega (arith, h.0))) (omega arith) (omega arith)

timer_delete-IsRemoved_example :
    (Holds pair 7 → (r : Timers) × (timer_delete 7 pair ≡ ok r) × IsRemoved (2 ^ 32 - 10) 7 pair r)
    × ((pair.timer 7).i ≡ invalid_index → timer_delete 7 pair ≡ ok pair)
timer_delete-IsRemoved_example = timer_delete-IsRemoved (2 ^ 32 - 10) 7 pair pair-IsValid

-- At tick 0 the count has wrapped round, and timer 7 has expired.
fire-IsFired_example :
    (r : Timers) × (ts : List ℕ) × (fire 3 0 pair ≡ ok (r, ts)) × IsFired (2 ^ 32 - 10) 0 pair r ts
fire-IsFired_example =
    fire-IsFired 3 (2 ^ 32 - 10) 0 pair (omega arith) pair-IsValid (omega arith) (omega arith)

mktime-gmtime_r_example : mktime (gmtime_r 951782400) ≡ 951782400
mktime-gmtime_r_example = mktime-gmtime_r 951782400 (omega arith)
