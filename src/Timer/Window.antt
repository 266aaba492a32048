-- ===== src/Timer/Window.antt =====
-- Tick counts that wrap round compare as their distances from a time that is not past them.
use turnix.Base.{ℕ, ◌+◌, ◌-◌, ◌≡◌, ◌≤◌, ◌<◌, ◌%◌, ◌^◌, ◌/◌, true, false, arith}
use turnix.Timer.{Timers, time_after, expiry}

-- How far `e` lies after `base`, in ticks.
abbrev pub distance : ℕ → ℕ → ℕ
distance base e = (e + 2 ^ 32 - base) % 2 ^ 32

-- time_after(a, b) holds exactly if `a` lies further from `base` than `b`, for 32-bit times that lie
-- less than 2^31 ticks after `base`, also where the count wraps round between them.
pub time_after-distance :
    (base a b : ℕ)
    → base < 2 ^ 32
    → a < 2 ^ 32
    → b < 2 ^ 32
    → distance base a < 2 ^ 31
    → distance base b < 2 ^ 31
    → (time_after a b ≡ true → distance base b < distance base a)
      × (time_after a b ≡ false → distance base a ≤ distance base b)
unfolding time_after
time_after-distance base a b hb ha hc p q = (λ h. ground arith, λ h. ground arith)

abbrev pub key : ℕ → Timers → ℕ → ℕ
key base s j = distance base (expiry s j)

abbrev pub parent : ℕ → ℕ
parent c = (c - 1) / 2
