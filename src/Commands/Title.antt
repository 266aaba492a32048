-- ===== src/Commands/Title.antt =====
-- All that cal prints: the month and the year, and the rows of the days.
use turnix.Base.{ℕ, ◌+◌, ◌-◌, ◌*◌, ◌%◌, ◌^◌, List, [], ◌∷◌, ◌++◌, codes}
use turnix.Clock.{Timezone}

-- The line with a name and a number in it
abbrev pub title : List ℕ → List ℕ → List ℕ
title name digits = codes "   " ++ (name ++ (b' ' ∷ (digits ++ b'\n' ∷ [])))

-- The local time that localtime_r breaks down
abbrev pub local_seconds : ℕ → Timezone → ℕ
local_seconds sec zone = (sec + (2 ^ 32 - zone.tz_minuteswest * 60 % 2 ^ 32)) % 2 ^ 32
