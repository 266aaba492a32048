-- ===== src/Tests/Texts.antt =====
-- Strings and the clock of the CMOS.
use turnix.Base.{ℕ, ◌≡◌, refl, ◌<◌, false, List, [], ◌∷◌, ◌++◌, arith, length}
use turnix.Kernel.{ok}
use turnix.Calendar.{Tm}
use turnix.Readline.{line_max, read_line, readline}
use turnix.Readline.Edit.{shown, readline-shown}
use turnix.Cmos.{cmos_read_tm}
use turnix.Cmos.Decode.{IsTime, device, cmos_read_tm-showing}

-- " cal 12", split at the blanks
abbrev line : List ℕ
line = 32 ∷ 99 ∷ 97 ∷ 108 ∷ 32 ∷ 49 ∷ 50 ∷ []

abbrev blanks : List ℕ
blanks = 32 ∷ 9 ∷ []

-- "ls", mistyped
abbrev typed : List ℕ
typed = 108 ∷ 9 ∷ 100 ∷ 8 ∷ 115 ∷ 10 ∷ 97 ∷ []

readline-typed : (readline typed).line ≡ 108 ∷ 115 ∷ []
unfolding readline read_line
readline-typed = refl

readline-shown_example :
    (shown (35 ∷ 32 ∷ []) (readline typed).echo ≡ (35 ∷ 32 ∷ []) ++ (readline typed).line)
    × (length (readline typed).line < line_max)
readline-shown_example = readline-shown (35 ∷ 32 ∷ []) typed (
  omega arith,
  (omega arith, (omega arith, (omega arith, (omega arith, (omega arith, (omega arith, tt)))))),
)

-- The 29th of February 2016, one minute to noon
abbrev leap_day : Tm
leap_day = record {
  tm_sec = 7;
  tm_min = 59;
  tm_hour = 11;
  tm_mday = 29;
  tm_mon = 1;
  tm_year = 116;
  tm_wday = 1;
}

leap_day-IsTime : IsTime leap_day
leap_day-IsTime = record {
  sec = omega arith;
  min = omega arith;
  hour = omega arith;
  mday = omega arith;
  mon = omega arith;
  since = omega arith;
  before = omega arith;
}

cmos_read_tm-showing_example :
    cmos_read_tm 1 (device false false leap_day leap_day) leap_day 0 ≡ ok (leap_day, 15)
cmos_read_tm-showing_example =
    cmos_read_tm-showing false false leap_day leap_day 0 0 leap_day-IsTime
