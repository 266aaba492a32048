-- ===== src/Calendar.antt =====
-- lib/time.c: dates from seconds since 1970 and back. A time, which is a signed `long`, and the fields
-- of a date are patterns of 32 bits; only tm_mon and tm_year are taken as numbers that are not negative.
pub mod Years
pub mod RoundTrip
use turnix.Base.{
  ℕ, zero, suc, ◌+◌, ◌-◌, ◌*◌, ◌/◌, ◌%◌, ◌^◌, Bool, true, false, not, ◌&&◌, ◌||◌, List, [], ◌∷◌,
  ◌==◌, ltb, if◌then◌else◌, get_or,
}

-- `struct tm`
pub record Tm : Type 0 where
  pub tm_sec : ℕ
  pub tm_min : ℕ
  pub tm_hour : ℕ
  pub tm_mday : ℕ
  pub tm_mon : ℕ
  pub tm_year : ℕ
  pub tm_wday : ℕ

abbrev pub secs_per_min : ℕ
secs_per_min = 60

abbrev pub secs_per_hour : ℕ
secs_per_hour = 3600

abbrev pub secs_per_day : ℕ
secs_per_day = 86400

unfoldable pub is_leapyear : ℕ → Bool
is_leapyear year = year % 4 == 0 && (not (year % 100 == 0) || year % 400 == 0)

-- A `bool` in a sum.
abbrev pub bit : Bool → ℕ
bit b = if b then 1 else 0

abbrev pub days_year : ℕ → ℕ
days_year year = 365 + bit (is_leapyear year)

-- The days of a common year before each month but the first; a read past the end gives 0.
abbrev pub days_to_mon : ℕ → ℕ
days_to_mon mon = get_or (31 ∷ 59 ∷ 90 ∷ 120 ∷ 151 ∷ 181 ∷ 212 ∷ 243 ∷ 273 ∷ 304 ∷ 334 ∷ []) mon 0

-- The loop of `mktime` over the years, with the rounds left.
unfoldable pub add_years : ℕ → ℕ → ℕ → ℕ
add_years zero year days = days
add_years (suc n) year days = add_years n (year + 1) (days + days_year year)

unfoldable pub mktime : Tm → ℕ
mktime tm =
    let curr_year = 1900 + tm.tm_year in
    let past = add_years (curr_year - 1970) 1970 0 in
    let leap = bit (ltb 1 tm.tm_mon && is_leapyear curr_year) in
    let months = if ltb 0 tm.tm_mon then past + days_to_mon (tm.tm_mon - 1) + leap else past in
    let days = months + tm.tm_mday + 2 ^ 32 - 1 in
    (days * secs_per_day + tm.tm_hour * secs_per_hour + tm.tm_min * secs_per_min + tm.tm_sec)
    % 2 ^ 32

-- The loop of `gmtime_r` over the years: the year, and the days left in it. A round takes at least
-- 365 days, so as many rounds as days, and one more, are enough; 0 stands for too few.
unfoldable pub find_year : ℕ → ℕ → ℕ → ℕ × ℕ
find_year zero year days = (0, 0)
find_year (suc f) year days =
    let rest = find_year f (year + 1) (days - days_year year) in
    if ltb days (days_year year) then (year, days) else rest

-- The loop over the months, with the rounds left up to December.
unfoldable pub find_mon : ℕ → ℕ → Bool → ℕ → ℕ
find_mon zero mon leapyear days = mon
find_mon (suc n) mon leapyear days =
    let rest = find_mon n (mon + 1) leapyear days in
    if ltb days (days_to_mon mon + bit (leapyear && ltb 0 mon)) then mon else rest

-- `gmtime_r` on a time that is not negative
unfoldable pub gmtime_since : ℕ → Tm
gmtime_since timep =
    let days = timep / secs_per_day in
    let n = timep % secs_per_day in
    let (year, left) = find_year (days + 1) 1970 days in
    let leapyear = is_leapyear year in
    let mon = find_mon 11 0 leapyear left in
    let before = days_to_mon (mon - 1) + bit (leapyear && ltb 1 mon) in
    record {
      tm_sec = n % secs_per_hour % secs_per_min;
      tm_min = n % secs_per_hour / secs_per_min;
      tm_hour = n / secs_per_hour;
      tm_mday = (if ltb 0 mon then left - before else left) + 1;
      tm_mon = mon;
      tm_year = year - 1900;
      tm_wday = (days + 4) % 7;
    }

-- `-v` on 32 bits
abbrev pub negative : ℕ → ℕ
negative v = (2 ^ 32 - v) % 2 ^ 32

-- `gmtime_r` on `-v`: divisions round to 0, and the loops stop in January 1970, so that the time of the
-- day and the day of the month are what is negative.
unfoldable pub gmtime_before : ℕ → Tm
gmtime_before v =
    let days = v / secs_per_day in
    let n = v % secs_per_day in
    record {
      tm_sec = negative (n % secs_per_hour % secs_per_min);
      tm_min = negative (n % secs_per_hour / secs_per_min);
      tm_hour = negative (n / secs_per_hour);
      tm_mday = (2 ^ 32 + 1 - days) % 2 ^ 32;
      tm_mon = 0;
      tm_year = 70;
      tm_wday = if ltb 4 days then negative ((days - 4) % 7) else 4 - days;
    }

unfoldable pub gmtime_r : ℕ → Tm
gmtime_r timep = if ltb timep (2 ^ 31) then gmtime_since timep else gmtime_before (2 ^ 32 - timep)

-- `localtime_r` where the minutes west of Greenwich are `minuteswest`, a pattern of 32 bits
unfoldable pub localtime_r : ℕ → ℕ → Tm
localtime_r minuteswest timep =
    gmtime_r ((timep + (2 ^ 32 - minuteswest * secs_per_min % 2 ^ 32)) % 2 ^ 32)
