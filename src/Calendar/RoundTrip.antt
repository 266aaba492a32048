-- ===== src/Calendar/RoundTrip.antt =====
-- mktime undoes gmtime_r.
use turnix.Base.{
  ℕ, zero, suc, ◌+◌, ◌-◌, ◌*◌, ◌/◌, ◌%◌, ◌^◌, ◌≡◌, ◌≤◌, ◌<◌, ◌∙◌, ap, dec_lt, true, false, Bool,
  ◌&&◌, arith, ltb, if◌then◌else◌,
}
use turnix.Calendar.{
  Tm, is_leapyear, bit, days_to_mon, add_years, find_year, find_mon, gmtime_since, gmtime_before,
  gmtime_r, mktime,
}
use turnix.Calendar.Years.{before, find_year_sound, find_mon_sound}

-- Days before a month, as gmtime_r and mktime write them.
before_find :
    (m d : ℕ) (leap : Bool)
    → (if ltb 0 m then d - (days_to_mon (m - 1) + bit (leap && ltb 1 m)) else d) ≡ d - before leap m
before_find zero d leap = ground arith
before_find (suc m) d leap = ground arith

before_make :
    (m past : ℕ) (leap : Bool)
    → (if ltb 0 m then past + days_to_mon (m - 1) + bit (ltb 1 m && leap) else past)
      ≡ past + before leap m
before_make zero past leap = ground arith
before_make (suc m) past leap = ground arith

time_parts : (n : ℕ) → n / 3600 * 3600 + n % 3600 / 60 * 60 + n % 3600 % 60 ≡ n
time_parts n = omega arith

-- The fields that gmtime_r finds, given what its loops find.
module _ (timep y d m : ℕ) where
  abbrev pub seconds : ℕ
  seconds = timep % 86400

  abbrev pub broken : Tm
  broken = record {
    tm_sec = seconds % 3600 % 60;
    tm_min = seconds % 3600 / 60;
    tm_hour = seconds / 3600;
    tm_mday = d - before (is_leapyear y) m + 1;
    tm_mon = m;
    tm_year = y - 1900;
    tm_wday = (timep / 86400 + 4) % 7;
  }

  pub gmtime_r-broken :
      timep < 2 ^ 31
      → find_year (timep / 86400 + 1) 1970 (timep / 86400) ≡ (y, d)
      → find_mon 11 0 (is_leapyear y) d ≡ m
      → gmtime_r timep ≡ broken
  unfolding gmtime_r gmtime_since
  gmtime_r-broken w e f =
      let since : ltb timep (2 ^ 31) ≡ true = ground (arith, w) in
      rw since (rw (e, f, before_find m d (is_leapyear y)))

  mktime-broken :
      1900 ≤ y
      → before (is_leapyear y) m ≤ d
      → mktime broken ≡ ((add_years (y - 1970) 1970 0 + d) * 86400 + seconds) % 2 ^ 32
  unfolding mktime
  mktime-broken h low =
      let year : 1900 + (y - 1900) ≡ y = omega arith in
      rw (year, before_make m (add_years (y - 1970) 1970 0) (is_leapyear y))
        (ground (arith, time_parts seconds))

since_round : (timep : ℕ) → timep < 2 ^ 31 → mktime (gmtime_r timep) ≡ timep
since_round timep w =
    let days = timep / 86400 in
    let (n, d, found, sum, small) = find_year_sound (days + 1) 1970 days (omega arith) in
    let leap = is_leapyear (1970 + n) in
    let (m, at, low, top, high) = find_mon_sound 11 0 leap d (omega arith) (omega arith) in
    let years : 1970 + n - 1970 ≡ n = omega arith in
    rw (gmtime_r-broken timep (1970 + n) d m w found at)
      (mktime-broken timep (1970 + n) d m (omega arith) low ∙ rw (years, sum) (omega arith))

negative_parts :
    (q h i s : ℕ)
    → q * 86400 + h * 3600 + i * 60 + s ≤ 2 ^ 31
    → 0 < q * 86400 + h * 3600 + i * 60 + s
    → ((0 + (2 ^ 32 + 1 - q) % 2 ^ 32 + 2 ^ 32 - 1) * 86400
          + (2 ^ 32 - h) % 2 ^ 32 * 3600
          + (2 ^ 32 - i) % 2 ^ 32 * 60
          + (2 ^ 32 - s) % 2 ^ 32)
        % 2 ^ 32
      ≡ 2 ^ 32 - (q * 86400 + h * 3600 + i * 60 + s)
negative_parts q h i s small some = omega (arith, small, some)

is_before :
    (timep : ℕ) → ltb timep (2 ^ 31) ≡ false → gmtime_r timep ≡ gmtime_before (2 ^ 32 - timep)
unfolding gmtime_r
is_before timep e = rw e

before_round : (v : ℕ) → 0 < v → v ≤ 2 ^ 31 → mktime (gmtime_before v) ≡ 2 ^ 32 - v
unfolding mktime gmtime_before add_years
before_round v some small =
    let n = v % 86400 in
    let parts : v / 86400 * 86400 + n / 3600 * 3600 + n % 3600 / 60 * 60 + n % 3600 % 60 ≡ v =
      omega arith in
    negative_parts (v / 86400) (n / 3600) (n % 3600 / 60) (n % 3600 % 60)
      (omega (arith, parts, small)) (omega (arith, parts, some))
    ∙ ap (λ (u : ℕ). 2 ^ 32 - u) parts

-- Broken down by gmtime_r and put together by mktime, a time comes back: every pattern of 32 bits, and so
-- also a time before 1970.
pub mktime-gmtime_r : (timep : ℕ) → timep < 2 ^ 32 → mktime (gmtime_r timep) ≡ timep
mktime-gmtime_r timep w = elim (dec_lt timep (2 ^ 31)) [
  | yes since ↦ since_round timep since
  | no before_1970 ↦
      let late : ltb timep (2 ^ 31) ≡ false = ground arith in
      ap mktime (is_before timep late)
      ∙ before_round (2 ^ 32 - timep) (omega arith) (omega arith)
      ∙ omega (arith, w)
]
