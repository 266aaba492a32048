-- ===== src/Commands/Cal.antt =====
-- The calendar that cal prints: each day stands under its day of the week.
use turnix.Base.{
  ℕ, zero, suc, ◌+◌, ◌-◌, ◌*◌, ◌/◌, ◌%◌, ◌^◌, ◌≡◌, ◌≤◌, ◌<◌, refl, subst, sym, dec_lt, ltb→lt, Bool,
  true, false, ◌&&◌, List, [], ◌∷◌, ◌++◌, codes, arith, ◌==◌, ltb, if◌then◌else◌, all_below,
  all_below_sound, ==_iff,
}
use turnix.Kernel.{Run, ok}
use turnix.Calendar.{Tm, is_leapyear, bit, gmtime_r}
use turnix.Calendar.Years.{before, find_year_sound, find_mon_sound}
use turnix.Calendar.RoundTrip.{broken, gmtime_r-broken}
use turnix.Stdio.{
  number, printf, convert, with_number, print_number, print_digits, number_chars, push_digits,
  print_str,
}
use turnix.Commands.Says.{same_text, prints, prints_sound}
use turnix.Commands.{say, days_of_mon, days_in, first_wday, cal_days}

-- A day in two columns, and a space.
pub cell : ℕ → List ℕ
cell d = (if ltb d 10 then b' ' else b'0' + d / 10) ∷ (b'0' + d % 10) ∷ b' ' ∷ []

abbrev say_day : ℕ → Run (List ℕ)
say_day d = say (codes "%2d ") (number d ∷ [])

cell_table : all_below 32 (λ d. prints (say_day d) (cell d)) ≡ true
unfolding say printf convert with_number print_number print_digits number_chars push_digits
    print_str prints same_text cell
cell_table = refl

say-cell : (d : ℕ) → d < 32 → say_day d ≡ ok (cell d)
say-cell d h =
    prints_sound (say_day d) (cell d)
      (all_below_sound 32 (λ (x : ℕ). prints (say_day x) (cell x)) d cell_table h)

-- The rows of the days from `day` on, `n` of them, where `wday` says on which day of the week each is:
-- a line ends with each Saturday and with the last day.
pub rows : (ℕ → ℕ) → ℕ → ℕ → List ℕ
rows wday zero day = if wday day == 0 then [] else b'\n' ∷ []
rows wday (suc n) day =
    cell day ++ (if wday day == 6 then b'\n' ∷ [] else []) ++ rows wday n (day + 1)

cal_days-rows :
    (wday : ℕ → ℕ)
    → ((d : ℕ) → 1 ≤ d → d < 32 → wday (d + 1) ≡ (if wday d == 6 then 0 else wday d + 1))
    → (n day : ℕ) → 1 ≤ day
    → day + n ≤ 32
    → cal_days n day (wday day) ≡ ok (rows wday n day)
unfolding cal_days rows
cal_days-rows wday next zero day low h = refl
cal_days-rows wday next (suc n) day low h =
    rw
      (
        say-cell day (omega arith),
        ← (next day low (omega arith)),
        cal_days-rows wday next n (day + 1) (omega arith) (omega arith),
      )
      refl

length_table :
    (leap : Bool)
    → all_below 11
        (λ m. before leap m + (days_of_mon m + bit (m == 1 && leap)) == before leap (suc m))
      ≡ true
length_table true = refl
length_table false = refl

abbrev month_length : ℕ → Bool → ℕ
month_length m leap = days_of_mon m + bit (m == 1 && leap)

longest_table : (leap : Bool) → all_below 12 (λ m. ltb (month_length m leap) 32) ≡ true
longest_table true = refl
longest_table false = refl

month_length-longest : (m : ℕ) (leap : Bool) → m ≤ 11 → month_length m leap < 32
month_length-longest m leap h = ltb→lt _ _ (
    all_below_sound 12 (λ (x : ℕ). ltb (month_length x leap) 32) m (longest_table leap)
      (omega arith))

december : (leap : Bool) → before leap 11 + 31 ≡ 365 + bit leap
december true = refl
december false = refl

before-month :
    (m : ℕ) (leap : Bool) → m < 11 → before leap m + month_length m leap ≡ before leap (suc m)
before-month m leap h = (==_iff _ _).0 (
    all_below_sound 11 (λ (x : ℕ). before leap x + month_length x leap == before leap (suc x)) m
      (length_table leap) h)

day-within :
    (m d : ℕ) (leap : Bool)
    → before leap m ≤ d
    → m ≤ 11
    → (m < 11 → d < before leap (suc m))
    → d < 365 + bit leap
    → d - before leap m + 1 ≤ month_length m leap
day-within m d leap low top high small = elim (dec_lt m 11) [
  | yes lt ↦ omega (arith, high lt, before-month m leap lt, low)
  | no ge ↦
      let e : m ≡ 11 = omega arith in
      let least : before leap 11 ≤ d = rw e at low in
      rw e (omega (arith, december leap, least, small))
]

-- What gmtime_r says of the day: it is one of the month, and not before 1970.
abbrev HasDay : ℕ → Tm → Type 0
HasDay timep tm =
    (1 ≤ tm.tm_mday)
    × (tm.tm_mday ≤ days_in tm)
    × (tm.tm_mday ≤ timep / 86400 + 1)
    × (tm.tm_wday ≡ (timep / 86400 + 4) % 7)
    × (days_in tm < 32)

broken-HasDay :
    (timep n d m : ℕ)
    → before (is_leapyear (1970 + n)) m ≤ d
    → m ≤ 11
    → (m < 11 → d < before (is_leapyear (1970 + n)) (suc m))
    → d < 365 + bit (is_leapyear (1970 + n))
    → d ≤ timep / 86400
    → HasDay timep (broken timep (1970 + n) d m)
broken-HasDay timep n d m low top high small past =
    let year : 1900 + (1970 + n - 1900) ≡ 1970 + n = omega arith in
    let leap = is_leapyear (1970 + n) in
    (
      omega arith,
      rw year (day-within m d leap low top high small),
      omega (arith, past),
      refl,
      rw year (month_length-longest m leap top),
    )

pub gmtime_r-HasDay : (timep : ℕ) → timep < 2 ^ 31 → HasDay timep (gmtime_r timep)
gmtime_r-HasDay timep w =
    let days = timep / 86400 in
    let (n, d, found, sum, small) = find_year_sound (days + 1) 1970 days (omega arith) in
    let (m, at, low, top, high) =
      find_mon_sound 11 0 (is_leapyear (1970 + n)) d (omega arith) (omega arith) in
    subst (HasDay timep) (sym (gmtime_r-broken timep (1970 + n) d m w found at))
      (broken-HasDay timep n d m low top high small (omega (arith, sum)))

-- The day of the week of a day of the month that a time lies in, by gmtime_r.
abbrev pub wday_of : ℕ → ℕ → ℕ
wday_of timep d = (gmtime_r (timep + d * 86400 - (gmtime_r timep).tm_mday * 86400)).tm_wday

-- A time of which the days of its month lie before 2038
abbrev pub IsEarly : ℕ → Type 0
IsEarly timep = timep + 32 * 86400 < 2 ^ 31

wday_of-days :
    (timep d : ℕ)
    → IsEarly timep
    → 1 ≤ d
    → d ≤ 32
    → wday_of timep d ≡ (timep / 86400 + d - (gmtime_r timep).tm_mday + 4) % 7
wday_of-days timep d early h top =
    let t = timep + d * 86400 - (gmtime_r timep).tm_mday * 86400 in
    omega (
      arith,
      (gmtime_r-HasDay t (omega (arith, early, top))).3,
      (gmtime_r-HasDay timep (omega (arith, early))).2,
    )

wday_of-next :
    (timep : ℕ)
    → IsEarly timep
    → (d : ℕ) → 1 ≤ d
    → d < 32
    → wday_of timep (d + 1) ≡ (if wday_of timep d == 6 then 0 else wday_of timep d + 1)
wday_of-next timep early d h top =
    let m = (gmtime_r timep).tm_mday in
    let k = timep / 86400 + d - m in
    let past : m ≤ timep / 86400 + 1 = (gmtime_r-HasDay timep (omega (arith, early))).2 in
    let e : timep / 86400 + (d + 1) - m ≡ k + 1 = omega (arith, past) in
    let step : (k + 1 + 4) % 7 ≡ (if (k + 4) % 7 == 6 then 0 else (k + 4) % 7 + 1) = ground arith in
    rw
      (
        wday_of-days timep (d + 1) early (omega arith) (omega arith),
        wday_of-days timep d early h (omega arith),
        e,
      )
      step

pub first_wday-wday_of : (timep : ℕ) → IsEarly timep → first_wday (gmtime_r timep) ≡ wday_of timep 1
first_wday-wday_of timep early =
    let (low, high, past, wday, longest) = gmtime_r-HasDay timep (omega (arith, early)) in
    omega (
      arith,
      low,
      high,
      past,
      wday,
      longest,
      wday_of-days timep 1 early (omega arith) (omega arith),
    )

-- The rows of the month in which the time lies
abbrev pub month : ℕ → List ℕ
month now = rows (wday_of now) (days_in (gmtime_r now)) 1

pub cal_days-month :
    (now : ℕ)
    → IsEarly now
    → cal_days (days_in (gmtime_r now)) 1 (first_wday (gmtime_r now)) ≡ ok (month now)
cal_days-month now early = rw (first_wday-wday_of now early) (
    cal_days-rows (wday_of now) (wday_of-next now early) (days_in (gmtime_r now)) 1 (omega arith)
      (omega (arith, (gmtime_r-HasDay now (omega (arith, early))).4)))
