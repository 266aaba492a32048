-- ===== src/Calendar/Years.antt =====
-- The two loops over the years, and the loop over the months.
use turnix.Base.{
  ℕ, zero, suc, ◌+◌, ◌-◌, ◌≡◌, ◌≤◌, ◌<◌, ◌∙◌, refl, Bool, ◌&&◌, arith, ltb, dec_lt, ap,
}
use turnix.Calendar.{bit, days_year, days_to_mon, add_years, find_year, find_mon}

pub add_years_shift : (n year days : ℕ) → add_years n year days ≡ days + add_years n year 0
unfolding add_years
add_years_shift zero year days = omega arith
add_years_shift (suc n) year days = omega (
  arith,
  add_years_shift n (year + 1) (days + days_year year),
  add_years_shift n (year + 1) (0 + days_year year),
)

add_years-zero : (year days : ℕ) → add_years zero year days ≡ days
unfolding add_years
add_years-zero year days = refl

pub add_years-suc :
    (n year : ℕ) → add_years (suc n) year 0 ≡ days_year year + add_years n (year + 1) 0
unfolding add_years
add_years-suc n year = omega (arith, add_years_shift n (year + 1) (0 + days_year year))

module _ (f year days : ℕ) where
  find_year_here : days < days_year year → find_year (suc f) year days ≡ (year, days)
  unfolding find_year
  find_year_here h = ground arith

  find_year_next :
      days_year year ≤ days
      → find_year (suc f) year days ≡ find_year f (year + 1) (days - days_year year)
  unfolding find_year
  find_year_next h = ground arith

-- gmtime_r's loop, on the days of `n` whole years and `d` days more, stops `n` years later.
pub find_year-add_years :
    (n f year d : ℕ)
    → n < f
    → d < days_year (year + n)
    → find_year f year (add_years n year 0 + d) ≡ (year + n, d)
find_year-add_years zero (suc f) year d h p =
    let y : year + 0 ≡ year = omega arith in
    let days : add_years zero year 0 + d ≡ d = omega (arith, add_years-zero year 0) in
    rw (days, y) (find_year_here f year d (rw y at p))
find_year-add_years (suc n) (suc f) year d h p =
    let y : year + suc n ≡ year + 1 + n = omega arith in
    let step = add_years-suc n year in
    let left : add_years (suc n) year 0 + d - days_year year ≡ add_years n (year + 1) 0 + d =
      omega (arith, step) in
    find_year_next f year (add_years (suc n) year 0 + d) (omega (arith, step))
    ∙ rw (left, y) (find_year-add_years n f (year + 1) d (omega arith) (rw y at p))
find_year-add_years n zero year d h p = absurd (omega arith)

-- It finds a year and a rest that make up the days.
pub find_year_sound :
    (f year days : ℕ)
    → days < f
    → (n d : ℕ) × (find_year f year days ≡ (year + n, d))
      × (add_years n year 0 + d ≡ days)
      × (d < days_year (year + n))
find_year_sound zero year days h = absurd (omega arith)
find_year_sound (suc f) year days h = elim (dec_lt days (days_year year)) [
  | yes p ↦
      let y : year ≡ year + 0 = omega arith in
      (
        0,
        days,
        find_year_here f year days p ∙ ap (λ (z : ℕ). (z, days)) y,
        omega (arith, add_years-zero year 0),
        rw y at p,
      )
  | no p ↦
      let left = days - days_year year in
      let (n, d, found, sum, small) = find_year_sound f (year + 1) left (ground arith) in
      let y : year + 1 + n ≡ year + suc n = omega arith in
      (
        suc n,
        d,
        find_year_next f year days (omega arith) ∙ found ∙ ap (λ (z : ℕ). (z, d)) y,
        omega (arith, add_years-suc n year, sum),
        rw y at small,
      )
]

-- The days of the year before a month.
abbrev pub before : Bool → ℕ → ℕ
before leap zero = 0
before leap (suc mon) = days_to_mon mon + bit (leap && ltb 0 mon)

module _ (n mon : ℕ) (leap : Bool) (d : ℕ) where
  find_mon_here : d < before leap (suc mon) → find_mon (suc n) mon leap d ≡ mon
  unfolding find_mon
  find_mon_here h = ground arith

  find_mon_next :
      before leap (suc mon) ≤ d → find_mon (suc n) mon leap d ≡ find_mon n (mon + 1) leap d
  unfolding find_mon
  find_mon_next h = ground arith

-- The month that the last loop finds: the days lie in it.
pub find_mon_sound :
    (n mon : ℕ) (leap : Bool) (d : ℕ)
    → n + mon ≡ 11
    → before leap mon ≤ d
    → (m : ℕ) × (find_mon n mon leap d ≡ m)
      × (before leap m ≤ d)
      × (m ≤ 11)
      × (m < 11 → d < before leap (suc m))
find_mon_sound zero mon leap d e h =
    (mon, unfold find_mon in refl, h, omega arith, λ lt. absurd (omega arith))
find_mon_sound (suc n) mon leap d e h = elim (dec_lt d (before leap (suc mon))) [
  | yes p ↦ (mon, find_mon_here n mon leap d p, h, omega arith, λ lt. p)
  | no p ↦
      let one : mon + 1 ≡ suc mon = omega arith in
      let (m, found, low, small, high) =
        find_mon_sound n (suc mon) leap d (omega arith) (omega arith) in
      (m, find_mon_next n mon leap d (omega arith) ∙ rw one found, low, small, high)
]
