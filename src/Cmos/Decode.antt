-- ===== src/Cmos/Decode.antt =====
-- A clock that shows a time gives that time.
use turnix.Base.{
  ℕ, suc, ◌+◌, ◌-◌, ◌*◌, ◌/◌, ◌%◌, ◌^◌, ◌≡◌, ◌≤◌, ◌<◌, refl, ap, ◌∙◌, Bool, true, false, arith,
  ◌==◌, ==_iff, leb, if◌then◌else◌, all_below, all_below_sound,
}
use turnix.Kernel.{ok}
use turnix.Calendar.{Tm}
use turnix.Cmos.{
  Device, has_bit, wait_update, read_once, same_time, read_stable, bcd2bin, hour_12, decode,
  cmos_read_tm,
}

-- How the clock shows a number below 100: in binary, or a digit in each half of the byte.
abbrev pub shown : Bool → ℕ → ℕ
shown bin v = if bin then v else v / 10 * 16 + v % 10

-- How it shows an hour: of 24, or of 12 with a bit for the afternoon.
abbrev pub shown_hour : Bool → Bool → ℕ → ℕ
shown_hour bin day h =
    if day
    then shown bin h
    else (shown bin (if h % 12 == 0 then 12 else h % 12) + (if leb 12 h then 128 else 0))

-- The registers of a clock that shows `tm`, a time of this century.
abbrev pub showing : Bool → Bool → Tm → ℕ → ℕ
showing bin day tm reg =
    if reg == 0
    then shown bin tm.tm_sec
    else if reg == 2
    then shown bin tm.tm_min
    else if reg == 4
    then shown_hour bin day tm.tm_hour
    else if reg == 7
    then shown bin tm.tm_mday
    else if reg == 8
    then shown bin (tm.tm_mon + 1)
    else if reg == 9
    then shown bin (tm.tm_year - 100)
    else if reg == 11
    then ((if bin then 4 else 0) + (if day then 2 else 0))
    else 0

number_table : all_below 100 (λ v. bcd2bin (shown false v) == v) ≡ true
unfolding bcd2bin
number_table = refl

bcd2bin-shown : (v : ℕ) → v < 100 → bcd2bin (shown false v) ≡ v
bcd2bin-shown v h =
    (==_iff _ _).0 (all_below_sound 100 (λ (x : ℕ). bcd2bin (shown false x) == x) v number_table h)

-- What `decode` makes of the hour
abbrev read_hour : Bool → Bool → ℕ → ℕ
read_hour bin day r =
    let h = if bin then r % 128 else bcd2bin (r % 128) in
    if day then h else hour_12 (has_bit r 128) h

hour_table :
    (bin day : Bool)
    → all_below 24 (λ h. read_hour bin day (shown_hour bin day h % 256) == h) ≡ true
unfolding bcd2bin
hour_table true true = refl
hour_table true false = refl
hour_table false true = refl
hour_table false false = refl

hour_shown : (bin day : Bool) (h : ℕ) → h < 24 → read_hour bin day (shown_hour bin day h % 256) ≡ h
hour_shown bin day h lt = (==_iff _ _).0 (
    all_below_sound 24 (λ (x : ℕ). read_hour bin day (shown_hour bin day x % 256) == x) h
      (hour_table bin day) lt)

number_shown :
    (bin : Bool) (v : ℕ)
    → v < 100
    → (if bin then shown bin v % 256 else bcd2bin (shown bin v % 256)) ≡ v
number_shown true v h = omega (arith, h)
number_shown false v h =
    let small : shown false v % 256 ≡ shown false v = omega (arith, h) in
    ap bcd2bin small ∙ bcd2bin-shown v h

eq_self : (a : ℕ) → (a == a) ≡ true
eq_self a = ground arith

same_time_self : (s : Tm) → same_time s s ≡ true
same_time_self s = rw (
  eq_self s.tm_sec,
  eq_self s.tm_min,
  eq_self s.tm_hour,
  eq_self s.tm_mday,
  eq_self s.tm_mon,
  eq_self s.tm_year,
)

tm_ext :
    (a b : Tm)
    → a.tm_sec ≡ b.tm_sec
    → a.tm_min ≡ b.tm_min
    → a.tm_hour ≡ b.tm_hour
    → a.tm_mday ≡ b.tm_mday
    → a.tm_mon ≡ b.tm_mon
    → a.tm_year ≡ b.tm_year
    → a.tm_wday ≡ b.tm_wday
    → a ≡ b
tm_ext a b s m h d o y w = λ i. record {
  tm_sec = s i;
  tm_min = m i;
  tm_hour = h i;
  tm_mday = d i;
  tm_mon = o i;
  tm_year = y i;
  tm_wday = w i;
}

-- A time of the years 2000 to 2099
pub record IsTime (tm : Tm) : Type 0 where
  pub sec : tm.tm_sec < 60
  pub min : tm.tm_min < 60
  pub hour : tm.tm_hour < 24
  pub mday : tm.tm_mday < 32
  pub mon : tm.tm_mon < 12
  pub since : 100 ≤ tm.tm_year
  pub before : tm.tm_year < 200

-- What `decode` makes of a number
abbrev read_number : Bool → ℕ → ℕ
read_number bin r = if bin then r else bcd2bin r

-- A result whose fields are read from what shows `tm` is `tm`.
restore :
    (bin day : Bool) (tm old r : Tm)
    → IsTime tm
    → r.tm_sec ≡ read_number bin (shown bin tm.tm_sec % 256)
    → r.tm_min ≡ read_number bin (shown bin tm.tm_min % 256)
    → r.tm_hour ≡ read_hour bin day (shown_hour bin day tm.tm_hour % 256)
    → r.tm_mday ≡ read_number bin (shown bin tm.tm_mday % 256)
    → r.tm_mon ≡ (read_number bin (shown bin (tm.tm_mon + 1) % 256) + 2 ^ 32 - 1) % 2 ^ 32
    → r.tm_year ≡ read_number bin (shown bin (tm.tm_year - 100) % 256) + 100
    → r.tm_wday ≡ old.tm_wday
    → r ≡ record tm { tm_wday = old.tm_wday }
restore bin day tm old r t s m h d o y w =
    tm_ext r (record tm { tm_wday = old.tm_wday })
      (s ∙ number_shown bin tm.tm_sec (omega (arith, t.sec)))
      (m ∙ number_shown bin tm.tm_min (omega (arith, t.min)))
      (h ∙ hour_shown bin day tm.tm_hour t.hour)
      (d ∙ number_shown bin tm.tm_mday (omega (arith, t.mday)))
      (omega (arith, o, t.mon, number_shown bin (tm.tm_mon + 1) (omega (arith, t.mon))))
      (omega (
        arith,
        y,
        t.since,
        t.before,
        number_shown bin (tm.tm_year - 100) (omega (arith, t.before)),
      ))
      w

-- One reading of a clock that shows `tm`
abbrev snap : Bool → Bool → Tm → Tm → Tm
snap bin day tm old = record old {
  tm_sec = showing bin day tm 0 % 256;
  tm_min = showing bin day tm 2 % 256;
  tm_hour = showing bin day tm 4 % 256;
  tm_mday = showing bin day tm 7 % 256;
  tm_mon = showing bin day tm 8 % 256;
  tm_year = showing bin day tm 9 % 256;
}

decode-snap :
    (bin day : Bool) (tm old : Tm)
    → IsTime tm
    → decode (showing bin day tm 11 % 256) (snap bin day tm old)
      ≡ record tm { tm_wday = old.tm_wday }
unfolding decode
decode-snap true true tm old t = restore true true tm old _ t refl refl refl refl refl refl refl
decode-snap true false tm old t = restore true false tm old _ t refl refl refl refl refl refl refl
decode-snap false true tm old t = restore false true tm old _ t refl refl refl refl refl refl refl
decode-snap false false tm old t = restore false false tm old _ t refl refl refl refl refl refl refl

module _ (bin day : Bool) (tm old : Tm) where
  abbrev pub device : Device
  device n reg = showing bin day tm reg

  read_once-snap : (f i : ℕ) → read_once (suc f) device old i ≡ ok (snap bin day tm old, i + 1 + 6)
  unfolding read_once wait_update
  read_once-snap f i = refl

  read_stable-snap :
      (f i : ℕ) → read_stable (suc f) device old i ≡ ok (snap bin day tm old, i + 1 + 6 + 1 + 6)
  unfolding read_stable
  read_stable-snap f i =
      rw (read_once-snap f i, read_once-snap f (i + 1 + 6), same_time_self (snap bin day tm old))

  -- A clock that shows a time of the years 2000 to 2099, in binary or in BCD and with 24 or with 12
  -- hours, and is not updating: cmos_read_tm ends with this time, and leaves the weekday alone.
  pub cmos_read_tm-showing :
      (f i : ℕ)
      → IsTime tm
      → cmos_read_tm (suc f) device old i
        ≡ ok (record tm { tm_wday = old.tm_wday }, i + 1 + 6 + 1 + 6 + 1)
  unfolding cmos_read_tm
  cmos_read_tm-showing f i t =
      rw (read_stable-snap f i)
        (ap (λ (x : Tm). ok (x, i + 1 + 6 + 1 + 6 + 1)) (decode-snap bin day tm old t))
