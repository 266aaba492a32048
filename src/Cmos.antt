-- ===== src/Cmos.antt =====
-- arch/i386/drivers/cmos.c: the clock of the CMOS. What the hardware answers is a function of the
-- number of registers read so far and of the register; a function here gives that number on.
pub mod Decode
use turnix.Base.{
  ℕ, zero, suc, ◌+◌, ◌-◌, ◌*◌, ◌/◌, ◌%◌, ◌^◌, Bool, true, false, not, ◌&&◌, ◌||◌, ◌==◌,
  if◌then◌else◌,
}
use turnix.Kernel.{Run, ok, out_of_fuel, ◌>>=◌}
use turnix.Calendar.{Tm}

abbrev pub Device : Type 0
Device = ℕ → ℕ → ℕ

-- `cmos_read_reg`
abbrev pub read_reg : Device → ℕ → ℕ → ℕ
read_reg dev i reg = dev i reg % 256

-- `b & m`, for a byte and a mask of one bit
abbrev pub has_bit : ℕ → ℕ → Bool
has_bit b m = b / m % 2 == 1

-- The loop of `__cmos_read_tm`, until no update is in progress
unfoldable pub wait_update : ℕ → Device → ℕ → Run ℕ
wait_update zero dev i = out_of_fuel
wait_update (suc f) dev i =
    let rest = wait_update f dev (i + 1) in
    if has_bit (read_reg dev i 10) 128 then rest else ok (i + 1)

-- `__cmos_read_tm`; `tm_wday` stays as it was.
unfoldable pub read_once : ℕ → Device → Tm → ℕ → Run (Tm × ℕ)
read_once f dev tm i = wait_update f dev i >>= λ j. ok (
  record tm {
    tm_sec = read_reg dev j 0;
    tm_min = read_reg dev (j + 1) 2;
    tm_hour = read_reg dev (j + 2) 4;
    tm_mday = read_reg dev (j + 3) 7;
    tm_mon = read_reg dev (j + 4) 8;
    tm_year = read_reg dev (j + 5) 9;
  },
  j + 6,
)

abbrev pub same_time : Tm → Tm → Bool
same_time a b =
    (a.tm_sec == b.tm_sec)
    && (a.tm_min == b.tm_min)
    && (a.tm_hour == b.tm_hour)
    && (a.tm_mday == b.tm_mday)
    && (a.tm_mon == b.tm_mon)
    && (a.tm_year == b.tm_year)

-- The loop of `cmos_read_tm`: two readings that agree
unfoldable pub read_stable : ℕ → Device → Tm → ℕ → Run (Tm × ℕ)
read_stable zero dev tm i = out_of_fuel
read_stable (suc f) dev tm i = read_once (suc f) dev tm i >>= λ (tmp, j).
    read_once (suc f) dev tm j >>= λ (tm', l).
    let rest = read_stable f dev tm' l in if same_time tmp tm' then ok (tm', l) else rest

unfoldable pub bcd2bin : ℕ → ℕ
bcd2bin bcd = (bcd / 16 * 10 + bcd % 16) % 256

abbrev pub from_bcd : Tm → Tm
from_bcd tm = record tm {
  tm_sec = bcd2bin tm.tm_sec;
  tm_min = bcd2bin tm.tm_min;
  tm_hour = bcd2bin tm.tm_hour;
  tm_mday = bcd2bin tm.tm_mday;
  tm_mon = bcd2bin tm.tm_mon;
  tm_year = bcd2bin tm.tm_year;
}

-- The hour of a clock of twelve hours
abbrev pub hour_12 : Bool → ℕ → ℕ
hour_12 pm h = if pm then (if h == 12 then h else h + 12) else (if h == 12 then 0 else h)

-- The rest of `cmos_read_tm`, for the register B.
unfoldable pub decode : ℕ → Tm → Tm
decode b tm =
    let pm = has_bit tm.tm_hour 128 in
    let bare = record tm { tm_hour = tm.tm_hour % 128 } in
    let bin = if has_bit b 4 then bare else from_bcd bare in
    record bin {
      tm_mon = (bin.tm_mon + 2 ^ 32 - 1) % 2 ^ 32;
      tm_hour = if has_bit b 2 then bin.tm_hour else hour_12 pm bin.tm_hour;
      tm_year = bin.tm_year + 100;
    }

unfoldable pub cmos_read_tm : ℕ → Device → Tm → ℕ → Run (Tm × ℕ)
cmos_read_tm f dev tm i =
    read_stable f dev tm i >>= λ (tm', j). ok (decode (read_reg dev j 11) tm', j + 1)
