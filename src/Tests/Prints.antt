-- ===== src/Tests/Prints.antt =====
-- What the commands print at concrete inputs.
use turnix.Base.{ℕ, ◌+◌, ◌/◌, ◌%◌, ◌≡◌, List, arith, length}
use turnix.Kernel.{ok}
use turnix.Memory.{Bytes}
use turnix.Clock.{Clocks, Timezone}
use turnix.Hexdump.{hexdump, concat}
use turnix.Hexdump.Columns.{block, read_lines}
use turnix.Hexdump.ReadBack.{hexdump-block}

-- Each byte is the lowest one of its address.
abbrev ramp : Bytes
ramp a = a % 256

hexdump-block_example :
    (lines : List (List ℕ)) × (hexdump ramp 0x1000 20 ≡ ok (concat lines))
    × (length lines ≡ (20 + 15) / 16)
    × (read_lines lines ≡ block ramp 0x1000 20)
hexdump-block_example = hexdump-block ramp 0x1000 20 (λ a. omega arith) (omega arith)

-- The start of 2016, an hour east of Greenwich
abbrev clocks : Clocks
clocks = record {
  ticks = 0;
  wall = record { tv_sec = 1451606400; tv_usec = 0 };
  monotonic_clock = record { tv_sec = 0; tv_usec = 0 };
  error_code = 0;
}

abbrev east : Timezone
east = record { tz_minuteswest = 0xffffffc4; tz_dsttime = 0 }
