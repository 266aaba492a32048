-- ===== src/Tests/Library.antt =====
-- Memory, clocks and rings at concrete inputs.
use turnix.Base.{
  ℕ, ◌+◌, ◌-◌, ◌%◌, ◌^◌, ◌≡◌, ◌≤◌, ◌<◌, refl, ◌&&◌, arith, ltb, leb, if◌then◌else◌, List, [], ◌∷◌,
}
use turnix.CircularBuffer.{CircularBuffer, write, read}
use turnix.CircularBuffer.Ring.{IsRing}
use turnix.CircularBuffer.Queue.{IsWritten, IsRead, ring_refines}
use turnix.Memory.{Bytes, memmove}
use turnix.Memory.Move.{memmove_at}
use turnix.Clock.{Clocks, Timespec, usecs_per_sec, usecs_per_tick, update_timeval}
use turnix.Clock.Advance.{total, update_timeval_at}

-- Each byte holds its address.
abbrev bytes : Bytes
bytes = λ a. a % 256

memmove_at_example :
    (12 ≤ 10
      → memmove 12 10 5 bytes 12
        ≡ (if leb 12 12 && ltb 12 (12 + 5) then bytes (10 + (12 - 12)) else bytes 12))
    × (10 < 12
        → memmove 12 10 5 bytes 12
          ≡ (if ltb 12 12 && leb 12 (12 + 5) then bytes (10 + (12 - 12)) else bytes 12))
memmove_at_example = memmove_at 12 10 5 12 bytes

abbrev clocks : Clocks
clocks = record {
  ticks = 2 ^ 32 - 1;
  wall = record { tv_sec = 1000; tv_usec = 990000 };
  monotonic_clock = record { tv_sec = 5; tv_usec = 0 };
  error_code = 0;
}

update_timeval_at_example :
    (total (update_timeval clocks.wall) ≡ total clocks.wall + usecs_per_tick)
    × ((update_timeval clocks.wall).tv_usec ≤ usecs_per_sec)
    × (clocks.wall.tv_usec + usecs_per_tick ≡ usecs_per_sec
        → (update_timeval clocks.wall).tv_usec ≡ usecs_per_sec)
update_timeval_at_example = update_timeval_at clocks.wall (omega arith)

abbrev noon : Timespec
noon = record { tv_sec = 43200; tv_nsec = 1999 }

-- Two bytes stand across the end of a ring of four.
abbrev ring : CircularBuffer
ring = record { read = 3; write = 1; len = 2; size = 4; buffer = bytes }

ring-IsRing : IsRing ring
ring-IsRing = record { room = omega arith; inside = omega arith; fits = omega arith; behind = refl }

ring_refines_example :
    ((m : ℕ) × (r : CircularBuffer) × (write (7 ∷ 8 ∷ 9 ∷ []) ring ≡ (m, r))
      × IsWritten (7 ∷ 8 ∷ 9 ∷ []) ring m r)
    × ((ys : List ℕ) × (r : CircularBuffer) × (read 3 ring ≡ (ys, r)) × IsRead 3 ring ys r)
ring_refines_example = ring_refines (7 ∷ 8 ∷ 9 ∷ []) 3 ring ring-IsRing
