-- ===== src/Hexdump/ReadBack.antt =====
-- The whole dump of a block of memory.
use turnix.Base.{
  ℕ, zero, suc, ◌+◌, ◌-◌, ◌/◌, ◌^◌, min, ◌≡◌, ◌≤◌, ◌<◌, ◌∙◌, refl, ap, false, List, [], ◌∷◌, ◌++◌,
  append-nil, codes, arith, ◌==◌, leb, drop, length, length-append, Bool-cases, inl, inr,
}
use turnix.Kernel.{ok}
use turnix.Memory.{Bytes}
use turnix.Stdio.{number, printf, convert, with_number, print_pointer}
use turnix.Stdio.Printed.{print_unsigned_eight}
use turnix.Commands.{say}
use turnix.Hexdump.{char_cells, hex_line, hex_lines, hexdump, concat}
use turnix.Hexdump.Columns.{block, hex_read, read_lines, cells_read}

drop-length : (s t : List ℕ) (n : ℕ) → length s ≡ n → drop n (s ++ t) ≡ t
drop-length [] t zero h = refl
drop-length [] t (suc n) h = absurd (omega arith)
drop-length (c ∷ s) t zero h = absurd (omega arith)
drop-length (c ∷ s) t (suc n) h = drop-length s t n (omega (arith, h))

-- The address is printed with a colon, eleven characters in all.
say_address :
    (ptr : ℕ)
    → ptr < 2 ^ 32
    → (a : List ℕ) × (say (codes "%p:") (number ptr ∷ []) ≡ ok a) × (length a ≡ 11)
unfolding say printf convert with_number print_pointer
say_address ptr h =
    let (s, ran, eight, read) = print_unsigned_eight ptr h in
    (b'0' ∷ b'x' ∷ (s ++ b':' ∷ []), rw ran refl, omega (arith, eight, length-append s (b':' ∷ [])))

module _ (b : Bytes) (bytes : (a : ℕ) → b a < 256) where
  line_read :
      (ptr size : ℕ)
      → ptr < 2 ^ 32
      → (line : List ℕ) × (hex_line b ptr size ≡ ok line)
        × (hex_read 16 0 (drop 11 line) ≡ block b ptr (min size 16))
  unfolding hex_line
  line_read ptr size h =
      let (a, printed, eleven) = say_address ptr h in
      let (t, ran, reads) = cells_read b ptr size bytes 16 0 in
      let tail = codes " |" ++ (char_cells 16 0 b ptr size ++ codes "|\n") in
      let start : ptr + 0 ≡ ptr = omega arith in
      let all : min (size - 0) 16 ≡ min size 16 = omega arith in
      (
        a ++ (t ++ tail),
        rw (printed, ran) refl,
        ap (hex_read 16 0) (drop-length a (t ++ tail) 11 eleven)
            ∙ reads tail
            ∙ rw (start, all) refl,
      )

  block-append : (n m ptr : ℕ) → block b ptr n ++ block b (ptr + n) m ≡ block b ptr (n + m)
  block-append zero m ptr =
      let e : ptr + 0 ≡ ptr = omega arith in let k : 0 + m ≡ m = omega arith in rw (e, k) refl
  block-append (suc n) m ptr =
      let e : ptr + suc n ≡ ptr + 1 + n = omega arith in
      let k : suc n + m ≡ suc (n + m) = omega arith in
      rw (e, k) (ap (λ r. b ptr ∷ r) (block-append n m (ptr + 1)))

  lines_read :
      (f ptr size : ℕ)
      → size ≤ f
      → ptr + size ≤ 2 ^ 32
      → (lines : List (List ℕ)) × (hex_lines f b ptr size ≡ ok lines)
        × (length lines ≡ (size + 15) / 16)
        × (read_lines lines ≡ block b ptr size)
  unfolding hex_lines
  lines_read zero ptr zero enough fits = ([], refl, refl, refl)
  lines_read (suc f) ptr zero enough fits = ([], refl, refl, refl)
  lines_read zero ptr (suc k) enough fits = absurd (omega arith)
  lines_read (suc f) ptr (suc k) enough fits =
      let size = suc k in
      let (line, ran, reads) = line_read ptr size (omega arith) in
      let more_left : (suc k == 0) ≡ false = ground arith in
      elim (Bool-cases (leb size 16)) [
        | inl short ↦
            let e : min size 16 ≡ size = ground (arith, short) in
            (
              line ∷ [],
              rw (more_left, ran, short) refl,
              ground (arith, short),
              append-nil _ ∙ reads ∙ rw e refl,
            )
        | inr long ↦
            let (lines, more, count, rest) =
              lines_read f (ptr + 16) (size - 16) (ground (arith, long)) (ground (arith, long)) in
            let e : min size 16 ≡ 16 = ground (arith, long) in
            let sum : 16 + (size - 16) ≡ size = ground (arith, long) in
            (
              line ∷ lines,
              rw (more_left, ran, long, more) refl,
              ground (arith, long, count),
              rw (reads, rest, e) (block-append 16 (size - 16) ptr ∙ rw sum refl),
            )
      ]

-- Of a block of bytes within the 32 bits of an address, hexdump prints a line for each 16 bytes begun,
-- and the columns of the lines show its bytes: read back from them they are those of the memory, in
-- order.
pub hexdump-block :
    (b : Bytes) (ptr size : ℕ)
    → ((a : ℕ) → b a < 256)
    → ptr + size ≤ 2 ^ 32
    → (lines : List (List ℕ)) × (hexdump b ptr size ≡ ok (concat lines))
      × (length lines ≡ (size + 15) / 16)
      × (read_lines lines ≡ block b ptr size)
unfolding hexdump
hexdump-block b ptr size bytes fits =
    let (lines, ran, count, reads) = lines_read b bytes size ptr size (omega arith) fits in
    (lines, rw ran refl, count, reads)
