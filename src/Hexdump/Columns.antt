-- ===== src/Hexdump/Columns.antt =====
-- What hexdump prints can be read back.
use turnix.Base.{
  ℕ, zero, suc, ◌+◌, ◌-◌, ◌*◌, ◌/◌, ◌%◌, min, ◌≡◌, ◌≤◌, ◌<◌, ◌∙◌, refl, sym, ap, true, Option, none,
  some, List, [], ◌∷◌, ◌++◌, append_assoc, codes, arith, ◌==◌, ltb, if◌then◌else◌, get_or, drop,
  Bool-cases, inl, inr, all_below, all_below_sound,
}
use turnix.Kernel.{Run, ok}
use turnix.Memory.{Bytes}
use turnix.Stdlib.{digit}
use turnix.Stdio.{
  number, printf, convert, with_number, print_digits, number_chars, push_digits, print_str,
}
use turnix.Stdio.Numerals.{char, digit-char}
use turnix.Commands.{say}
use turnix.Commands.Says.{same_text, prints, prints_sound}
use turnix.Hexdump.{hex_cells}

-- The bytes of a block
abbrev pub block : Bytes → ℕ → ℕ → List ℕ
block b ptr zero = []
block b ptr (suc n) = b ptr ∷ block b (ptr + 1) n

-- What is left where a column starts, and the byte that it shows, before the others.
abbrev pub skip_gap : ℕ → List ℕ → List ℕ
skip_gap i s = if i == 8 then drop 1 s else s

abbrev pub with_byte : Option ℕ → Option ℕ → List ℕ → List ℕ
with_byte (some high) (some low) rest = (high * 16 + low) ∷ rest
with_byte none low rest = rest
with_byte (some high) none rest = rest

abbrev pub read_cell : List ℕ → List ℕ → List ℕ
read_cell s rest = with_byte (digit (get_or s 1 0)) (digit (get_or s 2 0)) rest

-- The bytes that the columns of a line show, from the column `i` on: a column is a space and two
-- digits, or three spaces, and a space more stands before the column 8.
pub hex_read : ℕ → ℕ → List ℕ → List ℕ
hex_read zero i s = []
hex_read (suc n) i s = read_cell (skip_gap i s) (hex_read n (i + 1) (drop 3 (skip_gap i s)))

-- The address and the colon take eleven characters.
abbrev pub read_lines : List (List ℕ) → List ℕ
read_lines [] = []
read_lines (line ∷ lines) = hex_read 16 0 (drop 11 line) ++ read_lines lines

abbrev two_digits : ℕ → List ℕ
two_digits v = b' ' ∷ char (v / 16) ∷ char (v % 16) ∷ []

abbrev say_byte : ℕ → Run (List ℕ)
say_byte v = say (codes " %02x") (number v ∷ [])

byte_table : all_below 256 (λ v. prints (say_byte v) (two_digits v)) ≡ true
unfolding say printf convert with_number print_digits number_chars push_digits print_str prints
    same_text
byte_table = refl

say-byte : (v : ℕ) → v < 256 → say_byte v ≡ ok (two_digits v)
say-byte v h =
    prints_sound (say_byte v) (two_digits v)
      (all_below_sound 256 (λ (x : ℕ). prints (say_byte x) (two_digits x)) v byte_table h)

abbrev gap : ℕ → List ℕ
gap i = if i == 8 then b' ' ∷ [] else []

skip_gap-gap : (i : ℕ) (s : List ℕ) → skip_gap i (gap i ++ s) ≡ s
skip_gap-gap i s = elim (Bool-cases (i == 8)) [ inl e ↦ rw e refl | inr e ↦ rw e refl ]

hex_read-gap :
    (n i : ℕ) (s : List ℕ)
    → hex_read (suc n) i (gap i ++ s) ≡ read_cell s (hex_read n (i + 1) (drop 3 s))
unfolding hex_read
hex_read-gap n i s = ap (λ r. read_cell r (hex_read n (i + 1) (drop 3 r))) (skip_gap-gap i s)

read_cell-digits :
    (v : ℕ) (s rest : List ℕ) → v < 256 → read_cell (two_digits v ++ s) rest ≡ v ∷ rest
read_cell-digits v s rest h =
    rw (digit-char (v / 16) (omega arith), digit-char (v % 16) (omega arith))
      (ap (λ w. w ∷ rest) (omega arith))

read_cell-blank : (s rest : List ℕ) → read_cell (codes "   " ++ s) rest ≡ rest
unfolding digit
read_cell-blank s rest = refl

module _ (b : Bytes) (ptr size : ℕ) (bytes : (a : ℕ) → b a < 256) where
  -- The bytes of a line from the column `i` on, with `n` columns left
  abbrev left : ℕ → ℕ → List ℕ
  left n i = block b (ptr + i) (min (size - i) n)

  left-more : (n i : ℕ) → i < size → left (suc n) i ≡ b (ptr + i) ∷ left n (i + 1)
  left-more n i h =
      let e : min (size - i) (suc n) ≡ suc (min (size - (i + 1)) n) = omega arith in
      let p : ptr + i + 1 ≡ ptr + (i + 1) = omega arith in rw (e, p) refl

  left-none : (n i : ℕ) → size ≤ i → left n i ≡ []
  left-none n i h = let e : min (size - i) n ≡ 0 = omega arith in rw e refl

  -- The columns are printed, and their bytes are read back whatever follows.
  pub cells_read :
      (n i : ℕ)
      → (t : List ℕ) × (hex_cells n i b ptr size ≡ ok t)
        × ((tail : List ℕ) → hex_read n i (t ++ tail) ≡ left n i)
  unfolding hex_cells
  cells_read zero i = (
    [],
    refl,
    λ tail. unfold hex_read in (let e : min (size - i) 0 ≡ 0 = omega arith in rw e refl),
  )
  cells_read (suc n) i =
      let (t, ran, reads) = cells_read n (i + 1) in
      elim (Bool-cases (ltb i size)) [
        | inl more ↦ (
          gap i ++ (two_digits (b (ptr + i)) ++ t),
          rw (more, say-byte (b (ptr + i)) (bytes (ptr + i)), ran) refl,
          λ tail. rw (append_assoc (gap i) (two_digits (b (ptr + i)) ++ t) tail) (
              hex_read-gap n i _
              ∙ read_cell-digits (b (ptr + i)) (t ++ tail) _ (bytes (ptr + i))
              ∙ ap (λ r. b (ptr + i) ∷ r) (reads tail)
              ∙ sym (left-more n i (ground (arith, more)))),
        )
        | inr none_left ↦ (
          gap i ++ (codes "   " ++ t),
          rw (none_left, ran) refl,
          λ tail. rw (append_assoc (gap i) (codes "   " ++ t) tail) (
              hex_read-gap n i _
              ∙ read_cell-blank (t ++ tail) _
              ∙ reads tail
              ∙ left-none n (i + 1) (ground (arith, none_left))
              ∙ sym (left-none (suc n) i (ground (arith, none_left)))),
        )
      ]
