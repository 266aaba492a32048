-- ===== src/Hexdump.antt =====
-- lib/hexdump.c: what hexdump sends to the screen for a block of memory.
pub mod Columns
pub mod ReadBack
use turnix.Base.{
  ℕ, zero, suc, ◌+◌, ◌-◌, Bool, true, false, List, [], ◌∷◌, ◌++◌, codes, ◌==◌, ltb, leb,
  if◌then◌else◌, some, get_or, length, ◌^◌,
}
use turnix.Kernel.{Run, ok, out_of_fuel, ◌>>=◌}
use turnix.Ctype.{isprint}
use turnix.Memory.{Bytes}
use turnix.Stdlib.{strtoul}
use turnix.Stdio.{number}
use turnix.Commands.{say}

-- One round of the first inner loop
abbrev pub hex_cell : Bytes → ℕ → ℕ → ℕ → Run (List ℕ)
hex_cell b ptr size i =
    if ltb i size then say (codes " %02x") (number (b (ptr + i)) ∷ []) else ok (codes "   ")

-- The first inner loop, with the rounds left
unfoldable pub hex_cells : ℕ → ℕ → Bytes → ℕ → ℕ → Run (List ℕ)
hex_cells zero i b ptr size = ok []
hex_cells (suc n) i b ptr size = do
  cell ← hex_cell b ptr size i
  rest ← hex_cells n (i + 1) b ptr size
  ok ((if i == 8 then b' ' ∷ [] else []) ++ (cell ++ rest))

-- The second inner loop, with the rounds left
unfoldable pub char_cells : ℕ → ℕ → Bytes → ℕ → ℕ → List ℕ
char_cells zero i b ptr size = []
char_cells (suc n) i b ptr size =
    let c = b (ptr + i) in
    let rest = (if isprint c then c else b'.') ∷ char_cells n (i + 1) b ptr size in
    if leb size i then [] else rest

unfoldable pub hex_line : Bytes → ℕ → ℕ → Run (List ℕ)
hex_line b ptr size = do
  address ← say (codes "%p:") (number ptr ∷ [])
  cells ← hex_cells 16 0 b ptr size
  ok (address ++ (cells ++ (codes " |" ++ (char_cells 16 0 b ptr size ++ codes "|\n"))))

-- The lines, on fuel; a round takes 16 bytes, so as much as there are bytes is enough.
unfoldable pub hex_lines : ℕ → Bytes → ℕ → ℕ → Run (List (List ℕ))
hex_lines zero b ptr size = if size == 0 then ok [] else out_of_fuel
hex_lines (suc f) b ptr size =
    let more = hex_line b ptr size >>= λ line.
    (if leb size 16 then ok [] else hex_lines f b (ptr + 16) (size - 16)) >>= λ rest.
    ok (line ∷ rest) in
    if size == 0 then ok [] else more

abbrev pub concat : List (List ℕ) → List ℕ
concat [] = []
concat (line ∷ lines) = line ++ concat lines

unfoldable pub hexdump : Bytes → ℕ → ℕ → Run (List ℕ)
hexdump b ptr size = hex_lines size b ptr size >>= λ lines. ok (concat lines)

-- do_hexdump of applications/shell.c: the result, where -1 is its pattern of 32 bits, and the output
unfoldable pub do_hexdump : Bytes → List (List ℕ) → Run (ℕ × List ℕ)
do_hexdump b argv =
    let address = (strtoul (some (get_or argv 1 [])) 0).result in
    let size = (strtoul (some (get_or argv 2 [])) 0).result in
    if length argv == 3
    then (hexdump b address size >>= λ out. ok (0, out))
    else ok (2 ^ 32 - 1, codes "invalid arguments\n")
