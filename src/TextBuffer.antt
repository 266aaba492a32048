-- ===== src/TextBuffer.antt =====
-- arch/i386/drivers/text_buffer.c: the screen of 25 rows of 80 cells, in video memory. A cell is two
-- bytes, the character first. What is written to a port is kept in `sent`.
pub mod Cells
pub mod Cursor
pub mod Print
use Prim.Native.Nat.{bit_or}
use turnix.Base.{
  ℕ, zero, suc, ◌+◌, ◌-◌, ◌*◌, ◌/◌, ◌%◌, ◌^◌, Bool, List, [], ◌∷◌, ◌++◌, ◌==◌, ltb, leb,
  if◌then◌else◌, update,
}
use turnix.Memory.{Bytes, memmove}

-- `text_buffer_base_addr`
abbrev pub base_addr : ℕ
base_addr = 753664

abbrev pub rows : ℕ
rows = 25

abbrev pub cols : ℕ
cols = 80

abbrev pub black : ℕ
black = 0

abbrev pub light_grey : ℕ
light_grey = 7

-- `TEXT_BUFFER_SPACE`
abbrev pub blank : ℕ
blank = 1824

-- `text_buffer`, the memory, and the bytes sent to ports, each with its port
pub record TextBuffer : Type 0 where
  pub row : ℕ
  pub col : ℕ
  pub memory : Bytes
  pub sent : List (ℕ × ℕ)

-- `text_buffer_base_addr[i] = v`, for an `unsigned short`
unfoldable pub set_cell : ℕ → ℕ → Bytes → Bytes
set_cell i v b =
    update (update b (base_addr + 2 * i) (v % 256)) (base_addr + 2 * i + 1) (v / 256 % 256)

-- A `char` as an `int`, with its sign: the pattern of 32 bits.
abbrev pub extend : ℕ → ℕ
extend c = if ltb c 128 then c else 2 ^ 32 - 256 + c

-- `v` of text_buffer_draw_char_at
abbrev pub value : ℕ → ℕ → ℕ → ℕ
value c bg fg = bit_or (bit_or (bg % 16 * 4096) (fg % 16 * 256)) (extend c) % 2 ^ 16

unfoldable pub draw_char_at : ℕ → ℕ → ℕ → ℕ → ℕ → TextBuffer → TextBuffer
draw_char_at c row col bg fg t = record t {
  memory = set_cell (row % rows * cols + col % cols) (value c bg fg) t.memory;
}

unfoldable pub draw_cursor : ℕ → ℕ → TextBuffer → TextBuffer
draw_cursor row col t =
    let value = (row * cols + col) % 2 ^ 16 in
    record t {
      sent = t.sent ++ (14, 980) ∷ (value / 256, 981) ∷ (15, 980) ∷ (value % 256, 981) ∷ [];
    }

-- The loops that blank `n` cells from cell `i` on.
unfoldable pub fill : ℕ → ℕ → Bytes → Bytes
fill zero i b = b
fill (suc n) i b = fill n (i + 1) (set_cell i blank b)

unfoldable pub clear : TextBuffer → TextBuffer
clear t = draw_cursor 0 0 (record t { row = 0; col = 0; memory = fill (cols * rows) 0 t.memory })

-- `case 0x08`
unfoldable pub backspace : TextBuffer → TextBuffer
backspace t =
    let t' =
      if t.col == 0
      then (if t.row == 0 then t else record t { row = t.row - 1; col = cols - 1 })
      else record t { col = t.col - 1 } in
    draw_char_at b' ' t'.row t'.col black light_grey t'

-- `default`
unfoldable pub advance : ℕ → ℕ → ℕ → TextBuffer → TextBuffer
advance c bg fg t =
    let t' = draw_char_at c t.row t.col bg fg t in
    if leb cols (t.col + 1)
    then record t' { col = 0; row = t.row + 1 }
    else record t' { col = t.col + 1 }

-- The rows go up by one, and the last is blank.
unfoldable pub scroll_up : TextBuffer → TextBuffer
scroll_up t = record t {
  row = rows - 1;
  memory =
      fill cols (cols * (rows - 1))
        (memmove base_addr (base_addr + 2 * cols) (2 * cols * (rows - 1)) t.memory);
}

-- The end of text_buffer_draw_char.
unfoldable pub settle : TextBuffer → TextBuffer
settle t = let t' = if leb rows t.row then scroll_up t else t in draw_cursor t'.row t'.col t'

-- `n` spaces, for a tabulator
unfoldable pub spaces : ℕ → TextBuffer → TextBuffer
spaces zero t = t
spaces (suc n) t = spaces n (settle (advance b' ' black light_grey t))

-- The cases of the `switch`, but for the return
unfoldable pub draw : ℕ → ℕ → ℕ → TextBuffer → TextBuffer
draw c bg fg t =
    if c == 8
    then backspace t
    else if c == 10
    then record t { col = 0; row = t.row + 1 }
    else if c == 9
    then spaces (8 - t.col % 8) t
    else advance c bg fg t

unfoldable pub draw_char : ℕ → ℕ → ℕ → TextBuffer → TextBuffer
draw_char c bg fg t = if c == 13 then t else settle (draw c bg fg t)

unfoldable pub write_char : ℕ → TextBuffer → TextBuffer
write_char c t = draw_char c black light_grey t

unfoldable pub putchar : ℕ → TextBuffer → TextBuffer
putchar c t = write_char (c % 256) t
