-- ===== src/TextBuffer/Cells.antt =====
-- The cells of the screen of arch/i386/drivers/text_buffer.c: one write, a run of blanks, a scroll.
use turnix.Base.{
  ℕ, zero, suc, ◌+◌, ◌*◌, ◌/◌, ◌%◌, ◌^◌, ◌≡◌, ◌≤◌, ◌<◌, ◌⊎◌, refl, ap, ◌∙◌, ◌&&◌, arith, ◌==◌, ltb,
  leb, if◌then◌else◌,
}
use turnix.Memory.{Bytes, memmove}
use turnix.Memory.Move.{memmove_at}
use turnix.TextBuffer.{TextBuffer, base_addr, blank, set_cell, fill, scroll_up}

-- The value of a cell.
abbrev pub cell : ℕ → Bytes → ℕ
cell i b = b (base_addr + 2 * i) + 256 * b (base_addr + 2 * i + 1)

set_cell_at :
    (i v a : ℕ) (b : Bytes)
    → set_cell i v b a ≡ (
        if base_addr + 2 * i + 1 == a
        then v / 256 % 256
        else (if base_addr + 2 * i == a then v % 256 else b a))
unfolding set_cell
set_cell_at i v a b = refl

pub cell-set_cell :
    (i j v : ℕ) (b : Bytes)
    → v < 2 ^ 16
    → cell j (set_cell i v b) ≡ (if i == j then v else cell j b)
cell-set_cell i j v b h =
    ground
      (arith, set_cell_at i v (base_addr + 2 * j) b, set_cell_at i v (base_addr + 2 * j + 1) b, h)

-- A write to one of `n` cells changes no byte outside them.
pub set_cell_outside :
    (n i v a : ℕ) (b : Bytes)
    → i < n
    → (a < base_addr) ⊎ (base_addr + 2 * n ≤ a)
    → set_cell i v b a ≡ b a
set_cell_outside n i v a b h o = ground (arith, set_cell_at i v a b, h, o)

pub cell-fill :
    (n i j : ℕ) (b : Bytes)
    → cell j (fill n i b) ≡ (if leb i j && ltb j (i + n) then blank else cell j b)
unfolding fill
cell-fill zero i j b = ground arith
cell-fill (suc n) i j b =
    let rest = cell-fill n (i + 1) j (set_cell i blank b) in
    let one = cell-set_cell i j blank b (omega arith) in ground (arith, rest, one)

pub fill_outside :
    (m n i a : ℕ) (b : Bytes)
    → i + n ≤ m
    → (a < base_addr) ⊎ (base_addr + 2 * m ≤ a)
    → fill n i b a ≡ b a
unfolding fill
fill_outside m zero i a b h o = refl
fill_outside m (suc n) i a b h o =
    fill_outside m n (i + 1) a (set_cell i blank b) (omega (arith, h)) o
    ∙ set_cell_outside m i blank a b (omega (arith, h)) o

moved_at :
    (a : ℕ) (b : Bytes)
    → memmove base_addr (base_addr + 160) 3840 b a
      ≡ (if leb base_addr a && ltb a (base_addr + 3840) then b (a + 160) else b a)
moved_at a b = (memmove_at base_addr (base_addr + 160) 3840 a b).0 (omega arith) ∙ ground arith

cell_moved :
    (j : ℕ) (b : Bytes)
    → cell j (memmove base_addr (base_addr + 160) 3840 b)
      ≡ (if ltb j 1920 then cell (j + 80) b else cell j b)
cell_moved j b = ground (arith, moved_at (base_addr + 2 * j) b, moved_at (base_addr + 2 * j + 1) b)

scroll_memory :
    (t : TextBuffer)
    → (scroll_up t).memory ≡ fill 80 1920 (memmove base_addr (base_addr + 160) 3840 t.memory)
unfolding scroll_up
scroll_memory t = refl

pub cell-scroll_up :
    (j : ℕ) (t : TextBuffer)
    → j < 2000
    → cell j (scroll_up t).memory ≡ (if ltb j 1920 then cell (j + 80) t.memory else blank)
cell-scroll_up j t h =
    let low = memmove base_addr (base_addr + 160) 3840 t.memory in
    ap (cell j) (scroll_memory t)
    ∙ cell-fill 80 1920 j low
    ∙ ground (arith, cell_moved j t.memory, h)

pub scroll_up_outside :
    (a : ℕ) (t : TextBuffer)
    → (a < base_addr) ⊎ (base_addr + 4000 ≤ a)
    → (scroll_up t).memory a ≡ t.memory a
scroll_up_outside a t o =
    let low = memmove base_addr (base_addr + 160) 3840 t.memory in
    ap (λ (b : Bytes). b a) (scroll_memory t)
    ∙ fill_outside 2000 80 1920 a low (omega arith) o
    ∙ ground (arith, moved_at a t.memory, o)
