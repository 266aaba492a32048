-- ===== src/TextBuffer/Print.antt =====
-- What a character leaves on the screen of arch/i386/drivers/text_buffer.c.
use turnix.Base.{
  ℕ, ◌+◌, ◌*◌, ◌%◌, ◌≡◌, ◌≢◌, ◌≤◌, ◌<◌, inl, inr, refl, ap, ◌∙◌, true, false, Bool-cases, dec_lt,
  arith, ◌==◌, ==_iff, ltb, leb, if◌then◌else◌, all_below_sound,
}
use turnix.TextBuffer.{
  TextBuffer, rows, cols, blank, value, draw_char_at, draw_cursor, advance, scroll_up, settle, draw,
  draw_char,
}
use turnix.TextBuffer.Cells.{cell, cell-set_cell, cell-scroll_up}

-- The value of a cell for a character in the colours of text_buffer_write_char: from 128 on the sign
-- of the `char` overwrites the colours, with white on white.
pub value_lem : (c : ℕ) → c < 256 → value c 0 7 ≡ (if ltb c 128 then 1792 + c else 65280 + c)
value_lem c h = (==_iff _ _).0 (
    all_below_sound 256 (λ (x : ℕ). value x 0 7 == (if ltb x 128 then 1792 + x else 65280 + x)) c
      refl h)

settle_scrolls :
    (t : TextBuffer)
    → rows ≤ t.row
    → ((settle t).memory ≡ (scroll_up t).memory) × ((settle t).row ≡ 24) × ((settle t).col ≡ t.col)
unfolding settle draw_cursor scroll_up
settle_scrolls t h =
    let below : leb rows t.row ≡ true = ground (arith, h) in (rw below, rw below, rw below)

settle_stays :
    (t : TextBuffer)
    → t.row < rows
    → ((settle t).memory ≡ t.memory) × ((settle t).row ≡ t.row) × ((settle t).col ≡ t.col)
unfolding settle draw_cursor
settle_stays t h =
    let inside : leb rows t.row ≡ false = ground (arith, h) in (rw inside, rw inside, rw inside)

module _ (c bg fg : ℕ) (t : TextBuffer) (r : t.row < rows) (k : t.col < cols) where
  cell-advance :
      (j : ℕ)
      → cell j (advance c bg fg t).memory
        ≡ (if t.row * cols + t.col == j then value c bg fg else cell j t.memory)
  unfolding advance draw_char_at
  cell-advance j =
      let i = t.row % rows * cols + t.col % cols in
      let same : i ≡ t.row * cols + t.col = omega arith in
      let wrote = cell-set_cell i j (value c bg fg) t.memory (omega arith) in
      elim (Bool-cases (leb cols (t.col + 1))) [
        | inl e ↦ rw e (wrote ∙ rw same)
        | inr e ↦ rw e (wrote ∙ rw same)
      ]

  advance_place :
      ((advance c bg fg t).row ≡ (if leb cols (t.col + 1) then t.row + 1 else t.row))
      × ((advance c bg fg t).col ≡ (if leb cols (t.col + 1) then 0 else t.col + 1))
  unfolding advance draw_char_at
  advance_place = elim (Bool-cases (leb cols (t.col + 1))) [
    | inl e ↦ (rw e, rw e)
    | inr e ↦ (rw e, rw e)
  ]

  draw_printed :
      (c ≢ 8) × (c ≢ 9) × (c ≢ 10) × (c ≢ 13) → draw_char c bg fg t ≡ settle (advance c bg fg t)
  unfolding draw_char draw
  draw_printed (a, b, d, e) =
      let a' : (c == 8) ≡ false = ground (arith, a) in
      let b' : (c == 9) ≡ false = ground (arith, b) in
      let d' : (c == 10) ≡ false = ground (arith, d) in
      let e' : (c == 13) ≡ false = ground (arith, e) in rw (a', b', d', e')

  -- text_buffer_draw_char of a character that is printed, with the cursor on the screen: its cell
  -- gets character and colours, all others stay, and the cursor goes on, at the end of a row to the
  -- next. In the last cell the rows then go up by one, and the last row is blank.
  pub draw_char_lem :
      (j : ℕ)
      → (c ≢ 8) × (c ≢ 9) × (c ≢ 10) × (c ≢ 13)
      → j < rows * cols
      → let t' = draw_char c bg fg t in
        let here = t.row * cols + t.col in
        let printed = λ (i : ℕ). if here == i then value c bg fg else cell i t.memory in
        (cell j t'.memory ≡ (
          if here == 1999 then (if ltb j 1920 then printed (j + cols) else blank) else printed j))
        × (t'.row * cols + t'.col ≡ (if here == 1999 then 1920 else here + 1))
  draw_char_lem j plain h =
      let u = advance c bg fg t in
      let (row, col) = advance_place in
      rw (draw_printed plain) (elim (dec_lt u.row rows) [
        | yes stays ↦
            let (memory, row', col') = settle_stays u stays in
            (
              ap (cell j) memory ∙ cell-advance j ∙ ground (arith, row, stays, r, k),
              ground (arith, row, col, row', col', stays, r, k),
            )
        | no below ↦
            let (memory, row', col') = settle_scrolls u (omega arith) in
            (
              ap (cell j) memory
                  ∙ cell-scroll_up j u h
                  ∙ ground (arith, cell-advance (j + cols), row, below, r, k),
              ground (arith, row, col, row', col', below, r, k),
            )
      ])
