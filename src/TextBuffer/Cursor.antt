-- ===== src/TextBuffer/Cursor.antt =====
-- The cursor of arch/i386/drivers/text_buffer.c stays on the screen, and nothing else is written.
use turnix.Base.{
  ℕ, zero, suc, ◌+◌, ◌-◌, ◌*◌, ◌%◌, ◌≡◌, ◌≤◌, ◌<◌, ◌⊎◌, refl, ◌∙◌, Bool, true, false, arith, ◌==◌,
  leb, if◌then◌else◌,
}
use turnix.TextBuffer.{
  TextBuffer, base_addr, rows, cols, black, light_grey, value, draw_char_at, draw_cursor, backspace,
  advance, scroll_up, settle, spaces, draw, draw_char,
}
use turnix.TextBuffer.Cells.{set_cell_outside, scroll_up_outside}

-- The cursor is on one of the first `n` rows, and the byte at `a` has the value `x`.
record IsWithin (n a x : ℕ) (t : TextBuffer) : Type 0 where
  row_ok : t.row < n
  col_ok : t.col < cols
  kept : t.memory a ≡ x

module _ (a : ℕ) (o : (a < base_addr) ⊎ (base_addr + 4000 ≤ a)) where
  if-IsWithin :
      (n x : ℕ) (b : Bool) (t u : TextBuffer)
      → (b ≡ true → IsWithin n a x t)
      → (b ≡ false → IsWithin n a x u)
      → IsWithin n a x (if b then t else u)
  if-IsWithin n x true t u v w = v refl
  if-IsWithin n x false t u v w = w refl

  draw_char_at-IsWithin :
      (n x c row col bg fg : ℕ) (t : TextBuffer)
      → IsWithin n a x t
      → IsWithin n a x (draw_char_at c row col bg fg t)
  unfolding draw_char_at
  draw_char_at-IsWithin n x c row col bg fg t w = record {
    row_ok = w.row_ok;
    col_ok = w.col_ok;
    kept =
        set_cell_outside 2000 (row % rows * cols + col % cols) (value c bg fg) a t.memory
          (omega arith) o
        ∙ w.kept;
  }

  draw_cursor-IsWithin :
      (n x row col : ℕ) (t : TextBuffer) → IsWithin n a x t → IsWithin n a x (draw_cursor row col t)
  unfolding draw_cursor
  draw_cursor-IsWithin n x row col t w = record {
    row_ok = w.row_ok;
    col_ok = w.col_ok;
    kept = w.kept;
  }

  -- Another place of the cursor
  place :
      (n x : ℕ) (t : TextBuffer) (row col : ℕ)
      → t.memory a ≡ x
      → row < n
      → col < cols
      → IsWithin n a x (record t { row = row; col = col })
  place n x t row col k r c = record { row_ok = r; col_ok = c; kept = k }

  backspace-IsWithin : (x : ℕ) (t : TextBuffer) → IsWithin 25 a x t → IsWithin 26 a x (backspace t)
  unfolding backspace
  backspace-IsWithin x t w = draw_char_at-IsWithin 26 x b' ' _ _ black light_grey _ (
      if-IsWithin 26 x (t.col == 0) _ _
        (λ e.
          if-IsWithin 26 x (t.row == 0) _ _
            (λ f. place 26 x t t.row t.col w.kept (omega (arith, w.row_ok)) w.col_ok)
            (λ f. place 26 x t (t.row - 1) 79 w.kept (omega (arith, w.row_ok)) (omega arith)))
        (λ e.
          place 26 x t t.row (t.col - 1) w.kept (omega (arith, w.row_ok))
            (omega (arith, w.col_ok))))

  advance-IsWithin :
      (c bg fg x : ℕ) (t : TextBuffer) → IsWithin 25 a x t → IsWithin 26 a x (advance c bg fg t)
  unfolding advance
  advance-IsWithin c bg fg x t w =
      let drawn = draw_char_at-IsWithin 25 x c t.row t.col bg fg t w in
      let t' = draw_char_at c t.row t.col bg fg t in
      if-IsWithin 26 x (leb cols (t.col + 1)) _ _
        (λ e. place 26 x t' (t.row + 1) 0 drawn.kept (omega (arith, w.row_ok)) (omega arith))
        (λ e.
          place 26 x t' t'.row (t.col + 1) drawn.kept (omega (arith, drawn.row_ok))
            (ground (arith, e)))

  scroll_up-IsWithin : (x : ℕ) (t : TextBuffer) → IsWithin 26 a x t → IsWithin 25 a x (scroll_up t)
  unfolding scroll_up
  scroll_up-IsWithin x t w = record {
    row_ok = omega arith;
    col_ok = w.col_ok;
    kept = scroll_up_outside a t o ∙ w.kept;
  }

  settle-IsWithin : (x : ℕ) (t : TextBuffer) → IsWithin 26 a x t → IsWithin 25 a x (settle t)
  unfolding settle
  settle-IsWithin x t w = draw_cursor-IsWithin 25 x _ _ _ (
      if-IsWithin 25 x (leb rows t.row) _ _ (λ e. scroll_up-IsWithin x t w)
        (λ e. place 25 x t t.row t.col w.kept (ground (arith, e)) w.col_ok))

  spaces-IsWithin : (n x : ℕ) (t : TextBuffer) → IsWithin 25 a x t → IsWithin 25 a x (spaces n t)
  unfolding spaces
  spaces-IsWithin zero x t w = w
  spaces-IsWithin (suc n) x t w =
      spaces-IsWithin n x _ (settle-IsWithin x _ (advance-IsWithin b' ' black light_grey x t w))

  draw-IsWithin :
      (c bg fg x : ℕ) (t : TextBuffer) → IsWithin 25 a x t → IsWithin 26 a x (draw c bg fg t)
  unfolding draw
  draw-IsWithin c bg fg x t w =
      if-IsWithin 26 x (c == 8) _ _ (λ e. backspace-IsWithin x t w)
        (λ e.
          if-IsWithin 26 x (c == 10) _ _
            (λ e. place 26 x t (t.row + 1) 0 w.kept (omega (arith, w.row_ok)) (omega arith))
            (λ e.
              if-IsWithin 26 x (c == 9) _ _
                (λ e.
                  let s = spaces-IsWithin (8 - t.col % 8) x t w in
                  record { row_ok = omega (arith, s.row_ok); col_ok = s.col_ok; kept = s.kept })
                (λ e. advance-IsWithin c bg fg x t w)))

  -- text_buffer_draw_char with the cursor on the screen: it stays there, and no byte of memory outside
  -- the 4000 of the screen changes.
  pub draw_char_within :
      (c bg fg : ℕ) (t : TextBuffer)
      → t.row < rows
      → t.col < cols
      → let t' = draw_char c bg fg t in
        (t'.row < rows) × (t'.col < cols) × (t'.memory a ≡ t.memory a)
  unfolding draw_char
  draw_char_within c bg fg t r k =
      let here : IsWithin 25 a (t.memory a) t = record { row_ok = r; col_ok = k; kept = refl } in
      let w : IsWithin 25 a (t.memory a) (draw_char c bg fg t) =
        if-IsWithin 25 (t.memory a) (c == 13) _ _ (λ e. here)
          (λ e. settle-IsWithin (t.memory a) _ (draw-IsWithin c bg fg (t.memory a) t here)) in
      (w.row_ok, w.col_ok, w.kept)
