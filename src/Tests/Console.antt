-- ===== src/Tests/Console.antt =====
-- Numbers, output and keys: lib/stdlib.c, lib/stdio.c and arch/i386/drivers/keyboard.c.
use turnix.Base.{
  inr, ◌<◌, ◌*◌, ℕ, ◌+◌, ◌^◌, ◌≡◌, refl, true, List, [], ◌∷◌, arith, ◌-◌, ◌%◌, none, some, leb,
  if◌then◌else◌,
}
use turnix.Stdlib.{strtoul, erange, digit}
use turnix.Stdlib.Digits.{numeral}
use turnix.Stdlib.Whole.{strtoul_saturates}
use turnix.Keyboard.{Keyboard, keyboard_init}
use turnix.TextBuffer.{TextBuffer, cols, value, draw_char}
use turnix.TextBuffer.Cells.{cell}
use turnix.TextBuffer.Cursor.{draw_char_within}
use turnix.TextBuffer.Print.{draw_char_lem}

-- "4294967296", one more than the largest word
abbrev too_large : List ℕ
too_large = 52 ∷ 50 ∷ 57 ∷ 52 ∷ 57 ∷ 54 ∷ 55 ∷ 50 ∷ 57 ∷ 54 ∷ []

strtoul_saturates_example :
    let n = numeral 10 0 too_large in
    let error = if leb (2 ^ 32) n then some erange else none in
    let plain = strtoul (some too_large) 10 in
    let minus = strtoul (some (b'-' ∷ too_large)) 10 in
    (plain.result ≡ (if leb (2 ^ 32) n then 2 ^ 32 - 1 else n))
    × (plain.error ≡ error)
    × (minus.result ≡ (if leb (2 ^ 32) n then 2 ^ 32 - 1 else (2 ^ 32 - n) % 2 ^ 32))
    × (minus.error ≡ error)
strtoul_saturates_example =
    strtoul_saturates 10 52 4 (50 ∷ 57 ∷ 52 ∷ 57 ∷ 54 ∷ 55 ∷ 50 ∷ 57 ∷ 54 ∷ []) (omega arith)
      (omega arith) (unfold digit in refl) (omega arith) refl

abbrev keys : Keyboard
keys = keyboard_init (λ i. 0)

-- The control key with `c`
abbrev held : Keyboard
held = record keys { l_ctrl = true }

-- An empty screen with the cursor in its last cell.
abbrev screen : TextBuffer
screen = record { row = 24; col = 79; memory = λ a. 0; sent = [] }

draw_char_within_example :
    ((draw_char b'x' 0 7 screen).row < 25)
    × ((draw_char b'x' 0 7 screen).col < 80)
    × ((draw_char b'x' 0 7 screen).memory 757664 ≡ 0)
draw_char_within_example =
    draw_char_within 757664 (inr (omega arith)) b'x' 0 7 screen (omega arith) (omega arith)

draw_char_lem_example :
    (cell 1919 (draw_char b'x' 0 7 screen).memory ≡ value b'x' 0 7)
    × ((draw_char b'x' 0 7 screen).row * cols + (draw_char b'x' 0 7 screen).col ≡ 1920)
draw_char_lem_example =
    draw_char_lem b'x' 0 7 screen (omega arith) (omega arith) 1919
      (
        λ e. absurd (omega (arith, e)),
        λ e. absurd (omega (arith, e)),
        λ e. absurd (omega (arith, e)),
        λ e. absurd (omega (arith, e)),
      )
      (omega arith)
