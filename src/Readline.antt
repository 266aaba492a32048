-- ===== src/Readline.antt =====
-- lib/readline.c: the line that is typed. The bytes that getchar gives are a list, and so are those
-- that are sent to putchar after the prompt.
pub mod Edit
use turnix.Base.{
  ℕ, zero, suc, ◌+◌, ◌-◌, Bool, true, not, ◌&&◌, ◌||◌, List, [], ◌∷◌, ◌++◌, ◌==◌, ltb,
  if◌then◌else◌, length, take,
}

-- `LINE_MAX`
abbrev pub line_max : ℕ
line_max = 2048

-- The line, what is echoed, the bytes that are not read, and whether the loop has ended: if not,
-- getchar waits for more.
pub record Line : Type 0 where
  pub line : List ℕ
  pub echo : List ℕ
  pub left : List ℕ
  pub ended : Bool

-- The buffer up to `n` after a byte that does not end the line.
abbrev pub edit : List ℕ → ℕ → List ℕ
edit s c = if c == 8 then take (length s - 1) s else (if c == 9 then s else s ++ c ∷ [])

-- What is echoed for it.
abbrev pub echoed : List ℕ → ℕ → List ℕ
echoed s c = if ((c == 8) && (length s == 0)) || (c == 9) then [] else c ∷ []

-- The test of the loop
abbrev pub has_room : List ℕ → Bool
has_room s = ltb (length s) (line_max - 1)

-- The loop of readline
unfoldable pub read_line : List ℕ → List ℕ → Line
read_line s [] = record { line = s; echo = []; left = []; ended = not (has_room s) }
read_line s (c ∷ cs) =
    let rest = read_line (edit s c) cs in
    let more =
      if c == 10
      then record { line = s; echo = c ∷ []; left = cs; ended = true }
      else record rest { echo = echoed s c ++ rest.echo } in
    if has_room s then more else record { line = s; echo = []; left = c ∷ cs; ended = true }

unfoldable pub readline : List ℕ → Line
readline cs = read_line [] cs
