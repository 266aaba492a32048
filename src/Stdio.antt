-- ===== src/Stdio.antt =====
-- lib/stdio.c: the bytes that printf sends to putchar, and the count that it returns. A format and a
-- string are their bytes before the NUL, an `int` is its pattern of 32 bits.
pub mod Numerals
pub mod Printed
pub mod Count
use turnix.Base.{
  ℕ, zero, suc, ◌+◌, ◌-◌, ◌*◌, ◌/◌, ◌%◌, ◌^◌, Bool, true, false, List, [], ◌∷◌, ◌++◌, ◌==◌, ltb,
  leb, if◌then◌else◌, length, get_or, replicate,
}
use turnix.Kernel.{Run, ok, fault, out_of_fuel, ◌>>=◌}
use turnix.Ctype.{isdigit}

-- `struct print_context`
pub record Context : Type 0 where
  pub pad : ℕ
  pub min_width : ℕ

-- What is sent, and how much is counted.
abbrev pub Out : Type 0
Out = List ℕ × ℕ

-- `"0123456789abcdef"` and `"0123456789ABCDEF"`
abbrev pub number_table : List ℕ
number_table = 48 ∷ 49 ∷ 50 ∷ 51 ∷ 52 ∷ 53 ∷ 54 ∷ 55 ∷ 56 ∷ 57 ∷ 97 ∷ 98 ∷ 99 ∷ 100 ∷ 101 ∷ 102 ∷ []

abbrev pub number_table_upper : List ℕ
number_table_upper =
    48 ∷ 49 ∷ 50 ∷ 51 ∷ 52 ∷ 53 ∷ 54 ∷ 55 ∷ 56 ∷ 57 ∷ 65 ∷ 66 ∷ 67 ∷ 68 ∷ 69 ∷ 70 ∷ []

-- The first loop runs `min_width - n` times, or not at all.
unfoldable pub print_str : Context → List ℕ → Out
print_str ctx s =
    let rounds = ctx.min_width - length s in (replicate rounds ctx.pad ++ s, length s + rounds)

-- The loop of `__print_number`, which fills the buffer from its end.
unfoldable pub push_digits : ℕ → ℕ → ℕ → List ℕ → List ℕ → Run (List ℕ)
push_digits zero n base table s = out_of_fuel
push_digits (suc f) n base table s =
    let s' = get_or table (n % base) 0 ∷ s in
    let rest = push_digits f (n / base) base table s' in if n / base == 0 then ok s' else rest

-- The string in the buffer. A round divides by 2 at least, so 32 rounds are enough for a word.
unfoldable pub number_chars : Bool → ℕ → ℕ → List ℕ → Run (List ℕ)
number_chars neg n base table = do
  s ← (if n == 0 then ok (b'0' ∷ []) else push_digits 32 n base table [])
  ok (if neg then b'-' ∷ s else s)

-- `__print_number`
unfoldable pub print_digits : Context → Bool → ℕ → ℕ → List ℕ → Run Out
print_digits ctx neg n base table = number_chars neg n base table >>= λ s. ok (print_str ctx s)

abbrev pub print_unsigned : Context → ℕ → ℕ → Run Out
print_unsigned ctx n base = print_digits ctx false n base number_table

unfoldable pub print_number : Context → ℕ → ℕ → Run Out
print_number ctx n base =
    if leb (2 ^ 31) n
    then print_digits ctx true ((2 ^ 32 - n) % 2 ^ 32) base number_table
    else print_digits ctx false n base number_table

-- The loop of `print_char`, whose test never changes, on fuel.
unfoldable pub pad_char : ℕ → Context → Run (List ℕ)
pad_char zero ctx = out_of_fuel
pad_char (suc f) ctx =
    let rest = pad_char f ctx >>= λ o. ok (ctx.pad ∷ o) in
    if ltb 1 ctx.min_width then rest else ok []

unfoldable pub print_char : ℕ → Context → ℕ → Run Out
print_char f ctx c = pad_char f ctx >>= λ o. ok (o ++ c ∷ [], 1)

-- The variable arguments. Reading one of the wrong kind, or one too many, is a fault.
pub data Arg : Type 0 where
  number : ℕ → Arg
  text : List ℕ → Arg

unfoldable pub with_number : List Arg → (ℕ → Run Out) → Run (Out × List Arg)
with_number [] k = fault
with_number (text s ∷ args) k = fault
with_number (number n ∷ args) k = k n >>= λ o. ok (o, args)

unfoldable pub with_text : List Arg → (List ℕ → Run Out) → Run (Out × List Arg)
with_text [] k = fault
with_text (number n ∷ args) k = fault
with_text (text s ∷ args) k = k s >>= λ o. ok (o, args)

-- `%p` prints the prefix and then eight digits.
unfoldable pub print_pointer : Context → ℕ → Run Out
print_pointer ctx n = do
  (o, m) ← print_unsigned (record { pad = b'0'; min_width = 8 }) n 16
  ok (b'0' ∷ b'x' ∷ o, 2 + m)

-- The cases of the inner `switch` that end a directive.
unfoldable pub convert : ℕ → Context → ℕ → List Arg → Run (Out × List Arg)
convert f ctx c args =
    if (c == b'i')
    then with_number args (λ n. print_number ctx n 10)
    else if (c == b'd')
    then with_number args (λ n. print_number ctx n 10)
    else if (c == b'X')
    then with_number args (λ n. print_digits ctx false n 16 number_table_upper)
    else if (c == b'p')
    then with_number args (print_pointer ctx)
    else if (c == b'x')
    then with_number args (λ n. print_unsigned ctx n 16)
    else if (c == b'u')
    then with_number args (λ n. print_unsigned ctx n 10)
    else if (c == b'o')
    then with_number args (λ n. print_unsigned ctx n 8)
    else if (c == b's')
    then with_text args (λ s. ok (print_str ctx s))
    else if (c == b'c')
    then with_number args (λ n. print_char f ctx (n % 256))
    else print_char f ctx c >>= λ o. ok (o, args)

abbrev pub emit : Out → Run Out → Run Out
emit (o, n) k = k >>= λ (p, m). ok (o ++ p, n + m)

abbrev pub widen : Context → ℕ → Context
widen ctx c = record ctx { min_width = (ctx.min_width * 10 + (c - b'0')) % 2 ^ 32 }

-- `printf` from a character of the format on; `directive` after a `%`, `zero_flag` after a `0` there,
-- and `width` within a width. An unfinished directive ends the output.
unfoldable mutual
  pub printf : ℕ → List ℕ → List Arg → Run Out
  printf f [] args = ok ([], 0)
  printf f (c ∷ s) args =
      let percent = directive f (record { pad = b' '; min_width = 0 }) s args in
      let plain = emit (c ∷ [], 1) (printf f s args) in if c == b'%' then percent else plain

  pub directive : ℕ → Context → List ℕ → List Arg → Run Out
  directive f ctx [] args = ok ([], 0)
  directive f ctx (c ∷ s) args =
      let long = directive f ctx s args in
      let zeros = zero_flag f (record ctx { pad = b'0' }) s args in
      let digits = width f (widen ctx c) s args in
      let other = convert f ctx c args >>= λ (o, args'). emit o (printf f s args') in
      if c == b'l' then long else if c == b'0' then zeros else if isdigit c then digits else other

  pub zero_flag : ℕ → Context → List ℕ → List Arg → Run Out
  zero_flag f ctx [] args = ok ([], 0)
  zero_flag f ctx (c ∷ s) args =
      let digits = width f (widen ctx c) s args in
      let other = print_char f ctx c >>= λ o. emit o (printf f s args) in
      if isdigit c then digits else other

  pub width : ℕ → Context → List ℕ → List Arg → Run Out
  width f ctx [] args = ok ([], 0)
  width f ctx (c ∷ s) args =
      let long = directive f ctx s args in
      let digits = width f (widen ctx c) s args in
      let other = convert f ctx c args >>= λ (o, args'). emit o (printf f s args') in
      if isdigit c then digits else if c == b'l' then long else other
