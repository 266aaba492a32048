-- ===== src/Stdio/Count.antt =====
-- The count that `printf` returns, and what it prints of a whole format.
use turnix.Base.{
  ℕ, zero, suc, ◌+◌, ◌-◌, ◌%◌, ◌^◌, ◌≡◌, ◌<◌, refl, Bool, true, false, List, [], ◌∷◌, arith, ◌==◌,
  ltb, leb, if◌then◌else◌, length, replicate, length-replicate, length-append, dec_lt,
}
use turnix.Ctype.{isdigit}
use turnix.Kernel.{Run, ok, panic, fault, out_of_fuel, ◌>>=◌}
use turnix.Stdio.{
  Context, Out, number_table, number_table_upper, print_str, number_chars, print_digits,
  print_unsigned, print_number, pad_char, print_char, Arg, number, text, with_number, with_text,
  print_pointer, convert, emit, widen, printf, directive, zero_flag, width,
}

-- If an output is returned, as many characters were sent as are counted.
abbrev pub IsCounted : Run Out → Type 0
IsCounted (ok (o, n)) = n ≡ length o
IsCounted panic = Unit {0}
IsCounted fault = Unit {0}
IsCounted out_of_fuel = Unit {0}

abbrev IsCountedFirst : Run (Out × List Arg) → Type 0
IsCountedFirst (ok ((o, n), args)) = n ≡ length o
IsCountedFirst panic = Unit {0}
IsCountedFirst fault = Unit {0}
IsCountedFirst out_of_fuel = Unit {0}

print_str-IsCounted : (ctx : Context) (s : List ℕ) → IsCounted (ok (print_str ctx s))
unfolding print_str
print_str-IsCounted ctx s =
    let k = ctx.min_width - length s in
    omega (arith, length-append (replicate k ctx.pad) s, length-replicate k ctx.pad)

bind-IsCounted :
    {A : Type 0} (m : Run A) (k : A → Run Out) → ((a : A) → IsCounted (k a)) → IsCounted (m >>= k)
bind-IsCounted (ok a) k h = h a
bind-IsCounted panic k h = tt
bind-IsCounted fault k h = tt
bind-IsCounted out_of_fuel k h = tt

print_digits-IsCounted :
    (ctx : Context) (neg : Bool) (n base : ℕ) (table : List ℕ)
    → IsCounted (print_digits ctx neg n base table)
unfolding print_digits
print_digits-IsCounted ctx neg n base table =
    bind-IsCounted (number_chars neg n base table) (λ s. ok (print_str ctx s))
      (print_str-IsCounted ctx)

pair-IsCounted :
    (m : Run Out) (args : List Arg) → IsCounted m → IsCountedFirst (m >>= λ o. ok (o, args))
pair-IsCounted (ok (o, n)) args h = h
pair-IsCounted panic args h = tt
pair-IsCounted fault args h = tt
pair-IsCounted out_of_fuel args h = tt

if-IsCounted :
    (b : Bool) (m k : Run Out) → IsCounted m → IsCounted k → IsCounted (if b then m else k)
if-IsCounted true m k h g = h
if-IsCounted false m k h g = g

if-IsCountedFirst :
    (b : Bool) (m k : Run (Out × List Arg))
    → IsCountedFirst m
    → IsCountedFirst k
    → IsCountedFirst (if b then m else k)
if-IsCountedFirst true m k h g = h
if-IsCountedFirst false m k h g = g

print_number-IsCounted : (ctx : Context) (n base : ℕ) → IsCounted (print_number ctx n base)
unfolding print_number
print_number-IsCounted ctx n base =
    if-IsCounted (leb (2 ^ 31) n) _ _
      (print_digits-IsCounted ctx true ((2 ^ 32 - n) % 2 ^ 32) base number_table)
      (print_digits-IsCounted ctx false n base number_table)

-- The loop that pads a character does not end if the width is more than one, and pads nothing
-- otherwise.
pad_char_forever : (f : ℕ) (ctx : Context) → 1 < ctx.min_width → pad_char f ctx ≡ out_of_fuel
unfolding pad_char
pad_char_forever zero ctx h = refl
pad_char_forever (suc f) ctx h =
    let wide : ltb 1 ctx.min_width ≡ true = ground (arith, h) in rw (wide, pad_char_forever f ctx h)

-- `%c`, and the character of an unknown directive: with a width above one no number of rounds is
-- enough, and otherwise the character is printed alone and counted as one.
pub print_char_lem :
    (f : ℕ) (ctx : Context) (c : ℕ)
    → print_char (suc f) ctx c ≡ (if ltb 1 ctx.min_width then out_of_fuel else ok (c ∷ [], 1))
unfolding print_char pad_char
print_char_lem f ctx c = elim (dec_lt 1 ctx.min_width) [
  | yes h ↦
      let wide : ltb 1 ctx.min_width ≡ true = ground (arith, h) in
      rw (wide, pad_char_forever f ctx h)
  | no h ↦ let narrow : ltb 1 ctx.min_width ≡ false = ground (arith, h) in rw narrow
]

print_char-IsCounted : (f : ℕ) (ctx : Context) (c : ℕ) → IsCounted (print_char f ctx c)
print_char-IsCounted zero ctx c = unfold print_char in unfold pad_char in tt
print_char-IsCounted (suc f) ctx c =
    rw (print_char_lem f ctx c) (if-IsCounted (ltb 1 ctx.min_width) out_of_fuel _ tt refl)

emit-IsCounted : (o : Out) (m : Run Out) → o.1 ≡ length o.0 → IsCounted m → IsCounted (emit o m)
emit-IsCounted (o, n) (ok (p, k)) e h = omega (arith, e, h, length-append o p)
emit-IsCounted o panic e h = tt
emit-IsCounted o fault e h = tt
emit-IsCounted o out_of_fuel e h = tt

then-IsCounted :
    (m : Run (Out × List Arg)) (k : List Arg → Run Out)
    → IsCountedFirst m
    → ((args : List Arg) → IsCounted (k args))
    → IsCounted (m >>= λ (o, args). emit o (k args))
then-IsCounted (ok (o, args)) k h g = emit-IsCounted o (k args) h (g args)
then-IsCounted panic k h g = tt
then-IsCounted fault k h g = tt
then-IsCounted out_of_fuel k h g = tt

char-IsCounted :
    (m : Run Out) (k : Run Out) → IsCounted m → IsCounted k → IsCounted (m >>= λ o. emit o k)
char-IsCounted (ok o) k h g = emit-IsCounted o k h g
char-IsCounted panic k h g = tt
char-IsCounted fault k h g = tt
char-IsCounted out_of_fuel k h g = tt

with_number-IsCountedFirst :
    (args : List Arg) (k : ℕ → Run Out)
    → ((n : ℕ) → IsCounted (k n))
    → IsCountedFirst (with_number args k)
unfolding with_number
with_number-IsCountedFirst [] k h = tt
with_number-IsCountedFirst (text s ∷ args) k h = tt
with_number-IsCountedFirst (number n ∷ args) k h = pair-IsCounted (k n) args (h n)

with_text-IsCountedFirst :
    (args : List Arg) (k : List ℕ → Run Out)
    → ((s : List ℕ) → IsCounted (k s))
    → IsCountedFirst (with_text args k)
unfolding with_text
with_text-IsCountedFirst [] k h = tt
with_text-IsCountedFirst (number n ∷ args) k h = tt
with_text-IsCountedFirst (text s ∷ args) k h = pair-IsCounted (k s) args (h s)

prefix-IsCounted :
    (m : Run Out) → IsCounted m → IsCounted (m >>= λ (o, n). ok (b'0' ∷ b'x' ∷ o, 2 + n))
prefix-IsCounted (ok (o, n)) h = omega (arith, h)
prefix-IsCounted panic h = tt
prefix-IsCounted fault h = tt
prefix-IsCounted out_of_fuel h = tt

print_pointer-IsCounted : (ctx : Context) (n : ℕ) → IsCounted (print_pointer ctx n)
unfolding print_pointer
print_pointer-IsCounted ctx n =
    prefix-IsCounted (print_unsigned (record { pad = b'0'; min_width = 8 }) n 16)
      (print_digits-IsCounted (record { pad = b'0'; min_width = 8 }) false n 16 number_table)

convert-IsCountedFirst :
    (f : ℕ) (ctx : Context) (c : ℕ) (args : List Arg) → IsCountedFirst (convert f ctx c args)
unfolding convert
convert-IsCountedFirst f ctx c args =
    let decimal =
      with_number-IsCountedFirst args (λ n. print_number ctx n 10)
        (λ n. print_number-IsCounted ctx n 10) in
    let unsigned = λ (base : ℕ) (table : List ℕ).
      with_number-IsCountedFirst args (λ n. print_digits ctx false n base table)
        (λ n. print_digits-IsCounted ctx false n base table) in
    if-IsCountedFirst (c == b'i') _ _ decimal (
      if-IsCountedFirst (c == b'd') _ _ decimal (
        if-IsCountedFirst (c == b'X') _ _ (unsigned 16 number_table_upper) (
          if-IsCountedFirst (c == b'p') _ _
            (with_number-IsCountedFirst args (print_pointer ctx) (print_pointer-IsCounted ctx))
            (if-IsCountedFirst (c == b'x') _ _ (unsigned 16 number_table) (
              if-IsCountedFirst (c == b'u') _ _ (unsigned 10 number_table) (
                if-IsCountedFirst (c == b'o') _ _ (unsigned 8 number_table) (
                  if-IsCountedFirst (c == b's') _ _
                    (with_text-IsCountedFirst args (λ s. ok (print_str ctx s))
                      (print_str-IsCounted ctx))
                    (if-IsCountedFirst (c == b'c') _ _
                      (with_number-IsCountedFirst args (λ n. print_char f ctx (n % 256))
                        (λ n. print_char-IsCounted f ctx (n % 256)))
                      (pair-IsCounted (print_char f ctx c) args
                        (print_char-IsCounted f ctx c))))))))))

-- The four functions over the format, at one rest of it.
IsCountedFrom : ℕ → List ℕ → Type 0
IsCountedFrom f s =
    ((args : List Arg) → IsCounted (printf f s args))
    × ((ctx : Context) (args : List Arg) → IsCounted (directive f ctx s args))
    × ((ctx : Context) (args : List Arg) → IsCounted (zero_flag f ctx s args))
    × ((ctx : Context) (args : List Arg) → IsCounted (width f ctx s args))

module _ (f c : ℕ) (s : List ℕ) (next : IsCountedFrom f s) where
  convert-IsCounted :
      (ctx : Context) (args : List Arg)
      → IsCounted (convert f ctx c args >>= λ (o, args'). emit o (printf f s args'))
  unfolding IsCountedFrom
  convert-IsCounted ctx args =
      then-IsCounted (convert f ctx c args) (printf f s) (convert-IsCountedFirst f ctx c args)
        next.0

  step-IsCountedFrom : IsCountedFrom f (c ∷ s)
  unfolding IsCountedFrom printf
  step-IsCountedFrom = (
    λ args.
        if-IsCounted (c == b'%') _ _ (next.1 (record { pad = b' '; min_width = 0 }) args)
          (emit-IsCounted (c ∷ [], 1) (printf f s args) refl (next.0 args)),
    λ ctx args. if-IsCounted (c == b'l') _ _ (next.1 ctx args) (
        if-IsCounted (c == b'0') _ _ (next.2 (record ctx { pad = b'0' }) args)
          (if-IsCounted (isdigit c) _ _ (next.3 (widen ctx c) args) (convert-IsCounted ctx args))),
    λ ctx args. if-IsCounted (isdigit c) _ _ (next.3 (widen ctx c) args) (
        char-IsCounted (print_char f ctx c) (printf f s args) (print_char-IsCounted f ctx c)
          (next.0 args)),
    λ ctx args.
        if-IsCounted (isdigit c) _ _ (next.3 (widen ctx c) args)
          (if-IsCounted (c == b'l') _ _ (next.1 ctx args) (convert-IsCounted ctx args)),
  )

all-IsCountedFrom : (f : ℕ) (s : List ℕ) → IsCountedFrom f s
unfolding IsCountedFrom printf
all-IsCountedFrom f [] = (λ args. refl, λ ctx args. refl, λ ctx args. refl, λ ctx args. refl)
all-IsCountedFrom f (c ∷ s) = step-IsCountedFrom f c s (all-IsCountedFrom f s)

-- The count that `printf` returns, if it returns, is the number of the characters that it sent.
printf-IsCounted : (f : ℕ) (s : List ℕ) (args : List Arg) → IsCounted (printf f s args)
unfolding IsCountedFrom
printf-IsCounted f s args = (all-IsCountedFrom f s).0 args
