-- ===== src/Stdio/Printed.antt =====
-- What `printf` prints for a number is what `strtoul` reads.
use Prim.Native.Nat.{max}
use turnix.Base.{
  all_below, all_below_sound, ℕ, zero, suc, ◌-◌, ◌^◌, ◌≡◌, ◌≤◌, ◌<◌, ◌⊎◌, inl, inr, refl, sym, ap,
  subst, ◌∙◌, Bool, true, false, not, ◌&&◌, ◌||◌, none, some, List, [], ◌∷◌, ◌++◌, append-nil,
  arith, ◌==◌, ltb, Bool-cases, length, replicate, length-replicate, length-append,
}
use turnix.Kernel.{ok}
use turnix.Ctype.{isspace, tolower}
use turnix.Stdlib.{
  skip_space, digit, Scan, scan, detect_base, skip_prefix, Number, unsigned_part, signed_part,
  parse, strtoul,
}
use turnix.Stdlib.Digits.{numeral, numeral_more, taken, scan_more, scan-IsScanned}
use turnix.Stdio.{
  printf, convert, with_number, number, Context, print_str, print_digits, print_unsigned,
}
use turnix.Stdio.Numerals.{char, digit-char, AreDigits, number_chars-numeral}

-- Neither a space, nor a sign, nor the letter of the prefix.
abbrev is_plain : ℕ → Bool
is_plain c = not (isspace c) && not (c == b'-') && not (c == b'+') && not (tolower c == b'x')

plain_table : all_below 16 (λ d. is_plain (char d)) ≡ true
plain_table = refl

is_plain-char : (d : ℕ) → d < 16 → is_plain (char d) ≡ true
is_plain-char d h = all_below_sound 16 (λ (x : ℕ). is_plain (char x)) d plain_table h

all_false :
    (a b c d : Bool)
    → (not a && not b && not c && not d) ≡ true
    → (a ≡ false) × (b ≡ false) × (c ≡ false) × (d ≡ false)
all_false a b c d h = (ground (arith, h), ground (arith, h), ground (arith, h), ground (arith, h))

plain_parts :
    (c : ℕ)
    → is_plain c ≡ true
    → (isspace c ≡ false)
      × ((c == b'-') ≡ false)
      × ((c == b'+') ≡ false)
      × ((tolower c == b'x') ≡ false)
plain_parts c h = all_false (isspace c) (c == b'-') (c == b'+') (tolower c == b'x') h

module _ (base : ℕ) (two : 2 ≤ base) (h : base ≤ 16) where
  plain_head : (c : ℕ) (s : List ℕ) → AreDigits base (c ∷ s) → is_plain c ≡ true
  plain_head c s ((d, lt, e), a) = ap is_plain e ∙ is_plain-char d (omega arith)

  -- Zeros before a number are digits, and change nothing.
  AreDigits-replicate :
      (k : ℕ) (s : List ℕ) → AreDigits base s → AreDigits base (replicate k b'0' ++ s)
  AreDigits-replicate zero s a = a
  AreDigits-replicate (suc k) s a = ((0, omega arith, refl), AreDigits-replicate k s a)

  numeral-replicate :
      (k : ℕ) (s : List ℕ) → numeral base 0 (replicate k b'0' ++ s) ≡ numeral base 0 s
  numeral-replicate zero s = refl
  numeral-replicate (suc k) s =
      numeral_more base 0 b'0' (replicate k b'0' ++ s) 0 (digit-char 0 (omega arith)) (omega arith)
      ∙ ap (λ (v : ℕ). numeral base v (replicate k b'0' ++ s)) (omega arith)
      ∙ numeral-replicate k s

  -- The loop of `__strtoul` reads digits to their end.
  scan-AreDigits :
      (r : Scan) (s : List ℕ)
      → AreDigits base s
      → (r.parsed ≡ true) ⊎ (0 < length s)
      → ((scan base r s).rest ≡ []) × ((scan base r s).parsed ≡ true)
  scan-AreDigits r [] a (inl e) = unfold scan in (refl, e)
  scan-AreDigits r [] a (inr p) = absurd (omega arith)
  scan-AreDigits r (c ∷ s) ((d, lt, e), a) p =
      let more = scan_more base r c s d (ap digit e ∙ digit-char d (omega arith)) lt in
      let (left, found) = scan-AreDigits (taken base r c s d) s a (inl refl) in
      (ap (λ (q : Scan). q.rest) more ∙ left, ap (λ (q : Scan). q.parsed) more ∙ found)

  skip_prefix-AreDigits : (s : List ℕ) → AreDigits base s → skip_prefix base s ≡ s
  skip_prefix-AreDigits [] a = ground arith
  skip_prefix-AreDigits (c ∷ []) a = ground arith
  skip_prefix-AreDigits (c ∷ c' ∷ s) (_, a) =
      let letter : (tolower c' == b'x') ≡ false = (plain_parts c' (plain_head c' s a)).3 in
      rw letter (ground arith)

  -- What `strtoul` finds in a text of digits.
  abbrev found : List ℕ → Number
  found s = record { value = numeral base 0 s; neg = false; overflow = false; end = [] }

  detect_base_set : (s : List ℕ) → detect_base base s ≡ base
  unfolding detect_base
  detect_base_set s = ground arith

  unsigned_part-AreDigits :
      (s : List ℕ)
      → AreDigits base s
      → 0 < length s
      → numeral base 0 s < 2 ^ 32
      → unsigned_part base false s ≡ some (found s)
  unfolding unsigned_part
  unsigned_part-AreDigits s a some_digit fits =
      let start : Scan = record { val = 0; overflow = false; parsed = false; rest = [] } in
      let r = scan base start s in
      let (left, parsed) = scan-AreDigits start s a (inr some_digit) in
      let ends = scan-IsScanned base start s (omega arith) (omega arith) (omega arith) refl in
      let clear : r.overflow ≡ false = elim (Bool-cases r.overflow) [
        | inl set ↦ absurd (omega (arith, ends.large set))
        | inr clear ↦ clear
      ] in
      let val : r.val ≡ numeral base 0 s = (ends.exact clear).0 in
      rw (detect_base_set s, skip_prefix-AreDigits s a, left, parsed, clear, val)

  skip_space_not : (c : ℕ) (s : List ℕ) → isspace c ≡ false → skip_space (c ∷ s) ≡ c ∷ s
  unfolding skip_space
  skip_space_not c s e = rw e

  unsigned :
      (c : ℕ) (s : List ℕ)
      → (c == b'-') ≡ false
      → (c == b'+') ≡ false
      → signed_part base (c ∷ s) ≡ unsigned_part base false (c ∷ s)
  unfolding signed_part
  unsigned c s minus plus = rw (minus, plus)

  parse-AreDigits :
      (s : List ℕ)
      → AreDigits base s
      → 0 < length s
      → numeral base 0 s < 2 ^ 32
      → parse (some s) base ≡ some (found s)
  unfolding parse
  parse-AreDigits [] a some_digit fits = absurd (omega arith)
  parse-AreDigits (c ∷ s) a some_digit fits =
      let (space, minus, plus, letter) = plain_parts c (plain_head c s a) in
      let range : ((ltb base 2 && not (base == 0)) || ltb 36 base) ≡ false = ground arith in
      rw range (
        ap (signed_part base) (skip_space_not c s space)
        ∙ unsigned c s minus plus
        ∙ unsigned_part-AreDigits (c ∷ s) a some_digit fits)

  strtoul-AreDigits :
      (s : List ℕ)
      → AreDigits base s
      → 0 < length s
      → numeral base 0 s < 2 ^ 32
      → strtoul (some s) base ≡ record { result = numeral base 0 s; endptr = some []; error = none }
  unfolding strtoul
  strtoul-AreDigits s a some_digit fits = rw (parse-AreDigits s a some_digit fits, strtoul)

  padded-AreDigits :
      (ctx : Context) (s : List ℕ)
      → ctx.pad ≡ b'0'
      → AreDigits base s
      → let o = print_str ctx s in
        AreDigits base o.0
        × (numeral base 0 o.0 ≡ numeral base 0 s)
        × (o.1 ≡ length o.0)
        × (o.1 ≡ max (length s) ctx.min_width)
  unfolding print_str
  padded-AreDigits ctx s pad a =
      let k = ctx.min_width - length s in
      let zeros : replicate k ctx.pad ++ s ≡ replicate k b'0' ++ s = rw pad in
      (
        subst (AreDigits base) (sym zeros) (AreDigits-replicate k s a),
        ap (numeral base 0) zeros ∙ numeral-replicate k s,
        omega (arith, length-append (replicate k ctx.pad) s, length-replicate k ctx.pad),
        omega arith,
      )

  -- The output, its width and length, and what `strtoul` makes of it.
  print_unsigned_reads :
      (ctx : Context) (n : ℕ)
      → ctx.pad ≡ b'0'
      → n < 2 ^ 32
      → (s : List ℕ) × (print_unsigned ctx n base ≡ ok (s, length s))
        × (ctx.min_width ≤ length s)
        × (strtoul (some s) base ≡ record { result = n; endptr = some []; error = none })
        × ((k : ℕ) → n < base ^ suc k → length s ≤ max (suc k) ctx.min_width)
  unfolding print_digits
  print_unsigned_reads ctx n pad fits =
      let (s, made, writes, a, some_digit, short) = number_chars-numeral base two h n fits in
      let (o, m) = print_str ctx s in
      let (padded, same, count, wide) = padded-AreDigits ctx s pad a in
      let value : numeral base 0 o ≡ n = same ∙ writes in
      let read =
        strtoul-AreDigits o padded (omega (arith, wide, count, some_digit))
          (omega (arith, value)) in
      (
        o,
        rw made (ap (λ (k : ℕ). ok (o, k)) count),
        omega (arith, wide, count),
        read ∙ rw value,
        λ k q. omega (arith, wide, count, short k q),
      )

  -- In a base from 2 to 16, with zeros for the padding, a word is printed as a text, the count is its
  -- length and at least the width asked for, and `strtoul` in this base reads the word from it, to
  -- the end of the text and without an error.
  print_unsigned-strtoul :
      (ctx : Context) (n : ℕ)
      → ctx.pad ≡ b'0'
      → n < 2 ^ 32
      → (s : List ℕ) × (print_unsigned ctx n base ≡ ok (s, length s))
        × (ctx.min_width ≤ length s)
        × (strtoul (some s) base ≡ record { result = n; endptr = some []; error = none })
  print_unsigned-strtoul ctx n pad fits =
      let (s, ran, wide, read, short) = print_unsigned_reads ctx n pad fits in (s, ran, wide, read)

-- Eight characters at most, where eight is the width.
pub print_unsigned_eight :
    (n : ℕ)
    → n < 2 ^ 32
    → (s : List ℕ) × (print_unsigned (record { pad = b'0'; min_width = 8 }) n 16 ≡ ok (s, 8))
      × (length s ≡ 8)
      × (strtoul (some s) 16 ≡ record { result = n; endptr = some []; error = none })
print_unsigned_eight n fits =
    let (s, ran, wide, read, short) =
      print_unsigned_reads 16 (omega arith) (omega arith) (record { pad = b'0'; min_width = 8 }) n
        refl fits in
    let eight : length s ≡ 8 = omega (arith, wide, short 7 (omega arith)) in
    (s, ran ∙ ap (λ (k : ℕ). ok (s, k)) eight, eight, read)

printf_eight :
    (f n : ℕ) (s : List ℕ)
    → print_unsigned (record { pad = b'0'; min_width = 8 }) n 16 ≡ ok (s, 8)
    → printf f (b'%' ∷ b'0' ∷ b'8' ∷ b'x' ∷ []) (number n ∷ []) ≡ ok (s, 8)
unfolding printf convert with_number
printf_eight f n s e = rw e (ap (λ (o : List ℕ). ok (o, 8)) (append-nil s))

-- `printf("%08x", n)` sends exactly eight characters and returns 8, and `strtoul` in base 16 reads the
-- word back from them, to the end of the text and without an error.
printf-strtoul :
    (f n : ℕ)
    → n < 2 ^ 32
    → (s : List ℕ) × (printf f (b'%' ∷ b'0' ∷ b'8' ∷ b'x' ∷ []) (number n ∷ []) ≡ ok (s, 8))
      × (length s ≡ 8)
      × (strtoul (some s) 16 ≡ record { result = n; endptr = some []; error = none })
printf-strtoul f n fits =
    let (s, ran, eight, read) = print_unsigned_eight n fits in
    (s, printf_eight f n s ran, eight, read)
