-- ===== src/Stdio/Numerals.antt =====
-- The digits that `__print_number` makes write the number.
use native.Mathlib.Nat.{div-lt_iff_lt-mul, pow-zero, pow-succ'}
use turnix.Base.{
  all_below, all_below_sound, ℕ, zero, suc, ◌+◌, ◌*◌, ◌/◌, ◌%◌, ◌^◌, ◌≡◌, ◌≢◌, ◌≤◌, ◌<◌, refl, sym,
  ap, ◌∙◌, Bool, true, false, Option, none, some, List, [], ◌∷◌, arith, ◌==◌, ==_iff, if◌then◌else◌,
  ℕ_discrete, length, get_or,
}
use turnix.Kernel.{Run, ok, panic, fault, out_of_fuel, ◌>>=◌}
use turnix.Stdlib.{digit}
use turnix.Stdlib.Digits.{numeral, numeral_nil, numeral_more}
use turnix.Stdio.{number_table, push_digits, number_chars}

bind_ok : (m : Run (List ℕ)) → (m >>= λ s. ok s) ≡ m
bind_ok (ok s) = refl
bind_ok panic = refl
bind_ok fault = refl
bind_ok out_of_fuel = refl

-- The character of a digit, and whether its value is that digit.
abbrev pub char : ℕ → ℕ
char d = get_or number_table d 0

abbrev is_some_at : ℕ → Option ℕ → Bool
is_some_at d none = false
is_some_at d (some x) = x == d

is_some_at_sound : (d : ℕ) (o : Option ℕ) → is_some_at d o ≡ true → o ≡ some d
is_some_at_sound d none h = absurd (cc h)
is_some_at_sound d (some x) h = ap some ((==_iff x d).0 h)

digit_table : all_below 16 (λ d. is_some_at d (digit (char d))) ≡ true
unfolding digit
digit_table = refl

pub digit-char : (d : ℕ) → d < 16 → digit (char d) ≡ some d
digit-char d h =
    is_some_at_sound d (digit (char d))
      (all_below_sound 16 (λ (x : ℕ). is_some_at x (digit (char x))) d digit_table h)

-- All are characters of digits of the base.
abbrev pub AreDigits : ℕ → List ℕ → Type 0
AreDigits base [] = Unit {0}
AreDigits base (c ∷ s) = ((d : ℕ) × (d < base) × (c ≡ char d)) × AreDigits base s

module _ (base : ℕ) (two : 2 ≤ base) (h : base ≤ 16) where
  div_falls : (n m : ℕ) → n < m * base → n / base < m
  div_falls n m p = (div-lt_iff_lt-mul {k = base} {x = n} {y = m} (omega arith)).1 p

  halve : (n f : ℕ) → n < 2 ^ suc (suc f) → n / base < 2 ^ suc f
  halve n f p =
      let twice : 2 ^ suc f * 2 ≤ 2 ^ suc f * base = grind arith in
      div_falls n (2 ^ suc f) (omega (arith, pow-succ' 2 (suc f), twice))

  shorter : (n k : ℕ) → n < base ^ suc (suc k) → n / base < base ^ suc k
  shorter n k p = div_falls n (base ^ suc k) (omega (arith, pow-succ' base (suc k)))

  pow_one : base ^ 1 ≡ base
  pow_one = omega (arith, pow-succ' base 0, ap (λ (q : ℕ). q * base) (pow-zero base))

  small : (n : ℕ) → n < base → n / base ≡ 0
  small n p = grind arith

  mod_small : (n : ℕ) → n % base < base
  mod_small n = grind arith

  div_mod : (n : ℕ) → n / base * base + n % base ≡ n
  div_mod n = grind arith

  push_done :
      (f n : ℕ) (s : List ℕ)
      → n / base ≡ 0
      → push_digits (suc f) n base number_table s ≡ ok (char (n % base) ∷ s)
  unfolding push_digits
  push_done f n s e = rw e

  push_more :
      (f n : ℕ) (s : List ℕ)
      → n / base ≢ 0
      → push_digits (suc f) n base number_table s
        ≡ push_digits f (n / base) base number_table (char (n % base) ∷ s)
  unfolding push_digits
  push_more f n s e = ground (arith, e)

  numeral-char :
      (v d : ℕ) (s : List ℕ)
      → d < base
      → numeral base v (char d ∷ s) ≡ numeral base (v * base + d) s
  numeral-char v d s p = numeral_more base v (char d) s d (digit-char d (omega arith)) p

  -- What the digits of `n` before `s` have in common: they write the number, they are no more than
  -- its size asks for, and there is at least one.
  record AreDigitsOf (n : ℕ) (s r : List ℕ) : Type 0 where
    writes : numeral base 0 r ≡ numeral base n s
    digits : AreDigits base s → AreDigits base r
    short : (k : ℕ) → n < base ^ suc k → length r ≤ suc k + length s
    some_digit : 0 < length r

  last_digit : (n : ℕ) (s : List ℕ) → n / base ≡ 0 → AreDigitsOf n s (char (n % base) ∷ s)
  last_digit n s e = record {
    writes =
        let same : 0 * base + n % base ≡ n = omega (arith, div_mod n, ap (λ (q : ℕ). q * base) e) in
        numeral-char 0 (n % base) s (mod_small n) ∙ ap (λ (v : ℕ). numeral base v s) same;
    digits = λ a. ((n % base, mod_small n, refl), a);
    short = λ k p. omega arith;
    some_digit = omega arith;
  }

  next_short :
      (n : ℕ) (s r : List ℕ)
      → n / base ≢ 0
      → ((k : ℕ) → n / base < base ^ suc k → length r ≤ suc k + length (char (n % base) ∷ s))
      → (k : ℕ) → n < base ^ suc k
      → length r ≤ suc k + length s
  next_short n s r ne short zero p = absurd (ne (small n (omega (arith, pow_one, p))))
  next_short n s r ne short (suc k) p = omega (arith, short k (shorter n k p))

  next_digit :
      (n : ℕ) (s r : List ℕ)
      → n / base ≢ 0
      → AreDigitsOf (n / base) (char (n % base) ∷ s) r
      → AreDigitsOf n s r
  next_digit n s r ne o = record {
    writes =
        o.writes
        ∙ numeral-char (n / base) (n % base) s (mod_small n)
        ∙ ap (λ (v : ℕ). numeral base v s) (div_mod n);
    digits = λ a. o.digits ((n % base, mod_small n, refl), a);
    short = λ k p. next_short n s r ne o.short k p;
    some_digit = o.some_digit;
  }

  push_digits-AreDigitsOf :
      (f n : ℕ) (s : List ℕ)
      → n < 2 ^ suc f
      → (r : List ℕ) × (push_digits (suc f) n base number_table s ≡ ok r) × AreDigitsOf n s r
  push_digits-AreDigitsOf zero n s p =
      let done = small n (omega (arith, p)) in
      (char (n % base) ∷ s, push_done zero n s done, last_digit n s done)
  push_digits-AreDigitsOf (suc f) n s p = elim (ℕ_discrete (n / base) 0) [
    | yes e ↦ (char (n % base) ∷ s, push_done (suc f) n s e, last_digit n s e)
    | no ne ↦
        let (r, ran, o) =
          push_digits-AreDigitsOf f (n / base) (char (n % base) ∷ s) (halve n f p) in
        (r, push_more (suc f) n s ne ∙ ran, next_digit n s r ne o)
  ]

  number_zero : number_chars false 0 base number_table ≡ ok (char 0 ∷ [])
  unfolding number_chars
  number_zero = refl

  number_more :
      (n : ℕ)
      → n ≢ 0
      → number_chars false n base number_table ≡ push_digits 32 n base number_table []
  unfolding number_chars
  number_more n ne = let other : (n == 0) ≡ false = ground (arith, ne) in rw other (bind_ok _)

  -- `__print_number` in a base from 2 to 16 makes the digits of the number: they write it, and there
  -- are at most `k` of them if it is below the `k`th power of the base.
  pub number_chars-numeral :
      (n : ℕ)
      → n < 2 ^ 32
      → (r : List ℕ) × (number_chars false n base number_table ≡ ok r)
        × (numeral base 0 r ≡ n)
        × AreDigits base r
        × (0 < length r)
        × ((k : ℕ) → n < base ^ suc k → length r ≤ suc k)
  number_chars-numeral n p = elim (ℕ_discrete n 0) [
    | yes e ↦ (
      char 0 ∷ [],
      ap (λ (m : ℕ). number_chars false m base number_table) e ∙ number_zero,
      numeral-char 0 0 [] (omega arith) ∙ numeral_nil base (0 * base + 0) ∙ omega (arith, e),
      ((0, omega arith, refl), tt),
      omega arith,
      λ k q. omega arith,
    )
    | no ne ↦
        let (r, ran, o) = push_digits-AreDigitsOf 31 n [] p in
        (
          r,
          number_more n ne ∙ ran,
          o.writes ∙ numeral_nil base n,
          o.digits tt,
          o.some_digit,
          λ k q. omega (arith, o.short k q),
        )
  ]

-- The bases that `printf` prints in, and where a minus sign may come before.
data IsForm : Bool → ℕ → Type 0 where
  octal : IsForm false 8
  decimal : (neg : Bool) → IsForm neg 10
  hexadecimal : IsForm false 16

signed :
    (neg : Bool) (n base : ℕ) (r : List ℕ)
    → number_chars false n base number_table ≡ ok r
    → number_chars neg n base number_table ≡ ok (if neg then b'-' ∷ r else r)
unfolding number_chars
signed false n base r e = e
signed true n base r e =
    let m = if n == 0 then ok (b'0' ∷ []) else push_digits 32 n base number_table [] in
    ap (λ (q : Run (List ℕ)). q >>= λ s. ok (b'-' ∷ s)) (sym (bind_ok m) ∙ e)

-- The text that `__print_number` makes for `printf`, the sign included, and the NUL fit in its buffer
-- of 12 bytes, and the digits write the number.
number_chars_fits :
    (neg : Bool) (base n : ℕ)
    → IsForm neg base
    → n < 2 ^ 32
    → (r : List ℕ) × (number_chars neg n base number_table ≡ ok (if neg then b'-' ∷ r else r))
      × (numeral base 0 r ≡ n)
      × (length (if neg then b'-' ∷ r else r) + 1 ≤ 12)
number_chars_fits neg base n octal p =
    let (r, ran, writes, a, some_digit, short) =
      number_chars-numeral 8 (omega arith) (omega arith) n p in
    (r, ran, writes, omega (arith, short 10 (omega arith)))
number_chars_fits neg base n (decimal sign) p =
    let (r, ran, writes, a, some_digit, short) =
      number_chars-numeral 10 (omega arith) (omega arith) n p in
    (r, signed neg n 10 r ran, writes, ground (arith, short 9 (omega arith)))
number_chars_fits neg base n hexadecimal p =
    let (r, ran, writes, a, some_digit, short) =
      number_chars-numeral 16 (omega arith) (omega arith) n p in
    (r, ran, writes, omega (arith, short 7 (omega arith)))
