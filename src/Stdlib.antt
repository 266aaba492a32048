-- ===== src/Stdlib.antt =====
-- Numbers from text: lib/stdlib.c. A string is the list of its bytes before the NUL, and a NULL
-- pointer is `none`. An `unsigned long` has 32 bits, and a `long` is its bit pattern.
pub mod Digits
pub mod Whole
use turnix.Base.{
  ℕ, zero, suc, ◌+◌, ◌-◌, ◌*◌, ◌/◌, ◌%◌, ◌^◌, Bool, true, false, not, ◌&&◌, ◌||◌, Option, none,
  some, List, [], ◌∷◌, ◌==◌, ltb, leb, if◌then◌else◌,
}
use turnix.Ctype.{isspace, isdigit, isalpha, tolower}

-- `ULONG_MAX`, `LONG_MAX`, and the errors
abbrev pub ulong_max : ℕ
ulong_max = 2 ^ 32 - 1

abbrev pub long_max : ℕ
long_max = 2 ^ 31 - 1

-- `*s`
abbrev pub head : List ℕ → ℕ
head [] = 0
head (c ∷ s) = c

-- `s + 1`, which the code takes only of a string that is not at its end
abbrev pub tail : List ℕ → List ℕ
tail [] = []
tail (c ∷ s) = s

unfoldable pub skip_space : List ℕ → List ℕ
skip_space [] = []
skip_space (c ∷ s) = let rest = skip_space s in if isspace c then rest else c ∷ s

-- The value of a digit, or none for a byte that is neither a digit nor a letter.
unfoldable pub digit : ℕ → Option ℕ
digit c =
    if isdigit c
    then some (c - b'0')
    else (if isalpha c then some (tolower c - (b'a' - 10)) else none)

-- What the loop over the digits leaves: `val`, the overflow flag, `parsed` and `nptr`.
pub record Scan : Type 0 where
  pub val : ℕ
  pub overflow : Bool
  pub parsed : Bool
  pub rest : List ℕ

unfoldable pub scan : ℕ → Scan → List ℕ → Scan
scan base r [] = record r { rest = [] }
scan base r (c ∷ s) = elim (digit c) [
  | none ↦ record r { rest = c ∷ s }
  | some d ↦
      let next =
        scan base
          (record r {
            val = (r.val * base + d) % 2 ^ 32;
            overflow = ltb ((ulong_max - d) / base) r.val || r.overflow;
            parsed = true;
          })
          s in
      if leb base d then record r { rest = c ∷ s } else next
]

-- `*nptr == '0'` and an `x` after it
abbrev pub has_prefix : List ℕ → Bool
has_prefix s = (head s == b'0') && (tolower (head (tail s)) == b'x')

unfoldable pub detect_base : ℕ → List ℕ → ℕ
detect_base base s =
    if base == 0 then (if head s == b'0' then (if has_prefix s then 16 else 8) else 10) else base

abbrev pub skip_prefix : ℕ → List ℕ → List ℕ
skip_prefix base s = if (base == 16) && has_prefix s then tail (tail s) else s

-- A number that was found, or none for `__STRTOUL_F_INV`.
pub record Number : Type 0 where
  pub value : ℕ
  pub neg : Bool
  pub overflow : Bool
  pub end : List ℕ

-- The part after the sign.
unfoldable pub unsigned_part : ℕ → Bool → List ℕ → Option Number
unsigned_part base neg s =
    let b = detect_base base s in
    let r =
      scan b (record { val = 0; overflow = false; parsed = false; rest = [] }) (skip_prefix b s) in
    if r.parsed
    then some (record { value = r.val; neg = neg; overflow = r.overflow; end = r.rest })
    else none

unfoldable pub signed_part : ℕ → List ℕ → Option Number
signed_part base [] = none
signed_part base (c ∷ s) =
    if c == b'-'
    then unsigned_part base true s
    else (if c == b'+' then unsigned_part base false s else unsigned_part base false (c ∷ s))

-- `__strtoul`
unfoldable pub parse : Option (List ℕ) → ℕ → Option Number
parse none base = none
parse (some s) base =
    if (ltb base 2 && not (base == 0)) || ltb 36 base then none else signed_part base (skip_space s)

-- The result, `*endptr`, and the value that `errno` takes, if it takes one.
pub record Result : Type 0 where
  pub result : ℕ
  pub endptr : Option (List ℕ)
  pub error : Option ℕ

abbrev pub einval : ℕ
einval = 2

abbrev pub erange : ℕ
erange = 4

-- `-v` on 32 bits
abbrev pub negate : ℕ → ℕ
negate v = (2 ^ 32 - v) % 2 ^ 32

unfoldable pub strtoul : Option (List ℕ) → ℕ → Result
strtoul nptr base = elim (parse nptr base) [
  | none ↦ record { result = 0; endptr = nptr; error = some einval }
  | some n ↦
      if n.overflow
      then record { result = ulong_max; endptr = some n.end; error = some erange }
      else record {
        result = if n.neg then negate n.value else n.value;
        endptr = some n.end;
        error = none;
      }
]

-- `strtol`: the largest and the least `long` stand for a number out of range.
unfoldable pub strtol : Option (List ℕ) → ℕ → Result
strtol nptr base = elim (parse nptr base) [
  | none ↦ record { result = 0; endptr = nptr; error = some einval }
  | some n ↦
      if n.overflow || ltb (if n.neg then long_max + 1 else long_max) n.value
      then record {
        result = if n.neg then 2 ^ 31 else long_max;
        endptr = some n.end;
        error = some erange;
      }
      else record {
        result = if n.neg then negate n.value else n.value;
        endptr = some n.end;
        error = none;
      }
]
