-- ===== src/Stdlib/Whole.antt =====
-- strtoul on a number, with its range.
use turnix.Base.{
  ℕ, ◌-◌, ◌%◌, ◌^◌, ◌≡◌, ◌≤◌, ◌<◌, inl, inr, refl, sym, ap, ◌∙◌, Bool, true, false, ◌||◌, ◌&&◌, not,
  Option, none, some, List, [], ◌∷◌, arith, ◌==◌, ltb, leb, if◌then◌else◌, Bool-cases, Option-cases,
  dec_lt,
}
use turnix.Ctype.{isspace}
use turnix.Stdlib.{
  Scan, scan, digit, ulong_max, has_prefix, detect_base, unsigned_part, signed_part, skip_space,
  parse, Number, strtoul, negate, erange,
}
use turnix.Stdlib.Digits.{numeral, taken, scan_end, scan_stop, scan_more, scan_saturates}

scan_parsed : (base : ℕ) (r : Scan) (s : List ℕ) → r.parsed ≡ true → (scan base r s).parsed ≡ true
scan_parsed base r [] e = unfold scan in e
scan_parsed base r (c ∷ s) e = elim (Option-cases (digit c)) [
  | inl f ↦ ap (λ (q : Scan). q.parsed) (scan_end base r c s f) ∙ e
  | inr (d, f) ↦ elim (dec_lt d base) [
    | yes lt ↦
        ap (λ (q : Scan). q.parsed) (scan_more base r c s d f lt)
        ∙ scan_parsed base (taken base r c s d) s refl
    | no ge ↦ ap (λ (q : Scan). q.parsed) (scan_stop base r c s d f (omega arith)) ∙ e
  ]
]

digit-plain :
    (c d : ℕ)
    → digit c ≡ some d
    → (isspace c ≡ false) × ((c == b'-') ≡ false) × ((c == b'+') ≡ false)
unfolding digit
digit-plain c d e = (ground (arith, e), ground (arith, e), ground (arith, e))

abbrev start : Scan
start = record { val = 0; overflow = false; parsed = false; rest = [] }

module _ (base c d : ℕ) (s : List ℕ) (low : 2 ≤ base) (high : base ≤ 36) (is : digit c ≡ some d)
    (of : d < base) (bare : has_prefix (c ∷ s) ≡ false) where
  number_part :
      (neg : Bool)
      → let r = scan base start (c ∷ s) in
        unsigned_part base neg (c ∷ s)
        ≡ some (record { value = r.val; neg = neg; overflow = r.overflow; end = r.rest })
  unfolding unsigned_part detect_base
  number_part neg =
      let given : (base == 0) ≡ false = ground (arith, low) in
      let got : (scan base start (c ∷ s)).parsed ≡ true =
        ap (λ (q : Scan). q.parsed) (scan_more base start c s d is of)
        ∙ scan_parsed base (taken base start c s d) s refl in
      ground (arith, given, bare, got)

  abbrev n : ℕ
  n = numeral base 0 (c ∷ s)

  abbrev found : Bool → Number
  found neg =
      let r = scan base start (c ∷ s) in
      record { value = r.val; neg = neg; overflow = r.overflow; end = r.rest }

  of_parse :
      (x : Option (List ℕ)) (neg : Bool)
      → parse x base ≡ some (found neg)
      → ((strtoul x base).result
          ≡ (if leb (2 ^ 32) n then ulong_max else if neg then negate n else n))
        × ((strtoul x base).error ≡ (if leb (2 ^ 32) n then some erange else none))
  unfolding strtoul
  of_parse x neg e =
      let (flag, value) =
        scan_saturates base start (c ∷ s) (omega (arith, low)) high (omega arith) refl in
      elim (Bool-cases (scan base start (c ∷ s)).overflow) [
        | inl set ↦
            let large : leb (2 ^ 32) n ≡ true = sym flag ∙ set in
            rw (e, strtoul) (rw (set, large) (refl, refl))
        | inr clear ↦
            let small : leb (2 ^ 32) n ≡ false = sym flag ∙ clear in
            let same : (scan base start (c ∷ s)).val ≡ n = ground (arith, value, clear, small) in
            rw (e, strtoul) (rw (clear, small, same) (refl, refl))
      ]

  parse_plain : parse (some (c ∷ s)) base ≡ some (found false)
  unfolding parse signed_part skip_space
  parse_plain =
      let (visible, minus, plus) = digit-plain c d is in
      let in_range : ((ltb base 2 && not (base == 0)) || ltb 36 base) ≡ false =
        ground (arith, low, high) in
      rw (in_range, visible, minus, plus) (number_part false)

  parse_minus : parse (some (b'-' ∷ c ∷ s)) base ≡ some (found true)
  unfolding parse signed_part skip_space
  parse_minus =
      let in_range : ((ltb base 2 && not (base == 0)) || ltb 36 base) ≡ false =
        ground (arith, low, high) in
      rw in_range (number_part true)

  -- strtoul in a base from 2 to 36 on a digit of the base and whatever follows, where no 0x stands first:
  -- the result is the number that the digits write, or the largest word and ERANGE where it does not fit in
  -- a word; behind a minus sign it is the negative of the number on 32 bits, or the same in that case.
  pub strtoul_saturates :
      let n = numeral base 0 (c ∷ s) in
      let error = if leb (2 ^ 32) n then some erange else none in
      let plain = strtoul (some (c ∷ s)) base in
      let minus = strtoul (some (b'-' ∷ c ∷ s)) base in
      (plain.result ≡ (if leb (2 ^ 32) n then 2 ^ 32 - 1 else n))
      × (plain.error ≡ error)
      × (minus.result ≡ (if leb (2 ^ 32) n then 2 ^ 32 - 1 else (2 ^ 32 - n) % 2 ^ 32))
      × (minus.error ≡ error)
  strtoul_saturates =
      let (r, e) = of_parse (some (c ∷ s)) false parse_plain in
      let (r', e') = of_parse (some (b'-' ∷ c ∷ s)) true parse_minus in (r, e, r', e')
