-- ===== src/Stdlib/Digits.antt =====
-- The loop over the digits against the number that they write.
use Prim.Native.Nat.{min}
use turnix.Base.{
  ℕ, ◌+◌, ◌-◌, ◌*◌, ◌/◌, ◌%◌, ◌^◌, ◌≡◌, ◌≤◌, ◌<◌, inl, inr, refl, sym, ap, ◌∙◌, true, false, ◌||◌,
  none, some, List, [], ◌∷◌, arith, ltb, leb, if◌then◌else◌, Bool-cases, Option-cases, dec_lt,
}
use turnix.Stdlib.{Scan, scan, digit, ulong_max}

-- The number that the digits of base `base` at the start of a string write, after those that write
-- `v`: no word, and no overflow.
pub numeral : ℕ → ℕ → List ℕ → ℕ
numeral base v [] = v
numeral base v (c ∷ s) = elim (digit c) [
  | none ↦ v
  | some d ↦ let next = numeral base (v * base + d) s in if leb base d then v else next
]

pub numeral_nil : (base v : ℕ) → numeral base v [] ≡ v
unfolding numeral
numeral_nil base v = refl

mul_grows : (v base d : ℕ) → 0 < base → v ≤ v * base + d
mul_grows v base d h = grind arith

module _ (base v c : ℕ) (s : List ℕ) where
  pub numeral_end : digit c ≡ none → numeral base v (c ∷ s) ≡ v
  unfolding numeral
  numeral_end e = rw (e, numeral)

  numeral_stop : (d : ℕ) → digit c ≡ some d → base ≤ d → numeral base v (c ∷ s) ≡ v
  unfolding numeral
  numeral_stop d e h = rw (e, numeral) (ground (arith, h))

  pub numeral_more :
      (d : ℕ) → digit c ≡ some d → d < base → numeral base v (c ∷ s) ≡ numeral base (v * base + d) s
  unfolding numeral
  numeral_more d e h =
      let small : leb base d ≡ false = ground (arith, h) in rw (e, numeral) (rw small)

module _ (base : ℕ) (r : Scan) (c : ℕ) (s : List ℕ) where
  pub scan_end : digit c ≡ none → scan base r (c ∷ s) ≡ record r { rest = c ∷ s }
  unfolding scan
  scan_end e = rw (e, scan)

  pub scan_stop :
      (d : ℕ) → digit c ≡ some d → base ≤ d → scan base r (c ∷ s) ≡ record r { rest = c ∷ s }
  unfolding scan
  scan_stop d e h = rw (e, scan) (ground (arith, h))

  -- What the loop makes of a digit of the base.
  abbrev pub taken : ℕ → Scan
  taken d = record r {
    val = (r.val * base + d) % 2 ^ 32;
    overflow = ltb ((ulong_max - d) / base) r.val || r.overflow;
    parsed = true;
  }

  pub scan_more :
      (d : ℕ) → digit c ≡ some d → d < base → scan base r (c ∷ s) ≡ scan base (taken d) s
  unfolding scan
  scan_more d e h = let small : leb base d ≡ false = ground (arith, h) in rw (e, scan) (rw small)

numeral_grows : (base v : ℕ) (s : List ℕ) → 0 < base → v ≤ numeral base v s
numeral_grows base v [] h = unfold numeral in omega arith
numeral_grows base v (c ∷ s) h = elim (Option-cases (digit c)) [
  | inl e ↦ omega (arith, numeral_end base v c s e)
  | inr (d, e) ↦ elim (dec_lt d base) [
    | yes lt ↦ omega (
      arith,
      numeral_more base v c s d e lt,
      numeral_grows base (v * base + d) s h,
      mul_grows v base d h,
    )
    | no ge ↦ omega (arith, numeral_stop base v c s d e (omega arith))
  ]
]

-- The test of the loop, for a digit of the base.
overflow_test :
    (v base d : ℕ)
    → d < base
    → base ≤ 36
    → (ltb ((ulong_max - d) / base) v ≡ true → 2 ^ 32 ≤ v * base + d)
      × (ltb ((ulong_max - d) / base) v ≡ false → v * base + d < 2 ^ 32)
overflow_test v base d h k = (λ e. grind arith, λ e. grind arith)

-- The loop's value is the number, as long as that fits in a word, and the flag says that it does not.
pub record IsScanned (base v : ℕ) (s : List ℕ) (r : Scan) : Type 0 where
  pub exact : r.overflow ≡ false → (r.val ≡ numeral base v s) × (numeral base v s < 2 ^ 32)
  pub large : r.overflow ≡ true → 2 ^ 32 ≤ numeral base v s

IsScanned-move :
    (base v w : ℕ) (s t : List ℕ) (r q : Scan)
    → r ≡ q
    → numeral base v s ≡ numeral base w t
    → IsScanned base w t q
    → IsScanned base v s r
IsScanned-move base v w s t r q e n i = rw e (record {
  exact = λ x. let (same, small) = i.exact x in (same ∙ sym n, omega (arith, n, small));
  large = λ x. omega (arith, n, i.large x);
})

-- Where the loop stops, the value stands.
IsScanned-end :
    (base : ℕ) (s t : List ℕ) (r : Scan)
    → r.val < 2 ^ 32
    → r.overflow ≡ false
    → numeral base r.val s ≡ r.val
    → IsScanned base r.val s (record r { rest = t })
IsScanned-end base s t r w e n = record {
  exact = λ x. (sym n, omega (arith, n));
  large = λ x. absurd (ground (arith, e, x));
}

IsScanned-large :
    (base v : ℕ) (s : List ℕ) (r : Scan)
    → 0 < base
    → r.overflow ≡ true
    → 2 ^ 32 ≤ v
    → IsScanned base v s r
IsScanned-large base v s r h e big = record {
  exact = λ x. absurd (ground (arith, e, x));
  large = λ x. omega (arith, big, numeral_grows base v s h);
}

-- Once the flag is set it stays.
scan_overflow :
    (base : ℕ) (r : Scan) (s : List ℕ) → r.overflow ≡ true → (scan base r s).overflow ≡ true
scan_overflow base r [] e = unfold scan in e
scan_overflow base r (c ∷ s) e = elim (Option-cases (digit c)) [
  | inl f ↦ ap (λ (q : Scan). q.overflow) (scan_end base r c s f) ∙ e
  | inr (d, f) ↦ elim (dec_lt d base) [
    | yes lt ↦
        ap (λ (q : Scan). q.overflow) (scan_more base r c s d f lt)
        ∙ scan_overflow base (taken base r c s d) s (ground (arith, e))
    | no ge ↦ ap (λ (q : Scan). q.overflow) (scan_stop base r c s d f (omega arith)) ∙ e
  ]
]

pub scan-IsScanned :
    (base : ℕ) (r : Scan) (s : List ℕ)
    → 0 < base
    → base ≤ 36
    → r.val < 2 ^ 32
    → r.overflow ≡ false
    → IsScanned base r.val s (scan base r s)
scan-IsScanned base r [] h k w e =
    unfold scan in IsScanned-end base [] [] r w e (unfold numeral in refl)
scan-IsScanned base r (c ∷ s) h k w e = elim (Option-cases (digit c)) [
  | inl f ↦
      IsScanned-move base r.val r.val (c ∷ s) (c ∷ s) (scan base r (c ∷ s)) _
        (scan_end base r c s f) refl
        (IsScanned-end base (c ∷ s) (c ∷ s) r w e (numeral_end base r.val c s f))
  | inr (d, f) ↦ elim (dec_lt d base) [
    | yes lt ↦
        let t = taken base r c s d in
        let (over, under) = overflow_test r.val base d lt k in
        let step = numeral_more base r.val c s d f lt in
        elim (Bool-cases (ltb ((ulong_max - d) / base) r.val)) [
          | inl set ↦
              let flag : t.overflow ≡ true = ground (arith, set) in
              IsScanned-move base r.val (r.val * base + d) (c ∷ s) s (scan base r (c ∷ s)) _
                (scan_more base r c s d f lt) step
                (IsScanned-large base (r.val * base + d) s (scan base t s) h
                  (scan_overflow base t s flag) (over set))
          | inr clear ↦
              let fits = under clear in
              let same : t.val ≡ r.val * base + d = omega (arith, fits) in
              let flag : t.overflow ≡ false = ground (arith, clear, e) in
              IsScanned-move base r.val t.val (c ∷ s) s (scan base r (c ∷ s)) _
                (scan_more base r c s d f lt) (step ∙ ap (λ (v : ℕ). numeral base v s) (sym same))
                (scan-IsScanned base t s h k (omega (arith, same, fits)) flag)
        ]
    | no ge ↦
        let stop : base ≤ d = omega arith in
        IsScanned-move base r.val r.val (c ∷ s) (c ∷ s) (scan base r (c ∷ s)) _
          (scan_stop base r c s d f stop) refl
          (IsScanned-end base (c ∷ s) (c ∷ s) r w e (numeral_stop base r.val c s d f stop))
  ]
]

-- The loop of `__strtoul` in a base up to 36, begun with a value that fits in a word and the flag
-- clear: the flag ends up set exactly if the number that the digits write does not fit in a word, and
-- what strtoul makes of value and flag is that number, or the largest word if it does not fit.
pub scan_saturates :
    (base : ℕ) (r : Scan) (s : List ℕ)
    → 0 < base
    → base ≤ 36
    → r.val < 2 ^ 32
    → r.overflow ≡ false
    → let o = scan base r s in
      let n = numeral base r.val s in
      (o.overflow ≡ leb (2 ^ 32) n) × ((if o.overflow then ulong_max else o.val) ≡ min ulong_max n)
scan_saturates base r s h k w e =
    let i = scan-IsScanned base r s h k w e in
    elim (Bool-cases (scan base r s).overflow) [
      | inl set ↦ (ground (arith, set, i.large set), rw set (omega (arith, i.large set)))
      | inr clear ↦
          let (same, fits) = i.exact clear in
          (ground (arith, clear, fits), rw clear (omega (arith, same, fits)))
    ]
