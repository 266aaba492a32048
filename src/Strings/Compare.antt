-- ===== src/Strings/Compare.antt =====
-- What the string functions tell.
use turnix.Base.{
  ℕ, ◌≡◌, ◌<◌, ◌↔◌, refl, ap, ◌∙◌, Bool, true, false, Option, none, some, List, [], ◌∷◌, ◌++◌,
  arith, length, Bool-cases, inl, inr, subst, ◌⊎◌, ℕ_discrete, drop,
}
use turnix.Strings.{
  Sign, above, same, below, strcmp, strchr, is_found, skip_delim, scan_token, strtok_r,
}

abbrev pub opposite : Sign → Sign
opposite above = below
opposite same = same
opposite below = above

strcmp-opposite : (s t : List ℕ) → strcmp t s ≡ opposite (strcmp s t)
unfolding strcmp
strcmp-opposite [] [] = refl
strcmp-opposite [] (d ∷ t) = refl
strcmp-opposite (c ∷ s) [] = refl
strcmp-opposite (c ∷ s) (d ∷ t) = ground (arith, strcmp-opposite s t)

strcmp_cons : (c d : ℕ) (s t : List ℕ) → c ≡ d → s ≡ t → c ∷ s ≡ d ∷ t
strcmp_cons c d s t e f = λ i. e i ∷ f i

strcmp_self : (s : List ℕ) → strcmp s s ≡ same
unfolding strcmp
strcmp_self [] = refl
strcmp_self (c ∷ s) = ground (arith, strcmp_self s)

strcmp_same : (s t : List ℕ) → strcmp s t ≡ same → s ≡ t
unfolding strcmp
strcmp_same [] [] h = refl
strcmp_same [] (d ∷ t) h = absurd (cc h)
strcmp_same (c ∷ s) [] h = absurd (cc h)
strcmp_same (c ∷ s) (d ∷ t) h = elim (ℕ_discrete c d) [
  | yes e ↦ strcmp_cons c d s t e (strcmp_same s t (ground (arith, e, h)))
  | no ne ↦ absurd (ground (arith, ne, h))
]

-- strcmp returns 0 exactly for equal strings, and the other sign when its arguments are exchanged.
pub strcmp_lem :
    (s t : List ℕ) → ((strcmp s t ≡ same) ↔ (s ≡ t)) × (strcmp t s ≡ opposite (strcmp s t))
strcmp_lem s t =
    ((strcmp_same s t, λ e. subst (λ u. strcmp s u ≡ same) e (strcmp_self s)), strcmp-opposite s t)

-- Whether a byte is one of the delimiters, or the NUL
abbrev pub is_delim : List ℕ → ℕ → Bool
is_delim delim c = is_found (strchr delim c)

-- None of the bytes is a delimiter; all are.
abbrev pub NoneOf : List ℕ → List ℕ → Type 0
NoneOf delim [] = Unit {0}
NoneOf delim (c ∷ s) = (is_delim delim c ≡ false) × NoneOf delim s

abbrev pub AllOf : List ℕ → List ℕ → Type 0
AllOf delim [] = Unit {0}
AllOf delim (c ∷ s) = (is_delim delim c ≡ true) × AllOf delim s

-- The rest of a string behind a token is at its end, or at a delimiter.
abbrev pub Stops : List ℕ → List ℕ → Type 0
Stops delim [] = Unit {0}
Stops delim (c ∷ s) = is_delim delim c ≡ true

module _ (delim : List ℕ) where
  scan_token_splits :
      (s : List ℕ)
      → (token tail : List ℕ) × (s ≡ token ++ tail)
        × NoneOf delim token
        × Stops delim tail
        × (scan_token delim s ≡ (token, drop 1 tail))
  unfolding scan_token
  scan_token_splits [] = ([], [], refl, tt, tt, refl)
  scan_token_splits (c ∷ s) = elim (Bool-cases (is_delim delim c)) [
    | inl e ↦ ([], c ∷ s, refl, tt, e, rw e)
    | inr e ↦
        let (token, tail, parts, none_of, stops, ran) = scan_token_splits s in
        (c ∷ token, tail, ap (λ (u : List ℕ). c ∷ u) parts, (e, none_of), stops, rw (e, ran))
  ]

  skip_delim_splits :
      (s : List ℕ)
      → (skipped : List ℕ) × (s ≡ skipped ++ skip_delim delim s)
        × AllOf delim skipped
        × ((skip_delim delim s ≡ [])
            ⊎ ((c : ℕ) × (t : List ℕ) × (skip_delim delim s ≡ c ∷ t) × (is_delim delim c ≡ false)))
  unfolding skip_delim
  skip_delim_splits [] = ([], refl, tt, inl refl)
  skip_delim_splits (c ∷ s) = elim (Bool-cases (is_delim delim c)) [
    | inl e ↦
        let (skipped, parts, all_of, left) = skip_delim_splits s in
        rw e (c ∷ skipped, ap (λ (u : List ℕ). c ∷ u) parts, (e, all_of), left)
    | inr e ↦ rw e ([], refl, tt, inr (c, s, refl, e))
  ]

  abbrev pub as_token : List ℕ → Option (List ℕ)
  as_token [] = none
  as_token (c ∷ s) = some (c ∷ s)

  -- strtok_r splits the string into delimiters, a token without delimiters, and a rest that is at its
  -- end or at a delimiter: it gives the token, and goes on behind that delimiter. Without a token the
  -- string had delimiters only, and NULL is given.
  strtok_r_splits :
      (s : List ℕ)
      → (skipped token tail : List ℕ) × (s ≡ skipped ++ (token ++ tail))
        × AllOf delim skipped
        × NoneOf delim token
        × Stops delim tail
        × ((0 < length token) ⊎ (tail ≡ []))
        × (strtok_r delim s ≡ (as_token token, drop 1 tail))
  unfolding strtok_r
  strtok_r_splits s =
      let (skipped, parts, all_of, left) = skip_delim_splits s in
      elim left [
        | inl e ↦ (
          skipped,
          [],
          [],
          parts ∙ ap (λ (u : List ℕ). skipped ++ u) e,
          all_of,
          tt,
          tt,
          inr refl,
          rw (e, strtok_r),
        )
        | inr (c, t, e, starts) ↦
            let (token, tail, split, none_of, stops, ran) = scan_token_splits t in
            (
              skipped,
              c ∷ token,
              tail,
              parts ∙ ap (λ (u : List ℕ). skipped ++ u) (e ∙ ap (λ (u : List ℕ). c ∷ u) split),
              all_of,
              (starts, none_of),
              stops,
              inl (omega arith),
              rw (e, strtok_r) (rw ran),
            )
      ]
