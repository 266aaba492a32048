-- ===== src/Readline/Edit.antt =====
-- What the screen shows of a line is what readline returns.
use turnix.Base.{
  ℕ, zero, suc, ◌-◌, ◌≡◌, ◌≢◌, ◌≤◌, ◌<◌, refl, sym, ap, ◌∙◌, true, false, List, [], ◌∷◌, ◌++◌,
  arith, ◌==◌, if◌then◌else◌, length, take, length-append, ◌||◌, append_assoc, append-nil,
  Bool-cases, inl, inr, ◌⊎◌, ℕ_discrete,
}
use turnix.Readline.{line_max, edit, echoed, has_room, read_line, readline}

-- A row of a terminal after some bytes: a backspace takes the last character away, a newline and a
-- carriage return leave the row, and any other byte is added.
pub shown : List ℕ → List ℕ → List ℕ
shown s [] = s
shown s (c ∷ cs) =
    shown
      (if c == 8
        then take (length s - 1) s
        else (if (c == 10) || (c == 13) then s else s ++ c ∷ []))
      cs

-- No carriage return, which the screen ignores
abbrev pub NoReturn : List ℕ → Type 0
NoReturn [] = Unit {0}
NoReturn (c ∷ cs) = (c ≢ 13) × NoReturn cs

length-take : (n : ℕ) (s : List ℕ) → length (take n s) ≤ n
length-take zero s = omega arith
length-take (suc n) [] = omega arith
length-take (suc n) (c ∷ s) = omega (arith, length-take n s)

edit_fits : (s : List ℕ) (c : ℕ) → has_room s ≡ true → length (edit s c) ≤ 2047
edit_fits s c h = ground (arith, h, length-take (length s - 1) s, length-append s (c ∷ []))

take-last :
    (p s : List ℕ) → 0 < length s → take (length (p ++ s) - 1) (p ++ s) ≡ p ++ take (length s - 1) s
take-last [] s h = refl
take-last (x ∷ p) s h =
    let more : length (x ∷ p ++ s) - 1 ≡ suc (length (p ++ s) - 1) =
      omega (arith, h, length-append p s) in
    rw more (ap (λ u. x ∷ u) (take-last p s h))

shown-erase :
    (p s es : List ℕ) → shown (p ++ s) (echoed s 8 ++ es) ≡ shown (p ++ take (length s - 1) s) es
unfolding shown
shown-erase p [] es = refl
shown-erase p (x ∷ s) es =
    let wipes : echoed (x ∷ s) 8 ≡ 8 ∷ [] = ground arith in
    ap (λ u. shown (p ++ x ∷ s) (u ++ es)) wipes
    ∙ ap (λ u. shown u es) (take-last p (x ∷ s) (omega arith))

shown-echoed :
    (p s es : List ℕ) (c : ℕ)
    → c ≢ 10
    → c ≢ 13
    → shown (p ++ s) (echoed s c ++ es) ≡ shown (p ++ edit s c) es
unfolding shown
shown-echoed p s es c h r = elim (ℕ_discrete c 8) [
  | yes e ↦ rw e (shown-erase p s es)
  | no n ↦ elim (ℕ_discrete c 9) [
    | yes e ↦ rw e refl
    | no tab ↦ ground (arith, h, r, n, tab, append_assoc p s (c ∷ []))
  ]
]

module _ (p s cs : List ℕ) (c : ℕ) where
  read_more :
      has_room s ≡ true
      → c ≢ 10
      → let r = read_line s (c ∷ cs) in
        let rest = read_line (edit s c) cs in
        (r.line ≡ rest.line) × (r.echo ≡ echoed s c ++ rest.echo)
  unfolding read_line
  read_more h n = let other : (c == 10) ≡ false = ground (arith, n) in rw (h, other) (refl, refl)

  read_last :
      has_room s ≡ true
      → c ≡ 10
      → shown (p ++ s) (read_line s (c ∷ cs)).echo ≡ p ++ (read_line s (c ∷ cs)).line
  unfolding read_line shown
  read_last h e = rw (h, e) refl

  read_full :
      has_room s ≡ false
      → shown (p ++ s) (read_line s (c ∷ cs)).echo ≡ p ++ (read_line s (c ∷ cs)).line
  unfolding read_line shown
  read_full h = rw h refl

  read_stops : (has_room s ≡ false) ⊎ (c ≡ 10) → (read_line s (c ∷ cs)).line ≡ s
  unfolding read_line
  read_stops h = elim (Bool-cases (has_room s)) [
    | inr full ↦ rw full refl
    | inl room ↦ elim h [ inl full ↦ ground (arith, room, full) | inr e ↦ rw (room, e) refl ]
  ]

read_line-shown :
    (p s cs : List ℕ)
    → length s ≤ 2047
    → NoReturn cs
    → (shown (p ++ s) (read_line s cs).echo ≡ p ++ (read_line s cs).line)
      × (length (read_line s cs).line ≤ 2047)
unfolding read_line shown
read_line-shown p s [] h none_of = (refl, h)
read_line-shown p s (c ∷ cs) h (r, none_of) = elim (Bool-cases (has_room s)) [
  | inr full ↦ (read_full p s cs c full, rw (read_stops p s cs c (inl full)) h)
  | inl room ↦ elim (ℕ_discrete c 10) [
    | yes e ↦ (read_last p s cs c room e, rw (read_stops p s cs c (inr e)) h)
    | no n ↦
        let next = read_line-shown p (edit s c) cs (edit_fits s c room) none_of in
        let more = read_more p s cs c room n in
        (
          ap (shown (p ++ s)) (more.1)
              ∙ shown-echoed p s _ c n r
              ∙ (next.0)
              ∙ sym (ap (λ u. p ++ u) (more.0)),
          rw (more.0) (next.1),
        )
  ]
]

-- Where no carriage return is typed, the row in which the prompt stands shows the prompt, untouched, and
-- behind it the line that readline returns, which fits with its NUL.
pub readline-shown :
    (prompt typed : List ℕ)
    → NoReturn typed
    → (shown prompt (readline typed).echo ≡ prompt ++ (readline typed).line)
      × (length (readline typed).line < line_max)
unfolding readline
readline-shown prompt typed none_of =
    let both = read_line-shown prompt [] typed (omega arith) none_of in
    let start : shown (prompt ++ []) (read_line [] typed).echo
        ≡ shown prompt (read_line [] typed).echo =
      ap (λ u. shown u (read_line [] typed).echo) (append-nil prompt) in
    (sym start ∙ both.0, omega (arith, both.1))
