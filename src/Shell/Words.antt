-- ===== src/Shell/Words.antt =====
-- The words of a command line are the arguments of the command.
use turnix.Base.{
  ℕ, zero, suc, ◌≡◌, ◌≢◌, ◌≤◌, ◌<◌, ◌∙◌, refl, ap, false, true, Option, none, some, List, [], ◌∷◌,
  ◌++◌, leb, if◌then◌else◌, length, take, arith, ltb, Bool-cases, inl, inr,
}
use turnix.Strings.{Sign, above, same, below, strchr, strcmp, strtok_r, skip_delim, scan_token}
use turnix.Strings.Compare.{NoneOf, is_delim, strcmp_lem}
use turnix.Shell.{ShellCmd, separators, words, cmd_parse, cmd_find, cmd_exec, round, cmd_match}

-- A word is not empty and has no separators.
abbrev pub IsWord : List ℕ → Type 0
IsWord w = (0 < length w) × NoneOf separators w

abbrev pub AreWords : List (List ℕ) → Type 0
AreWords [] = Unit {0}
AreWords (w ∷ ws) = IsWord w × AreWords ws

-- The words with a space behind each
abbrev pub join : List (List ℕ) → List ℕ
join [] = []
join (w ∷ ws) = w ++ 32 ∷ join ws

scan_token_word :
    (w s : List ℕ) → NoneOf separators w → scan_token separators (w ++ 32 ∷ s) ≡ (w, s)
unfolding scan_token strchr
scan_token_word [] s h = refl
scan_token_word (c ∷ w) s (no_delim, none_of) = rw (no_delim, scan_token_word w s none_of) refl

skip_delim_word :
    (c : ℕ) (s : List ℕ) → is_delim separators c ≡ false → skip_delim separators (c ∷ s) ≡ c ∷ s
unfolding skip_delim
skip_delim_word c s e = rw e refl

strtok_r_word : (w s : List ℕ) → IsWord w → strtok_r separators (w ++ 32 ∷ s) ≡ (some w, s)
unfolding strtok_r skip_delim
strtok_r_word [] s (nonempty, none_of) = absurd (omega (arith, nonempty))
strtok_r_word (c ∷ w) s (nonempty, (no_delim, none_of)) =
    let e = skip_delim_word c (w ++ 32 ∷ s) no_delim in
    rw (e, strtok_r) (rw (scan_token_word w s none_of) refl)

words_step :
    (n : ℕ) (s w r : List ℕ) → strtok_r separators s ≡ (some w, r) → words (suc n) s ≡ w ∷ words n r
unfolding words
words_step n s w r e = ap (λ p. elim (p.0) [ none ↦ [] | some t ↦ t ∷ words n (p.1) ]) e

words-join : (n : ℕ) (ws : List (List ℕ)) → AreWords ws → words n (join ws) ≡ take n ws
unfolding words strtok_r skip_delim
words-join zero ws h = refl
words-join (suc n) [] h = refl
words-join (suc n) (w ∷ ws) (word, more) =
    words_step n (join (w ∷ ws)) w (join ws) (strtok_r_word w (join ws) word)
    ∙ ap (λ u. w ∷ u) (words-join n ws more)

take_few : {A : Type 0} (n : ℕ) (xs : List A) → length xs < n → take n xs ≡ xs
take_few zero xs h = absurd (omega (arith, h))
take_few (suc n) [] h = refl
take_few (suc n) (x ∷ xs) h = ap (λ u. x ∷ u) (take_few n xs (omega (arith, h)))

take_many : {A : Type 0} (n : ℕ) (xs : List A) → n ≤ length xs → length (take n xs) ≡ n
take_many zero xs h = refl
take_many (suc n) [] h = absurd (omega (arith, h))
take_many (suc n) (x ∷ xs) h = ap suc (take_many n xs (omega (arith, h)))

pub cmd_parse-few :
    (ws : List (List ℕ)) (n : ℕ) → AreWords ws → length ws < n → cmd_parse (join ws) n ≡ some ws
unfolding cmd_parse
cmd_parse-few ws n h few =
    let e = words-join n ws h ∙ take_few n ws few in
    let test : leb n (length ws) ≡ false = ground (arith, few) in rw (e, test) refl

pub cmd_parse-many :
    (ws : List (List ℕ)) (n : ℕ) → AreWords ws → n ≤ length ws → cmd_parse (join ws) n ≡ none
unfolding cmd_parse
cmd_parse-many ws n h many =
    let e = words-join n ws h in
    let test : leb n (length (take n ws)) ≡ true = ground (arith, take_many n ws many) in
    rw (e, test) refl

module _ {H : Type 0} where
  -- None of the commands has the name.
  abbrev pub Without : List ℕ → List (ShellCmd H) → Type 0
  Without exe [] = Unit {0}
  Without exe (cmd ∷ cmds) = (cmd.exe ≢ exe) × Without exe cmds

  pub cmd_match-other :
      (cmd : ShellCmd H) (sign : Sign) (rest : Option (ShellCmd H))
      → sign ≢ same
      → cmd_match cmd sign rest ≡ rest
  cmd_match-other cmd above rest h = refl
  cmd_match-other cmd same rest h = absurd (h refl)
  cmd_match-other cmd below rest h = refl

  cmd_find-first :
      (before after : List (ShellCmd H)) (cmd : ShellCmd H)
      → Without cmd.exe before
      → cmd_find (before ++ cmd ∷ after) cmd.exe ≡ some cmd
  unfolding cmd_find
  cmd_find-first [] after cmd h = rw ((strcmp_lem cmd.exe cmd.exe).0.1 refl) refl
  cmd_find-first (other ∷ before) after cmd (differs, h) =
      cmd_match-other other (strcmp other.exe cmd.exe) _
        (λ e. differs ((strcmp_lem other.exe cmd.exe).0.0 e))
      ∙ cmd_find-first before after cmd h

  exec-first :
      (before after : List (ShellCmd H)) (cmd : ShellCmd H) (args : List (List ℕ))
      → Without cmd.exe before
      → cmd_exec (before ++ cmd ∷ after) cmd.exe args ≡ some (cmd.handler, cmd.exe ∷ args)
  unfolding cmd_exec
  exec-first before after cmd args h = rw (cmd_find-first before after cmd h, cmd_exec) refl

  -- A line of words, the first of them the name of a command, calls the first command of that name with
  -- all the words where there are fewer than 20, and nothing otherwise.
  pub round-words :
      (before after : List (ShellCmd H)) (cmd : ShellCmd H) (args : List (List ℕ))
      → Without cmd.exe before
      → AreWords (cmd.exe ∷ args)
      → round (before ++ cmd ∷ after) (join (cmd.exe ∷ args))
        ≡ (if ltb (length (cmd.exe ∷ args)) 20 then some (cmd.handler, cmd.exe ∷ args) else none)
  unfolding round
  round-words before after cmd args h are = elim (Bool-cases (ltb (length (cmd.exe ∷ args)) 20)) [
    | inl e ↦
        let few : length (cmd.exe ∷ args) < 20 = ground (arith, e) in
        rw (e, cmd_parse-few (cmd.exe ∷ args) 20 are few, round)
          (exec-first before after cmd args h)
    | inr e ↦
        let many : 20 ≤ length (cmd.exe ∷ args) = ground (arith, e) in
        rw (e, cmd_parse-many (cmd.exe ∷ args) 20 are many, round) refl
  ]
