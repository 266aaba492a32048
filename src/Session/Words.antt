-- ===== src/Session/Words.antt =====
-- A session in which each line is of words.
use turnix.Base.{
  ℕ, ◌≡◌, ◌≢◌, refl, Option, none, some, List, [], ◌∷◌, ◌++◌, length, arith, ltb, Bool-cases, inl,
  inr,
}
use turnix.Kernel.{Run, ok, panic, fault, out_of_fuel, ◌>>=◌}
use turnix.Strings.{strcmp}
use turnix.Strings.Compare.{strcmp_lem}
use turnix.Shell.{ShellCmd, cmd_find, cmd_exec, cmd_match}
use turnix.Shell.Words.{AreWords, join, cmd_match-other, cmd_parse-few, cmd_parse-many}
use turnix.Session.{
  Command, Standing, Surroundings, Effect, prints, exits, resets, shell_cmds, exec_line, run_line,
  go_on, loop,
}
use turnix.Session.Answers.{
  OfWords, answer, answer_found, is_exit, named, prefer, session, standing, text_of, texts,
  texts_discrete, typed, unread, until_exit,
}
use turnix.Session.Exit.{answer_exits}

cmd_match-prefer :
    (cmd : ShellCmd Command) (exe : List ℕ) (rest : Option (ShellCmd Command))
    (d : Dec (cmd.exe ≡ exe))
    → cmd_match cmd (strcmp cmd.exe exe) rest ≡ prefer cmd d rest
cmd_match-prefer cmd exe rest (yes e) = rw ((strcmp_lem cmd.exe exe).0.1 e) refl
cmd_match-prefer cmd exe rest (no n) =
    cmd_match-other cmd (strcmp cmd.exe exe) rest (λ e. n ((strcmp_lem cmd.exe exe).0.0 e))

cmd_find-named :
    (cmds : List (ShellCmd Command)) (exe : List ℕ) → cmd_find cmds exe ≡ named cmds exe
unfolding cmd_find
cmd_find-named [] exe = refl
cmd_find-named (cmd ∷ cmds) exe =
    rw (cmd_find-named cmds exe, cmd_find)
      (cmd_match-prefer cmd exe (named cmds exe) (texts_discrete cmd.exe exe))

exec_found :
    (m : Surroundings) (exe : List ℕ) (args : List (List ℕ)) (found : Option (ShellCmd Command))
    → cmd_find shell_cmds exe ≡ found
    → exec_line m exe args ≡ answer_found m args exe found
unfolding exec_line cmd_exec
exec_found m exe args none e = rw (e, exec_line, cmd_exec) refl
exec_found m exe args (some cmd) e = rw (e, exec_line, cmd_exec) refl

run_line-words :
    (m : Surroundings) (ws : List (List ℕ)) → AreWords ws → run_line m (join ws) ≡ answer m ws
unfolding run_line
run_line-words m [] h = rw (cmd_parse-few [] 20 h (omega arith), run_line) refl
run_line-words m (exe ∷ args) h = elim (Bool-cases (ltb (length (exe ∷ args)) 20)) [
  | inl e ↦
      rw (e, cmd_parse-few (exe ∷ args) 20 h (ground (arith, e)), run_line)
        (exec_found m exe args (named shell_cmds exe) (cmd_find-named shell_cmds exe))
  | inr e ↦ rw (e, cmd_parse-many (exe ∷ args) 20 h (ground (arith, e)), run_line) refl
]

go_on-texts :
    (r : Run Effect) (t : Run (List ℕ)) (s : Standing) (left lines : List (Surroundings × List ℕ))
    → r ≢ ok exits
    → (r >>= λ effect. go_on effect (t >>= λ out. ok (out, s, left)) lines)
      ≡ ((r >>= λ effect. t >>= λ more. ok (text_of effect ++ more)) >>= λ out. ok (out, s, left))
go_on-texts (ok (prints out)) (ok more) s left lines h = refl
go_on-texts (ok (prints out)) panic s left lines h = refl
go_on-texts (ok (prints out)) fault s left lines h = refl
go_on-texts (ok (prints out)) out_of_fuel s left lines h = refl
go_on-texts (ok (resets out)) (ok more) s left lines h = refl
go_on-texts (ok (resets out)) panic s left lines h = refl
go_on-texts (ok (resets out)) fault s left lines h = refl
go_on-texts (ok (resets out)) out_of_fuel s left lines h = refl
go_on-texts (ok exits) t s left lines h = absurd (h refl)
go_on-texts panic t s left lines h = refl
go_on-texts fault t s left lines h = refl
go_on-texts out_of_fuel t s left lines h = refl

session_step :
    (m : Surroundings) (ws : List (List ℕ)) (rest : List (Surroundings × List (List ℕ)))
    → (answer m ws >>= λ effect. go_on effect (session rest) (typed rest))
      ≡ session ((m, ws) ∷ rest)
session_step m ws rest = elim (Bool-cases (is_exit ws)) [
  | inl e ↦ rw (e, (answer_exits m ws).0 e) refl
  | inr e ↦ rw e (
      go_on-texts (answer m ws) (texts (until_exit rest)) (standing rest) (typed (unread rest))
        (typed rest) ((answer_exits m ws).1 e))
]

-- The loop of the shell, on lines that are words with a space behind each, prints the texts of the lines
-- before the first whose first word is exit and that has fewer than 20 words, one behind another, and
-- ends there with the lines behind it unread; without such a line it waits for more. The text of a line
-- is what the first command of that name prints, called with all the words, or a message where there is
-- no such command or where there are 20 words or more.
pub loop_refines :
    (lines : List (Surroundings × List (List ℕ)))
    → OfWords lines
    → loop (typed lines) ≡ session lines
unfolding loop
loop_refines [] h = refl
loop_refines ((m, ws) ∷ rest) (are, more) =
    rw (run_line-words m ws are, loop_refines rest more) (session_step m ws rest)
