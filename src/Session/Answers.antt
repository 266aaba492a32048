-- ===== src/Session/Answers.antt =====
-- What a session prints, line by line, for lines of words.
use turnix.Base.{
  ℕ, ◌≡◌, Bool, false, Option, none, some, List, [], ◌∷◌, ◌++◌, if◌then◌else◌, length, ltb,
  ℕ_discrete, codes,
}
use mathlib.Core.List.{List-discrete}
use turnix.Kernel.{Run, ok, ◌>>=◌}
use turnix.Shell.{ShellCmd}
use turnix.Shell.Words.{AreWords, join}
use turnix.Session.{
  Command, Standing, ended, Surroundings, Effect, prints, exits, resets, shell_cmds, run_command,
  waits, Outcome,
}

abbrev pub texts_discrete : Discrete (List ℕ)
texts_discrete = List-discrete ℕ_discrete

-- An entry if it has the name, and else what comes of the others
abbrev pub prefer :
    (cmd : ShellCmd Command) {exe : List ℕ}
    → Dec (cmd.exe ≡ exe)
    → Option (ShellCmd Command)
    → Option (ShellCmd Command)
prefer cmd (yes e) rest = some cmd
prefer cmd (no n) rest = rest

-- The first entry of the table under a name
abbrev pub named : List (ShellCmd Command) → List ℕ → Option (ShellCmd Command)
named [] exe = none
named (cmd ∷ cmds) exe = prefer cmd (texts_discrete cmd.exe exe) (named cmds exe)

-- The handler of the entry that is found, or the message
abbrev pub answer_found :
    Surroundings → List (List ℕ) → List ℕ → Option (ShellCmd Command) → Run Effect
answer_found m args exe none = ok (prints (codes "no such command: " ++ (exe ++ b'\n' ∷ [])))
answer_found m args exe (some cmd) = run_command m cmd.handler (exe ∷ args)

-- What a line of words does
abbrev pub answer : Surroundings → List (List ℕ) → Run Effect
answer m [] = ok (prints [])
answer m (exe ∷ args) =
    if ltb (length (exe ∷ args)) 20
    then answer_found m args exe (named shell_cmds exe)
    else ok (prints (codes "invalid command line\n"))

-- The lines as they are typed
abbrev pub typed : List (Surroundings × List (List ℕ)) → List (Surroundings × List ℕ)
typed [] = []
typed ((m, ws) ∷ rest) = (m, join ws) ∷ typed rest

abbrev pub OfWords : List (Surroundings × List (List ℕ)) → Type 0
OfWords [] = Unit {0}
OfWords ((m, ws) ∷ rest) = AreWords ws × OfWords rest

-- What a line prints; exit prints nothing.
abbrev pub text_of : Effect → List ℕ
text_of (prints out) = out
text_of exits = []
text_of (resets out) = out

-- Whether a line of words is one that ends the session
abbrev pub is_exit : List (List ℕ) → Bool
is_exit [] = false
is_exit (exe ∷ args) = elim (texts_discrete (codes "exit") exe) [
  | yes e ↦ ltb (length args) 19
  | no n ↦ false
]

-- The lines before the first that ends the session
abbrev pub until_exit : List (Surroundings × List (List ℕ)) → List (Surroundings × List (List ℕ))
until_exit [] = []
until_exit ((m, ws) ∷ rest) = if is_exit ws then [] else (m, ws) ∷ until_exit rest

-- How the loop stands, and the lines behind the one that ends the session
abbrev pub standing : List (Surroundings × List (List ℕ)) → Standing
standing [] = waits
standing ((m, ws) ∷ rest) = if is_exit ws then ended else standing rest

abbrev pub unread : List (Surroundings × List (List ℕ)) → List (Surroundings × List (List ℕ))
unread [] = []
unread ((m, ws) ∷ rest) = if is_exit ws then rest else unread rest

-- The texts of lines, one behind another
abbrev pub texts : List (Surroundings × List (List ℕ)) → Run (List ℕ)
texts [] = ok []
texts ((m, ws) ∷ rest) =
    answer m ws >>= λ effect. texts rest >>= λ more. ok (text_of effect ++ more)

-- The session: the texts of the lines before exit, how the loop stands, and the lines behind exit
abbrev pub session : List (Surroundings × List (List ℕ)) → Run Outcome
session lines = texts (until_exit lines) >>= λ out. ok (out, standing lines, typed (unread lines))
