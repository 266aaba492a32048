-- ===== src/Shell.antt =====
-- applications/shell.c: the command line. A command's handler is a parameter, and is called with the
-- arguments.
pub mod Words
use turnix.Base.{ℕ, zero, suc, Option, none, some, List, [], ◌∷◌, ◌++◌, leb, if◌then◌else◌, length}
use turnix.Strings.{Sign, above, same, below, strcmp, strtok_r}

-- `SHELL_ARGS_MAX_NUM`
abbrev pub shell_args_max_num : ℕ
shell_args_max_num = 20

-- `struct shell_cmd`
pub record ShellCmd {ℓ} (H : Type ℓ) : Type ℓ where
  pub exe : List ℕ
  pub handler : H
  pub usage : Option (List ℕ)

-- `" \t\r\n"`
abbrev pub separators : List ℕ
separators = 32 ∷ 9 ∷ 13 ∷ 10 ∷ []

-- `"no such command: "`
abbrev pub unknown : List ℕ
unknown =
    110 ∷ 111 ∷ 32 ∷ 115 ∷ 117 ∷ 99 ∷ 104 ∷ 32 ∷ 99 ∷ 111 ∷ 109 ∷ 109 ∷ 97 ∷ 110 ∷ 100 ∷ 58 ∷ 32
    ∷ []

-- The loop of cmd_parse, for at most `n` arguments
unfoldable pub words : ℕ → List ℕ → List (List ℕ)
words zero s = []
words (suc n) s =
    let (token, rest) = strtok_r separators s in
    elim token [ none ↦ [] | some t ↦ t ∷ words n rest ]

-- The arguments, or an error
unfoldable pub cmd_parse : List ℕ → ℕ → Option (List (List ℕ))
cmd_parse s argv_max =
    let argv = words argv_max s in if leb argv_max (length argv) then none else some argv

module _ {ℓ} {H : Type ℓ} where
  -- What cmd_list prints
  unfoldable pub cmd_list : List (ShellCmd H) → List ℕ
  cmd_list [] = []
  cmd_list (cmd ∷ cmds) =
      cmd.exe
      ++ 58 ∷ 32 ∷ (elim cmd.usage [ none ↦ cmd.exe | some text ↦ text ] ++ 10 ∷ cmd_list cmds)

  abbrev pub cmd_match : ShellCmd H → Sign → Option (ShellCmd H) → Option (ShellCmd H)
  cmd_match cmd sign rest = elim sign [ same ↦ some cmd | above ↦ rest | below ↦ rest ]

  unfoldable pub cmd_find : List (ShellCmd H) → List ℕ → Option (ShellCmd H)
  cmd_find [] exe = none
  cmd_find (cmd ∷ cmds) exe = cmd_match cmd (strcmp cmd.exe exe) (cmd_find cmds exe)

  -- What do_help prints for one command
  unfoldable pub help : List (ShellCmd H) → List ℕ → List ℕ
  help cmds exe = elim (cmd_find cmds exe) [
    | none ↦ unknown ++ exe ++ 10 ∷ []
    | some cmd ↦ cmd_list (cmd ∷ [])
  ]

  abbrev pub help_each : List (ShellCmd H) → List (List ℕ) → List ℕ
  help_each cmds [] = []
  help_each cmds (exe ∷ args) = help cmds exe ++ help_each cmds args

  -- What do_help prints, for the arguments behind its own name
  abbrev pub do_help : List (ShellCmd H) → List (List ℕ) → List ℕ
  do_help cmds [] = cmd_list cmds
  do_help cmds (exe ∷ args) = help_each cmds (exe ∷ args)

  -- The handler that cmd_exec calls and its arguments, if it finds one.
  unfoldable pub cmd_exec : List (ShellCmd H) → List ℕ → List (List ℕ) → Option (H × List (List ℕ))
  cmd_exec cmds exe args = elim (cmd_find cmds exe) [
    | none ↦ none
    | some cmd ↦ some (cmd.handler, exe ∷ args)
  ]

  -- A round of the loop on the line that readline returns: what is called, if anything.
  unfoldable pub round : List (ShellCmd H) → List ℕ → Option (H × List (List ℕ))
  round cmds line = elim (cmd_parse line shell_args_max_num) [
    | none ↦ none
    | some [] ↦ none
    | some (exe ∷ args) ↦ cmd_exec cmds exe args
  ]
