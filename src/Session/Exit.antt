-- ===== src/Session/Exit.antt =====
-- No command but exit ends a session.
use turnix.Base.{
  ℕ, ◌≡◌, ◌≢◌, Bool, true, false, refl, Option, List, [], ◌∷◌, if◌then◌else◌, length, arith, ltb,
  Bool-cases, inl, inr, codes,
}
use turnix.Kernel.{Run, ok, panic, fault, out_of_fuel, ◌>>=◌}
use turnix.Commands.{do_date, do_uptime, do_cal, do_ps, uname}
use turnix.Hexdump.{do_hexdump}
use turnix.Shell.{ShellCmd}
use turnix.Session.{
  Command, exit_cmd, help_cmd, reboot_cmd, date_cmd, uptime_cmd, cal_cmd, ps_cmd, hexdump_cmd,
  uname_cmd, cmd_exit, cmd_help, cmd_reboot, cmd_date, cmd_uptime, cmd_cal, cmd_ps, cmd_hexdump,
  cmd_uname, as_prints, print_uname, Surroundings, prints, exits, run_command,
}
use turnix.Session.Answers.{answer, answer_found, is_exit, named, prefer, texts_discrete}

prints_only : (r : Run (List ℕ)) → as_prints r ≢ ok exits
prints_only (ok out) e = absurd (cc e)
prints_only panic e = absurd (cc e)
prints_only fault e = absurd (cc e)
prints_only out_of_fuel e = absurd (cc e)

dumps_only :
    {A : Type 0} (r : Run (A × List ℕ)) → (r >>= λ (result, out). ok (prints out)) ≢ ok exits
dumps_only (ok (result, out)) e = absurd (cc e)
dumps_only panic e = absurd (cc e)
dumps_only fault e = absurd (cc e)
dumps_only out_of_fuel e = absurd (cc e)

-- No handler but that of exit sets is_exit.
command_goes_on :
    (m : Surroundings) (c : Command) (argv : List (List ℕ))
    → c ≢ exit_cmd
    → run_command m c argv ≢ ok exits
unfolding run_command
command_goes_on m exit_cmd argv h e = h refl
command_goes_on m help_cmd argv h e = absurd (cc e)
command_goes_on m reboot_cmd argv h e = absurd (cc e)
command_goes_on m date_cmd argv h e = prints_only (do_date m.clocks m.zone) e
command_goes_on m uptime_cmd argv h e = prints_only (do_uptime m.clocks) e
command_goes_on m cal_cmd argv h e = prints_only (do_cal m.clocks m.zone) e
command_goes_on m ps_cmd argv h e = prints_only (do_ps m.address m.memory_words m.kernel) e
command_goes_on m hexdump_cmd argv h e = dumps_only (do_hexdump m.memory argv) e
command_goes_on m uname_cmd argv h e = prints_only (print_uname ((uname m.build true).2)) e

-- No command of a table goes on to exit.
abbrev pub NoExit : List (ShellCmd Command) → Type 0
NoExit [] = Unit {0}
NoExit (cmd ∷ cmds) = (cmd.handler ≢ exit_cmd) × NoExit cmds

prefer_goes_on :
    (m : Surroundings) (args : List (List ℕ)) (exe : List ℕ) (cmd : ShellCmd Command)
    (rest : Option (ShellCmd Command)) (d : Dec (cmd.exe ≡ exe))
    → cmd.handler ≢ exit_cmd
    → answer_found m args exe rest ≢ ok exits
    → answer_found m args exe (prefer cmd d rest) ≢ ok exits
prefer_goes_on m args exe cmd rest (yes at) other h =
    command_goes_on m cmd.handler (exe ∷ args) other
prefer_goes_on m args exe cmd rest (no n) other h = h

found_goes_on :
    (m : Surroundings) (args : List (List ℕ)) (exe : List ℕ) (cmds : List (ShellCmd Command))
    → NoExit cmds
    → answer_found m args exe (named cmds exe) ≢ ok exits
found_goes_on m args exe [] h = λ e. absurd (cc e)
found_goes_on m args exe (cmd ∷ cmds) (other, h) =
    prefer_goes_on m args exe cmd (named cmds exe) (texts_discrete cmd.exe exe) other
      (found_goes_on m args exe cmds h)

-- How an answer goes on, by whether its line is one that ends the session
ends_or_goes_on :
    (m : Surroundings) (exe : List ℕ) (args : List (List ℕ)) (d : Dec (codes "exit" ≡ exe))
    → (rest : Option (ShellCmd Command)) → answer_found m args exe rest ≢ ok exits
    → let is = elim d as (λ x. Bool) [ yes e ↦ ltb (length args) 19 | no n ↦ false ] in
      let said =
        if ltb (length (exe ∷ args)) 20
        then answer_found m args exe (prefer cmd_exit d rest)
        else ok (prints (codes "invalid command line\n")) in
      (is ≡ true → said ≡ ok exits) × (is ≡ false → said ≢ ok exits)
unfolding run_command
ends_or_goes_on m exe args (yes at) rest h = (
  λ e. ground (arith, e),
  λ e x.
      let long : ltb (length (exe ∷ args)) 20 ≡ false = ground (arith, e) in
      absurd (cc (rw long at x)),
)
ends_or_goes_on m exe args (no n) rest h = (
  λ e. absurd (ground (arith, e)),
  λ e x. elim (Bool-cases (ltb (length (exe ∷ args)) 20)) [
    | inl short ↦ h (rw short at x)
    | inr long ↦ absurd (cc (rw long at x))
  ],
)

pub answer_exits :
    (m : Surroundings) (ws : List (List ℕ))
    → (is_exit ws ≡ true → answer m ws ≡ ok exits) × (is_exit ws ≡ false → answer m ws ≢ ok exits)
answer_exits m [] = (λ e. absurd (cc e), λ e x. absurd (cc x))
answer_exits m (exe ∷ args) =
    let others =
      cmd_help ∷ cmd_reboot ∷ cmd_date ∷ cmd_uptime ∷ cmd_cal ∷ cmd_ps ∷ cmd_hexdump ∷ cmd_uname
      ∷ [] in
    let none_exits : NoExit others = (
      λ e. absurd (cc e),
      (
        λ e. absurd (cc e),
        (
          λ e. absurd (cc e),
          (
            λ e. absurd (cc e),
            (
              λ e. absurd (cc e),
              (λ e. absurd (cc e), (λ e. absurd (cc e), (λ e. absurd (cc e), tt))),
            ),
          ),
        ),
      ),
    ) in
    ends_or_goes_on m exe args (texts_discrete (codes "exit") exe) (named others exe)
      (found_goes_on m args exe others none_exits)
