-- ===== src/Session.antt =====
-- A session of applications/shell.c: the table of the commands, what a line does, and the loop that
-- reads lines until exit is called.
pub mod Answers
pub mod Exit
pub mod Words
use turnix.Base.{ℕ, ◌^◌, ◌-◌, Bool, true, false, Option, none, some, List, [], ◌∷◌, ◌++◌, codes}
use turnix.Kernel.{Kernel, Run, ok, ◌>>=◌}
use turnix.Memory.{Bytes}
use turnix.Clock.{Clocks, Timezone}
use turnix.Shell.{ShellCmd, shell_args_max_num, cmd_parse, cmd_exec, do_help, unknown}
use turnix.Commands.{do_date, do_uptime, do_cal, do_ps, Build, Utsname, uname, do_uname}
use turnix.Hexdump.{do_hexdump}

-- The handlers of the table
pub data Command : Type 0 where
  exit_cmd help_cmd reboot_cmd date_cmd uptime_cmd cal_cmd ps_cmd hexdump_cmd uname_cmd : Command

abbrev pub cmd_exit : ShellCmd Command
cmd_exit = record { exe = codes "exit"; handler = exit_cmd; usage = none }

abbrev pub cmd_help : ShellCmd Command
cmd_help = record { exe = codes "help"; handler = help_cmd; usage = some (codes "help [cmd]...") }

abbrev pub cmd_reboot : ShellCmd Command
cmd_reboot = record { exe = codes "reboot"; handler = reboot_cmd; usage = none }

abbrev pub cmd_date : ShellCmd Command
cmd_date = record { exe = codes "date"; handler = date_cmd; usage = none }

abbrev pub cmd_uptime : ShellCmd Command
cmd_uptime = record { exe = codes "uptime"; handler = uptime_cmd; usage = none }

abbrev pub cmd_cal : ShellCmd Command
cmd_cal = record { exe = codes "cal"; handler = cal_cmd; usage = none }

abbrev pub cmd_ps : ShellCmd Command
cmd_ps = record { exe = codes "ps"; handler = ps_cmd; usage = none }

abbrev pub cmd_hexdump : ShellCmd Command
cmd_hexdump = record {
  exe = codes "hexdump";
  handler = hexdump_cmd;
  usage = some (codes "hexdump address size");
}

abbrev pub cmd_uname : ShellCmd Command
cmd_uname = record { exe = codes "uname"; handler = uname_cmd; usage = none }

-- The commands in the order of the file, which is that of their section
abbrev pub shell_cmds : List (ShellCmd Command)
shell_cmds =
    cmd_exit ∷ cmd_help ∷ cmd_reboot ∷ cmd_date ∷ cmd_uptime ∷ cmd_cal ∷ cmd_ps ∷ cmd_hexdump
    ∷ cmd_uname ∷ []

-- What the commands read: the clocks, the threads, the memory by bytes and by words, where the
-- structures of the threads are, and the texts of the build.
pub record Surroundings : Type 0 where
  pub clocks : Clocks
  pub zone : Timezone
  pub kernel : Kernel
  pub memory : Bytes
  pub memory_words : ℕ → ℕ
  pub address : ℕ → ℕ
  pub build : Build

-- What a line does: it prints, or sets is_exit, or prints and asks for a reset of the machine; the loop
-- goes on behind do_reboot, for as long as the machine does.
pub data Effect : Type 0 where
  prints : List ℕ → Effect
  exits : Effect
  resets : List ℕ → Effect

abbrev pub as_prints : Run (List ℕ) → Run Effect
as_prints r = r >>= λ out. ok (prints out)

abbrev pub print_uname : Option Utsname → Run (List ℕ)
print_uname none = ok []
print_uname (some name) = do_uname name

abbrev pub arguments : List (List ℕ) → List (List ℕ)
arguments [] = []
arguments (exe ∷ args) = args

-- do_exit sets is_exit.
abbrev pub do_exit : Run Effect
do_exit = ok exits

-- What is printed before the reset is asked for
abbrev pub rebooting : List ℕ
rebooting = codes "Rebooting...\n"

abbrev pub do_reboot : Run Effect
do_reboot = ok (resets rebooting)

-- A handler on its arguments, the first of which is its own name
unfoldable pub run_command : Surroundings → Command → List (List ℕ) → Run Effect
run_command m exit_cmd argv = do_exit
run_command m help_cmd argv = ok (prints (do_help shell_cmds (arguments argv)))
run_command m reboot_cmd argv = do_reboot
run_command m date_cmd argv = as_prints (do_date m.clocks m.zone)
run_command m uptime_cmd argv = as_prints (do_uptime m.clocks)
run_command m cal_cmd argv = as_prints (do_cal m.clocks m.zone)
run_command m ps_cmd argv = as_prints (do_ps m.address m.memory_words m.kernel)
run_command m hexdump_cmd argv = do_hexdump m.memory argv >>= λ (result, out). ok (prints out)
run_command m uname_cmd argv = as_prints (print_uname ((uname m.build true).2))

-- What cmd_exec does, with its message where there is no such command
unfoldable pub exec_line : Surroundings → List ℕ → List (List ℕ) → Run Effect
exec_line m exe args = elim (cmd_exec shell_cmds exe args) [
  | none ↦ ok (prints (unknown ++ (exe ++ b'\n' ∷ [])))
  | some (command, argv) ↦ run_command m command argv
]

-- A round of the loop on the line that readline returns
unfoldable pub run_line : Surroundings → List ℕ → Run Effect
run_line m line = elim (cmd_parse line shell_args_max_num) [
  | none ↦ ok (prints (codes "invalid command line\n"))
  | some [] ↦ ok (prints [])
  | some (exe ∷ args) ↦ exec_line m exe args
]

-- How the loop stands: it waits for a line, or has ended by is_exit.
pub data Standing : Type 0 where
  waits ended : Standing

-- What is printed, how the loop stands, and the lines that are not read
abbrev pub Outcome : Type 0
Outcome = List ℕ × Standing × List (Surroundings × List ℕ)

-- The test of is_exit behind a round.
abbrev pub go_on : Effect → Run Outcome → List (Surroundings × List ℕ) → Run Outcome
go_on (prints out) rest lines = rest >>= λ (more, standing, left). ok (out ++ more, standing, left)
go_on exits rest lines = ok ([], ended, lines)
go_on (resets out) rest lines = rest >>= λ (more, standing, left). ok (out ++ more, standing, left)

-- `loop` on the lines that are typed, each with what the commands read at that time
unfoldable pub loop : List (Surroundings × List ℕ) → Run Outcome
loop [] = ok ([], waits, [])
loop ((m, line) ∷ lines) = run_line m line >>= λ effect. go_on effect (loop lines) lines
