-- ===== src/Tests/Sessions.antt =====
-- A session at concrete lines.
use turnix.Base.{ℕ, ◌≡◌, List, [], ◌∷◌, refl, codes, arith}
use turnix.Kernel.{ok}
use turnix.Strings.{strchr, strcmp, strtok_r, skip_delim, scan_token}
use turnix.Shell.{words, cmd_parse, cmd_find, cmd_exec, cmd_list, help}
use turnix.Session.{Surroundings, ended, loop, run_line, run_command, exec_line}
use turnix.Session.Answers.{OfWords, typed, session}
use turnix.Session.Words.{loop_refines}
use turnix.Tests.Desk.{desk}

abbrev quiet : Surroundings
quiet = record {
  clocks = record {
    ticks = 0;
    wall = record { tv_sec = 0; tv_usec = 0 };
    monotonic_clock = record { tv_sec = 0; tv_usec = 0 };
    error_code = 0;
  };
  zone = record { tz_minuteswest = 0; tz_dsttime = 0 };
  kernel = desk;
  memory = λ a. 0;
  memory_words = λ a. 0;
  address = λ t. 0;
  build = record { kernel = []; release = []; version = []; machine = [] };
}

-- "help cal", a command that is not there, "exit now", and a line behind it
abbrev lines : List (Surroundings × List (List ℕ))
lines =
    (quiet, codes "help" ∷ codes "cal" ∷ [])
    ∷ (quiet, codes "ls" ∷ [])
    ∷ (quiet, codes "exit" ∷ codes "now" ∷ [])
    ∷ (quiet, codes "ps" ∷ [])
    ∷ []

lines-OfWords : OfWords lines
unfolding strchr
lines-OfWords = (
  (
    (omega arith, (refl, (refl, (refl, (refl, tt))))),
    ((omega arith, (refl, (refl, (refl, tt)))), tt),
  ),
  (
    ((omega arith, (refl, (refl, tt))), tt),
    (
      (
        (omega arith, (refl, (refl, (refl, (refl, tt))))),
        ((omega arith, (refl, (refl, (refl, tt)))), tt),
      ),
      (((omega arith, (refl, (refl, tt))), tt), tt),
    ),
  ),
)

loop_refines_example : loop (typed lines) ≡ session lines
loop_refines_example = loop_refines lines lines-OfWords

loop-ended :
    loop (typed lines)
    ≡ ok (codes "cal: cal\nno such command: ls\n", ended, (quiet, codes "ps ") ∷ [])
unfolding loop run_line run_command exec_line words cmd_parse cmd_find cmd_exec cmd_list help strchr
    strcmp strtok_r skip_delim scan_token
loop-ended = refl
