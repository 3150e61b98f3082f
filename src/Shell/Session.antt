-- ===== src/Shell/Session.antt =====
-- The main loop of week08Lab2/myShell2.c.
pub mod Table
pub mod Lines
pub mod Outcomes
use unix_system_programming.Prelude.{
  ℕ, zero, suc, ◌+◌, ◌-◌, ◌%◌, ◌^◌, Bool, true, false, ◌||◌, List, [], ◌∷◌, Option, none, some,
  length, take, ltb, ◌==◌, if◌then◌else◌,
}
use unix_system_programming.Clib.{Text, codes, str_case_eq, has_char, c_string, strndup, read_line}
use unix_system_programming.Shell.Execute.{max_args, execute, expand_and_execute}
use unix_system_programming.Shell.Pipeline.{run_pipeline}
use unix_system_programming.Shell.Redirect.{run_redirected}
use unix_system_programming.Shell.Sequence.{run_sequence}
use unix_system_programming.Shell.Words.{arguments}
use unix_system_programming.Shell.World.{
  Os, World, null_string, argv_overflow, line_underflow, Outcome, done, exited, crashed, M, ◌>>=◌,
  ◌>>◌, say, return, crash,
}

-- What the loop does after a line: `continue`, or `break`.
pub data Flow : Type 0 where
  again leave : Flow

abbrev pub prompt : Text
prompt = codes "{myShell2}$ "

abbrev pub then_prompt : Text → M (Unit {0}) → M Flow
then_prompt p m = do m; say p; return again

-- strndup(argv[1], strlen(argv[1]) - 2): the difference is a size_t, and wraps.
unfoldable pub output_name : Text → Text
output_name source = strndup source ((length source + 2 ^ 64 - 2) % 2 ^ 64)

-- `compile` without an argument calls strlen(NULL).
unfoldable pub compile : Os → List Text → M (Unit {0})
unfolding output_name expand_and_execute
compile os [] = crash null_string
compile os (source ∷ _) =
    expand_and_execute os (codes "gcc" ∷ source ∷ codes "-o" ∷ output_name source ∷ [])

-- The branches behind `compile`, which look at the whole line.
unfoldable pub run_by_operator : Os → Text → List Text → M (Unit {0})
unfolding has_char run_redirected run_sequence run_pipeline expand_and_execute
run_by_operator os line argv =
    if has_char b'<' line || has_char b'>' line
    then run_redirected os argv
    else if has_char b';' line
    then run_sequence os line
    else if has_char b'|' line
    then run_pipeline os line
    else expand_and_execute os argv

-- The chain of tests on argv[0]. An empty line leaves argv[0] NULL, and strcasecmp is called on it.
unfoldable pub dispatch : Text → Os → Text → List Text → M Flow
unfolding str_case_eq compile run_by_operator execute
dispatch p os line [] = crash null_string
dispatch p os line (command ∷ args) =
    if str_case_eq command (codes "exit")
    then return leave
    else if str_case_eq command (codes "listall")
    then then_prompt p (execute os (codes "ls" ∷ codes "-la" ∷ []))
    else if str_case_eq command (codes "compile")
    then then_prompt p (compile os args)
    else then_prompt p (run_by_operator os line (command ∷ args))

-- One line, with its newline gone.
unfoldable pub run_line : Text → Os → Text → M Flow
unfolding arguments dispatch
run_line p os line w =
    let argv = arguments line in
    if ltb max_args (length argv) then crashed argv_overflow w else dispatch p os line argv w

-- `line[strlen(line) - 1] = '\0'`: the last byte goes, newline or not.
unfoldable pub chop : Text → Text
chop [] = []
chop (c ∷ []) = []
chop (c ∷ d ∷ s) = c ∷ chop (d ∷ s)

-- What fgets(line, sizeof(line), stdin) leaves to read; sizeof(line) is MAX_LINE.
abbrev pub max_line : ℕ
max_line = 4095

-- The body of the loop, on the bytes that fgets has put into `line`. A line that begins with NUL
-- writes in front of the array.
unfoldable pub run_bytes : Text → Os → List ℕ → M Flow
unfolding c_string chop run_line
run_bytes p os bytes w = elim (c_string bytes) [
  | [] ↦ crashed line_underflow w
  | c ∷ s ↦ run_line p os (chop (c ∷ s)) w
]

-- `while (fgets(...) != NULL)`: every round takes a byte at least, so the input's length is fuel
-- enough. At the end of the input, and after `exit`, main returns 0.
unfoldable pub loop : Text → ℕ → Os → List ℕ → M (Unit {0})
unfolding read_line run_bytes
loop p fuel os [] w = exited 0 w
loop p zero os (c ∷ cs) w = done tt w
loop p (suc fuel) os (c ∷ cs) w =
    let (bytes, rest) = read_line max_line (c ∷ cs) in
    elim (run_bytes p os bytes w) [
      | done flow v ↦ elim flow [ again ↦ loop p fuel os rest v | leave ↦ exited 0 v ]
      | exited n v ↦ exited n v
      | crashed e v ↦ crashed e v
    ]

-- `main` with the shell's prompt as an argument; week08Lab2/pipeloop.c is the same program under
-- another prompt.
unfoldable pub main_with : Text → Os → List ℕ → M (Unit {0})
unfolding loop
main_with p os input = do say p; loop p (length input) os input

unfoldable pub main : Os → List ℕ → M (Unit {0})
unfolding main_with
main = main_with prompt

unfoldable pub pipeloop_main : Os → List ℕ → M (Unit {0})
unfolding main_with
pipeloop_main = main_with (codes "{myShell1}$ ")
