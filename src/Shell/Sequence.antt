-- ===== src/Shell/Sequence.antt =====
-- The branch for `;` of week08Lab2/myShell2.c, and the trimming that the branch for `|` shares.
pub mod Tokens
pub mod Trim
use unix_system_programming.Prelude.{
  ℕ, zero, suc, ◌-◌, true, false, List, [], ◌∷◌, Option, none, some, length, take, get_or, ltb,
  ◌==◌, if◌then◌else◌,
}
use unix_system_programming.Clib.{Text, skip_delims, strtok}
use unix_system_programming.Shell.Execute.{max_args, expand_and_execute}
use unix_system_programming.Shell.Words.{arguments}
use unix_system_programming.Shell.World.{
  Os, World, argv_overflow, done, crashed, M, ◌>>=◌, ◌>>◌, crash, return,
}

-- `while (end > command && *end == ' ') *end-- = '\0';`, with `end` as an offset: a NUL written at
-- `end` ends the text there.
unfoldable pub trim_end : Text → ℕ → Text
trim_end command zero = command
trim_end command (suc end) = elim (get_or command (suc end) 0 == b' ') [
  | true ↦ trim_end (take (suc end) command) end
  | false ↦ command
]

-- Both loops: leading spaces are stepped over, then trailing ones cut off.
unfoldable pub trim : Text → Text
unfolding trim_end skip_delims
trim s = let command = skip_delims b' ' s in trim_end command (length command - 1)

-- The tokens that the calls of strtok return; each leaves a shorter text, so `fuel` is its length.
unfoldable pub tokens : ℕ → ℕ → Text → List Text
unfolding strtok
tokens zero d s = []
tokens (suc fuel) d s = elim (strtok d s) [
  | none ↦ []
  | some (token, rest) ↦ token ∷ tokens fuel d rest
]

abbrev pub split_commands : ℕ → Text → List Text
split_commands d line = tokens (length line) d line

-- `parse`, with `argv` as long as it is.
unfoldable pub parse_command : Text → M (List Text)
unfolding arguments
parse_command command w =
    let argv = arguments command in
    if ltb max_args (length argv) then crashed argv_overflow w else done argv w

-- The loop over the tokens: trim, parse, expand, execute.
unfoldable pub run_each : Os → List Text → M (Unit {0})
unfolding trim parse_command expand_and_execute
run_each os [] = return tt
run_each os (token ∷ rest) = do
  argv ← parse_command (trim token)
  expand_and_execute os argv
  run_each os rest

unfoldable pub run_sequence : Os → Text → M (Unit {0})
unfolding tokens run_each
run_sequence os line = run_each os (split_commands b';' line)
