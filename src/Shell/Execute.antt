-- ===== src/Shell/Execute.antt =====
-- `execute` and `expand_wildcards` of week08Lab2/myShell2.c, pipeloop.c and tryShell1.c.
pub mod Keeps
use unix_system_programming.Prelude.{
  ℕ, ◌+◌, List, [], ◌∷◌, ◌++◌, Option, none, some, length, ltb, if◌then◌else◌,
}
use unix_system_programming.Clib.{Text, codes}
use unix_system_programming.Shell.World.{
  Os, Event, printed, forked, World, argv_overflow, done, exited, crashed, M, ◌>>=◌, tell, wait_for,
}

-- The pointers that `char *argv[64]` has room for, before the NULL.
abbrev pub max_args : ℕ
max_args = 63

-- fork; the child calls execvp, and its parent waits for that child. A child whose execvp fails
-- prints a message and exits, which its parent does not see.
unfoldable pub execute : Os → List Text → M (Unit {0})
unfolding wait_for
execute os argv w =
    let id = w.clock in
    let after = record w { clock = id + 1 } in
    if os.fork_ok id
    then wait_for os id (tell (forked id (some argv) w.table) after)
    else exited 1 (tell (printed (codes "**ERROR: Forking child process failed \n")) after)

-- One argument: its matches, or the argument itself.
unfoldable pub expand_one : Option (List Text) → Text → List Text
expand_one (some paths) arg = paths
expand_one none arg = arg ∷ []

-- The loop over argv, from a number of questions on.
unfoldable pub expand_from : Os → ℕ → List Text → List Text
unfolding expand_one
expand_from os now [] = []
expand_from os now (arg ∷ args) = expand_one (os.glob now arg) arg ++ expand_from os (now + 1) args

-- `expanded_argv` has 64 places, the last of them for NULL.
unfoldable pub expand_wildcards : Os → List Text → M (List Text)
unfolding expand_from
expand_wildcards os argv w =
    let after = record w { clock = w.clock + length argv } in
    let expanded = expand_from os w.clock argv in
    if ltb max_args (length expanded) then crashed argv_overflow after else done expanded after

-- What every plain command ends in.
unfoldable pub expand_and_execute : Os → List Text → M (Unit {0})
unfolding expand_wildcards execute
expand_and_execute os argv = do expanded ← expand_wildcards os argv; execute os expanded
