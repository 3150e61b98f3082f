-- ===== src/Shell/Pipeline.antt =====
-- The branch for `|` of week08Lab2/myShell2.c.
pub mod Tables
pub mod Wiring
pub mod Arguments
use unix_system_programming.Prelude.{
  ℕ, zero, suc, ◌+◌, ◌||◌, Bool, true, false, List, [], ◌∷◌, map, Option, none, some, length, ltb,
  if◌then◌else◌,
}
use unix_system_programming.Clib.{Text, codes}
use unix_system_programming.Descriptors.{File, read_end, write_end, Table, update, close, dup2}
use unix_system_programming.Shell.Execute.{max_args, expand_from}
use unix_system_programming.Shell.Sequence.{trim, split_commands, tokens}
use unix_system_programming.Shell.Words.{arguments}
use unix_system_programming.Shell.World.{
  Os, Event, complained, forked, wait_for, World, argv_overflow, Outcome, done, exited, crashed, M,
  ◌>>=◌, ◌>>◌, tell,
}

-- `int pfd[2]`.
pub record Pipe : Type 0 where
  pub reader : ℕ
  pub writer : ℕ

-- pipe(pfd): two descriptors, or none.
unfoldable pub make_pipe : Os → World → Option (Pipe × World)
make_pipe os w = elim (os.fresh w.table) [
  | none ↦ none
  | some r ↦
      let opened = update w.table r (some (read_end w.pipes)) in
      elim (os.fresh opened) [
        | none ↦ none
        | some p ↦ some (
          record { reader = r; writer = p },
          record w { table = update opened p (some (write_end w.pipes)); pipes = w.pipes + 1 },
        )
      ]
]

-- The child's calls: `if (i > 0)`, then `if (command_array[i + 1] != NULL)`.
unfoldable pub take_input : Option Pipe → Table → Table
take_input none t = t
take_input (some prev) t = close (dup2 (close t prev.writer) prev.reader 0) prev.reader

unfoldable pub give_output : Option Pipe → Table → Table
give_output none t = t
give_output (some next) t = close (dup2 (close t next.reader) next.writer 1) next.writer

abbrev pub child_table : Option Pipe → Option Pipe → Table → Table
child_table prev next t = give_output next (take_input prev t)

-- The parent closes both ends of the previous pipe.
unfoldable pub close_pipe : Option Pipe → Table → Table
close_pipe none t = t
close_pipe (some prev) t = close (close t prev.reader) prev.writer

-- What the child executes: `argv`, not the expanded arguments, which are only computed. With too
-- many of either it dies before.
unfoldable pub child_argv : Os → ℕ → Text → Option (List Text)
unfolding arguments expand_from
child_argv os now command =
    let argv = arguments command in
    if ltb max_args (length argv) || ltb max_args (length (expand_from os now argv))
    then none
    else some argv

-- fork, the child's calls, the parent's calls and its waitpid. `next` is the current pipe.
unfoldable pub start_stage : Os → Option Pipe → Option Pipe → Text → M (Unit {0})
unfolding take_input give_output close_pipe child_argv wait_for
start_stage os prev next command w =
    let id = w.clock in
    let after = record w { clock = id + 1 } in
    if os.fork_ok id
    then wait_for os id (
        tell (forked id (child_argv os (id + 1) command) (child_table prev next w.table))
          (record after { table = close_pipe prev w.table }))
    else exited 1 (tell (complained (codes "fork")) after)

-- The loop over command_array. Every stage but the last makes a pipe first.
unfoldable pub run_stages : Os → Option Pipe → List Text → M (Unit {0})
unfolding make_pipe start_stage
run_stages os prev [] w = done tt w
run_stages os prev (command ∷ []) w = start_stage os prev none command w
run_stages os prev (command ∷ after ∷ rest) w = elim (make_pipe os w) [
  | none ↦ exited 1 (tell (complained (codes "pipe")) w)
  | some (next, v) ↦
      (do start_stage os prev (some next) command; run_stages os (some next) (after ∷ rest)) v
]

-- `command_array` has MAX_ARG = 64 places, the last of them for NULL.
unfoldable pub run_pipeline : Os → Text → M (Unit {0})
unfolding tokens trim run_stages
run_pipeline os line w =
    let commands = map trim (split_commands b'|' line) in
    if ltb max_args (length commands)
    then crashed argv_overflow w
    else run_stages os none commands w
