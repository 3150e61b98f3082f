-- ===== src/Shell/ThreePipe.antt =====
-- week08Lab2/3pipe.c: execute_pipeline, a pipeline over commands that are argument arrays already.
pub mod Wiring
use unix_system_programming.Prelude.{ℕ, ◌+◌, List, [], ◌∷◌, Option, none, some, if◌then◌else◌}
use unix_system_programming.Clib.{Text, codes}
use unix_system_programming.Descriptors.{Table, close, dup2}
use unix_system_programming.Shell.Pipeline.{Pipe, make_pipe, close_pipe}
use unix_system_programming.Shell.World.{
  Os, complained, forked, wait_for, World, done, exited, M, ◌>>=◌, ◌>>◌, tell,
}

-- The child's calls: here both ends are closed after dup2.
unfoldable pub connect_input : Option Pipe → Table → Table
connect_input none t = t
connect_input (some prev) t = close (close (dup2 t prev.reader 0) prev.reader) prev.writer

unfoldable pub connect_output : Option Pipe → Table → Table
connect_output none t = t
connect_output (some next) t = close (close (dup2 t next.writer 1) next.reader) next.writer

abbrev pub connected : Option Pipe → Option Pipe → Table → Table
connected prev next t = connect_output next (connect_input prev t)

-- fork, the child's calls and its execvp, the parent's calls and its waitpid.
unfoldable pub start_command : Os → Option Pipe → Option Pipe → List Text → M (Unit {0})
unfolding connect_input connect_output wait_for
start_command os prev next argv w =
    let id = w.clock in
    let after = record w { clock = id + 1 } in
    if os.fork_ok id
    then wait_for os id (
        tell (forked id (some argv) (connected prev next w.table))
          (record after { table = close_pipe prev w.table }))
    else exited 1 (tell (complained (codes "fork")) after)

unfoldable pub execute_pipeline : Os → Option Pipe → List (List Text) → M (Unit {0})
unfolding start_command
execute_pipeline os prev [] w = done tt w
execute_pipeline os prev (argv ∷ []) w = start_command os prev none argv w
execute_pipeline os prev (argv ∷ after ∷ rest) w = elim (make_pipe os w) [
  | none ↦ exited 1 (tell (complained (codes "pipe")) w)
  | some (next, v) ↦
      (do start_command os prev (some next) argv; execute_pipeline os (some next) (after ∷ rest)) v
]

-- `main`: ls /home/ | grep txt | wc -l.
unfoldable pub three_pipe_main : Os → M (Unit {0})
unfolding execute_pipeline
three_pipe_main os = execute_pipeline os none (
    (codes "ls" ∷ codes "/home/" ∷ [])
    ∷ (codes "grep" ∷ codes "txt" ∷ [])
    ∷ (codes "wc" ∷ codes "-l" ∷ [])
    ∷ [])
