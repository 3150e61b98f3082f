-- ===== src/Shell/Basic.antt =====
-- The shells that came before myShell2: week06Lab2/simple-shell0.c and myshell.c, which hand a line
-- to system(); week07Lab1/tryShell.c, which parses and executes; week07Lab1/tryShell1.c, and its copy
-- week08Lab1/tryShell1.c, which add the built-in commands.
pub mod Laws
use unix_system_programming.Prelude.{
  ℕ, zero, suc, ◌+◌, Bool, true, false, List, [], ◌∷◌, ◌++◌, Option, none, some, length, ltb, ◌==◌,
  if◌then◌else◌,
}
use unix_system_programming.Clib.{Text, codes, str_eq, str_case_eq, c_string, read_line, cut_token}
use unix_system_programming.Shell.Execute.{max_args, execute, expand_and_execute}
use unix_system_programming.Shell.Session.{Flow, again, leave, then_prompt, compile, chop}
use unix_system_programming.Shell.Words.{arguments}
use unix_system_programming.Shell.World.{
  Os, World, null_string, argv_overflow, line_underflow, Outcome, done, exited, crashed, M, ◌>>=◌,
  ◌>>◌, say, return, crash,
}

-- A shell's loop over fgets(line, size, stdin), for a body that works on the bytes read.
unfoldable pub fgets_loop : ℕ → (List ℕ → M Flow) → ℕ → List ℕ → M (Unit {0})
unfolding read_line
fgets_loop size body fuel [] w = exited 0 w
fgets_loop size body zero (c ∷ cs) w = done tt w
fgets_loop size body (suc fuel) (c ∷ cs) w =
    let (bytes, rest) = read_line size (c ∷ cs) in
    elim (body bytes w) [
      | done flow v ↦ elim flow [ again ↦ fgets_loop size body fuel rest v | leave ↦ exited 0 v ]
      | exited n v ↦ exited n v
      | crashed e v ↦ crashed e v
    ]

-- `line[strlen(line) - 1] = '\0'` in front of a body that works on the line.
unfoldable pub without_newline : (Text → M Flow) → List ℕ → M Flow
unfolding c_string chop
without_newline body bytes w = elim (c_string bytes) [
  | [] ↦ crashed line_underflow w
  | c ∷ s ↦ body (chop (c ∷ s)) w
]

-- system(line): /bin/sh runs the line, and is waited for. Its failure to start is not looked at.
unfoldable pub system : Os → Text → M (Unit {0})
system os line w = elim (os.fork_ok w.clock) [
  | true ↦ execute os (codes "sh" ∷ codes "-c" ∷ line ∷ []) w
  | false ↦ done tt (record w { clock = w.clock + 1 })
]

unfoldable pub simple_shell0_line : Os → Text → M Flow
unfolding system
simple_shell0_line os line = then_prompt (codes "sh1 % ") (system os line)

unfoldable pub simple_shell0_main : Os → List ℕ → M (Unit {0})
unfolding fgets_loop without_newline simple_shell0_line
simple_shell0_main os input = do
  say (codes "sh1 % ")
  fgets_loop 255 (without_newline (simple_shell0_line os)) (length input) input

-- myshell.c: `exit` in any case, two words of its own, and system() for the rest.
unfoldable pub myshell_line : Os → Text → M Flow
unfolding system str_eq str_case_eq
myshell_line os line =
    if str_case_eq line (codes "exit")
    then return leave
    else if str_eq line (codes "listall")
    then then_prompt (codes "{myshell}$ ") (system os (codes "ls -la"))
    else if str_eq line (codes "showme")
    then then_prompt (codes "{myshell}$ ") (system os (codes "w | grep \"txn\""))
    else then_prompt (codes "{myshell}$ ") (system os line)

unfoldable pub myshell_main : Os → List ℕ → M (Unit {0})
unfolding fgets_loop without_newline myshell_line
myshell_main os input = do
  say (codes "{myshell}$ ")
  fgets_loop 255 (without_newline (myshell_line os)) (length input) input

-- tryShell.c: `line[strcspn(line, "\n")] = '\0'` takes the newline away only where there is one; the
-- prompt stands at the head of the loop.
unfoldable pub tryshell_line : Os → List ℕ → M (Unit {0})
unfolding c_string cut_token arguments execute
tryshell_line os bytes w =
    let line = (cut_token b'\n' (c_string bytes)).0 in
    let argv = arguments line in
    (do
      say (codes "\n")
      (λ v. if ltb max_args (length argv) then crashed argv_overflow v else execute os argv v))
      w

-- `while (1)`: at the end of the input fgets fails, and the loop goes on. `rounds` is how often it
-- is run.
unfoldable pub tryshell_loop : ℕ → Os → List ℕ → M (Unit {0})
unfolding read_line tryshell_line
tryshell_loop zero os input w = done tt w
tryshell_loop (suc rounds) os [] w = (do say (codes "Shell -> "); tryshell_loop rounds os []) w
tryshell_loop (suc rounds) os (c ∷ cs) w =
    let (bytes, rest) = read_line 1023 (c ∷ cs) in
    (do say (codes "Shell -> "); tryshell_line os bytes; tryshell_loop rounds os rest) w

-- tryShell1.c: the chain of tests on argv[0].
unfoldable pub tryshell1_dispatch : Text → Os → List Text → M Flow
unfolding str_case_eq compile execute expand_and_execute
tryshell1_dispatch p os [] = crash null_string
tryshell1_dispatch p os (command ∷ args) =
    if str_case_eq command (codes "exit")
    then return leave
    else if str_case_eq command (codes "listall")
    then then_prompt p (execute os (codes "ls" ∷ codes "-la" ∷ []))
    else if str_case_eq command (codes "compile")
    then then_prompt p (compile os args)
    else then_prompt p (expand_and_execute os (command ∷ args))

unfoldable pub tryshell1_line : Text → Os → Text → M Flow
unfolding arguments tryshell1_dispatch
tryshell1_line p os line w =
    let argv = arguments line in
    if ltb max_args (length argv) then crashed argv_overflow w else tryshell1_dispatch p os argv w

abbrev pub tryshell1_prompt : Text
tryshell1_prompt = codes "{tryShell1}$ "

unfoldable pub tryshell1_main : Os → List ℕ → M (Unit {0})
unfolding fgets_loop without_newline tryshell1_line
tryshell1_main os input = do
  say tryshell1_prompt
  fgets_loop 4095 (without_newline (tryshell1_line tryshell1_prompt os)) (length input) input

-- The copy in week08Lab1.
unfoldable pub week08_tryshell1_main : Os → List ℕ → M (Unit {0})
unfolding tryshell1_main
week08_tryshell1_main = tryshell1_main
