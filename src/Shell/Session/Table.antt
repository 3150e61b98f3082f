-- ===== src/Shell/Session/Table.antt =====
-- The shell's descriptors from one line to the next.
use unix_system_programming.Prelude.{
  ◌≡◌, refl, sym, ap, ◌∙◌, ◌||◌, List, [], ◌∷◌, map, some, length, ltb, Bool-cases, inl, inr, arith,
}
use unix_system_programming.Clib.{Text, codes, str_case_eq, has_char}
use unix_system_programming.Descriptors.{File, Table, IsFresh, ◌≈◌}
use unix_system_programming.Shell.Execute.Keeps.{execute_table, expand_and_execute_table}
use unix_system_programming.Shell.Execute.{max_args, execute, expand_and_execute}
use unix_system_programming.Shell.Pipeline.Wiring.{run_stages_wired}
use unix_system_programming.Shell.Pipeline.{run_pipeline}
use unix_system_programming.Shell.Redirect.Restores.{run_redirected_restores}
use unix_system_programming.Shell.Sequence.{trim, split_commands, parse_command, run_each}
use unix_system_programming.Shell.Session.{
  Flow, then_prompt, compile, output_name, run_by_operator, dispatch, run_line,
}
use unix_system_programming.Shell.Words.{arguments}
use unix_system_programming.Shell.World.Laws.{bind-eq-done, done_world}
use unix_system_programming.Shell.World.{Os, World, done, M}

parse_command_same :
    (command : Text) (w : World) {argv : List Text} {v : World}
    → parse_command command w ≡ done argv v
    → v.table ≡ w.table
unfolding parse_command
parse_command_same command w h = ground arith

run_each_table :
    (os : Os) (tokens : List Text) (w : World) {v : World}
    → run_each os tokens w ≡ done tt v
    → v.table ≡ w.table
unfolding run_each
run_each_table os [] w h = ap (λ (x : World). x.table) (sym (done_world h))
run_each_table os (token ∷ rest) w {v} h =
    let (argv, u, e, r) = bind-eq-done (parse_command (trim token)) _ w {b = tt} {v = v} h in
    let (_, x, e', r') =
      bind-eq-done (expand_and_execute os argv) (λ _. run_each os rest) u {b = tt} {v = v} r in
    run_each_table os rest x r'
    ∙ expand_and_execute_table os argv u e'
    ∙ parse_command_same (trim token) w e

run_pipeline_table :
    (os : Os) (line : Text) (w : World) {f g : File} {v : World}
    → IsFresh os.fresh
    → w.table 0 ≡ some f
    → w.table 1 ≡ some g
    → run_pipeline os line w ≡ done tt v
    → v.table ≈ w.table
unfolding run_pipeline
run_pipeline_table os line w {f} {g} {v} law o0 o1 h =
    let commands = map trim (split_commands b'|' line) in
    elim (Bool-cases (ltb max_args (length commands))) [
      | inl e ↦ cc (rw (e, run_pipeline) at h)
      | inr e ↦
          (run_stages_wired os w.table f g law o0 o1 commands w (λ k. refl)
            (rw (e, run_pipeline) at h)).same_table
    ]

compile_table :
    (os : Os) (args : List Text) (w : World) {v : World}
    → compile os args w ≡ done tt v
    → v.table ≡ w.table
unfolding compile
compile_table os [] w h = cc
compile_table os (a ∷ args) w h =
    expand_and_execute_table os (codes "gcc" ∷ a ∷ codes "-o" ∷ output_name a ∷ []) w h

module _ (os : Os) (f g : File) (law : IsFresh os.fresh) where
  run_by_operator_table :
      (line : Text) (argv : List Text) (w : World) {v : World}
      → w.table 0 ≡ some f
      → w.table 1 ≡ some g
      → run_by_operator os line argv w ≡ done tt v
      → v.table ≈ w.table
  unfolding run_by_operator
  run_by_operator_table line argv w o0 o1 h =
      elim (Bool-cases (has_char b'<' line || has_char b'>' line)) [
        | inl e ↦ run_redirected_restores os argv w law o0 o1 (rw (e, run_by_operator) at h)
        | inr e ↦ elim (Bool-cases (has_char b';' line)) [
          | inl e' ↦ λ k.
              ap (λ (t : Table). t k)
                (run_each_table os (split_commands b';' line) w (rw (e, e', run_by_operator) at h))
          | inr e' ↦ elim (Bool-cases (has_char b'|' line)) [
            | inl e'' ↦
                run_pipeline_table os line w law o0 o1 (rw (e, e', e'', run_by_operator) at h)
            | inr e'' ↦ λ k.
                ap (λ (t : Table). t k)
                  (expand_and_execute_table os argv w (rw (e, e', e'', run_by_operator) at h))
          ]
        ]
      ]

  then_prompt_table :
      (p : Text) (m : M (Unit {0})) (w : World) {flow : Flow} {v : World}
      → ((u : World) → m w ≡ done tt u → u.table ≈ w.table)
      → then_prompt p m w ≡ done flow v
      → v.table ≈ w.table
  then_prompt_table p m w {flow} {v} keeps h k =
      let (_, u, e, r) = bind-eq-done m _ w {b = flow} {v = v} h in
      ap (λ (x : World). x.table k) (sym (done_world r)) ∙ keeps u e k

  dispatch_table :
      (p line : Text) (argv : List Text) (w : World) {flow : Flow} {v : World}
      → w.table 0 ≡ some f
      → w.table 1 ≡ some g
      → dispatch p os line argv w ≡ done flow v
      → v.table ≈ w.table
  unfolding dispatch
  dispatch_table p line [] w o0 o1 h = cc
  dispatch_table p line (command ∷ args) w o0 o1 h =
      elim (Bool-cases (str_case_eq command (codes "exit"))) [
        | inl e ↦ λ k. ap (λ (x : World). x.table k) (sym (done_world (rw (e, dispatch) at h)))
        | inr e ↦ elim (Bool-cases (str_case_eq command (codes "listall"))) [
          | inl e' ↦
              then_prompt_table p (execute os (codes "ls" ∷ codes "-la" ∷ [])) w
                (λ u ran k. ap (λ (t : Table). t k) (execute_table os _ w ran))
                (rw (e, e', dispatch) at h)
          | inr e' ↦ elim (Bool-cases (str_case_eq command (codes "compile"))) [
            | inl e'' ↦
                then_prompt_table p (compile os args) w
                  (λ u ran k. ap (λ (t : Table). t k) (compile_table os args w ran))
                  (rw (e, e', e'', dispatch) at h)
            | inr e'' ↦
                then_prompt_table p (run_by_operator os line (command ∷ args)) w
                  (λ u ran. run_by_operator_table line (command ∷ args) w o0 o1 ran)
                  (rw (e, e', e'', dispatch) at h)
          ]
        ]
      ]

  -- With standard input and output open, a line that the shell gets through, whatever its commands,
  -- redirections, sequences and pipes, leaves every descriptor of the shell as it was.
  pub run_line_table :
      (p line : Text) (w : World) {flow : Flow} {v : World}
      → w.table 0 ≡ some f
      → w.table 1 ≡ some g
      → run_line p os line w ≡ done flow v
      → v.table ≈ w.table
  unfolding run_line
  run_line_table p line w o0 o1 h = elim (Bool-cases (ltb max_args (length (arguments line)))) [
    | inl e ↦ cc (rw (e, run_line) at h)
    | inr e ↦ dispatch_table p line (arguments line) w o0 o1 (rw (e, run_line) at h)
  ]
