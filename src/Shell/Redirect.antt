-- ===== src/Shell/Redirect.antt =====
-- The branch for `<` and `>` of week08Lab2/myShell2.c, and `fileRedir`.
pub mod Restores
pub mod Grammar
use unix_system_programming.Prelude.{
  ℕ, ◌+◌, Bool, true, false, List, [], ◌∷◌, ◌++◌, Option, none, some, if◌then◌else◌,
}
use unix_system_programming.Clib.{Text, codes, str_eq}
use unix_system_programming.Descriptors.{File, reading, writing, Table, update, close, dup2}
use unix_system_programming.Shell.Execute.{expand_and_execute}
use unix_system_programming.Shell.World.{
  Os, complained, World, Fault, argv_past_end, Outcome, done, crashed, M, ◌>>=◌, ◌>>◌, tell,
}

-- The files named behind `<` and `>`, and the command without them.
pub record Redirection : Type 0 where
  pub input_file : Option Text
  pub output_file : Option Text
  pub argv2 : List Text

abbrev pub no_redirection : Redirection
no_redirection = record { input_file = none; output_file = none; argv2 = [] }

abbrev add_arg : Text → Redirection → Redirection
add_arg a r = record r { argv2 = r.argv2 ++ a ∷ [] }

-- The loop over argv. A `<` or `>` at the end stores NULL, steps over it, and reads on behind the
-- array's terminator: `none`.
unfoldable pub scan_argv : List Text → Redirection → Option Redirection
scan_argv [] r = some r
scan_argv (a ∷ []) r =
    if str_eq a (codes "<") then none else if str_eq a (codes ">") then none else some (add_arg a r)
scan_argv (a ∷ b ∷ rest) r = elim (str_eq a (codes "<")) [
  | true ↦ scan_argv rest (record r { input_file = some b })
  | false ↦ elim (str_eq a (codes ">")) [
    | true ↦ scan_argv rest (record r { output_file = some b })
    | false ↦ scan_argv (b ∷ rest) (add_arg a r)
  ]
]

abbrev set_table : Table → World → World
set_table t w = record w { table = t }

-- `fileRedir`: open, dup2 to the standard descriptor, close. A failed open is reported, and the
-- command runs all the same.
unfoldable pub file_redir : Os → File → ℕ → Text → World → World
file_redir os f std name w =
    let after = record w { clock = w.clock + 1 } in
    let opened = if os.open_ok w.clock name then os.fresh w.table else none in
    elim opened [
      | none ↦ tell (complained name) after
      | some fd ↦ set_table (close (dup2 (update w.table fd (some f)) fd std) fd) after
    ]

-- No file is named: nothing is redirected.
unfoldable pub redirect_stdin : Os → Option Text → World → World
unfolding file_redir
redirect_stdin os none w = w
redirect_stdin os (some name) w = file_redir os (reading name) 0 name w

unfoldable pub redirect_stdout : Os → Option Text → World → World
unfolding file_redir
redirect_stdout os none w = w
redirect_stdout os (some name) w = file_redir os (writing name) 1 name w

-- dup(fd): the copy's number, if the kernel has one left.
unfoldable pub dup : Os → ℕ → World → Option ℕ × World
dup os fd w = elim (w.table fd) [
  | none ↦ (none, w)
  | some f ↦ elim (os.fresh w.table) [
    | none ↦ (none, w)
    | some copy ↦ (some copy, set_table (update w.table copy (some f)) w)
  ]
]

-- dup2(original, std): on -1, which a failed dup returned, the call fails and changes nothing.
unfoldable pub restore : Option ℕ → ℕ → World → World
restore none std w = w
restore (some copy) std w = set_table (dup2 w.table copy std) w

unfoldable pub drop_copy : Option ℕ → World → World
drop_copy none w = w
drop_copy (some copy) w = set_table (close w.table copy) w

-- The two standard descriptors are restored, then their copies closed.
unfoldable pub restore_both : Option ℕ → Option ℕ → World → World
unfolding restore drop_copy
restore_both original_stdin original_stdout w =
    let w1 = restore original_stdin 0 w in
    let w2 = restore original_stdout 1 w1 in
    let w3 = drop_copy original_stdin w2 in drop_copy original_stdout w3

abbrev apply : (World → World) → M (Unit {0})
apply f w = done tt (f w)

-- The branch, from the saved descriptors to their restoration; the prompt follows in the session.
unfoldable pub run_redirected : Os → List Text → M (Unit {0})
unfolding scan_argv redirect_stdin redirect_stdout dup restore_both expand_and_execute
run_redirected os argv w =
    let (original_stdin, w1) = dup os 0 w in
    let (original_stdout, w2) = dup os 1 w1 in
    elim (scan_argv argv no_redirection) [
      | none ↦ crashed argv_past_end w2
      | some r ↦
          (do
            apply (redirect_stdin os r.input_file)
            apply (redirect_stdout os r.output_file)
            expand_and_execute os r.argv2
            apply (restore_both original_stdin original_stdout))
            w2
    ]
