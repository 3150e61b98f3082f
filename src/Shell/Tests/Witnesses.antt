-- ===== src/Shell/Tests/Witnesses.antt =====
-- The theorems about the shells at inputs that meet their hypotheses.
use unix_system_programming.Prelude.{
  ℕ, zero, suc, ◌≡◌, refl, ◌⊎◌, List, [], ◌∷◌, ◌++◌, none, some, arith, if◌then◌else◌, ◌==◌,
}
use unix_system_programming.Clib.Pieces.{all_pieces, non_empty}
use unix_system_programming.Clib.{Text, codes, str_eq}
use unix_system_programming.Descriptors.{inherited, Table, ◌≈◌, update, read_end, write_end}
use unix_system_programming.Shell.Pipeline.Tables.{HoldsPipe}
use unix_system_programming.Shell.Pipeline.Wiring.{Ran, run_stages_wired}
use unix_system_programming.Shell.Pipeline.{run_stages}
use unix_system_programming.Shell.Redirect.Grammar.{
  Reads, render, after_items, IsOperator, scan_argv-Reads,
}
use unix_system_programming.Shell.Redirect.Restores.{run_redirected_restores}
use unix_system_programming.Shell.Redirect.{run_redirected, scan_argv, no_redirection}
use unix_system_programming.Shell.Sequence.Tokens.{tokens-pieces, is_delim}
use unix_system_programming.Shell.Sequence.{tokens}
use unix_system_programming.Shell.Session.Lines.{unlines, run_lines, main_with-unlines}
use unix_system_programming.Shell.Session.Table.{run_line_table}
use unix_system_programming.Shell.Session.{again, prompt, run_line, main_with}
use unix_system_programming.Shell.Tests.{os, os_fresh, start, start_table}
use unix_system_programming.Shell.Words.Bounds.{InBounds, parse-InBounds}
use unix_system_programming.Shell.Words.InPlace.{words, arguments_lem}
use unix_system_programming.Shell.Words.{arguments, parse}
use unix_system_programming.Shell.World.{World, Outcome, done, exited, crashed, tell, printed}

abbrev after : {A : Type 0} → Outcome A → World
after (done a w) = w
after (exited n w) = w
after (crashed e w) = w

run_line_table_example : (after (run_line prompt os (codes "cat < f") start)).table ≈ start_table
unfolding run_line str_eq update
run_line_table_example =
    run_line_table os (inherited 0) (inherited 1) os_fresh prompt (codes "cat < f") start
      {flow = again} refl refl refl

abbrev stages : List Text
stages = codes "cat f" ∷ codes "sort" ∷ codes "wc -l" ∷ []

run_stages_wired_example :
    Ran os start_table none stages start (after (run_stages os none stages start))
unfolding run_stages update
run_stages_wired_example =
    run_stages_wired os start_table (inherited 0) (inherited 1) os_fresh refl refl stages start
      (λ k. refl) refl

abbrev two_lines : List Text
two_lines = codes "ls" ∷ codes "exit" ∷ []

main_with-unlines_example :
    main_with prompt os (unlines two_lines) start
    ≡ run_lines prompt os two_lines (tell (printed prompt) start)
main_with-unlines_example = main_with-unlines prompt os two_lines start (omega arith)

arguments_lem_example : arguments (codes "ls  -l ") ≡ words (codes "ls  -l ")
arguments_lem_example = arguments_lem (codes "ls  -l ") (omega arith)

abbrev sort_line : List Text
sort_line = codes "sort" ∷ codes "<" ∷ codes "in" ∷ codes ">" ∷ codes "out" ∷ []

run_redirected_restores_example : (after (run_redirected os sort_line start)).table ≈ start_table
unfolding run_redirected str_eq update
run_redirected_restores_example =
    run_redirected_restores os sort_line start {f = inherited 0} {g = inherited 1} os_fresh refl
      refl refl

scan_argv-Reads_example :
    ((r : Reads sort_line) × (sort_line ≡ render r.items)
      × (scan_argv sort_line no_redirection ≡ some (after_items r.items no_redirection)))
    ⊎ ((r : Reads sort_line) × (operator : Text) × IsOperator operator
        × (sort_line ≡ render r.items ++ operator ∷ [])
        × (scan_argv sort_line no_redirection ≡ none))
scan_argv-Reads_example = scan_argv-Reads sort_line

tokens-pieces_example :
    tokens 9 b';' (codes "a;;b c; d") ≡ non_empty (all_pieces (is_delim b';') (codes "a;;b c; d"))
tokens-pieces_example = tokens-pieces 9 b';' (codes "a;;b c; d") (omega arith)

abbrev many : ℕ → Text
many zero = codes "ls"
many (suc n) = b'a' ∷ b' ' ∷ many n

parse-InBounds_example : InBounds (codes "ls  -l ") (parse (codes "ls  -l "))
parse-InBounds_example = parse-InBounds (codes "ls  -l ")

abbrev pipe_table : Table
pipe_table fd =
    if fd == 3 then some (read_end 0) else if fd == 4 then some (write_end 0) else start_table fd

first_pipe : HoldsPipe start_table pipe_table (record { reader = 3; writer = 4 }) 0
first_pipe = record {
  reads = refl;
  writes = refl;
  free_reader = refl;
  free_writer = refl;
  others = λ k a b. ground arith;
}
