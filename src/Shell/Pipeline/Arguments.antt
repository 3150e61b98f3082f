-- ===== src/Shell/Pipeline/Arguments.antt =====
-- The arguments of a pipeline's stages.
use unix_system_programming.Prelude.{ℕ, ◌≤◌, ◌≡◌, ap, ◌∙◌, false, List, some, length, ltb, arith}
use unix_system_programming.Clib.{Text}
use unix_system_programming.Shell.Execute.{max_args, expand_from}
use unix_system_programming.Shell.Pipeline.{child_argv}
use unix_system_programming.Shell.Words.InPlace.{IsText, words, arguments_lem}
use unix_system_programming.Shell.Words.{arguments}
use unix_system_programming.Shell.World.{Os}

child_argv-arguments :
    (os : Os) (now : ℕ) (command : Text)
    → ltb max_args (length (arguments command)) ≡ false
    → ltb max_args (length (expand_from os now (arguments command))) ≡ false
    → child_argv os now command ≡ some (arguments command)
unfolding child_argv
child_argv-arguments os now command a b = rw (a, b, child_argv)

fits : (n : ℕ) → n ≤ max_args → ltb max_args n ≡ false
fits n h = ground arith

-- A stage executes the words of its command as they were typed, whatever files its wildcards match.
pub child_argv-words :
    (os : Os) (now : ℕ) (command : Text)
    → IsText command
    → length (words command) ≤ max_args
    → length (expand_from os now (words command)) ≤ max_args
    → child_argv os now command ≡ some (words command)
child_argv-words os now command t few few' =
    let same = arguments_lem command t in
    child_argv-arguments os now command
      (ap (λ (l : List Text). ltb max_args (length l)) same ∙ fits _ few)
      (ap (λ (l : List Text). ltb max_args (length (expand_from os now l))) same ∙ fits _ few')
    ∙ ap some same
