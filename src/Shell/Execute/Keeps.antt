-- ===== src/Shell/Execute/Keeps.antt =====
-- What running a command leaves alone.
use unix_system_programming.Prelude.{ℕ, ◌+◌, List, [], ◌∷◌, ◌≡◌, refl, none, arith, ap, ◌∙◌}
use unix_system_programming.Clib.{Text}
use unix_system_programming.Shell.Execute.{
  execute, expand_from, expand_wildcards, expand_and_execute,
}
use unix_system_programming.Shell.World.Laws.{bind-eq-done}
use unix_system_programming.Shell.World.{Os, World, done}

pub execute_table :
    (os : Os) (argv : List Text) (w : World) {v : World}
    → execute os argv w ≡ done tt v
    → v.table ≡ w.table
unfolding execute
execute_table os argv w h = ground arith

expand_wildcards_table :
    (os : Os) (argv : List Text) (w : World) {a : List Text} {v : World}
    → expand_wildcards os argv w ≡ done a v
    → v.table ≡ w.table
unfolding expand_wildcards
expand_wildcards_table os argv w h = ground arith

pub expand_and_execute_table :
    (os : Os) (argv : List Text) (w : World) {v : World}
    → expand_and_execute os argv w ≡ done tt v
    → v.table ≡ w.table
unfolding expand_and_execute
expand_and_execute_table os argv w h =
    let (expanded, u, e, r) = bind-eq-done (expand_wildcards os argv) (execute os) w h in
    execute_table os expanded u r ∙ expand_wildcards_table os argv w e

-- Where nothing matches, the arguments stay as they are.
pub expand_from_self :
    (os : Os) (now : ℕ) (argv : List Text)
    → ((n : ℕ) (a : Text) → os.glob n a ≡ none)
    → expand_from os now argv ≡ argv
unfolding expand_from
expand_from_self os now [] h = refl
expand_from_self os now (a ∷ rest) h =
    rw (h now a) (ap (◌∷◌ a) (expand_from_self os (now + 1) rest h))
