-- ===== src/Forks/Tests.antt =====
-- The fork exercises as they are run.
use unix_system_programming.Prelude.{ℕ, ◌≡◌, refl, List, [], ◌∷◌, Option, none, some, length}
use unix_system_programming.Forks.{one_fork, three_fork, printed_counts, try_fork}

one_fork_test : length one_fork ≡ 25
unfolding one_fork
one_fork_test = refl

three_fork_test : length three_fork ≡ 64
unfolding three_fork
three_fork_test = refl

-- Of the eight processes of test.c four print 8, and the first prints 1.
printed_counts_test : printed_counts ≡ 1 ∷ 8 ∷ 4 ∷ 8 ∷ 2 ∷ 8 ∷ 4 ∷ 8 ∷ []
unfolding printed_counts
printed_counts_test = refl

abbrev processes : Option (List (Unit {0})) → ℕ
processes none = 0
processes (some ps) = length ps

try_fork_test :
    (processes (try_fork 3) ≡ 8)
    × (processes (try_fork 4) ≡ 64)
    × (processes (try_fork 5) ≡ 16)
    × (try_fork 6 ≡ none)
unfolding try_fork
try_fork_test = (refl, refl, refl, refl)
