-- ===== src/Forks.antt =====
-- The fork exercises: forkloop.c, 1fork.c, 3fork.c, test.c and week08Lab1/tryFork.c. A program
-- is run by all of its processes, so its meaning is the list of what each of them goes on with.
pub mod Counts
mod Tests
use unix_system_programming.Prelude.{
  ℕ, zero, suc, ◌-◌, Bool, true, false, List, [], ◌∷◌, ◌++◌, Option, none, some, ◌==◌,
  if◌then◌else◌,
}

-- Every process goes on with the rest of the program.
unfoldable pub each {ℓ κ} : {A : Type ℓ} {B : Type κ} → List A → (A → List B) → List B
each [] f = []
each (a ∷ rest) f = f a ++ each rest f

-- fork() returns twice: not 0 in the parent, 0 in the child.
abbrev pub fork : List Bool
fork = true ∷ false ∷ []

abbrev pub one : List (Unit {0})
one = tt ∷ []

-- `fork();`
abbrev pub fork_once : List (Unit {0})
fork_once = each fork (λ _. one)

-- `if (fork() && fork()) fork();`
unfoldable pub and_block : List (Unit {0})
unfolding each
and_block = each fork (λ a. elim a [
  | true ↦ each fork (λ b. elim b [ true ↦ fork_once | false ↦ one ])
  | false ↦ one
])

-- `if (fork() || fork()) fork();`
unfoldable pub or_block : List (Unit {0})
unfolding each
or_block = each fork (λ a. elim a [
  | true ↦ fork_once
  | false ↦ each fork (λ b. elim b [ true ↦ fork_once | false ↦ one ])
])

-- A block `n` times, one after another.
unfoldable pub times : ℕ → List (Unit {0}) → List (Unit {0})
unfolding each
times zero block = one
times (suc n) block = each block (λ _. times n block)

-- forkloop.c: `for (int i = 1; i < nprocs; i++) fork();`
unfoldable pub fork_loop : ℕ → List (Unit {0})
unfolding times
fork_loop nprocs = times (nprocs - 1) fork_once

-- 1fork.c, with its third block commented out, and 3fork.c.
unfoldable pub one_fork : List (Unit {0})
unfolding times or_block
one_fork = times 2 or_block

unfoldable pub three_fork : List (Unit {0})
unfolding times and_block
three_fork = times 3 and_block

-- One of the three stages of test.c: the child sets the count, its parent keeps it.
unfoldable pub count_stage : ℕ → ℕ → List ℕ
unfolding each
count_stage value process_count =
    each fork (λ parent. elim parent [ true ↦ process_count ∷ [] | false ↦ value ∷ [] ])

-- The stages for the given values, one after another.
unfoldable pub count_stages : List ℕ → ℕ → List ℕ
unfolding count_stage
count_stages [] process_count = process_count ∷ []
count_stages (value ∷ values) process_count =
    each (count_stage value process_count) (count_stages values)

-- test.c: what the processes print as `Process Count`.
unfoldable pub printed_counts : List ℕ
unfolding count_stages
printed_counts = count_stages (2 ∷ 4 ∷ 8 ∷ []) 1

-- The `switch (caseNum)` of tryFork.c; `none` is its default case.
unfoldable pub try_fork : ℕ → Option (List (Unit {0}))
unfolding times and_block
try_fork case_num =
    if case_num == 1
    then some (times 1 fork_once)
    else if case_num == 2
    then some (times 2 fork_once)
    else if case_num == 3
    then some (times 3 fork_once)
    else if case_num == 4
    then some (times 3 and_block)
    else if case_num == 5
    then some (times 4 fork_once)
    else none
