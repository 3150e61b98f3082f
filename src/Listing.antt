-- ===== src/Listing.antt =====
-- week07Lab2/ls1.c and ls2.c: the loops over a directory's entries. What stat and lstat say of an entry
-- is given with it.
pub mod Laws
mod Tests
use unix_system_programming.Prelude.{
  ℕ, ◌+◌, Bool, true, false, List, [], ◌∷◌, ◌++◌, Option, none, some,
}
use unix_system_programming.Clib.{Text}

-- What the chain of S_ISREG, S_ISDIR, … finds in st_mode.
pub data Kind : Type 0 where
  regular directory char_special block_special fifo symlink socket unknown : Kind

-- An entry: its name, and the results of stat and lstat on it (`none` is -1).
pub record Entry : Type 0 where
  pub name : Text
  pub stat : Option Kind
  pub lstat : Option Kind

-- What ls1 writes: a kind with the call that the line names, or a message that a call failed.
pub data Line : Type 0 where
  with_stat with_lstat : Text → Kind → Line
  cannot_stat not_for_stat : Text → Line

-- Behind the first part of ls1's loop body: lstat once more, for the second line.
unfoldable pub report_lstat : Entry → List Line
report_lstat e = elim e.lstat [
  | none ↦ not_for_stat e.name ∷ []
  | some k ↦ with_lstat e.name k ∷ []
]

-- The body of ls1's loop. Where stat fails lstat stands in for it, and its kind is printed as stat's.
unfoldable pub report : Entry → List Line
unfolding report_lstat
report e = elim e.stat [
  | some k ↦ with_stat e.name k ∷ report_lstat e
  | none ↦ elim e.lstat [
    | none ↦ cannot_stat e.name ∷ cannot_stat e.name ∷ []
    | some k ↦ cannot_stat e.name ∷ with_stat e.name k ∷ report_lstat e
  ]
]

unfoldable pub ls1 : List Entry → List Line
unfolding report
ls1 [] = []
ls1 (e ∷ es) = report e ++ ls1 es

-- The counters of ls2.
pub record Counts : Type 0 where
  pub reg_count : ℕ
  pub dir_count : ℕ
  pub char_count : ℕ
  pub block_count : ℕ
  pub fifo_count : ℕ
  pub syml_count : ℕ
  pub soc_count : ℕ
  pub other_count : ℕ
  pub total_count : ℕ

abbrev pub no_counts : Counts
no_counts = record {
  reg_count = 0;
  dir_count = 0;
  char_count = 0;
  block_count = 0;
  fifo_count = 0;
  syml_count = 0;
  soc_count = 0;
  other_count = 0;
  total_count = 0;
}

-- The chain of tests on st_mode.
unfoldable pub count_kind : Kind → Counts → Counts
count_kind regular c = record c { reg_count = c.reg_count + 1 }
count_kind directory c = record c { dir_count = c.dir_count + 1 }
count_kind char_special c = record c { char_count = c.char_count + 1 }
count_kind block_special c = record c { block_count = c.block_count + 1 }
count_kind fifo c = record c { fifo_count = c.fifo_count + 1 }
count_kind symlink c = record c { syml_count = c.syml_count + 1 }
count_kind socket c = record c { soc_count = c.soc_count + 1 }
count_kind unknown c = record c { other_count = c.other_count + 1 }

-- The body of ls2's loop: the entry is counted, and its kind where lstat gives one. The call of stat
-- before only writes a message.
unfoldable pub count_entry : Entry → Counts → Counts
unfolding count_kind
count_entry e c =
    let counted = record c { total_count = c.total_count + 1 } in
    elim e.lstat [ none ↦ counted | some k ↦ count_kind k counted ]

unfoldable pub ls2 : List Entry → Counts → Counts
unfolding count_entry
ls2 [] c = c
ls2 (e ∷ es) c = ls2 es (count_entry e c)

-- The numbers that main prints behind the loop, in order; the last is the total.
unfoldable pub printed_numbers : Counts → List ℕ
printed_numbers c =
    c.reg_count ∷ c.dir_count ∷ c.char_count ∷ c.block_count ∷ c.syml_count ∷ c.soc_count
    ∷ c.other_count ∷ c.total_count ∷ []
