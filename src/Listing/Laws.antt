-- ===== src/Listing/Laws.antt =====
-- What the two listings say of a directory.
use unix_system_programming.Prelude.{ℕ, ◌+◌, ◌*◌, ◌≡◌, List, [], ◌∷◌, none, some, length, arith}
use unix_system_programming.Listing.{
  Kind, regular, directory, char_special, block_special, fifo, symlink, socket, unknown, Entry,
  Counts, no_counts, count_entry, ls2, printed_numbers,
}

abbrev pub is_kind : Kind → Kind → ℕ
is_kind regular regular = 1
is_kind directory directory = 1
is_kind char_special char_special = 1
is_kind block_special block_special = 1
is_kind fifo fifo = 1
is_kind symlink symlink = 1
is_kind socket socket = 1
is_kind unknown unknown = 1
is_kind _ _ = 0

-- How many entries are, by lstat, of a kind; and of how many lstat knows nothing.
abbrev pub of_kind : Kind → List Entry → ℕ
of_kind k [] = 0
of_kind k (e ∷ es) = (elim e.lstat [ none ↦ 0 | some j ↦ is_kind k j ]) + of_kind k es

abbrev pub failed : List Entry → ℕ
failed [] = 0
failed (e ∷ es) = (elim e.lstat [ none ↦ 1 | some j ↦ 0 ]) + failed es

-- The counters of ls2 from given ones on.
pub record Counted (es : List Entry) (c d : Counts) : Type 0 where
  pub regs : d.reg_count ≡ c.reg_count + of_kind regular es
  pub dirs : d.dir_count ≡ c.dir_count + of_kind directory es
  pub chars : d.char_count ≡ c.char_count + of_kind char_special es
  pub blocks : d.block_count ≡ c.block_count + of_kind block_special es
  pub fifos : d.fifo_count ≡ c.fifo_count + of_kind fifo es
  pub symls : d.syml_count ≡ c.syml_count + of_kind symlink es
  pub socs : d.soc_count ≡ c.soc_count + of_kind socket es
  pub others : d.other_count ≡ c.other_count + of_kind unknown es
  pub total : d.total_count ≡ c.total_count + length es

step_Counted : (e : Entry) (c : Counts) → Counted (e ∷ []) c (count_entry e c)
unfolding count_entry
step_Counted e c = ground arith

-- ls2 counts every entry in the total, and under its kind those of which lstat knows one.
pub ls2-Counted : (es : List Entry) (c : Counts) → Counted es c (ls2 es c)
unfolding ls2
ls2-Counted [] c = omega arith
ls2-Counted (e ∷ es) c = omega (arith, step_Counted e c, ls2-Counted es (count_entry e c))

abbrev pub sum : List ℕ → ℕ
sum [] = 0
sum (x ∷ xs) = x + sum xs

kinds_total :
    (es : List Entry)
    → of_kind regular es
        + of_kind directory es
        + of_kind char_special es
        + of_kind block_special es
        + of_kind fifo es
        + of_kind symlink es
        + of_kind socket es
        + of_kind unknown es
        + failed es
      ≡ length es
kinds_total [] = omega arith
kinds_total (e ∷ es) = ground (arith, kinds_total es)

-- The kinds that ls2 prints do not add up to the total that it prints: the entries that lstat fails
-- on are missing, and the FIFOs, whose counter is never printed. (The numbers add up to twice the
-- total but for these.)
pub printed_numbers_gap :
    (es : List Entry)
    → sum (printed_numbers (ls2 es no_counts)) + failed es + of_kind fifo es ≡ 2 * length es
unfolding printed_numbers
printed_numbers_gap es = omega (arith, ls2-Counted es no_counts, kinds_total es)
