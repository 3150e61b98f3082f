-- ===== src/Listing/Tests.antt =====
-- The listings of a small directory.
use unix_system_programming.Prelude.{◌≡◌, refl, List, [], ◌∷◌, none, some}
use unix_system_programming.Clib.{codes}
use unix_system_programming.Listing.{
  Entry, directory, fifo, symlink, with_stat, with_lstat, cannot_stat, no_counts, ls1, ls2,
  printed_numbers,
}

abbrev entries : List Entry
entries =
    record { name = codes "."; stat = some directory; lstat = some directory }
    ∷ record { name = codes "pipe"; stat = some fifo; lstat = some fifo }
    ∷ record { name = codes "lost"; stat = none; lstat = some symlink }
    ∷ record { name = codes "gone"; stat = none; lstat = none }
    ∷ []

ls1_test :
    ls1 entries
    ≡ with_stat (codes ".") directory
      ∷ with_lstat (codes ".") directory
      ∷ with_stat (codes "pipe") fifo
      ∷ with_lstat (codes "pipe") fifo
      ∷ cannot_stat (codes "lost")
      ∷ with_stat (codes "lost") symlink
      ∷ with_lstat (codes "lost") symlink
      ∷ cannot_stat (codes "gone")
      ∷ cannot_stat (codes "gone")
      ∷ []
unfolding ls1
ls1_test = refl

printed_numbers_test : printed_numbers (ls2 entries no_counts) ≡ 0 ∷ 1 ∷ 0 ∷ 0 ∷ 1 ∷ 0 ∷ 0 ∷ 4 ∷ []
unfolding printed_numbers ls2
printed_numbers_test = refl
