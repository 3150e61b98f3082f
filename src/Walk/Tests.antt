-- ===== src/Walk/Tests.antt =====
-- Walks of ftw8.c at concrete hierarchies.
use Prim.Native.Nat.{max}
use unix_system_programming.Prelude.{
  ℕ, ◌<◌, ◌≡◌, refl, Bool, true, List, [], ◌∷◌, Option, none, some, if◌then◌else◌, arith,
}
use unix_system_programming.Clib.{Text, codes, str_eq}
use unix_system_programming.Database.{pos}
use unix_system_programming.Walk.{
  Mode, s_ifreg, s_ifdir, s_iflnk, s_isdir, Files, is_dot, is_zero, strcpy_at, myftw,
}
use unix_system_programming.Walk.PathAlloc.{
  Limits, IsPosix, limit, no_limit, path_alloc, pathmax_from, pathmax_initial, less_than,
  path_alloc-IsPosix,
}
use unix_system_programming.Walk.Trees.{
  Tree, gone, leaf, sealed, directory, end, entry, height, Laid, undotted, names_of, visits,
  call_each, Follows,
}
use unix_system_programming.Walk.Visits.{myftw-visits}
use unix_system_programming.Walk.Counts.{Counts, no_counts, myfunc, counted, main}
use unix_system_programming.Walk.Census.{census, files, main-census}

-- A directory with a file, a link, a file that is gone and a directory that cannot be read.
abbrev lstat_of : Text → Option Mode
lstat_of p =
    if str_eq p (codes "r")
    then some s_ifdir
    else if str_eq p (codes "r/a")
    then some s_ifreg
    else if str_eq p (codes "r/d")
    then some s_ifdir
    else if str_eq p (codes "r/s")
    then some s_iflnk
    else none

abbrev listed : List Text
listed = codes "." ∷ codes "a" ∷ codes ".." ∷ codes "d" ∷ codes "s" ∷ codes "z" ∷ []

abbrev opendir_of : Text → Option (List Text)
opendir_of p = if str_eq p (codes "r/") then some listed else none

abbrev disk : Files
disk = record { lstat = lstat_of; opendir = opendir_of }

abbrev tree : Tree
tree = directory (
    entry (codes "a") (leaf s_ifreg)
      (entry (codes "d") sealed (entry (codes "s") (leaf s_iflnk) (entry (codes "z") gone end))))

abbrev linux : Limits
linux = record {
  path_max = some 4096;
  version = pos 200809;
  xopen_version = pos 700;
  pathconf = no_limit;
  malloc = λ n. true;
}

abbrev memory : ℕ → Bool
memory n = true

block : path_alloc linux ≡ some 4096
unfolding path_alloc pathmax_from pathmax_initial less_than
block = refl

shallow : height tree < 3
unfolding height
shallow = ground arith

laid : Laid disk (codes "r") tree
unfolding Laid undotted names_of is_dot str_eq s_isdir
laid = (
  refl,
  listed,
  refl,
  refl,
  (
    ground arith,
    (refl, refl),
    (ground arith, (refl, refl), (ground arith, (refl, refl), (ground arith, refl, tt))),
  ),
)

posix : IsPosix linux
posix = (
  λ (n : ℕ) (e : some 4096 ≡ some n). ground arith,
  λ (n : ℕ) (e : no_limit ≡ limit n). ground arith,
)

counts :
    main disk memory linux 3 (codes "ftw8" ∷ codes "r" ∷ [])
    ≡ counted
        (record { nreg = 1; ndir = 2; nblk = 0; nchr = 0; nfifo = 0; nslink = 1; nsock = 0 })
        4
        (pos 0)
unfolding main myftw path_alloc str_eq s_isdir myfunc is_zero is_dot strcpy_at
counts = refl

myftw-visits_example :
    Follows Counts memory
      (codes "r")
      4096
      (call_each myfunc (visits (codes "r") tree) no_counts)
      (myftw disk memory myfunc 3 linux (codes "r") no_counts)
myftw-visits_example =
    myftw-visits disk memory myfunc tree 3 linux 4096 (codes "r") no_counts posix block shallow laid

main-census_example :
    main disk memory linux 3 (codes "ftw8" ∷ codes "r" ∷ [])
    ≡ counted (census tree) (max 1 (files tree)) (pos 0)
main-census_example =
    main-census disk memory linux tree 3 4096 (codes "ftw8") (codes "r") posix block
      (λ (n : ℕ). refl) shallow laid

path_alloc-IsPosix_example : 255 < 4096
path_alloc-IsPosix_example = path_alloc-IsPosix linux 4096 posix block
