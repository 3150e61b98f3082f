-- ===== src/Walk/Census.antt =====
-- The counts of ftw8.c against a census of the tree.
use Prim.Native.Nat.{max}
use unix_system_programming.Prelude.{
  ℕ, subst, suc, ◌+◌, ◌<◌, ◌≡◌, refl, ap, ◌∙◌, Bool, true, [], ◌∷◌, ◌++◌, Option, some, ◌==◌,
  if◌then◌else◌, arith,
}
use unix_system_programming.Clib.{Text}
use unix_system_programming.Database.{ℤ, pos}
use unix_system_programming.Walk.{
  Mode, s_ifreg, s_ifdir, s_ifblk, s_ifchr, s_ififo, s_iflnk, s_ifsock, other, Files, s_isdir,
  is_zero, myftw, Walked, returned, exited, overrun, unfinished,
}
use unix_system_programming.Walk.PathAlloc.{Limits, IsPosix, path_alloc}
use unix_system_programming.Walk.Trees.{
  Tree, gone, leaf, sealed, directory, Entries, end, entry, height, slash, Laid, LaidEntries,
  visits, visits_entries, call_each, resume, Follows,
}
use unix_system_programming.Walk.Names.{call_each-append}
use unix_system_programming.Walk.Visits.{myftw-visits}
use unix_system_programming.Walk.Counts.{
  Counts, no_counts, count_file, myfunc, counted, report, total, main,
}

-- 1 for a mode that is `k`, a number for each of the seven.
abbrev code_of : Mode → ℕ
code_of s_ifreg = 0
code_of s_ifdir = 1
code_of s_ifblk = 2
code_of s_ifchr = 3
code_of s_ififo = 4
code_of s_iflnk = 5
code_of s_ifsock = 6
code_of other = 7

-- How many files of the tree, at any depth, have that mode.
unfoldable mutual
  pub number : Mode → Tree → ℕ
  number k gone = 0
  number k (leaf m) = if code_of k == code_of m then 1 else 0
  number k sealed = if code_of k == code_of s_ifdir then 1 else 0
  number k (directory es) = (if code_of k == code_of s_ifdir then 1 else 0) + number_entries k es

  pub number_entries : Mode → Entries → ℕ
  number_entries k end = 0
  number_entries k (entry name t es) = number k t + number_entries k es

-- How many it has in all, those of no known mode and those without an lstat left out.
unfoldable mutual
  pub files : Tree → ℕ
  files gone = 0
  files (leaf m) = if code_of m == 7 then 0 else 1
  files sealed = 1
  files (directory es) = suc (files_entries es)

  pub files_entries : Entries → ℕ
  files_entries end = 0
  files_entries (entry name t es) = files t + files_entries es

-- Counts with a number for each mode added.
abbrev add : Counts → (Mode → ℕ) → Counts
add c n = record {
  nreg = c.nreg + n s_ifreg;
  ndir = c.ndir + n s_ifdir;
  nblk = c.nblk + n s_ifblk;
  nchr = c.nchr + n s_ifchr;
  nfifo = c.nfifo + n s_ififo;
  nslink = c.nslink + n s_iflnk;
  nsock = c.nsock + n s_ifsock;
}

add-add : (c : Counts) (n m : Mode → ℕ) → add (add c n) m ≡ add c (λ k. n k + m k)
add-add c n m = ground arith

mutual
  unfolding number files

  files-number :
      (t : Tree)
      → files t
        ≡ number s_ifreg t
          + number s_ifdir t
          + number s_ifblk t
          + number s_ifchr t
          + number s_ififo t
          + number s_iflnk t
          + number s_ifsock t
  files-number gone = refl
  files-number (leaf s_ifreg) = refl
  files-number (leaf s_ifdir) = refl
  files-number (leaf s_ifblk) = refl
  files-number (leaf s_ifchr) = refl
  files-number (leaf s_ififo) = refl
  files-number (leaf s_iflnk) = refl
  files-number (leaf s_ifsock) = refl
  files-number (leaf other) = refl
  files-number sealed = refl
  files-number (directory es) = omega (arith, files_entries-number_entries es)

  files_entries-number_entries :
      (es : Entries)
      → files_entries es
        ≡ number_entries s_ifreg es
          + number_entries s_ifdir es
          + number_entries s_ifblk es
          + number_entries s_ifchr es
          + number_entries s_ififo es
          + number_entries s_iflnk es
          + number_entries s_ifsock es
  files_entries-number_entries end = refl
  files_entries-number_entries (entry name t es) =
      omega (arith, files-number t, files_entries-number_entries es)

mutual
  unfolding number call_each resume visits myfunc count_file is_zero Laid s_isdir

  call_each-myfunc :
      (fs : Files) (p : Text) (t : Tree) (c : Counts)
      → Laid fs p t
      → call_each myfunc (visits p t) c ≡ some (add c (λ k. number k t), pos 0)
  call_each-myfunc fs p gone c laid = ground arith
  call_each-myfunc fs p (leaf s_ifreg) c laid = ground arith
  call_each-myfunc fs p (leaf s_ifdir) c (found, kind) = ground arith
  call_each-myfunc fs p (leaf s_ifblk) c laid = ground arith
  call_each-myfunc fs p (leaf s_ifchr) c laid = ground arith
  call_each-myfunc fs p (leaf s_ififo) c laid = ground arith
  call_each-myfunc fs p (leaf s_iflnk) c laid = ground arith
  call_each-myfunc fs p (leaf s_ifsock) c laid = ground arith
  call_each-myfunc fs p (leaf other) c laid = ground arith
  call_each-myfunc fs p sealed c laid = ground arith
  call_each-myfunc fs p (directory es) c (found, names, opened, listed, below) =
      call_each-myfunc_entries fs (slash p) es (record c { ndir = c.ndir + 1 }) below ∙ ground arith

  call_each-myfunc_entries :
      (fs : Files) (q : Text) (es : Entries) (c : Counts)
      → LaidEntries fs q es
      → call_each myfunc (visits_entries q es) c ≡ some (add c (λ k. number_entries k es), pos 0)
  call_each-myfunc_entries fs q end c laid = ground arith
  call_each-myfunc_entries fs q (entry name t es) c (short, here, below) =
      call_each-append fs (λ n. true) myfunc (visits (q ++ name) t) (visits_entries q es) c
      ∙ ap (resume (call_each myfunc (visits_entries q es)))
          (call_each-myfunc fs (q ++ name) t c here)
      ∙ call_each-myfunc_entries fs q es (add c (λ k. number k t)) below
      ∙ ap (λ (d : Counts). some (d, pos 0))
          (add-add c (λ k. number k t) (λ k. number_entries k es))

abbrev pub census : Tree → Counts
census t = record {
  nreg = number s_ifreg t;
  ndir = number s_ifdir t;
  nblk = number s_ifblk t;
  nchr = number s_ifchr t;
  nfifo = number s_ififo t;
  nslink = number s_iflnk t;
  nsock = number s_ifsock t;
}

report-census :
    (realloc : ℕ → Bool) (p : Text) (size : ℕ) (t : Tree) (o : Walked Counts)
    → ((n : ℕ) → realloc n ≡ true)
    → Follows Counts realloc p size (some (add no_counts (λ k. number k t), pos 0)) o
    → report o ≡ counted (census t) (max 1 (files t)) (pos 0)
unfolding Follows report total
report-census realloc p size t (returned w ret) memory (same, back, path, le) =
    let n = files-number t in rw (same, back) (ground arith)
report-census realloc p size t exited memory (n, refused) = let given = memory n in ground arith
report-census realloc p size t overrun memory h = elim h [ ]
report-census realloc p size t unfinished memory h = elim h [ ]

-- On a POSIX system, where path_alloc has its block, realloc does not fail, and the hierarchy at the
-- path is a tree of less than `fuel` levels with names of at most NAME_MAX bytes: main counts for each
-- of the seven kinds the files of the tree that have it, at any depth and whether or not a directory
-- can be read; it divides by their number, or by 1 where there are none, and exits with 0.
pub main-census :
    (fs : Files) (realloc : ℕ → Bool) (limits : Limits) (t : Tree) (fuel : ℕ) (size : ℕ)
    (program path : Text)
    → IsPosix limits
    → path_alloc limits ≡ some size
    → ((n : ℕ) → realloc n ≡ true)
    → height t < fuel
    → Laid fs path t
    → main fs realloc limits fuel (program ∷ path ∷ [])
      ≡ counted (census t) (max 1 (files t)) (pos 0)
unfolding main
main-census fs realloc limits t fuel size program path posix block memory deep laid =
    report-census realloc path size t (myftw fs realloc myfunc fuel limits path no_counts) memory (
      subst
        (λ (c : Option (Counts × ℤ)).
          Follows Counts realloc path size c (myftw fs realloc myfunc fuel limits path no_counts))
        (call_each-myfunc fs path t no_counts laid)
        (myftw-visits fs realloc myfunc t fuel limits size path no_counts posix block deep laid))
