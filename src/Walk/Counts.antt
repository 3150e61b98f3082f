-- ===== src/Walk/Counts.antt =====
-- What ftw8.c counts, and its main. The percentages that it prints are not kept.
use unix_system_programming.Prelude.{
  ℕ, ◌+◌, Bool, List, [], ◌∷◌, Option, none, some, ◌==◌, if◌then◌else◌,
}
use unix_system_programming.Clib.{Text}
use unix_system_programming.Database.{ℤ, pos}
use unix_system_programming.Walk.{
  Mode, s_ifreg, s_ifdir, s_ifblk, s_ifchr, s_ififo, s_iflnk, s_ifsock, other, Files, ftw_f, ftw_d,
  ftw_dnr, ftw_ns, Walked, returned, exited, overrun, unfinished, myftw,
}
use unix_system_programming.Walk.PathAlloc.{Limits}

pub record Counts : Type 0 where
  pub nreg : ℕ
  pub ndir : ℕ
  pub nblk : ℕ
  pub nchr : ℕ
  pub nfifo : ℕ
  pub nslink : ℕ
  pub nsock : ℕ

abbrev pub no_counts : Counts
no_counts = record { nreg = 0; ndir = 0; nblk = 0; nchr = 0; nfifo = 0; nslink = 0; nsock = 0 }

-- The inner switch of myfunc; none is err_dump.
unfoldable pub count_file : Mode → Counts → Option Counts
count_file s_ifreg c = some (record c { nreg = c.nreg + 1 })
count_file s_ifblk c = some (record c { nblk = c.nblk + 1 })
count_file s_ifchr c = some (record c { nchr = c.nchr + 1 })
count_file s_ififo c = some (record c { nfifo = c.nfifo + 1 })
count_file s_iflnk c = some (record c { nslink = c.nslink + 1 })
count_file s_ifsock c = some (record c { nsock = c.nsock + 1 })
count_file s_ifdir c = none
count_file other c = some c

-- An st_mode that lstat did not fill counts as one of no kind; dopath does not pass it with FTW_F.
unfoldable pub myfunc : Text → Option Mode → ℕ → Counts → Option (Counts × ℤ)
unfolding count_file
myfunc pathname statptr type c =
    let counted =
      if type == ftw_f
      then elim statptr [ none ↦ some c | some m ↦ count_file m c ]
      else if type == ftw_d
      then some (record c { ndir = c.ndir + 1 })
      else if type == ftw_dnr
      then some c
      else if type == ftw_ns
      then some c
      else none in
    elim counted [ none ↦ none | some d ↦ some (d, pos 0) ]

-- What main comes to: err_quit for its arguments, the counts with `ntot` and the exit status, or what
-- the walk comes to without a return.
pub data Ftw : Type 0 where
  usage : Ftw
  counted : Counts → ℕ → ℤ → Ftw
  died : Ftw
  corrupted : Ftw
  too_deep : Ftw

unfoldable pub total : Counts → ℕ
total c = c.nreg + c.ndir + c.nblk + c.nchr + c.nfifo + c.nslink + c.nsock

unfoldable pub report : Walked Counts → Ftw
unfolding total
report (returned w ret) =
    let ntot = total w.user in counted w.user (if ntot == 0 then 1 else ntot) ret
report exited = died
report overrun = corrupted
report unfinished = too_deep

-- `argv`, with the program's name.
unfoldable pub main : Files → (ℕ → Bool) → Limits → ℕ → List Text → Ftw
unfolding report
main fs realloc limits fuel (program ∷ path ∷ []) =
    report (myftw fs realloc myfunc fuel limits path no_counts)
main fs realloc limits fuel argv = usage
