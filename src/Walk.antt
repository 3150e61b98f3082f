-- ===== src/Walk.antt =====
-- The walk through a file hierarchy (apue.3e/filedir/ftw8.c). The bytes behind the NUL of the path are not kept: no call reads them.
pub mod Census
pub mod Counts
mod Directory
mod Names
pub mod PathAlloc
mod Tests
pub mod Trees
pub mod Visits
use unix_system_programming.Prelude.{
  ℕ, zero, suc, ◌+◌, ◌-◌, ◌*◌, Bool, true, false, ◌&&◌, ◌||◌, List, [], ◌∷◌, ◌++◌, length, take,
  Option, none, some, ◌==◌, ltb, leb, if◌then◌else◌,
}
use unix_system_programming.Clib.{Text, codes, str_eq}
use unix_system_programming.Database.{ℤ, pos}
use unix_system_programming.Walk.PathAlloc.{Limits, path_alloc}

-- `st_mode & S_IFMT`; `other` is none of the seven.
pub data Mode : Type 0 where
  s_ifreg : Mode
  s_ifdir : Mode
  s_ifblk : Mode
  s_ifchr : Mode
  s_ififo : Mode
  s_iflnk : Mode
  s_ifsock : Mode
  other : Mode

unfoldable pub s_isdir : Mode → Bool
s_isdir s_ifdir = true
s_isdir m = false

-- What lstat and opendir answer for a path: none is a failure, and a list the names that readdir gives.
pub record Files : Type 0 where
  pub lstat : Text → Option Mode
  pub opendir : Text → Option (List Text)

abbrev pub ftw_f : ℕ
ftw_f = 1

abbrev pub ftw_d : ℕ
ftw_d = 2

abbrev pub ftw_dnr : ℕ
ftw_dnr = 3

abbrev pub ftw_ns : ℕ
ftw_ns = 4

-- NAME_MAX
abbrev pub name_max : ℕ
name_max = 255

-- `fullpath`, `pathlen`, and what the function called for each file changes.
pub record Walker (S : Type 0) : Type 0 where
  pub fullpath : Text
  pub pathlen : ℕ
  pub user : S

-- What a call of dopath comes to: a return; the end of the process in err_sys or err_dump; a write
-- behind the end of the buffer; a hierarchy deeper than the fuel.
pub data Walked (S : Type 0) : Type 0 where
  returned : Walker S → ℤ → Walked S
  exited : Walked S
  overrun : Walked S
  unfinished : Walked S

unfoldable pub is_zero : ℤ → Bool
is_zero (pos zero) = true
is_zero n = false

-- `strcmp(name, ".") == 0 || strcmp(name, "..") == 0`
unfoldable pub is_dot : Text → Bool
is_dot name = str_eq name (codes ".") || str_eq name (codes "..")

-- `strcpy(&path[n], name)`: behind the NUL it does not change the string.
unfoldable pub strcpy_at : ℕ → Text → Text → Text
strcpy_at n name path = if leb n (length path) then take n path ++ name else path

-- What the walk is given: the files, whether realloc has a block of that size, and the function
-- called for each file, where none is its end in err_dump. It reads the path, st_mode where lstat
-- filled it, and the type.
module _ {S : Type 0} (fs : Files) (realloc : ℕ → Bool)
    (func : Text → Option Mode → ℕ → S → Option (S × ℤ)) where
  -- `return(func(fullpath, &statbuf, type))`
  unfoldable pub call_func : Option Mode → ℕ → Walker S → Walked S
  call_func statbuf type w = elim (func w.fullpath statbuf type w.user) [
    | none ↦ exited
    | some (u, ret) ↦ returned (record w { user = u }) ret
  ]

  -- "expand path buffer"
  unfoldable pub expand : ℕ → Walker S → Option (Walker S)
  expand n w =
      if ltb w.pathlen (n + name_max + 2)
      then (if realloc (w.pathlen * 2) then some (record w { pathlen = w.pathlen * 2 }) else none)
      else some w

  -- The loop over the names of a directory, where `go` is dopath.
  unfoldable pub each_name : (Walker S → Walked S) → ℕ → List Text → Walker S → ℤ → Walked S
  each_name go n [] w ret = returned w ret
  each_name go n (name ∷ names) w ret = elim (is_dot name) [
    | true ↦ each_name go n names w ret
    | false ↦ elim (leb (suc (n + length name)) w.pathlen) [
      | false ↦ overrun
      | true ↦ elim (go (record w { fullpath = strcpy_at n name w.fullpath })) [
        | returned v r ↦ elim (is_zero r) [ true ↦ each_name go n names v r | false ↦ returned v r ]
        | exited ↦ exited
        | overrun ↦ overrun
        | unfinished ↦ unfinished
      ]
    ]
  ]

  -- "erase everything from slash onward"
  unfoldable pub erase : ℕ → Walked S → Walked S
  erase n (returned w ret) = returned (record w { fullpath = take n w.fullpath }) ret
  erase n o = o

  -- From the slash on: its index, then the buffer with room for it.
  unfoldable pub read_directory : (Walker S → Walked S) → ℕ → Walker S → Walked S
  unfolding call_func each_name erase
  read_directory go n w =
      let path = w.fullpath ++ (b'/' ∷ []) in
      elim (leb (n + 2) w.pathlen) [
        | false ↦ overrun
        | true ↦ elim (fs.opendir path) [
          | none ↦ call_func (some s_ifdir) ftw_dnr (record w { fullpath = path })
          | some names ↦ erase n (each_name go (suc n) names (record w { fullpath = path }) (pos 0))
        ]
      ]

  -- What follows the call for the directory itself.
  unfoldable pub enter : (Walker S → Walked S) → Walked S → Walked S
  unfolding expand read_directory
  enter go (returned w ret) = elim (is_zero ret) [
    | false ↦ returned w ret
    | true ↦
        let n = length w.fullpath in
        elim (expand n w) [ none ↦ exited | some v ↦ read_directory go n v ]
  ]
  enter go o = o

  -- On the depth of the hierarchy.
  unfoldable pub dopath : ℕ → Walker S → Walked S
  unfolding call_func enter
  dopath zero w = unfinished
  dopath (suc fuel) w = elim (fs.lstat w.fullpath) [
    | none ↦ call_func none ftw_ns w
    | some m ↦ elim (s_isdir m) [
      | false ↦ call_func (some m) ftw_f w
      | true ↦ enter (dopath fuel) (call_func (some m) ftw_d w)
    ]
  ]

  -- From the block of path_alloc on.
  unfoldable pub myftw : ℕ → Limits → Text → S → Walked S
  unfolding dopath
  myftw fuel limits pathname u =
      let n = length pathname in
      elim (path_alloc limits) [
        | none ↦ exited
        | some size ↦
            if leb size n
            then (if realloc (n * 2)
                then (if leb (suc n) (n * 2)
                    then dopath fuel (record { fullpath = pathname; pathlen = n * 2; user = u })
                    else overrun)
                else exited)
            else dopath fuel (record { fullpath = pathname; pathlen = size; user = u })
      ]
