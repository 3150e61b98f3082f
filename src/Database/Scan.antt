-- ===== src/Database/Scan.antt =====
-- Opening a database and going through its records: the initialisation in db_open, db_rewind and
-- db_nextrec of apue.3e/db/db.c.
use unix_system_programming.Prelude.{
  ℕ, zero, suc, ◌+◌, ◌*◌, Bool, true, false, List, [], ◌∷◌, ◌++◌, length, Option, none, some, ◌==◌,
  ◌&&◌, if◌then◌else◌,
}
use unix_system_programming.Clib.{Text}
use unix_system_programming.Database.{
  pos, negsuc, Db, D, out_of_fuel, ◌>>=◌, ◌>>◌, return, modify, get, halt, Sys, demand, lock_call,
  lock, read_lock, write_lock, unlocked, index,
}
use unix_system_programming.Database.Numbers.{pad}
use unix_system_programming.Database.Files.{ptr_sz, readidx, readdat, write_idx}

-- NHASH_DEF and HASH_OFF.
abbrev pub nhash_def : ℕ
nhash_def = 137

-- _db_alloc's zeroes, on two files.
unfoldable pub db_alloc : List ℕ → List ℕ → Db
db_alloc idx dat = record {
  idx = idx;
  dat = dat;
  at = 0;
  idxbuf = [];
  datbuf = [];
  idxoff = 0;
  idxlen = 0;
  datoff = 0;
  datlen = 0;
  ptrval = pos 0;
  ptroff = pos 0;
  chainoff = 0;
  hashoff = 0;
  nhash = 0;
  cnt_delok = 0;
  cnt_delerr = 0;
  cnt_fetchok = 0;
  cnt_fetcherr = 0;
  cnt_nextrec = 0;
  cnt_stor1 = 0;
  cnt_stor2 = 0;
  cnt_stor3 = 0;
  cnt_stor4 = 0;
  cnt_storerr = 0;
  locks = [];
  calls = 0;
}

-- db_rewind.
unfoldable pub db_rewind : D (Unit {0})
db_rewind =
    modify
      (λ db. record db { at = (db.nhash + 1) * ptr_sz + 1; idxoff = (db.nhash + 1) * ptr_sz + 1 })

-- The pointers that db_open writes into an empty index file: the free list's and the hash table's.
unfoldable pub zero_pointers : ℕ → Text
zero_pointers zero = []
zero_pointers (suc n) = pad ptr_sz 0 ++ zero_pointers n

-- db_open after its two calls of open: `fresh` is O_CREAT with O_TRUNC.
unfoldable pub db_open : Sys → Bool → D (Unit {0})
unfolding zero_pointers db_rewind
db_open sys fresh = do
  modify (λ db. record db { nhash = nhash_def; hashoff = ptr_sz })
  if fresh
      then (do
        lock_call sys (lock write_lock index 0 0)
        demand sys
        size ← get (λ db. length db.idx)
        if size == 0 then write_idx sys (zero_pointers (nhash_def + 1) ++ b'\n' ∷ []) else return tt
        lock_call sys (lock unlocked index 0 0))
      else return tt
  db_rewind

-- Whether a key is all blanks, which an empty one is too.
unfoldable pub all_blank : Text → Bool
all_blank [] = true
all_blank (c ∷ cs) = c == b' ' && all_blank cs

-- The loop of db_nextrec, to the next record that is not deleted: `false` is the end of the file.
unfoldable pub next_loop : Sys → ℕ → D Bool
unfolding all_blank
next_loop sys zero = halt out_of_fuel
next_loop sys (suc fuel) = do
  next ← readidx sys (pos 0)
  elim next [
    | negsuc n ↦ return false
    | pos n ↦ do
      blank ← get (λ db. all_blank db.idxbuf)
      elim blank [ true ↦ next_loop sys fuel | false ↦ return true ]
  ]

-- db_nextrec, with the key and the data of the record.
unfoldable pub db_nextrec : Sys → ℕ → D (Option (Text × Text))
unfolding next_loop
db_nextrec sys fuel = do
  lock_call sys (lock read_lock index 0 1)
  more ← next_loop sys fuel
  ptr ← elim more [
    | false ↦ return none
    | true ↦ do
      key ← get (λ db. db.idxbuf)
      text ← readdat sys
      modify (λ db. record db { cnt_nextrec = suc db.cnt_nextrec })
      return (some (key, text))
  ]
  lock_call sys (lock unlocked index 0 1)
  return ptr
