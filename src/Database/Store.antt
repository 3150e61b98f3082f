-- ===== src/Database/Store.antt =====
-- Storing records: db_store and _db_findfree of apue.3e/db/db.c.
use unix_system_programming.Prelude.{
  ℕ, zero, suc, ◌+◌, Bool, true, false, ◌&&◌, ◌||◌, length, Option, none, some, ◌==◌, if◌then◌else◌,
}
use unix_system_programming.Clib.{Text}
use unix_system_programming.Database.{
  ℤ, pos, D, out_of_fuel, ◌>>=◌, ◌>>◌, return, modify, get, halt, require, Sys, lock_call, lock,
  write_lock, unlocked, index,
}
use unix_system_programming.Database.Files.{
  datlen_ok, readptr, writeptr, readidx, writedat, writeidx, set, append,
}
use unix_system_programming.Database.Records.{is_zero, find_and_lock, dodelete, unlock_chain}

-- The loop of _db_findfree: with the pointer to the record that was found, if any.
unfoldable pub free_loop : Sys → ℕ → ℕ → ℕ → ℤ → ℤ → D (Option ℤ)
free_loop sys zero keylen datlen saveoffset offset =
    if is_zero offset then return none else halt out_of_fuel
free_loop sys (suc fuel) keylen datlen saveoffset offset = elim (is_zero offset) [
  | true ↦ return none
  | false ↦ do
    nextoffset ← readidx sys offset
    fits ← get (λ db. length db.idxbuf == keylen && db.datlen == datlen)
    elim fits [
      | true ↦ return (some saveoffset)
      | false ↦ free_loop sys fuel keylen datlen offset nextoffset
    ]
]

-- _db_findfree: `true` is its 0.
unfoldable pub findfree : Sys → ℕ → ℕ → ℕ → D Bool
unfolding free_loop
findfree sys fuel keylen datlen = do
  lock_call sys (lock write_lock index 0 1)
  offset ← readptr sys (pos 0)
  free ← free_loop sys fuel keylen datlen (pos 0) offset
  found ← elim free [
    | none ↦ return false
    | some saveoffset ↦
        get (λ db. db.ptrval) >>= λ next. writeptr sys saveoffset next >> return true
  ]
  lock_call sys (lock unlocked index 0 1)
  return found

-- DB_INSERT, DB_REPLACE and DB_STORE.
abbrev pub db_insert : ℕ
db_insert = 1

abbrev pub db_replace : ℕ
db_replace = 2

abbrev pub db_store_any : ℕ
db_store_any = 3

-- What db_store returns: 0, 1, and -1 with ENOENT and with EINVAL.
pub data Stored : Type 0 where
  stored exists_already missing invalid_flag : Stored

-- The record that has just been written becomes the first of its hash chain.
unfoldable pub link_front : Sys → D (Unit {0})
link_front sys = get (λ db. db) >>= λ db. writeptr sys (pos db.chainoff) (pos db.idxoff)

unfoldable pub append_record : Sys → Text → Text → ℤ → D (Unit {0})
append_record sys key text ptrval = do
  writedat sys text append
  writeidx sys key append ptrval
  link_front sys

-- The two branches of db_store, for a key that is not there and for one that is.
unfoldable pub store_new : Sys → ℕ → Text → Text → D (Unit {0})
unfolding findfree append_record
store_new sys fuel key text = do
  chain ← get (λ db. db.chainoff)
  ptrval ← readptr sys (pos chain)
  free ← findfree sys fuel (length key) (length text + 1)
  elim free [
    | false ↦ do
      append_record sys key text ptrval
      modify (λ db. record db { cnt_stor1 = suc db.cnt_stor1 })
    | true ↦ do
      db ← get (λ db. db)
      writedat sys text (set db.datoff)
      writeidx sys key (set db.idxoff) ptrval
      link_front sys
      modify (λ db. record db { cnt_stor2 = suc db.cnt_stor2 })
  ]

unfoldable pub store_over : Sys → Text → Text → D (Unit {0})
unfolding append_record
store_over sys key text = do
  db ← get (λ db. db)
  if length text + 1 == db.datlen
      then (do
        writedat sys text (set db.datoff)
        modify (λ db. record db { cnt_stor4 = suc db.cnt_stor4 }))
      else (do
        dodelete sys
        ptrval ← readptr sys (pos db.chainoff)
        append_record sys key text ptrval
        modify (λ db. record db { cnt_stor3 = suc db.cnt_stor3 }))

unfoldable pub refuse : Stored → D Stored
refuse answer = modify (λ db. record db { cnt_storerr = suc db.cnt_storerr }) >> return answer

-- db_store, past the test of the flag.
unfoldable pub store_found : Sys → ℕ → Text → Text → ℕ → Bool → D Stored
unfolding store_new store_over
store_found sys fuel key text flag false =
    if flag == db_replace then refuse missing else store_new sys fuel key text >> return stored
store_found sys fuel key text flag true =
    if flag == db_insert then refuse exists_already else store_over sys key text >> return stored

unfoldable pub store_checked : Sys → ℕ → Text → Text → ℕ → D Stored
unfolding store_found
store_checked sys fuel key text flag = do
  require (datlen_ok (length text + 1))
  found ← find_and_lock sys fuel key write_lock
  answer ← store_found sys fuel key text flag found
  unlock_chain sys
  return answer

-- db_store.
unfoldable pub db_store : Sys → ℕ → Text → Text → ℕ → D Stored
unfolding store_checked
db_store sys fuel key text flag =
    if flag == db_insert || flag == db_replace || flag == db_store_any
    then store_checked sys fuel key text flag
    else return invalid_flag
