-- ===== src/Database/Records.antt =====
-- Finding, fetching and deleting records: db_fetch, db_delete and the functions of apue.3e/db/db.c
-- that they call.
use unix_system_programming.Prelude.{
  ℕ, zero, suc, ◌+◌, ◌-◌, ◌*◌, Bool, true, false, map, Option, none, some, if◌then◌else◌,
}
use unix_system_programming.Clib.{Text, str_eq}
use unix_system_programming.Database.{
  ℤ, pos, negsuc, D, out_of_fuel, ◌>>=◌, ◌>>◌, return, modify, get, halt, Sys, lock_call, lock,
  LockKind, read_lock, write_lock, unlocked, index,
}
use unix_system_programming.Database.Numbers.{spaces}
use unix_system_programming.Database.Files.{
  ptr_sz, db_hash, readptr, writeptr, readidx, readdat, writedat, writeidx, set,
}

abbrev pub is_zero : ℤ → Bool
is_zero (pos zero) = true
is_zero (pos (suc n)) = false
is_zero (negsuc n) = false

-- The loop of _db_find_and_lock: whether the record was found. A chain that comes back to itself is
-- followed for ever, so the loop is on fuel.
unfoldable pub find_loop : Sys → ℕ → Text → ℤ → D Bool
find_loop sys zero key offset = if is_zero offset then return false else halt out_of_fuel
find_loop sys (suc fuel) key offset = elim (is_zero offset) [
  | true ↦ return false
  | false ↦ do
    nextoffset ← readidx sys offset
    found ← get (λ db. str_eq db.idxbuf key)
    elim found [
      | true ↦ return true
      | false ↦ modify (λ db. record db { ptroff = offset }) >> find_loop sys fuel key nextoffset
    ]
]

-- _db_find_and_lock: `true` is its 0.
unfoldable pub find_and_lock : Sys → ℕ → Text → LockKind → D Bool
unfolding find_loop
find_and_lock sys fuel key kind = do
  modify (λ db. record db { chainoff = db_hash db key * ptr_sz + db.hashoff })
  modify (λ db. record db { ptroff = pos db.chainoff })
  chain ← get (λ db. db.chainoff)
  lock_call sys (lock kind index chain 1)
  offset ← readptr sys (pos chain)
  find_loop sys fuel key offset

-- The un_lock of the hash chain at the end of an operation.
unfoldable pub unlock_chain : Sys → D (Unit {0})
unlock_chain sys = get (λ db. db.chainoff) >>= λ chain. lock_call sys (lock unlocked index chain 1)

-- db_fetch.
unfoldable pub db_fetch : Sys → ℕ → Text → D (Option Text)
db_fetch sys fuel key = do
  found ← find_and_lock sys fuel key read_lock
  ptr ← elim found [
    | true ↦ do
      text ← readdat sys
      modify (λ db. record db { cnt_fetchok = suc db.cnt_fetchok })
      return (some text)
    | false ↦ do modify (λ db. record db { cnt_fetcherr = suc db.cnt_fetcherr }); return none
  ]
  unlock_chain sys
  return ptr

-- _db_dodelete. The key of the record becomes blanks in idxbuf, which is printed back into idxbuf.
unfoldable pub dodelete : Sys → D (Unit {0})
dodelete sys = do
  modify (λ db. record db { datbuf = spaces (db.datlen - 1); idxbuf = map (λ c. b' ') db.idxbuf })
  lock_call sys (lock write_lock index 0 1)
  db ← get (λ db. db)
  writedat sys db.datbuf (set db.datoff)
  freeptr ← readptr sys (pos 0)
  writeidx sys db.idxbuf (set db.idxoff) freeptr
  writeptr sys (pos 0) (pos db.idxoff)
  writeptr sys db.ptroff db.ptrval
  lock_call sys (lock unlocked index 0 1)

-- db_delete: `true` is its 0.
unfoldable pub db_delete : Sys → ℕ → Text → D Bool
db_delete sys fuel key = do
  found ← find_and_lock sys fuel key write_lock
  elim found [
    | true ↦ dodelete sys >> modify (λ db. record db { cnt_delok = suc db.cnt_delok })
    | false ↦ modify (λ db. record db { cnt_delerr = suc db.cnt_delerr })
  ]
  unlock_chain sys
  return found
