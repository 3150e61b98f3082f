-- ===== src/Database/Fresh.antt =====
-- A database that db_open of apue.3e/db/db.c has just created, and db_fetch on it.
use unix_system_programming.Prelude.{
  ℕ, zero, suc, ◌+◌, ◌*◌, ◌%◌, ◌<◌, ◌≡◌, refl, ap, ◌∙◌, true, false, List, [], ◌∷◌, ◌++◌, none,
  arith,
}
use unix_system_programming.Clib.{Text}
use unix_system_programming.Database.{
  pos, Db, done, ◌>>◌, return, modify, get, Sys, demand, LockKind, read_lock, lock_call, read_at,
  write_at,
}
use unix_system_programming.Database.Numbers.{pad, decimal, digits}
use unix_system_programming.Database.Files.{ptr_sz, hash_from, db_hash, readptr}
use unix_system_programming.Database.Records.{find_loop, find_and_lock, db_fetch, unlock_chain}
use unix_system_programming.Database.Scan.{db_alloc, nhash_def, zero_pointers, db_rewind, db_open}
use unix_system_programming.Database.Pointers.{readptr_run}
use unix_system_programming.Database.Runs.{
  bind_run, then_run, demand_run, return_run, modify_run, get_run, lock_call_run, write_idx_run,
}

-- Every pointer of the table that db_open writes is 0.
pub zero_slot :
    (k n : ℕ) (rest : List ℕ)
    → k < n
    → read_at (k * ptr_sz) ptr_sz (zero_pointers n ++ rest) ≡ pad ptr_sz 0
unfolding zero_pointers pad decimal digits
zero_slot k zero rest h = ground arith
zero_slot zero (suc n) rest h = refl
zero_slot (suc k) (suc n) rest h =
    ap (λ (i : ℕ). read_at i ptr_sz (zero_pointers (suc n) ++ rest)) (seven_more k)
    ∙ zero_slot k n rest (omega arith)
  where
    seven_more : (j : ℕ) → suc j * 7 ≡ suc (suc (suc (suc (suc (suc (suc (j * 7)))))))
    seven_more j = omega arith

write_empty : (bytes : List ℕ) → write_at 0 bytes [] ≡ bytes
write_empty [] = refl
write_empty (b ∷ bs) = refl

find_loop_nil :
    (sys : Sys) (fuel : ℕ) (key : Text) (db : Db)
    → find_loop sys fuel key (pos 0) db ≡ done false db
unfolding find_loop return
find_loop_nil sys zero key db = refl
find_loop_nil sys (suc fuel) key db = refl

-- An operation that finds the key's chain empty: the lock that is taken, and that nothing was found.
find_and_lock_nil :
    (sys : Sys) (fuel : ℕ) (key : Text) (kind : LockKind) (db : Db)
    → ((n : ℕ) → sys n ≡ true)
    → read_at (db_hash db key * ptr_sz + db.hashoff) ptr_sz db.idx ≡ pad ptr_sz 0
    → (db2 : Db) × (find_and_lock sys fuel key kind db ≡ done false db2)
unfolding find_and_lock
find_and_lock_nil sys fuel key kind db ok empty = (
  _,
  then_run (modify _) _ (modify_run _ db)
      ∙ then_run (modify _) _ (modify_run _ _)
      ∙ bind_run (get _) _ (get_run _ _)
      ∙ then_run (lock_call sys _) _ (lock_call_run sys _ _ (ok _))
      ∙ bind_run (readptr sys _) _ (readptr_run sys _ 0 _ (ok _) (omega arith) empty)
      ∙ find_loop_nil sys fuel key _,
)

fetch_nil :
    (sys : Sys) (fuel : ℕ) (key : Text) (db : Db)
    → ((n : ℕ) → sys n ≡ true)
    → read_at (db_hash db key * ptr_sz + db.hashoff) ptr_sz db.idx ≡ pad ptr_sz 0
    → (db2 : Db) × (db_fetch sys fuel key db ≡ done none db2)
unfolding db_fetch unlock_chain
fetch_nil sys fuel key db ok empty =
    let (u, found) = find_and_lock_nil sys fuel key read_lock db ok empty in
    (
      _,
      bind_run (find_and_lock sys fuel key read_lock) _ found
          ∙ bind_run _ _ (then_run (modify _) _ (modify_run _ u) ∙ return_run _ _)
          ∙ then_run _ _ (bind_run (get _) _ (get_run _ _) ∙ lock_call_run sys _ _ (ok _))
          ∙ return_run _ _,
    )

-- What db_open has made of an empty index file.
pub open_run :
    (sys : Sys) (dat : List ℕ)
    → ((n : ℕ) → sys n ≡ true)
    → (u : Db) × (db_open sys true (db_alloc [] dat) ≡ done tt u)
      × (u.idx ≡ zero_pointers (nhash_def + 1) ++ b'\n' ∷ [])
      × (u.nhash ≡ nhash_def)
      × (u.hashoff ≡ ptr_sz)
unfolding db_open db_alloc db_rewind
open_run sys dat ok = (
  _,
  then_run (modify _) _ (modify_run _ (db_alloc [] dat))
      ∙ then_run _ _ (
          then_run (lock_call sys _) _ (lock_call_run sys _ _ (ok _))
          ∙ then_run (demand sys) _ (demand_run sys _ (ok _))
          ∙ bind_run (get _) _ (get_run _ _)
          ∙ then_run _ _ (write_idx_run sys _ _ (ok _))
          ∙ lock_call_run sys _ _ (ok _))
      ∙ modify_run _ _,
  write_empty _,
  refl,
  refl,
)

slot_empty :
    (u : Db) (key : Text)
    → u.idx ≡ zero_pointers (nhash_def + 1) ++ b'\n' ∷ []
    → u.nhash ≡ nhash_def
    → u.hashoff ≡ ptr_sz
    → read_at (db_hash u key * ptr_sz + u.hashoff) ptr_sz u.idx ≡ pad ptr_sz 0
unfolding db_hash
slot_empty u key table size start =
    let hash = hash_from 1 0 key in
    let slot = hash % nhash_def in
    ap (λ (i : ℕ). read_at i ptr_sz u.idx)
      (ap (λ (n : ℕ). hash % n * ptr_sz + u.hashoff) size ∙ omega (arith, start))
    ∙ ap (λ (l : List ℕ). read_at (suc slot * ptr_sz) ptr_sz l) table
    ∙ zero_slot (suc slot) (nhash_def + 1) _ (omega arith)

-- Where the calls of the system succeed, db_fetch in a database that db_open has just created finds no
-- record, whatever the key, the fuel and what the data file holds.
pub db_open-db_fetch_nil :
    (sys : Sys) (fuel : ℕ) (key : Text) (dat : List ℕ)
    → ((n : ℕ) → sys n ≡ true)
    → (db : Db) × ((db_open sys true >> db_fetch sys fuel key) (db_alloc [] dat) ≡ done none db)
db_open-db_fetch_nil sys fuel key dat ok =
    let (u, opened, table, size, start) = open_run sys dat ok in
    let (v, fetched) = fetch_nil sys fuel key u ok (slot_empty u key table size start) in
    (v, then_run (db_open sys true) (db_fetch sys fuel key) opened ∙ fetched)
