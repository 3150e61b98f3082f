-- ===== src/Database/Writes.antt =====
-- What _db_writeidx and _db_writedat of apue.3e/db/db.c leave in the files and in the DB structure.
use unix_system_programming.Prelude.{
  ℕ, ◌+◌, ◌≤◌, ◌≡◌, ◌≢◌, refl, ap, ◌∙◌, true, false, List, [], ◌∷◌, ◌++◌, length, ltb, arith,
}
use unix_system_programming.Clib.{Text}
use unix_system_programming.Database.{
  pos, Db, done, ◌>>◌, return, modify, get, require, Sys, demand, lock_call, read_at, write_at,
}
use unix_system_programming.Database.Files.{
  ptr_max, idxlen_ok, Place, set, append, offset_of, when_appending, index_line, print_line,
  index_lock, write_idx, writeidx, readidx, writedat,
}
use unix_system_programming.Database.Runs.{
  bind_run, then_run, if_run, require_run, demand_run, return_run, modify_run, get_run,
  lock_call_run, write_idx_run,
}
use unix_system_programming.Database.Entries.{Entry, bytes_of, Writable, read_state, readidx_run}
use unix_system_programming.Database.Bytes.{read_at-write_at}

-- What stays: the other file, and the fields that say where the record and its chain are.
pub record Frame (db u : Db) : Type 0 where
  pub chain : u.chainoff ≡ db.chainoff
  pub hashoff : u.hashoff ≡ db.hashoff
  pub nhash : u.nhash ≡ db.nhash

pub Frame-refl : (db : Db) → Frame db db
Frame-refl db = record { chain = refl; hashoff = refl; nhash = refl }

pub Frame-trans : {a b c : Db} → Frame a b → Frame b c → Frame a c
Frame-trans p q = record {
  chain = q.chain ∙ p.chain;
  hashoff = q.hashoff ∙ p.hashoff;
  nhash = q.nhash ∙ p.nhash;
}

module _ (sys : Sys) (ok : (n : ℕ) → sys n ≡ true) where
  pub writedat_run :
      (text : Text) (place : Place) (db : Db)
      → (u : Db) × (writedat sys text place db ≡ done tt u)
        × (u.dat ≡ write_at (offset_of place db.dat) (text ++ b'\n' ∷ []) db.dat)
        × (u.datoff ≡ offset_of place db.dat)
        × (u.datlen ≡ length text + 1)
        × (u.idx ≡ db.idx)
        × (u.idxoff ≡ db.idxoff)
        × Frame db u
  unfolding writedat when_appending
  writedat_run text (set n) db = (
    _,
    then_run (return tt) _ (return_run tt db)
        ∙ then_run (modify _) _ (modify_run _ _)
        ∙ then_run (demand sys) _ (demand_run sys _ (ok _))
        ∙ then_run (modify _) _ (modify_run _ _)
        ∙ return_run tt _,
    refl,
    refl,
    refl,
    refl,
    refl,
    record { chain = refl; hashoff = refl; nhash = refl },
  )
  writedat_run text append db = (
    _,
    then_run (lock_call sys _) _ (lock_call_run sys _ db (ok _))
        ∙ then_run (modify _) _ (modify_run _ _)
        ∙ then_run (demand sys) _ (demand_run sys _ (ok _))
        ∙ then_run (modify _) _ (modify_run _ _)
        ∙ lock_call_run sys _ _ (ok _),
    refl,
    refl,
    refl,
    refl,
    refl,
    record { chain = refl; hashoff = refl; nhash = refl },
  )

  print_line_run :
      (key : Text) (db : Db)
      → idxlen_ok (length (index_line key db.datoff db.datlen)) ≡ true
      → print_line key db
        ≡ done
            (index_line key db.datoff db.datlen)
            (record db { idxbuf = index_line key db.datoff db.datlen })
  unfolding print_line
  print_line_run key db h =
      bind_run (get _) _ (get_run _ db)
      ∙ rw (no_overrun (length (index_line key db.datoff db.datlen)) h) (
          then_run (return tt) _ (return_run tt db)
          ∙ then_run (modify _) _ (modify_run _ _)
          ∙ then_run (require _) _ (require_run _ _ h)
          ∙ return_run _ _)
    where
      no_overrun : (n : ℕ) → idxlen_ok n ≡ true → ltb 1025 n ≡ false
      no_overrun n h = ground arith

  not_over : (v : ℕ) → v ≤ ptr_max → ltb ptr_max v ≡ false
  not_over v h = ground arith

  pub writeidx_run :
      (key : Text) (place : Place) (next : ℕ) (db : Db)
      → next ≤ ptr_max
      → idxlen_ok (length (index_line key db.datoff db.datlen)) ≡ true
      → (u : Db) × (writeidx sys key place (pos next) db ≡ done tt u)
        × (u.idx
            ≡ write_at
                (offset_of place db.idx)
                (bytes_of (record { key = key; datoff = db.datoff; datlen = db.datlen }) next)
                db.idx)
        × (u.idxoff ≡ offset_of place db.idx)
        × (u.dat ≡ db.dat)
        × (u.datoff ≡ db.datoff)
        × (u.datlen ≡ db.datlen)
        × Frame db u
  unfolding writeidx when_appending index_lock
  writeidx_run key (set n) next db small fits = (
    _,
    if_run _ _ _ db (not_over next small)
        ∙ then_run (modify _) _ (modify_run _ db)
        ∙ bind_run (print_line key) _ (print_line_run key (record db { ptrval = pos next }) fits)
        ∙ then_run (return tt) _ (return_run tt _)
        ∙ then_run (modify _) _ (modify_run _ _)
        ∙ then_run (write_idx sys _) _ (write_idx_run sys _ _ (ok _))
        ∙ return_run tt _,
    refl,
    refl,
    refl,
    refl,
    refl,
    record { chain = refl; hashoff = refl; nhash = refl },
  )
  writeidx_run key append next db small fits = (
    _,
    if_run _ _ _ db (not_over next small)
        ∙ then_run (modify _) _ (modify_run _ db)
        ∙ bind_run (print_line key) _ (print_line_run key (record db { ptrval = pos next }) fits)
        ∙ then_run _ _ (bind_run (get _) _ (get_run _ _) ∙ lock_call_run sys _ _ (ok _))
        ∙ then_run (modify _) _ (modify_run _ _)
        ∙ then_run (write_idx sys _) _ (write_idx_run sys _ _ (ok _))
        ∙ bind_run (get _) _ (get_run _ _)
        ∙ lock_call_run sys _ _ (ok _),
    refl,
    refl,
    refl,
    refl,
    refl,
    record { chain = refl; hashoff = refl; nhash = refl },
  )

  -- Where the calls of the system succeed, an index record that _db_writeidx has written, over another or
  -- at the end of the file, is what _db_readidx then reads there: its chain pointer, its key, and the offset
  -- and length of its data. The record is within the limits, with a key without NUL and separator, its
  -- pointer has at most seven digits, and it does not lie at offset 0.
  pub writeidx-readidx :
      (key : Text) (place : Place) (next : ℕ) (db : Db)
      → next ≤ ptr_max
      → Writable (record { key = key; datoff = db.datoff; datlen = db.datlen })
      → offset_of place db.idx ≢ 0
      → (u : Db) × ((writeidx sys key place (pos next)
              >> readidx sys (pos (offset_of place db.idx)))
            db
          ≡ done (pos next) u)
        × (u.idxbuf ≡ key)
        × (u.datoff ≡ db.datoff)
        × (u.datlen ≡ db.datlen)
  writeidx-readidx key place next db small w somewhere =
      let e : Entry = record { key = key; datoff = db.datoff; datlen = db.datlen } in
      let (v, run, idx, _, _, _, _, _) = writeidx_run key place next db small w.line_fits in
      (
        read_state e w (offset_of place db.idx) next v,
        then_run (writeidx sys key place (pos next)) _ run
            ∙ readidx_run e w sys (offset_of place db.idx) next v ok somewhere small (
                ap (λ (l : List ℕ). read_at (offset_of place db.idx) (length (bytes_of e next)) l)
                  idx
                ∙ read_at-write_at (offset_of place db.idx) (bytes_of e next) db.idx),
        refl,
        refl,
        refl,
      )
