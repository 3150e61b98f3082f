-- ===== src/Database/Data.antt =====
-- Data records: _db_writedat and _db_readdat of apue.3e/db/db.c.
use unix_system_programming.Prelude.{
  ℕ, suc, ◌+◌, ◌-◌, ◌≡◌, refl, sym, ap, ◌∙◌, true, List, [], ◌∷◌, ◌++◌, length, length-append, take,
  leb, ◌≤◌, ◌<◌, get_or, arith,
}
use unix_system_programming.Clib.{Text, c_string}
use unix_system_programming.Database.{
  Db, done, ◌>>◌, modify, get, require, Sys, demand, lock_call, lock, LockKind, write_lock,
  unlocked, data_file, read_at, write_at,
}
use unix_system_programming.Database.Files.{
  Place, set, append, offset_of, when_appending, writedat, readdat, datbuf_size, into_datbuf,
}
use unix_system_programming.Database.Runs.{
  bind_run, then_run, if_true_run, demand_run, require_run, return_run, modify_run, get_run,
  lock_call_run, equal_test,
}
use unix_system_programming.Database.Bytes.{read_at-write_at, last_byte, front}
use unix_system_programming.Database.Numbers.Laws.{Full, c_string-Full}

-- The state after the lock calls of an append.
appending_run :
    (sys : Sys) (place : Place) (db : Db) (kind : LockKind)
    → ((n : ℕ) → sys n ≡ true)
    → (u : Db) × (when_appending place (lock_call sys (lock kind data_file 0 0)) db ≡ done tt u)
      × (u.dat ≡ db.dat)
      × (u.datoff ≡ db.datoff)
      × (u.datlen ≡ db.datlen)
unfolding when_appending
appending_run sys (set n) db kind ok = (db, return_run tt db, refl, refl, refl)
appending_run sys append db kind ok = (_, lock_call_run sys _ db (ok _), refl, refl, refl)

pub readdat_run :
    (sys : Sys) (text : Text) (db : Db)
    → ((n : ℕ) → sys n ≡ true)
    → Full text
    → length text < datbuf_size
    → db.datlen ≡ length text + 1
    → read_at db.datoff db.datlen db.dat ≡ text ++ b'\n' ∷ []
    → (u : Db) × (readdat sys db ≡ done text u)
unfolding readdat into_datbuf
readdat_run sys text db ok full small size there = (
  _,
  then_run (demand sys) _ (demand_run sys db (ok _))
      ∙ bind_run (get _) _ (get_run _ _)
      ∙ then_run (into_datbuf _) _ (
          if_true_run _ _ _ _ (
            ap (λ (l : List ℕ). leb (length l) datbuf_size) there
            ∙ fits (length (text ++ b'\n' ∷ [])) (omega (arith, length-append text (b'\n' ∷ []))))
          ∙ return_run _ _)
      ∙ bind_run (get _) _ (get_run _ _)
      ∙ then_run (require _) _ (
          require_run _ _ (
            equal_test _ _ (ap (λ (l : List ℕ). length l) there ∙ length-append text _ ∙ sym size)))
      ∙ then_run (require _) _ (
          require_run _ _ (
            equal_test _ _ (
              ap (λ (l : List ℕ). get_or l (db.datlen - 1) 0) there
              ∙ ap (λ (n : ℕ). get_or (text ++ b'\n' ∷ []) n 0) (omega (arith, size))
              ∙ last_byte text b'\n')))
      ∙ then_run (modify _) _ (modify_run _ _)
      ∙ get_run _ _
      ∙ ap (λ (t : Text). done t (record db { datbuf = t; calls = suc db.calls }))
          (ap (λ (l : List ℕ). c_string (take (db.datlen - 1) l)) there
            ∙ ap (λ (n : ℕ). c_string (take n (text ++ b'\n' ∷ []))) (omega (arith, size))
            ∙ ap c_string (front text b'\n')
            ∙ c_string-Full text full),
)
  where
    fits : (n : ℕ) → n ≤ datbuf_size → leb n datbuf_size ≡ true
    fits n h = ground arith

-- Where the calls of the system succeed, a text without NUL that fits into datbuf with its newline and that
-- _db_writedat has written, over a record or at the end of the file, is what _db_readdat then reads.
pub writedat-readdat :
    (sys : Sys) (text : Text) (place : Place) (db : Db)
    → ((n : ℕ) → sys n ≡ true)
    → Full text
    → length text < datbuf_size
    → (u : Db) × ((writedat sys text place >> readdat sys) db ≡ done text u)
unfolding writedat
writedat-readdat sys text place db ok full small =
    let bytes = text ++ b'\n' ∷ [] in
    let (v, locked, _, _, _) = appending_run sys place db write_lock ok in
    let offset = offset_of place v.dat in
    let (w, unlocked_now, x, y, z) =
      appending_run sys place
        (record v {
          datoff = offset;
          datlen = length text + 1;
          calls = suc v.calls;
          dat = write_at offset bytes v.dat;
        })
        unlocked ok in
    let there =
      ap (λ (o : ℕ). read_at o w.datlen w.dat) y
      ∙ ap (λ (n : ℕ). read_at offset n w.dat) (z ∙ sym (length-append text (b'\n' ∷ [])))
      ∙ ap (λ (l : List ℕ). read_at offset (length bytes) l) x
      ∙ read_at-write_at offset bytes v.dat in
    let (u, h) = readdat_run sys text w ok full small z there in
    (
      u,
      then_run (writedat sys text place) (readdat sys) (
            then_run (when_appending place _) _ locked
            ∙ then_run (modify _) _ (modify_run _ v)
            ∙ then_run (demand sys) _ (demand_run sys _ (ok _))
            ∙ then_run (modify _) _ (modify_run _ _)
            ∙ unlocked_now)
          ∙ h,
    )
