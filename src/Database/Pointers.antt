-- ===== src/Database/Pointers.antt =====
-- The chain pointers in the index file: _db_readptr and _db_writeptr of apue.3e/db/db.c, and the
-- place of a key's chain in the hash table.
use native.Mathlib.Nat.{mod-lt}
use unix_system_programming.Prelude.{
  ℕ, suc, ◌+◌, ◌*◌, ◌<◌, ◌≤◌, ◌≡◌, ◌⊎◌, refl, sym, ap, ◌∙◌, true, false, List, length, arith, ltb,
}
use unix_system_programming.Clib.{Text}
use unix_system_programming.Database.{
  ℤ, pos, Db, done, ◌>>◌, modify, Sys, demand, require, read_at, write_at,
}
use unix_system_programming.Database.Numbers.{pad, atol}
use unix_system_programming.Database.Numbers.Laws.{atol-pad, length-pad}
use unix_system_programming.Database.Files.{
  ptr_sz, ptr_max, hash_from, db_hash, seek, read_idx, write_idx, readptr, writeptr,
}
use unix_system_programming.Database.Runs.{
  bind_run, then_run, demand_run, require_run, seek_run, return_run, read_idx_run,
}
use unix_system_programming.Database.Bytes.{read_at-write_at, read_at-write_at_beside}
use unix_system_programming.Database.Numbers.Laws.{c_string-pad}

-- In a hash table that has chains and begins behind the free list's pointer, the pointer of any key's
-- chain lies within the table, whatever bytes the key has.
pub chain-InTable :
    (db : Db) (key : Text)
    → 0 < db.nhash
    → db.hashoff ≡ ptr_sz
    → (ptr_sz ≤ db_hash db key * ptr_sz + db.hashoff)
      × (db_hash db key * ptr_sz + db.hashoff + ptr_sz ≤ (db.nhash + 1) * ptr_sz)
unfolding db_hash
chain-InTable db key h e = (omega (arith, e), omega (arith, e, mod-lt (hash_from 1 0 key) h))

-- A pointer that has been printed and written is there, with its seven bytes.
pub written_pointer :
    (o v : ℕ) (file : List ℕ)
    → v ≤ ptr_max
    → read_at o ptr_sz (write_at o (pad ptr_sz v) file) ≡ pad ptr_sz v
written_pointer o v file h =
    ap (λ (n : ℕ). read_at o n (write_at o (pad ptr_sz v) file))
      (sym (length-pad 6 v (omega arith)))
    ∙ read_at-write_at o (pad ptr_sz v) file

not_over : (v : ℕ) → v ≤ ptr_max → ltb ptr_max v ≡ false
not_over v h = ground arith

pub readptr_run :
    (sys : Sys) (o v : ℕ) (db : Db)
    → sys db.calls ≡ true
    → v ≤ ptr_max
    → read_at o ptr_sz db.idx ≡ pad ptr_sz v
    → readptr sys (pos o) db
      ≡ done (pos v) (record db { at = o + length (pad ptr_sz v); calls = suc db.calls })
unfolding readptr
readptr_run sys o v db e h there =
    then_run (seek (pos o)) _ (seek_run o db)
    ∙ bind_run (read_idx sys ptr_sz) _
        (read_idx_run sys ptr_sz (pad ptr_sz v) (record db { at = o }) e there)
    ∙ then_run (require _) _ (require_run _ _ (rw (length-pad 6 v (omega arith)) refl))
    ∙ return_run _ _
    ∙ ap (λ (z : ℤ). done z (record db { at = o + length (pad ptr_sz v); calls = suc db.calls }))
        (ap atol (c_string-pad ptr_sz v) ∙ atol-pad ptr_sz v)

pub writeptr_run :
    (sys : Sys) (o v : ℕ) (db : Db)
    → sys db.calls ≡ true
    → v ≤ ptr_max
    → writeptr sys (pos o) (pos v) db
      ≡ done tt (record db {
        idx = write_at o (pad ptr_sz v) db.idx;
        at = o + length (pad ptr_sz v);
        calls = suc db.calls;
      })
unfolding writeptr write_idx modify
writeptr_run sys o v db e h = rw (not_over v h) (
    then_run (seek (pos o)) _ (seek_run o db)
    ∙ then_run (demand sys) _ (demand_run sys (record db { at = o }) e))

-- Where the calls of the system succeed, a pointer of at most seven digits that _db_writeptr has written
-- is what _db_readptr reads there, and any other seven bytes of the file that lie beside it are unchanged.
pub writeptr-readptr :
    (sys : Sys) (o v p : ℕ) (db : Db)
    → ((n : ℕ) → sys n ≡ true)
    → v ≤ ptr_max
    → p + ptr_sz ≤ length db.idx
    → (p + ptr_sz ≤ o) ⊎ (o + ptr_sz ≤ p)
    → (db2 : Db) × ((writeptr sys (pos o) (pos v) >> readptr sys (pos o)) db ≡ done (pos v) db2)
      × (read_at p ptr_sz db2.idx ≡ read_at p ptr_sz db.idx)
writeptr-readptr sys o v p db ok h fits apart = (
  _,
  then_run (writeptr sys (pos o) (pos v)) (readptr sys (pos o))
        (writeptr_run sys o v db (ok db.calls) h)
      ∙ readptr_run sys o v _ (ok _) h (written_pointer o v db.idx h),
  read_at-write_at_beside p ptr_sz o (pad ptr_sz v) db.idx fits
      (rw (length-pad 6 v (omega arith)) apart),
)
