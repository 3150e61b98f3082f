-- ===== src/Database/Tests.antt =====
-- Runs of the operations of apue.3e/db/db.c on small databases, and the properties at concrete inputs.
mod Refinement
use unix_system_programming.Prelude.{
  ◌+◌, ◌*◌, ◌≤◌, ◌≡◌, refl, inr, ◌++◌, ◌∷◌, true, [], none, some, arith, length, ◌<◌, ℕ,
}
use unix_system_programming.Clib.{Text, codes, str_eq, c_string, has_char}
use unix_system_programming.Database.{
  lock, read_lock, unlocked, index, Db, D, done, halted, ◌>>=◌, ◌>>◌, Sys, return, pos, Halt,
  dumped, modify, get, halt, require, demand, lock_call, read_at,
}
use unix_system_programming.Database.Numbers.{
  decimal, pad, atol, digits, digits_value, is_digit, is_space,
}
use unix_system_programming.Database.Numbers.Laws.{atol-pad}
use unix_system_programming.Database.Files.{
  append, ptr_sz, db_hash, readptr, writeptr, write_idx, seek, read_idx, accept_length, cut_sep,
  hash_from, index_line, index_lock, is_current, print_line, read_fields, read_rest, datbuf_size,
  readdat, readidx, set_fields, when_appending, writedat, writeidx,
}
use unix_system_programming.Database.Quiet.{after}
use unix_system_programming.Database.Reads.{queries_read}
use unix_system_programming.Database.Pointers.{chain-InTable}
use unix_system_programming.Database.Data.{writedat-readdat}
use unix_system_programming.Database.Locks.{chain_of, db_fetch-locks}
use unix_system_programming.Database.Records.{
  db_fetch, db_delete, dodelete, find_and_lock, find_loop, unlock_chain,
}
use unix_system_programming.Database.Store.{
  db_store, Stored, append_record, findfree, free_loop, link_front, refuse, store_checked,
  store_found, store_new, store_over,
}
use unix_system_programming.Database.Scan.{
  db_alloc, db_open, db_nextrec, db_rewind, zero_pointers, next_loop, all_blank,
}

abbrev pub willing : Sys
willing n = true

abbrev pub alpha : Text
alpha = codes "alpha"

-- A run on new files: its answer, or how it ended the process.
data Answer (A : Type 0) : Type 0 where
  answered : A → Answer A
  stopped : Halt → Answer A

unfoldable answer : {A : Type 0} → D A → Answer A
unfolding db_alloc
answer m = elim (m (db_alloc [] [])) [ done a db ↦ answered a | halted h db ↦ stopped h ]

abbrev fill : Text → D Stored
fill key = db_open willing true >> db_store willing 9 key (codes "one") 1

-- A record is found, deleted and scanned; a key with a colon is stored, and the next search of its
-- chain ends the process.
database_runs :
    (answer (fill alpha >>= λ x. db_fetch willing 9 alpha) ≡ answered (some (codes "one")))
    × (answer (fill alpha >>= λ x. db_delete willing 9 alpha >>= λ y. db_fetch willing 9 alpha)
        ≡ answered none)
    × (answer (fill alpha >>= λ x. db_rewind >> db_nextrec willing 9)
        ≡ answered (some (alpha, codes "one")))
    × (answer (fill (codes "a:b") >>= λ x. db_fetch willing 9 (codes "a:b")) ≡ stopped dumped)
unfolding answer db_open db_store db_fetch db_delete db_nextrec ◌>>=◌ ◌>>◌ modify lock_call demand
    get require return halt write_idx find_and_lock readptr seek read_idx db_hash pad atol c_string
    has_char str_eq accept_length cut_sep hash_from index_line index_lock is_current print_line
    read_fields read_rest datbuf_size readdat readidx set_fields when_appending writedat writeidx
    writeptr decimal digits digits_value is_digit is_space dodelete find_loop unlock_chain db_alloc
    db_rewind zero_pointers append_record findfree free_loop link_front refuse store_checked
    store_found store_new store_over next_loop all_blank
database_runs = (refl, refl, refl, refl)

abbrev pub db_zero : Db
db_zero = record {
  idx = [];
  dat = [];
  at = 0;
  idxbuf = [];
  datbuf = [];
  idxoff = 0;
  idxlen = 0;
  datoff = 0;
  datlen = 0;
  ptrval = pos 0;
  ptroff = pos 0;
  chainoff = 0;
  hashoff = 0;
  nhash = 0;
  cnt_delok = 0;
  cnt_delerr = 0;
  cnt_fetchok = 0;
  cnt_fetcherr = 0;
  cnt_nextrec = 0;
  cnt_stor1 = 0;
  cnt_stor2 = 0;
  cnt_stor3 = 0;
  cnt_stor4 = 0;
  cnt_storerr = 0;
  locks = [];
  calls = 0;
}

unfoldable small : Db
small = record db_zero {
  idx = pad ptr_sz 0 ++ pad ptr_sz 14 ++ pad ptr_sz 0;
  nhash = 2;
  hashoff = ptr_sz;
}

alpha_small : length alpha < datbuf_size
unfolding datbuf_size
alpha_small = omega arith

writedat-readdat_example :
    (db : Db) × ((writedat willing alpha append >> readdat willing) db_zero ≡ done alpha db)
writedat-readdat_example =
    writedat-readdat willing alpha append db_zero (λ n. refl) (ground arith) alpha_small

unfoldable blank : Db
blank = record db_zero {
  idx = pad ptr_sz 0 ++ pad ptr_sz 0 ++ pad ptr_sz 0;
  nhash = 2;
  hashoff = ptr_sz;
}

db_fetch-locks_example :
    (after (db_fetch willing 9 alpha blank)).locks
    ≡ []
      ++ lock read_lock index (chain_of blank alpha) 1
        ∷ lock unlocked index (chain_of blank alpha) 1
        ∷ []
unfolding blank db_open db_store db_fetch db_delete db_nextrec ◌>>=◌ ◌>>◌ modify lock_call demand
    get require return halt write_idx find_and_lock readptr seek read_idx db_hash pad atol c_string
    has_char str_eq accept_length cut_sep hash_from index_line index_lock is_current print_line
    read_fields read_rest datbuf_size readdat readidx set_fields when_appending writedat writeidx
    writeptr decimal digits digits_value is_digit is_space dodelete find_loop unlock_chain db_alloc
    db_rewind zero_pointers append_record findfree free_loop link_front refuse store_checked
    store_found store_new store_over next_loop all_blank after
db_fetch-locks_example =
    db_fetch-locks willing 9 alpha blank (after (db_fetch willing 9 alpha blank)) none refl
