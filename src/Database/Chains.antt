-- ===== src/Database/Chains.antt =====
-- The chains of the index file of apue.3e/db/db.c: what a list of records with their data looks like in
-- the two files, and what the searches along it find.
use unix_system_programming.Prelude.{
  ℕ, zero, suc, ◌+◌, ◌≤◌, ◌<◌, ◌≡◌, ◌≢◌, refl, ap, ◌∙◌, Bool, true, false, ◌&&◌, List, [], ◌∷◌,
  ◌++◌, length, Option, some, none, ◌==◌, All, Bool-cases, inl, inr, arith, if◌then◌else◌,
}
use unix_system_programming.Clib.{Text, str_eq}
use unix_system_programming.Database.{ℤ, pos, Db, D, done, ◌>>◌, return, modify, get, Sys, read_at}
use unix_system_programming.Database.Numbers.Laws.{Full}
use unix_system_programming.Database.Runs.{
  bind_run, then_run, case_true, case_false, return_run, modify_run, get_run,
}
use unix_system_programming.Database.Files.{ptr_max, readidx}
use unix_system_programming.Database.Records.{is_zero, find_loop}
use unix_system_programming.Database.Store.{free_loop}
use unix_system_programming.Database.Entries.{Entry, bytes_of, Writable, read_state, readidx_run}

-- What a chain stands for: keys with their data.
abbrev pub Pairs : Type 0
Pairs = List (Text × Text)

-- The first pair under a key.
unfoldable pub lookup : Text → Pairs → Option Text
lookup key [] = none
lookup key ((k, text) ∷ pairs) =
    let rest = lookup key pairs in if str_eq k key then some text else rest

-- A record at `o`, behind the hash table, whose chain goes on at `next`, with its data.
pub record Holds (idx dat : List ℕ) (floor o next : ℕ) (e : Entry) (text : Text) : Type 0 where
  pub writable : Writable e
  pub small : next ≤ ptr_max
  pub behind : floor ≤ o
  pub inside : o + length (bytes_of e next) ≤ length idx
  pub there : read_at o (length (bytes_of e next)) idx ≡ bytes_of e next
  pub size : e.datlen ≡ length text + 1
  pub full : Full text
  pub data_inside : e.datoff + e.datlen ≤ length dat
  pub data_there : read_at e.datoff e.datlen dat ≡ text ++ b'\n' ∷ []

pub data Chain (idx dat : List ℕ) (floor : ℕ) : ℕ → Pairs → Type 0 where
  nil : Chain idx dat floor 0 []
  cons :
      {o next : ℕ} {e : Entry} {text : Text} {pairs : Pairs}
      → Holds idx dat floor o next e text
      → Chain idx dat floor next pairs
      → Chain idx dat floor o ((e.key, text) ∷ pairs)

-- What a search leaves: whether there was a record, and if so where its data is.
abbrev pub Finds : List ℕ → Option Text → Bool → Db → Type 0
Finds dat none b u = b ≡ false
Finds dat (some text) b u =
    (b ≡ true)
    × Full text
    × (length text < 1024)
    × (u.datlen ≡ length text + 1)
    × (read_at u.datoff u.datlen dat ≡ text ++ b'\n' ∷ [])

not_zero : (n : ℕ) → n ≢ 0 → is_zero (pos n) ≡ false
not_zero zero h = absurd (h refl)
not_zero (suc n) h = refl

module _ (sys : Sys) (ok : (n : ℕ) → sys n ≡ true) {floor : ℕ} (front : 0 < floor) where
  module _ {idx dat : List ℕ} {o next : ℕ} {e : Entry} {text : Text}
      (h : Holds idx dat floor o next e text) where
    some_offset : o ≢ 0
    some_offset z = absurd (omega (arith, z, h.behind, front))

    -- The reading of one record of a chain.
    record_run :
        (db : Db)
        → db.idx ≡ idx
        → readidx sys (pos o) db ≡ done (pos next) (read_state e h.writable o next db)
    record_run db same =
        readidx_run e h.writable sys o next db ok some_offset h.small
          (ap (λ (l : List ℕ). read_at o (length (bytes_of e next)) l) same ∙ h.there)

    find_step :
        (fuel : ℕ) (key : Text) (db : Db)
        → db.idx ≡ idx
        → find_loop sys (suc fuel) key (pos o) db
          ≡ (elim (str_eq e.key key) as (λ x. D Bool) [
            | true ↦ return true
            | false ↦
                modify (λ db. record db { ptroff = pos o }) >> find_loop sys fuel key (pos next)
          ])
              (read_state e h.writable o next db)
    unfolding find_loop
    find_step fuel key db same =
        case_false _ _ _ db (not_zero o some_offset)
        ∙ bind_run (readidx sys (pos o)) _ (record_run db same)
        ∙ bind_run (get _) _ (get_run _ _)

  -- Along a chain, with one round of fuel for each record, the search ends and finds the first record
  -- under the key.
  pub find_loop_run :
      (key : Text) {o : ℕ} {pairs : Pairs} (fuel : ℕ) (db : Db) {idx dat : List ℕ}
      → db.idx ≡ idx
      → Chain idx dat floor o pairs
      → length pairs ≤ fuel
      → (b : Bool) × (u : Db) × (find_loop sys fuel key (pos o) db ≡ done b u)
        × Finds dat (lookup key pairs) b u
  unfolding lookup find_loop
  find_loop_run key zero db same nil enough = (false, db, return_run _ _, refl)
  find_loop_run key (suc fuel) db same nil enough = (false, db, return_run _ _, refl)
  find_loop_run key zero db same (cons h c) enough = absurd (omega arith)
  find_loop_run key (suc fuel) db same (cons {o} {next} {e} {text} {pairs} h c) enough =
      elim (Bool-cases (str_eq e.key key)) [
        | inl hit ↦ (
          true,
          read_state e h.writable o next db,
          find_step h fuel key db same ∙ case_true _ _ _ _ hit ∙ return_run _ _,
          rw hit (refl, h.full, omega (arith, h.size, h.writable.data_fits), h.size, h.data_there),
        )
        | inr miss ↦
            let (b, u, run, finds) =
              find_loop_run key fuel (record (read_state e h.writable o next db) { ptroff = pos o })
                same c (omega arith) in
            (
              b,
              u,
              find_step h fuel key db same
                  ∙ case_false _ _ _ _ miss
                  ∙ then_run (modify _) _ (modify_run _ _)
                  ∙ run,
              rw miss finds,
            )
      ]

  -- Along the free list, where no record has the sizes, the search ends and finds none.
  pub free_loop_run :
      (keylen datlen : ℕ) {o : ℕ} {frees : Pairs} (fuel : ℕ) (saved : ℤ) (db : Db)
      {idx dat : List ℕ}
      → db.idx ≡ idx
      → Chain idx dat floor o frees
      → All (λ (p : Text × Text). (length p.0 == keylen && length p.1 + 1 == datlen) ≡ false) frees
      → length frees ≤ fuel
      → (u : Db) × (free_loop sys fuel keylen datlen saved (pos o) db ≡ done none u)
  unfolding free_loop
  free_loop_run keylen datlen zero saved db same nil misfit enough = (db, return_run _ _)
  free_loop_run keylen datlen (suc fuel) saved db same nil misfit enough = (db, return_run _ _)
  free_loop_run keylen datlen zero saved db same (cons h c) misfit enough = absurd (omega arith)
  free_loop_run keylen datlen (suc fuel) saved db same (cons {o} {next} {e} {text} h c)
        (miss, misfit) enough =
      let (u, run) =
        free_loop_run keylen datlen fuel (pos o) (read_state e h.writable o next db) same c misfit
          (omega arith) in
      (
        u,
        case_false _ _ _ db (not_zero o (some_offset h))
            ∙ bind_run (readidx sys (pos o)) _ (record_run h db same)
            ∙ bind_run (get _) _ (get_run _ _)
            ∙ case_false _ _ _ _
                (ap (λ (n : ℕ). length e.key == keylen && n == datlen) h.size ∙ miss)
            ∙ run,
      )
