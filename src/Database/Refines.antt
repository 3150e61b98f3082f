-- ===== src/Database/Refines.antt =====
-- db_store and db_fetch of apue.3e/db/db.c as operations on the table of pairs that the files stand for.
use native.Mathlib.Nat.{mod-lt}
use unix_system_programming.Prelude.{
  ℕ, zero, suc, ◌+◌, ◌*◌, ◌%◌, ◌≤◌, ◌<◌, ◌≡◌, ◌⊎◌, inl, inr, refl, sym, ap, ◌∙◌, subst, Bool, true,
  false, ◌||◌, List, [], ◌∷◌, ◌++◌, length, length-append, Option, some, none, ◌==◌, if◌then◌else◌,
  Bool-cases, ==_iff, arith,
}
use unix_system_programming.Clib.{Text, str_eq}
use unix_system_programming.Clib.Laws.{str_eq_iff}
use unix_system_programming.Database.{Db, done, ◌>>=◌, require, Sys, write_lock, read_at}
use unix_system_programming.Database.Numbers.Laws.{Full, length-pad}
use unix_system_programming.Database.Runs.{
  bind_run, then_run, if_run, if_true_run, require_run, return_run,
}
use unix_system_programming.Database.Files.{ptr_sz, ptr_max, db_hash, hash_from, datlen_ok}
use unix_system_programming.Database.Records.{find_and_lock, db_fetch, unlock_chain}
use unix_system_programming.Database.Store.{
  store_new, store_found, store_checked, db_store, db_insert, db_replace, db_store_any, stored,
}
use unix_system_programming.Database.Locks.{chain_of}
use unix_system_programming.Database.Entries.{Writable}
use unix_system_programming.Database.Chains.{Pairs, lookup, Finds, nil}
use unix_system_programming.Database.Fetch.{Leads, find_and_lock_run, unlock_run, db_fetch-lookup}
use unix_system_programming.Database.Models.{
  Models, Models-subst, Represents, floor_of, slot_place, put, put-Models, new_entry,
}
use unix_system_programming.Database.Numbers.{pad}
use unix_system_programming.Database.Scan.{nhash_def, db_alloc, db_open, zero_pointers}
use unix_system_programming.Database.Fresh.{open_run, zero_slot}
use unix_system_programming.Database.Insert.{Misfit, store_new_run}

-- The table's chain for a key, and where its pointer lies.
module _ {db : Db} {table : ℕ → Pairs} {frees : Pairs} (r : Represents db table frees)
    (key : Text) where
  hash-lt : db_hash db key < db.nhash
  unfolding db_hash
  hash-lt = mod-lt (hash_from 1 0 key) r.some_chains

  chain_place : chain_of db key ≡ slot_place (db_hash db key)
  chain_place = omega (arith, r.start)

  pub key-Leads : Leads db.idx db.dat (floor_of db.nhash) (chain_of db key) (table (db_hash db key))
  key-Leads =
      subst (λ (p : ℕ). Leads db.idx db.dat (floor_of db.nhash) p (table (db_hash db key)))
        (sym chain_place) (r.models.slots (db_hash db key) hash-lt)

-- The flags with which a key that is not there is stored.
abbrev pub Inserts : ℕ → Type 0
Inserts flag = (flag ≡ db_insert) ⊎ (flag ≡ db_store_any)

flag_tests :
    (flag : ℕ)
    → Inserts flag
    → ((flag == db_insert || flag == db_replace || flag == db_store_any) ≡ true)
      × ((flag == db_replace) ≡ false)
flag_tests flag (inl e) = rw e (refl, refl)
flag_tests flag (inr e) = rw e (refl, refl)

-- What the theorems on a store of a pair ask for: that it can be written, that the index file is within the
-- reach of a pointer, that the key is new, that no free record has the sizes, and fuel for the two searches.
pub record Storable (db : Db) (table : ℕ → Pairs) (frees : Pairs) (fuel : ℕ) (key text : Text)
    : Type 0 where
  pub writable : Writable (new_entry db.dat key text)
  pub full : Full text
  pub size : datlen_ok (length text + 1) ≡ true
  pub reach : length db.idx ≤ ptr_max
  pub new_key : lookup key (table (db_hash db key)) ≡ none
  pub misfit : Misfit key text frees
  pub chain_fuel : length (table (db_hash db key)) ≤ fuel
  pub free_fuel : length frees ≤ fuel

-- The answer to a key, once a pair has been put in front of its chain.
lookup-put :
    (table : ℕ → Pairs) (hash : Text → ℕ) (key other text : Text)
    → lookup other (put table (hash key) ((key, text) ∷ table (hash key)) (hash other))
      ≡ (if str_eq key other then some text else lookup other (table (hash other)))
unfolding lookup
lookup-put table hash key other text = elim (Bool-cases (str_eq key other)) [
  | inl same ↦
      let is : key ≡ other = (str_eq_iff key other).0 same in
      let e : (hash other == hash key) ≡ true = (==_iff _ _).1 (ap hash (sym is)) in
      rw (e, same) refl
  | inr differ ↦ elim (Bool-cases (hash other == hash key)) [
    | inl e ↦
        rw (e, differ)
          (ap (λ (h : ℕ). lookup other (table h)) (sym ((==_iff (hash other) (hash key)).0 e)))
    | inr e ↦ rw (e, differ) refl
  ]
]

length-put :
    (table : ℕ → Pairs) (h i : ℕ) (pair : Text × Text)
    → length (put table h (pair ∷ table h) i) ≤ suc (length (table i))
length-put table h i pair = elim (Bool-cases (i == h)) [
  | inl e ↦ rw e (rw ((==_iff i h).0 e) (omega arith))
  | inr e ↦ rw e (omega arith)
]

module _ (sys : Sys) (ok : (n : ℕ) → sys n ≡ true) where
  -- On files that stand for a table of chains and a free list, where all calls of the system succeed, for a pair
  -- that is to be appended, with DB_INSERT or DB_STORE: its key is not in the table, key and data have no
  -- NUL and the key no ':', the index record and the data with their newlines are within the limits on their
  -- lengths, no free record has the lengths of both, and the offset of the index record can be printed:
  -- with a round of fuel for each record of the key's chain and of the free list, db_store succeeds, and the
  -- files then stand for the table with the pair in front of its chain, and the same free list.
  pub db_store-Represents :
      (fuel : ℕ) (key text : Text) (flag : ℕ) (db : Db) {table : ℕ → Pairs} {frees : Pairs}
      → Represents db table frees
      → Storable db table frees fuel key text
      → Inserts flag
      → (u : Db) × (db_store sys fuel key text flag db ≡ done stored u)
        × Represents u (put table (db_hash db key) ((key, text) ∷ table (db_hash db key))) frees
        × (u.nhash ≡ db.nhash)
  unfolding db_store store_checked store_found
  db_store-Represents fuel key text flag db {table} {frees} r s inserts =
      let h = db_hash db key in
      let (known, not_replace) = flag_tests flag inserts in
      let (b, u, searched, found) =
        find_and_lock_run sys ok (omega arith) fuel key write_lock db (table h) (key-Leads r key)
          s.chain_fuel in
      let absent : b ≡ false =
        subst (λ (o : Option Text). Finds db.dat o b u) s.new_key found.finds in
      let m = Models-subst found.nhash_same found.idx_same found.dat_same r.models in
      let below = subst (λ (n : ℕ). h < n) (sym found.nhash_same) (hash-lt r key) in
      let small = subst (λ (l : List ℕ). length l ≤ ptr_max) (sym found.idx_same) s.reach in
      let w =
        subst (λ (d : List ℕ). Writable (new_entry d key text)) (sym found.dat_same) s.writable in
      let (v, run, idx2, dat2, _, start2, size2) =
        store_new_run sys ok fuel key text u m below (found.chain_is ∙ chain_place r key) s.misfit
          s.free_fuel small w in
      let (x, unlocked, idx3, dat3, start3, size3) = unlock_run sys ok v in
      (
        x,
        if_true_run _ _ _ db known
            ∙ then_run (require _) _ (require_run _ db s.size)
            ∙ bind_run (find_and_lock sys fuel key write_lock) _ searched
            ∙ bind_run (store_found sys fuel key text flag b) _ (
                ap (λ (c : Bool). store_found sys fuel key text flag c u) absent
                ∙ if_run _ _ _ u not_replace
                ∙ then_run (store_new sys fuel key text) _ run
                ∙ return_run _ _)
            ∙ then_run (unlock_chain sys) _ unlocked
            ∙ return_run _ _,
        record {
          models =
              Models-subst (size3 ∙ size2) (idx3 ∙ idx2) (dat3 ∙ dat2)
                (put-Models m h key text below small w s.full);
          start = start3 ∙ start2 ∙ found.hashoff_same ∙ r.start;
          some_chains =
              subst (λ (n : ℕ). 0 < n) (sym (size3 ∙ size2 ∙ found.nhash_same)) r.some_chains;
        },
        size3 ∙ size2 ∙ found.nhash_same,
      )

  -- db_fetch of any key answers with the first pair under it in the table.
  pub db_fetch-Represents :
      (fuel : ℕ) (key : Text) (db : Db) {table : ℕ → Pairs} {frees : Pairs}
      → Represents db table frees
      → length (table (db_hash db key)) ≤ fuel
      → (u : Db) × (db_fetch sys fuel key db ≡ done (lookup key (table (db_hash db key))) u)
  db_fetch-Represents fuel key db {table} r enough =
      db_fetch-lookup sys ok (omega arith) fuel key db (table (db_hash db key)) (key-Leads r key)
        enough

  -- On files that stand for a table of chains and a free list, where all calls of the system succeed, for a pair
  -- that is to be appended, with DB_INSERT or DB_STORE: its key is not in the table, key and data have no
  -- NUL and the key no ':', the index record and the data with their newlines are within the limits on their
  -- lengths, no free record has the lengths of both, and the offset of the index record can be printed:
  -- with a round of fuel for each record of the key's chain, of the free list and of the other key's chain, and
  -- one more, db_store and then db_fetch of any key give the pair's data for its own key, and for another key
  -- what the table had.
  pub db_store-db_fetch :
      (fuel : ℕ) (key text other : Text) (flag : ℕ) (db : Db) {table : ℕ → Pairs} {frees : Pairs}
      → Represents db table frees
      → Storable db table frees fuel key text
      → Inserts flag
      → length (table (db_hash db other)) < fuel
      → (u : Db) × ((db_store sys fuel key text flag >>= λ _. db_fetch sys fuel other) db
          ≡ done
              (if str_eq key other then some text else lookup other (table (db_hash db other)))
              u)
  unfolding db_hash
  db_store-db_fetch fuel key text other flag db {table} {frees} r s inserts enough =
      let (u, run, r2, same) = db_store-Represents fuel key text flag db r s inserts in
      let table2 = put table (db_hash db key) ((key, text) ∷ table (db_hash db key)) in
      let hashes : db_hash u other ≡ db_hash db other =
        ap (λ (n : ℕ). hash_from 1 0 other % n) same in
      let fits =
        subst (λ (i : ℕ). length (table2 i) ≤ fuel) (sym hashes)
          (omega
            (arith, enough, length-put table (db_hash db key) (db_hash db other) (key, text))) in
      let (v, fetched) = db_fetch-Represents fuel other u r2 fits in
      (
        v,
        bind_run (db_store sys fuel key text flag) _ run
            ∙ fetched
            ∙ ap (λ (a : Option Text). done a v)
                (ap (λ (i : ℕ). lookup other (table2 i)) hashes
                  ∙ lookup-put table (db_hash db) key other text),
      )

length-zero_pointers : (n : ℕ) → length (zero_pointers n) ≡ n * ptr_sz
unfolding zero_pointers
length-zero_pointers zero = omega arith
length-zero_pointers (suc n) =
    length-append (pad ptr_sz 0) (zero_pointers n)
    ∙ omega (arith, length-pad 6 0 (omega arith), length-zero_pointers n)

-- A table of pointers that are 0 stands for the empty table.
pub empty-Models :
    (n : ℕ) (dat : List ℕ) → Models n (zero_pointers (n + 1) ++ b'\n' ∷ []) dat (λ h. []) []
empty-Models n dat = record {
  room =
      omega
        (arith, length-append (zero_pointers (n + 1)) (b'\n' ∷ []), length-zero_pointers (n + 1));
  free_list = record {
    first = 0;
    small = omega arith;
    pointer = zero_slot 0 (n + 1) _ (omega arith);
    chain = nil;
  };
  slots = λ h below. record {
    first = 0;
    small = omega arith;
    pointer =
        ap (λ (i : ℕ). read_at i ptr_sz (zero_pointers (n + 1) ++ b'\n' ∷ [])) (place h)
        ∙ zero_slot (suc h) (n + 1) _ (omega (arith, below));
    chain = nil;
  };
}
  where
    place : (h : ℕ) → slot_place h ≡ suc h * ptr_sz
    place h = omega arith

-- db_open of an empty index file makes the empty table, with an empty free list.
pub db_open-Represents :
    (sys : Sys) (dat : List ℕ)
    → ((n : ℕ) → sys n ≡ true)
    → (u : Db) × (db_open sys true (db_alloc [] dat) ≡ done tt u) × Represents u (λ h. []) []
db_open-Represents sys dat ok =
    let (u, opened, table, size, start) = open_run sys dat ok in
    (
      u,
      opened,
      record {
        models = Models-subst size table refl (empty-Models nhash_def u.dat);
        start = start;
        some_chains = omega (arith, size);
      },
    )
