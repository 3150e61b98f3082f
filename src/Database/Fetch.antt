-- ===== src/Database/Fetch.antt =====
-- db_fetch of apue.3e/db/db.c against the list of pairs that the key's chain stands for.
use unix_system_programming.Prelude.{
  ℕ, suc, ◌+◌, ◌≤◌, ◌<◌, ◌≡◌, refl, sym, ap, ◌∙◌, subst, Bool, true, false, List, [], ◌∷◌, ◌++◌,
  length, Option, some, none, arith, ◌<◌,
}
use unix_system_programming.Clib.{Text}
use unix_system_programming.Database.{
  pos, Db, D, Result, done, ◌>>=◌, ◌>>◌, return, modify, get, Sys, LockKind, lock, index, read_lock,
  lock_call, read_at,
}
use unix_system_programming.Database.Numbers.{pad}
use unix_system_programming.Database.Runs.{
  bind_run, then_run, case_true, case_false, return_run, modify_run, get_run, lock_call_run,
}
use unix_system_programming.Database.Files.{ptr_sz, ptr_max, readptr, readdat, datbuf_size}
use unix_system_programming.Database.Records.{find_and_lock, db_fetch, unlock_chain}
use unix_system_programming.Database.Pointers.{readptr_run}
use unix_system_programming.Database.Data.{readdat_run}
use unix_system_programming.Database.Quiet.{Kept, Quiet, after, kept}
use unix_system_programming.Database.Reads.{quiet-find_loop}
use unix_system_programming.Database.Locks.{chain_of}
use unix_system_programming.Database.Chains.{Pairs, lookup, Chain, Finds, find_loop_run}

-- A pointer in the file and the chain that it leads to.
pub record Leads (idx dat : List ℕ) (floor place : ℕ) (pairs : Pairs) : Type 0 where
  pub first : ℕ
  pub small : first ≤ ptr_max
  pub pointer : read_at place ptr_sz idx ≡ pad ptr_sz first
  pub chain : Chain idx dat floor first pairs

-- What a function that reads keeps, where it has come to its end.
pub kept_done :
    {A : Type 0} {m : D A} {db u : Db} {a : A} → Quiet m → m db ≡ done a u → kept u ≡ kept db
unfolding after
kept_done {A} {m} {db} {u} {a} q h = ap (λ (r : Result A). kept (after r)) (sym h) ∙ q.quiet db

pub unlock_run :
    (sys : Sys)
    → ((n : ℕ) → sys n ≡ true)
    → (db : Db)
    → (u : Db) × (unlock_chain sys db ≡ done tt u)
      × (u.idx ≡ db.idx)
      × (u.dat ≡ db.dat)
      × (u.hashoff ≡ db.hashoff)
      × (u.nhash ≡ db.nhash)
unfolding unlock_chain
unlock_run sys ok db =
    (_, bind_run (get _) _ (get_run _ db) ∙ lock_call_run sys _ _ (ok _), refl, refl, refl, refl)

module _ (sys : Sys) (ok : (n : ℕ) → sys n ≡ true) {floor : ℕ} (front : 0 < floor) where
  -- What _db_find_and_lock leaves: the chain's place, the files as they were, and what was found.
  pub record Found (key : Text) (pairs : Pairs) (db : Db) (b : Bool) (u : Db) : Type 0 where
    pub finds : Finds db.dat (lookup key pairs) b u
    pub idx_same : u.idx ≡ db.idx
    pub dat_same : u.dat ≡ db.dat
    pub chain_is : u.chainoff ≡ chain_of db key
    pub hashoff_same : u.hashoff ≡ db.hashoff
    pub nhash_same : u.nhash ≡ db.nhash

  pub find_and_lock_run :
      (fuel : ℕ) (key : Text) (kind : LockKind) (db : Db) (pairs : Pairs)
      → Leads db.idx db.dat floor (chain_of db key) pairs
      → length pairs ≤ fuel
      → (b : Bool) × (u : Db) × (find_and_lock sys fuel key kind db ≡ done b u)
        × Found key pairs db b u
  unfolding find_and_lock kept
  find_and_lock_run fuel key kind db pairs leads enough =
      let place = chain_of db key in
      let start : Db = record db {
        chainoff = place;
        ptroff = pos place;
        locks = db.locks ++ lock kind index place 1 ∷ [];
        calls = suc (suc db.calls);
        at = place + length (pad ptr_sz leads.first);
      } in
      let (b, u, run, finds) =
        find_loop_run sys ok front key fuel start {idx = db.idx} {dat = db.dat} refl leads.chain
          enough in
      let same = kept_done (quiet-find_loop sys fuel key (pos leads.first)) run in
      (
        b,
        u,
        then_run (modify _) _ (modify_run _ db)
            ∙ then_run (modify _) _ (modify_run _ _)
            ∙ bind_run (get _) _ (get_run _ _)
            ∙ then_run (lock_call sys _) _ (lock_call_run sys _ _ (ok _))
            ∙ bind_run (readptr sys _) _
                (readptr_run sys _ leads.first _ (ok _) leads.small leads.pointer)
            ∙ run,
        record {
          finds = finds;
          idx_same = ap (λ (k : Kept). k.0) same;
          dat_same = ap (λ (k : Kept). k.1) same;
          chain_is = ap (λ (k : Kept). k.3) same;
          hashoff_same = ap (λ (k : Kept). k.4) same;
          nhash_same = ap (λ (k : Kept). k.5) same;
        },
      )

  within : (text : Text) → length text < 1024 → length text < datbuf_size
  unfolding datbuf_size
  within text h = omega arith

  -- The rest of db_fetch, after the search.
  answer_run :
      (r : Option Text) (b : Bool) (db : Db)
      → Finds db.dat r b db
      → (u : Db) × ((elim b as (λ x. D (Option Text)) [
        | true ↦ do
          text ← readdat sys
          modify (λ db. record db { cnt_fetchok = suc db.cnt_fetchok })
          return (some text)
        | false ↦ do modify (λ db. record db { cnt_fetcherr = suc db.cnt_fetcherr }); return none
      ])
            db
          ≡ done r u)
  answer_run none b db missing =
      (_, case_false _ _ _ db missing ∙ then_run (modify _) _ (modify_run _ _) ∙ return_run _ _)
  answer_run (some text) b db (there, full, small, size, bytes) =
      let (u, run) = readdat_run sys text db ok full (within text small) size bytes in
      (
        _,
        case_true _ _ _ db there
            ∙ bind_run (readdat sys) _ run
            ∙ then_run (modify _) _ (modify_run _ _)
            ∙ return_run _ _,
      )

  -- Where the calls of the system succeed and the key's chain is well formed, db_fetch returns, with a
  -- round of fuel for each record of the chain, and its answer is the data of the first record under the
  -- key, or none.
  pub db_fetch-lookup :
      (fuel : ℕ) (key : Text) (db : Db) (pairs : Pairs)
      → Leads db.idx db.dat floor (chain_of db key) pairs
      → length pairs ≤ fuel
      → (u : Db) × (db_fetch sys fuel key db ≡ done (lookup key pairs) u)
  unfolding db_fetch
  db_fetch-lookup fuel key db pairs leads enough =
      let (b, u, run, found) = find_and_lock_run fuel key read_lock db pairs leads enough in
      let (v, answered) =
        answer_run (lookup key pairs) b u (
          subst (λ (d : List ℕ). Finds d (lookup key pairs) b u) (sym found.dat_same)
            found.finds) in
      let (w, unlocked, _, _, _, _) = unlock_run sys ok v in
      (
        w,
        bind_run (find_and_lock sys fuel key read_lock) _ run
            ∙ bind_run _ _ answered
            ∙ then_run (unlock_chain sys) _ unlocked
            ∙ return_run _ _,
      )
