-- ===== src/Database/Locks.antt =====
-- The locks of db_fetch of apue.3e/db/db.c.
use unix_system_programming.Prelude.{
  ℕ, suc, ◌+◌, ◌*◌, ◌≡◌, refl, sym, ap, ◌∙◌, Bool, true, false, List, [], ◌∷◌, ◌++◌, Option, none,
  some, append_assoc,
}
use unix_system_programming.Clib.{Text}
use unix_system_programming.Database.{
  pos, Db, D, Result, done, halted, ◌>>=◌, ◌>>◌, return, modify, get, Sys, demand, LockCall,
  LockKind, lock, read_lock, unlocked, index, lock_call,
}
use unix_system_programming.Database.Files.{ptr_sz, db_hash, readdat}
use unix_system_programming.Database.Records.{find_and_lock, db_fetch, unlock_chain}
use unix_system_programming.Database.Quiet.{
  Kept, Quiet, after, kept, quiet_bind, quiet_demand, quiet-readptr, quiet-readdat, quiet_cases,
  quiet_then, quiet_modify, quiet_return,
}
use unix_system_programming.Database.Reads.{quiet-find_loop}

-- Inversion of a sequence of steps that comes to its end.
bind_done :
    {A B : Type 0} (m : D A) (f : A → D B) (db : Db) {b : B} {v : Db}
    → (m >>= f) db ≡ done b v
    → (a : A) × (u : Db) × (m db ≡ done a u) × (f a u ≡ done b v)
unfolding ◌>>=◌
bind_done {A} {B} m f db {b} {v} h = go (m db) h
  where
    go :
        (r : Result A)
        → ◌≡◌ {A = Result B} (elim r [ done a u ↦ f a u | halted x u ↦ halted x u ]) (done b v)
        → (a : A) × (u : Db) × (r ≡ done a u) × (f a u ≡ done b v)
    go (done a u) e = (a, u, refl, e)
    go (halted x u) e = cc

then_done :
    {B : Type 0} (m : D (Unit {0})) (k : D B) (db : Db) {b : B} {v : Db}
    → (m >> k) db ≡ done b v
    → (u : Db) × (m db ≡ done tt u) × (k u ≡ done b v)
unfolding ◌>>◌
then_done m k db h = let (a, u, p, q) = bind_done m (λ x. k) db h in (u, p, q)

state_of : {A : Type 0} {a b : A} {u v : Db} → ◌≡◌ {A = Result A} (done a u) (done b v) → u ≡ v
state_of h = cc

value_of : {A : Type 0} {a b : A} {u v : Db} → ◌≡◌ {A = Result A} (done a u) (done b v) → a ≡ b
value_of h = cc

-- What a function that only reads keeps, where it comes to its end.
quiet_done :
    {A : Type 0} {m : D A} {db u : Db} {a : A}
    → Quiet m
    → m db ≡ done a u
    → (u.locks ≡ db.locks) × (u.chainoff ≡ db.chainoff)
unfolding kept after
quiet_done {A} {m} {db} {u} {a} q h =
    let k = ap (λ (r : Result A). kept (after r)) (sym h) ∙ q.quiet db in
    (ap (λ (x : Kept). x.2) k, ap (λ (x : Kept). x.3) k)

lock_call_done :
    (sys : Sys) (l : LockCall) (db u : Db)
    → lock_call sys l db ≡ done tt u
    → (u.locks ≡ db.locks ++ l ∷ []) × (u.chainoff ≡ db.chainoff)
unfolding lock_call modify
lock_call_done sys l db u h =
    let (w, p, q) = then_done (demand sys) _ db h in
    let (e, f) = quiet_done (quiet_demand sys) p in
    (
      ap (λ (d : Db). d.locks) (sym (state_of q)) ∙ ap (λ (ls : List LockCall). ls ++ l ∷ []) e,
      ap (λ (d : Db). d.chainoff) (sym (state_of q)) ∙ f,
    )

-- The offset of a key's chain.
abbrev pub chain_of : Db → Text → ℕ
chain_of db key = db_hash db key * ptr_sz + db.hashoff

found_done :
    (sys : Sys) (fuel : ℕ) (key : Text) (kind : LockKind) (db u : Db) {b : Bool}
    → find_and_lock sys fuel key kind db ≡ done b u
    → (u.locks ≡ db.locks ++ lock kind index (chain_of db key) 1 ∷ [])
      × (u.chainoff ≡ chain_of db key)
unfolding find_and_lock modify get
found_done sys fuel key kind db u h =
    let (d1, p1, h1) = then_done (modify _) _ db h in
    let (d2, p2, h2) = then_done (modify _) _ d1 h1 in
    let (chain, d3, p3, h3) = bind_done (get _) _ d2 h2 in
    let (d4, p4, h4) = then_done (lock_call sys _) _ d3 h3 in
    let (locked, same) = lock_call_done sys _ d3 d4 p4 in
    let (l, c) =
      quiet_done
        (quiet_bind (quiet-readptr sys (pos chain)) λ offset. quiet-find_loop sys fuel key offset)
        h4 in
    let to_d2 =
      sym (state_of p2)
      ∙ ap (λ (d : Db). record d { ptroff = pos d.chainoff }) (sym (state_of p1)) in
    let to_d3 = sym (state_of p3) ∙ to_d2 in
    let chain_is = sym (value_of p3) ∙ ap (λ (d : Db). d.chainoff) to_d2 in
    (
      l
          ∙ locked
          ∙ ap (λ (d : Db). d.locks ++ lock kind index chain 1 ∷ []) to_d3
          ∙ ap (λ (n : ℕ). db.locks ++ lock kind index n 1 ∷ []) chain_is,
      c ∙ same ∙ ap (λ (d : Db). d.chainoff) to_d3,
    )

unlocked_done :
    (sys : Sys) (db u : Db)
    → unlock_chain sys db ≡ done tt u
    → u.locks ≡ db.locks ++ lock unlocked index db.chainoff 1 ∷ []
unfolding unlock_chain get
unlocked_done sys db u h =
    let (chain, d, p, q) = bind_done (get _) _ db h in
    let (e, f) = lock_call_done sys _ d u q in
    e
    ∙ ap (λ (x : Db). x.locks ++ lock unlocked index chain 1 ∷ []) (sym (state_of p))
    ∙ ap (λ (n : ℕ). db.locks ++ lock unlocked index n 1 ∷ []) (sym (value_of p))

quiet_answer :
    (sys : Sys) (found : Bool)
    → Quiet (elim found [
      | true ↦ do
        text ← readdat sys
        modify (λ db. record db { cnt_fetchok = suc db.cnt_fetchok })
        return (some text)
      | false ↦ do modify (λ db. record db { cnt_fetcherr = suc db.cnt_fetcherr }); return none
    ])
unfolding kept
quiet_answer sys found =
    quiet_cases found
      (quiet_bind (quiet-readdat sys)
        λ text. quiet_then (quiet_modify _ λ db. refl) (quiet_return _))
      (quiet_then (quiet_modify _ λ db. refl) (quiet_return _))

-- A db_fetch that returns has made two lock calls on the database, whether it found the record or not: a
-- read lock on the first byte of the key's chain, and the unlock of the same byte.
pub db_fetch-locks :
    (sys : Sys) (fuel : ℕ) (key : Text) (db u : Db) (answer : Option Text)
    → db_fetch sys fuel key db ≡ done answer u
    → u.locks
      ≡ db.locks
        ++ lock read_lock index (chain_of db key) 1 ∷ lock unlocked index (chain_of db key) 1 ∷ []
unfolding db_fetch return
db_fetch-locks sys fuel key db u answer h =
    let (found, d1, p1, h1) = bind_done (find_and_lock sys fuel key read_lock) _ db h in
    let (ptr, d2, p2, h2) = bind_done _ _ d1 h1 in
    let (d3, p3, h3) = then_done (unlock_chain sys) _ d2 h2 in
    let (l1, c1) = found_done sys fuel key read_lock db d1 p1 in
    let (l2, c2) = quiet_done (quiet_answer sys found) p2 in
    ap (λ (d : Db). d.locks) (sym (state_of h3))
    ∙ unlocked_done sys d2 d3 p3
    ∙ ap (λ (n : ℕ). d2.locks ++ lock unlocked index n 1 ∷ []) (c2 ∙ c1)
    ∙ ap (λ (ls : List LockCall). ls ++ lock unlocked index (chain_of db key) 1 ∷ []) (l2 ∙ l1)
    ∙ append_assoc db.locks _ _
