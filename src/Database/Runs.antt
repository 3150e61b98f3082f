-- ===== src/Database/Runs.antt =====
-- What the steps from which the functions of apue.3e/db/db.c are made do where the system lets them.
use unix_system_programming.Prelude.{
  ℕ, suc, ◌+◌, ◌≡◌, refl, ap, ◌∙◌, Bool, true, false, List, [], ◌∷◌, ◌++◌, length, arith, ◌==◌,
  if◌then◌else◌,
}
use unix_system_programming.Database.{
  pos, Db, D, Result, done, halted, ◌>>=◌, ◌>>◌, return, modify, get, Sys, demand, require,
  LockCall, lock_call, read_at, write_at,
}
use unix_system_programming.Database.Files.{seek, read_idx, write_idx}

pub equal_test : (a b : ℕ) → a ≡ b → (a == b) ≡ true
equal_test a b h = ground (arith, h)

-- One step after another.
pub bind_run :
    {A B : Type 0} (m : D A) (f : A → D B) {db u : Db} {a : A}
    → m db ≡ done a u
    → (m >>= f) db ≡ f a u
unfolding ◌>>=◌
bind_run {A} {B} m f h =
    ap (λ (r : Result A). elim r as (λ x. Result B) [ done a u ↦ f a u | halted x u ↦ halted x u ])
      h

pub then_run :
    {B : Type 0} (m : D (Unit {0})) (k : D B) {db u : Db} → m db ≡ done tt u → (m >> k) db ≡ k u
unfolding ◌>>◌
then_run m k h = bind_run m (λ x. k) h

pub demand_run :
    (sys : Sys) (db : Db)
    → sys db.calls ≡ true
    → demand sys db ≡ done tt (record db { calls = suc db.calls })
unfolding demand
demand_run sys db e = rw e refl

pub require_run : (b : Bool) (db : Db) → b ≡ true → require b db ≡ done tt db
unfolding require
require_run b db e = rw e refl

pub seek_run : (o : ℕ) (db : Db) → seek (pos o) db ≡ done tt (record db { at = o })
unfolding seek modify
seek_run o db = refl

pub return_run : {A : Type 0} (a : A) (db : Db) → return a db ≡ done a db
unfolding return
return_run a db = refl

pub modify_run : (f : Db → Db) (db : Db) → modify f db ≡ done tt (f db)
unfolding modify
modify_run f db = refl

pub get_run : {A : Type 0} (f : Db → A) (db : Db) → get f db ≡ done (f db) db
unfolding get
get_run f db = refl

pub lock_call_run :
    (sys : Sys) (l : LockCall) (db : Db)
    → sys db.calls ≡ true
    → lock_call sys l db ≡ done tt (record db { calls = suc db.calls; locks = db.locks ++ l ∷ [] })
unfolding lock_call
lock_call_run sys l db e = then_run (demand sys) _ (demand_run sys db e) ∙ modify_run _ _

pub write_idx_run :
    (sys : Sys) (bytes : List ℕ) (db : Db)
    → sys db.calls ≡ true
    → write_idx sys bytes db
      ≡ done tt (record db {
        idx = write_at db.at bytes db.idx;
        at = db.at + length bytes;
        calls = suc db.calls;
      })
unfolding write_idx
write_idx_run sys bytes db e = then_run (demand sys) _ (demand_run sys db e) ∙ modify_run _ _

pub read_idx_run :
    (sys : Sys) (n : ℕ) (bytes : List ℕ) (db : Db)
    → sys db.calls ≡ true
    → read_at db.at n db.idx ≡ bytes
    → read_idx sys n db ≡ done bytes (record db { at = db.at + length bytes; calls = suc db.calls })
unfolding read_idx ◌>>◌ ◌>>=◌ get modify return
read_idx_run sys n bytes db e h =
    then_run (demand sys) _ (demand_run sys db e)
    ∙ ap (λ (b : List ℕ). done b (record db { at = db.at + length b; calls = suc db.calls })) h

pub if_run :
    {A : Type 0} (b : Bool) (m n : D A) (db : Db) → b ≡ false → (if b then m else n) db ≡ n db
if_run b m n db h = rw h refl

pub case_true :
    {A : Type 0} (b : Bool) (m n : D A) (db : Db)
    → b ≡ true
    → (elim b as (λ x. D A) [ true ↦ m | false ↦ n ]) db ≡ m db
case_true b m n db h = rw h refl

pub case_false :
    {A : Type 0} (b : Bool) (m n : D A) (db : Db)
    → b ≡ false
    → (elim b as (λ x. D A) [ true ↦ m | false ↦ n ]) db ≡ n db
case_false b m n db h = rw h refl

pub if_true_run :
    {A : Type 0} (b : Bool) (m n : D A) (db : Db) → b ≡ true → (if b then m else n) db ≡ m db
if_true_run b m n db h = rw h refl
