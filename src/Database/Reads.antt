-- ===== src/Database/Reads.antt =====
-- db_fetch and db_nextrec of apue.3e/db/db.c: what they leave on disk, and their locks.
use unix_system_programming.Prelude.{ℕ, zero, suc, ◌≡◌, refl, ap, ◌∙◌, Bool, true, false, List}
use unix_system_programming.Clib.{Text}
use unix_system_programming.Database.{
  ℤ, pos, Db, D, Result, done, halted, ◌>>=◌, ◌>>◌, modify, Sys, LockCall, LockKind, read_lock,
  lock_call,
}
use unix_system_programming.Database.Records.{
  is_zero, find_loop, find_and_lock, db_fetch, unlock_chain,
}
use unix_system_programming.Database.Scan.{next_loop, db_nextrec}
use unix_system_programming.Database.Quiet.{
  Kept, Quiet, after, kept, quiet_bind, quiet_then, quiet_if, quiet_cases, quiet_sign, quiet_return,
  quiet_get, quiet_modify, quiet_halt, quiet_demand, quiet-readptr, quiet-readidx, quiet-readdat,
}

pub quiet-find_loop :
    (sys : Sys) (fuel : ℕ) (key : Text) (offset : ℤ) → Quiet (find_loop sys fuel key offset)
unfolding find_loop kept
quiet-find_loop sys zero key offset = quiet_if (is_zero offset) (quiet_return _) (quiet_halt _)
quiet-find_loop sys (suc fuel) key offset = quiet_cases (is_zero offset) (quiet_return _) (
    quiet_bind (quiet-readidx sys offset) λ next. quiet_bind (quiet_get _) λ found.
      quiet_cases found (quiet_return _)
        (quiet_then (quiet_modify _ λ db. refl) (quiet-find_loop sys fuel key next)))

pub quiet-next_loop : (sys : Sys) (fuel : ℕ) → Quiet (next_loop sys fuel)
unfolding next_loop
quiet-next_loop sys zero = quiet_halt _
quiet-next_loop sys (suc fuel) = quiet_bind (quiet-readidx sys (pos 0)) λ next.
    quiet_sign next (λ n. quiet_return _)
      λ n.
        quiet_bind (quiet_get _)
          λ blank. quiet_cases blank (quiet-next_loop sys fuel) (quiet_return _)

abbrev Files : Type 0
Files = List ℕ × List ℕ

unfoldable files : Db → Files
files db = (db.idx, db.dat)

record Reads {A : Type 0} (m : D A) : Type 0 where
  reads : (db : Db) → files (after (m db)) ≡ files db

quiet-Reads : {A : Type 0} {m : D A} → Quiet m → Reads m
unfolding kept files
quiet-Reads h = record { reads = λ db. ap (λ (k : Kept). (k.0, k.1)) (h.quiet db) }

Reads-bind :
    {A B : Type 0} {m : D A} {f : A → D B} → Reads m → ((a : A) → Reads (f a)) → Reads (m >>= f)
unfolding after ◌>>=◌
Reads-bind {A} {B} {m} {f} hm hf = record { reads = λ db. go db (m db) (hm.reads db) }
  where
    go :
        (db : Db) (r : Result A)
        → files (after r) ≡ files db
        → files (after {A = B} (elim r [ done a u ↦ f a u | halted h u ↦ halted h u ])) ≡ files db
    go db (done a u) e = (hf a).reads u ∙ e
    go db (halted h u) e = e

Reads-then : {B : Type 0} {m : D (Unit {0})} {k : D B} → Reads m → Reads k → Reads (m >> k)
unfolding ◌>>◌
Reads-then hm hk = Reads-bind hm λ u. hk

Reads-modify : (f : Db → Db) → ((db : Db) → files (f db) ≡ files db) → Reads (modify f)
unfolding after modify
Reads-modify f h = record { reads = h }

Reads-lock_call : (sys : Sys) (l : LockCall) → Reads (lock_call sys l)
unfolding lock_call files
Reads-lock_call sys l = Reads-then (quiet-Reads (quiet_demand sys)) (Reads-modify _ λ db. refl)

Reads-cases :
    {A : Type 0} (b : Bool) {m n : D A}
    → Reads m
    → Reads n
    → Reads (elim b [ true ↦ m | false ↦ n ])
Reads-cases true hm hn = hm
Reads-cases false hm hn = hn

Reads-find_and_lock :
    (sys : Sys) (fuel : ℕ) (key : Text) (kind : LockKind) → Reads (find_and_lock sys fuel key kind)
unfolding find_and_lock files
Reads-find_and_lock sys fuel key kind = Reads-then (Reads-modify _ λ db. refl) (
    Reads-then (Reads-modify _ λ db. refl) (
      Reads-bind (quiet-Reads (quiet_get _)) λ chain. Reads-then (Reads-lock_call sys _) (
        quiet-Reads
          (quiet_bind (quiet-readptr sys _) λ offset. quiet-find_loop sys fuel key offset))))

Reads-unlock_chain : (sys : Sys) → Reads (unlock_chain sys)
unfolding unlock_chain
Reads-unlock_chain sys = Reads-bind (quiet-Reads (quiet_get _)) λ chain. Reads-lock_call sys _

Reads-db_fetch : (sys : Sys) (fuel : ℕ) (key : Text) → Reads (db_fetch sys fuel key)
unfolding db_fetch files
Reads-db_fetch sys fuel key = Reads-bind (Reads-find_and_lock sys fuel key read_lock) λ found.
    Reads-bind
      (Reads-cases found
        (Reads-bind (quiet-Reads (quiet-readdat sys))
          λ text. Reads-then (Reads-modify _ λ db. refl) (quiet-Reads (quiet_return _)))
        (Reads-then (Reads-modify _ λ db. refl) (quiet-Reads (quiet_return _))))
      λ ptr. Reads-then (Reads-unlock_chain sys) (quiet-Reads (quiet_return _))

Reads-db_nextrec : (sys : Sys) (fuel : ℕ) → Reads (db_nextrec sys fuel)
unfolding db_nextrec files
Reads-db_nextrec sys fuel = Reads-then (Reads-lock_call sys _) (
    Reads-bind (quiet-Reads (quiet-next_loop sys fuel)) λ more.
      Reads-bind
        (Reads-cases more
          (Reads-bind (quiet-Reads (quiet_get _)) λ key.
            Reads-bind (quiet-Reads (quiet-readdat sys))
              λ text. Reads-then (Reads-modify _ λ db. refl) (quiet-Reads (quiet_return _)))
          (quiet-Reads (quiet_return _)))
        λ ptr. Reads-then (Reads-lock_call sys _) (quiet-Reads (quiet_return _)))

-- db_fetch and db_nextrec leave both files as they are, whatever the files hold, whichever calls of the
-- system fail, and also when they end the process.
pub queries_read :
    (sys : Sys) (fuel : ℕ) (key : Text) (db : Db)
    → ((after (db_fetch sys fuel key db)).idx ≡ db.idx)
      × ((after (db_fetch sys fuel key db)).dat ≡ db.dat)
      × ((after (db_nextrec sys fuel db)).idx ≡ db.idx)
      × ((after (db_nextrec sys fuel db)).dat ≡ db.dat)
unfolding files
queries_read sys fuel key db =
    let f = (Reads-db_fetch sys fuel key).reads db in
    let n = (Reads-db_nextrec sys fuel).reads db in
    (
      ap (λ (k : Files). k.0) f,
      ap (λ (k : Files). k.1) f,
      ap (λ (k : Files). k.0) n,
      ap (λ (k : Files). k.1) n,
    )
