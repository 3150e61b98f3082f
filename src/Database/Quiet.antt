-- ===== src/Database/Quiet.antt =====
-- The functions of apue.3e/db/db.c that only read: what is on disk, the locks and the chain that was
-- chosen stay as they are, also where the function ends the process.
use unix_system_programming.Prelude.{
  zero, suc, ℕ, Bool-cases, inl, inr, ◌≡◌, refl, ◌-◌, take, leb, length, ◌∙◌, Bool, true, false,
  List, Option, none, some, if◌then◌else◌,
}
use unix_system_programming.Clib.{Text, c_string}
use unix_system_programming.Database.{
  ℤ, pos, negsuc, Db, D, Result, Halt, done, halted, ◌>>=◌, ◌>>◌, return, modify, get, halt,
  require, Sys, demand, LockCall,
}
use unix_system_programming.Database.Numbers.{atol}
use unix_system_programming.Database.Files.{
  ptr_sz, seek, read_idx, readptr, cut_sep, set_fields, read_fields, accept_length, is_current,
  read_rest, readidx, readdat, datbuf_size, into_datbuf,
}
use unix_system_programming.Database.Records.{is_zero}
use unix_system_programming.Database.Store.{free_loop}

-- The state when a function is over, well or badly.
unfoldable pub after : {A : Type 0} → Result A → Db
after (done a db) = db
after (halted h db) = db

abbrev pub Kept : Type 0
Kept = List ℕ × List ℕ × List LockCall × ℕ × ℕ × ℕ

unfoldable pub kept : Db → Kept
kept db = (db.idx, db.dat, db.locks, db.chainoff, db.hashoff, db.nhash)

pub record Quiet {A : Type 0} (m : D A) : Type 0 where
  pub quiet : (db : Db) → kept (after (m db)) ≡ kept db

abbrev pub plain : {A : Type 0} {m : D A} → ((db : Db) → kept (after (m db)) ≡ kept db) → Quiet m
plain h = record { quiet = h }

pub quiet_bind :
    {A B : Type 0} {m : D A} {f : A → D B} → Quiet m → ((a : A) → Quiet (f a)) → Quiet (m >>= f)
unfolding after ◌>>=◌
quiet_bind {A} {B} {m} {f} hm hf = plain λ db. go db (m db) (hm.quiet db)
  where
    go :
        (db : Db) (r : Result A)
        → kept (after r) ≡ kept db
        → kept (after {A = B} (elim r [ done a u ↦ f a u | halted h u ↦ halted h u ])) ≡ kept db
    go db (done a u) e = (hf a).quiet u ∙ e
    go db (halted h u) e = e

pub quiet_then : {B : Type 0} {m : D (Unit {0})} {k : D B} → Quiet m → Quiet k → Quiet (m >> k)
unfolding ◌>>◌
quiet_then hm hk = quiet_bind hm λ u. hk

pub quiet_if : {A : Type 0} (b : Bool) {m n : D A} → Quiet m → Quiet n → Quiet (if b then m else n)
quiet_if true hm hn = hm
quiet_if false hm hn = hn

pub quiet_return : {A : Type 0} (a : A) → Quiet (return a)
unfolding after return
quiet_return a = plain λ db. refl

pub quiet_get : {A : Type 0} (f : Db → A) → Quiet (get f)
unfolding after get
quiet_get f = plain λ db. refl

pub quiet_modify : (f : Db → Db) → ((db : Db) → kept (f db) ≡ kept db) → Quiet (modify f)
unfolding after modify
quiet_modify f h = plain h

pub quiet_halt : {A : Type 0} (h : Halt) → Quiet (halt {A = A} h)
unfolding after halt
quiet_halt h = plain λ db. refl

pub quiet_require : (b : Bool) → Quiet (require b)
unfolding after require
quiet_require true = plain λ db. refl
quiet_require false = plain λ db. refl

pub quiet_demand : (sys : Sys) → Quiet (demand sys)
unfolding after kept demand
quiet_demand sys =
    plain λ db. elim (Bool-cases (sys db.calls)) [ inl e ↦ rw e refl | inr e ↦ rw e refl ]

pub quiet_seek : (offset : ℤ) → Quiet (seek offset)
unfolding seek kept
quiet_seek (pos n) = quiet_modify _ λ db. refl
quiet_seek (negsuc n) = quiet_halt _

pub quiet-read_idx : (sys : Sys) (n : ℕ) → Quiet (read_idx sys n)
unfolding read_idx kept
quiet-read_idx sys n =
    quiet_then (quiet_demand sys) (
      quiet_bind (quiet_get _) λ bytes. quiet_then (quiet_modify _ λ db. refl) (quiet_return bytes))

pub quiet-readptr : (sys : Sys) (offset : ℤ) → Quiet (readptr sys offset)
unfolding readptr
quiet-readptr sys offset =
    quiet_then (quiet_seek offset) (
      quiet_bind (quiet-read_idx sys ptr_sz) λ bytes. quiet_then (quiet_require _) (quiet_return _))

pub quiet_cases :
    {A : Type 0} (b : Bool) {m n : D A}
    → Quiet m
    → Quiet n
    → Quiet (elim b [ true ↦ m | false ↦ n ])
quiet_cases true hm hn = hm
quiet_cases false hm hn = hn

quiet_option :
    {A B : Type 0} (o : Option A) {m : D B} {f : A → D B}
    → Quiet m
    → ((a : A) → Quiet (f a))
    → Quiet (elim o [ none ↦ m | some a ↦ f a ])
quiet_option none hm hf = hm
quiet_option (some a) hm hf = hf a

pub quiet_sign :
    {B : Type 0} (z : ℤ) {f g : ℕ → D B}
    → ((n : ℕ) → Quiet (f n))
    → ((n : ℕ) → Quiet (g n))
    → Quiet (elim z [ negsuc n ↦ f n | pos n ↦ g n ])
quiet_sign (pos n) hf hg = hg n
quiet_sign (negsuc n) hf hg = hf n

quiet-set_fields : (key off len : Text) → Quiet (set_fields key off len)
unfolding set_fields kept
quiet-set_fields key off len =
    quiet_sign (atol off) (λ n. quiet_halt _)
      λ datoff.
        quiet_sign (atol len) (λ n. quiet_halt _)
          λ datlen. quiet_then (quiet_modify _ λ db. refl) (quiet_require _)

quiet-read_fields : (sys : Sys) (n : ℕ) → Quiet (read_fields sys n)
unfolding read_fields
quiet-read_fields sys n = quiet_bind (quiet-read_idx sys n) λ bytes. quiet_then (quiet_require _) (
    quiet_then (quiet_require _) (
      quiet_option (cut_sep (c_string (take (n - 1) bytes))) (quiet_halt _) λ front.
        quiet_option (cut_sep front.1) (quiet_halt _)
          λ back. quiet_then (quiet_require _) (quiet-set_fields front.0 back.0 back.1)))

quiet-accept_length : (sys : Sys) (n : ℤ) → Quiet (accept_length sys n)
unfolding accept_length kept
quiet-accept_length sys (negsuc n) = quiet_halt _
quiet-accept_length sys (pos n) =
    quiet_then (quiet_modify _ λ db. refl) (quiet_then (quiet_require _) (quiet-read_fields sys n))

quiet-read_rest : (sys : Sys) (front : List ℕ) → Quiet (read_rest sys front)
unfolding read_rest kept
quiet-read_rest sys front =
    quiet_then (quiet_require _) (
      quiet_then (quiet_modify _ λ db. refl) (quiet_then (quiet-accept_length sys _) (quiet_get _)))

pub quiet-readidx : (sys : Sys) (offset : ℤ) → Quiet (readidx sys offset)
unfolding readidx kept
quiet-readidx sys offset =
    quiet_then (quiet_if (is_current offset) (quiet_return _) (quiet_seek offset)) (
      quiet_then (quiet_modify _ λ db. refl) (
        quiet_bind (quiet-read_idx sys _)
          λ front. quiet_if _ (quiet_return _) (quiet-read_rest sys front)))

pub quiet-free_loop :
    (sys : Sys) (fuel keylen datlen : ℕ) (saved offset : ℤ)
    → Quiet (free_loop sys fuel keylen datlen saved offset)
unfolding free_loop
quiet-free_loop sys zero keylen datlen saved offset =
    quiet_if (is_zero offset) (quiet_return _) (quiet_halt _)
quiet-free_loop sys (suc fuel) keylen datlen saved offset =
    quiet_cases (is_zero offset) (quiet_return _) (
      quiet_bind (quiet-readidx sys offset) λ next. quiet_bind (quiet_get _) λ fits.
        quiet_cases fits (quiet_return _) (quiet-free_loop sys fuel keylen datlen offset next))

pub quiet-readdat : (sys : Sys) → Quiet (readdat sys)
unfolding readdat into_datbuf kept
quiet-readdat sys = quiet_then (quiet_demand sys) (
    quiet_bind (quiet_get _) λ bytes.
      quiet_then (quiet_if (leb (length bytes) datbuf_size) (quiet_return _) (quiet_halt _)) (
        quiet_bind (quiet_get _) λ n.
          quiet_then (quiet_require _)
            (quiet_then (quiet_require _) (quiet_then (quiet_modify _ λ db. refl) (quiet_get _)))))
