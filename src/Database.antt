-- ===== src/Database.antt =====
-- The database library of apue.3e/db/db.c: a DB with its two files, the calls it makes on them, and
-- the ways in which one of its functions can end the process.
pub mod Numbers
pub mod Files
pub mod Records
pub mod Store
pub mod Scan
pub mod Bytes
pub mod Runs
pub mod Quiet
pub mod Reads
pub mod Pointers
pub mod Fresh
pub mod Data
pub mod Locks
pub mod Entries
pub mod Writes
pub mod Chains
pub mod Fetch
pub mod Models
pub mod Insert
pub mod Refines
pub mod Tests
use unix_system_programming.Prelude.{
  ℕ, zero, suc, ◌+◌, Bool, true, false, List, [], ◌∷◌, ◌++◌, length, take, drop, if◌then◌else◌,
}
use unix_system_programming.Clib.{Text}

-- off_t, which is signed.
pub data ℤ : Type 0 where
  pos negsuc : ℕ → ℤ

pub data LockKind : Type 0 where
  read_lock write_lock unlocked : LockKind

pub data WhichFile : Type 0 where
  index data_file : WhichFile

-- A lock call: its kind, the file, the offset, and the length (0 is the rest of the file).
pub data LockCall : Type 0 where
  lock : LockKind → WhichFile → ℕ → ℕ → LockCall

-- DB, with the contents of the two files and the offset of the index file's descriptor. The texts are
-- what the buffers hold up to their NUL; `calls` counts the calls of the system that can fail.
pub record Db : Type 0 where
  pub idx : List ℕ
  pub dat : List ℕ
  pub at : ℕ
  pub idxbuf : Text
  pub datbuf : Text
  pub idxoff : ℕ
  pub idxlen : ℕ
  pub datoff : ℕ
  pub datlen : ℕ
  pub ptrval : ℤ
  pub ptroff : ℤ
  pub chainoff : ℕ
  pub hashoff : ℕ
  pub nhash : ℕ
  pub cnt_delok : ℕ
  pub cnt_delerr : ℕ
  pub cnt_fetchok : ℕ
  pub cnt_fetcherr : ℕ
  pub cnt_nextrec : ℕ
  pub cnt_stor1 : ℕ
  pub cnt_stor2 : ℕ
  pub cnt_stor3 : ℕ
  pub cnt_stor4 : ℕ
  pub cnt_storerr : ℕ
  pub locks : List LockCall
  pub calls : ℕ

-- err_dump (or err_sys), err_quit, a sprintf past the end of idxbuf or a read past that of datbuf, and a
-- loop that is cut off.
pub data Halt : Type 0 where
  dumped quitted overrun out_of_fuel : Halt

pub data Result {ℓ} (A : Type ℓ) : Type ℓ where
  done : A → Db → Result A
  halted : Halt → Db → Result A

abbrev pub D : Type 0 → Type 0
D A = Db → Result A

infixl 5 ◌>>=◌ ◌>>◌
unfoldable pub ◌>>=◌ : {A B : Type 0} → D A → (A → D B) → D B
◌>>=◌ m f db = elim (m db) [ done a db2 ↦ f a db2 | halted h db2 ↦ halted h db2 ]

unfoldable pub ◌>>◌ : {B : Type 0} → D (Unit {0}) → D B → D B
m >> k = m >>= λ _. k

unfoldable pub return : {A : Type 0} → A → D A
return a db = done a db

unfoldable pub modify : (Db → Db) → D (Unit {0})
modify f db = done tt (f db)

unfoldable pub get : {A : Type 0} → (Db → A) → D A
get f db = done (f db) db

unfoldable pub halt : {A : Type 0} → Halt → D A
halt h db = halted h db

-- err_dump unless the test holds.
unfoldable pub require : Bool → D (Unit {0})
require b db = if b then done tt db else halted dumped db

-- Whether the n-th call of the system succeeds.
abbrev pub Sys : Type 0
Sys = ℕ → Bool

-- A call of the system, with err_dump if it fails.
unfoldable pub demand : Sys → D (Unit {0})
demand sys db =
    let db2 = record db { calls = suc db.calls } in
    if sys db.calls then done tt db2 else halted dumped db2

-- readw_lock, writew_lock and un_lock.
unfoldable pub lock_call : Sys → LockCall → D (Unit {0})
lock_call sys l = demand sys >> modify (λ db. record db { locks = db.locks ++ l ∷ [] })

-- What read finds, and what write leaves: a gap before the offset is filled with NUL.
abbrev pub read_at : ℕ → ℕ → List ℕ → List ℕ
read_at offset n file = take n (drop offset file)

abbrev pub write_at : ℕ → List ℕ → List ℕ → List ℕ
write_at zero [] file = file
write_at zero (b ∷ bs) [] = b ∷ bs
write_at zero (b ∷ bs) (x ∷ file) = b ∷ write_at zero bs file
write_at (suc n) [] [] = []
write_at (suc n) (b ∷ bs) [] = 0 ∷ write_at n (b ∷ bs) []
write_at (suc n) bs (x ∷ file) = x ∷ write_at n bs file
