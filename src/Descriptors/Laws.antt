-- ===== src/Descriptors/Laws.antt =====
-- Laws of the descriptor table.
use unix_system_programming.Prelude.{ℕ, ◌≡◌, ◌≢◌, Option, some, arith}
use unix_system_programming.Descriptors.{File, Table, update, dup2, Fresh, IsFresh}

pub update_same : (t : Table) (fd : ℕ) (f : Option File) → update t fd f fd ≡ f
unfolding update
update_same t fd f = ground arith

pub update_ne : (t : Table) (fd k : ℕ) (f : Option File) → k ≢ fd → update t fd f k ≡ t k
unfolding update
update_ne t fd k f h = ground arith

-- A copy of an open descriptor refers to the same file, and no other descriptor changes.
pub dup2_open :
    (t : Table) (from to k : ℕ) {f : File}
    → t from ≡ some f
    → dup2 t from to k ≡ update t to (some f) k
unfolding dup2
dup2_open t from to k e = rw (e, dup2)

-- An open descriptor is never the one that an allocation picks.
pub fresh_ne :
    (fresh : Fresh) (t : Table) (fd k : ℕ) {f : File}
    → IsFresh fresh
    → fresh t ≡ some fd
    → t k ≡ some f
    → k ≢ fd
fresh_ne fresh t fd k law e o same = cc (law t fd e)
