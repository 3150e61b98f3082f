-- ===== src/Descriptors.antt =====
-- A process's descriptor table, and the calls of <unistd.h> on it that the programs make: dup2,
-- close, and the allocation behind open, dup and pipe. The number that an allocation picks is the
-- kernel's choice, a parameter `fresh`.
pub mod Laws
use unix_system_programming.Prelude.{ℕ, ◌≡◌, Option, none, some, ◌==◌, if◌then◌else◌}
use unix_system_programming.Clib.{Text}

-- What a descriptor may refer to: what the process was started with, a file that it opened, or an
-- end of one of its pipes, which are numbered as they are made.
pub data File : Type 0 where
  inherited : ℕ → File
  reading : Text → File
  writing : Text → File
  read_end : ℕ → File
  write_end : ℕ → File

abbrev pub Table : Type 0
Table = ℕ → Option File

unfoldable pub update : Table → ℕ → Option File → Table
update t fd f k = if k == fd then f else t k

abbrev pub close : Table → ℕ → Table
close t fd = update t fd none

-- A bad first descriptor makes the call fail and changes nothing.
unfoldable pub dup2 : Table → ℕ → ℕ → Table
dup2 t from to = elim (t from) [ none ↦ t | some f ↦ update t to (some f) ]

abbrev pub Fresh : Type 0
Fresh = Table → Option ℕ

-- What POSIX says of every call that allocates a descriptor: it is one that is not open.
abbrev pub IsFresh : Fresh → Type 0
IsFresh fresh = (t : Table) (fd : ℕ) → fresh t ≡ some fd → t fd ≡ none

-- The same descriptors are open, on the same files.
infix 4 ◌≈◌
abbrev pub ◌≈◌ : Table → Table → Type 0
t ≈ u = (k : ℕ) → t k ≡ u k
