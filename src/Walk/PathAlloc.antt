-- ===== src/Walk/PathAlloc.antt =====
-- The block for a path (apue.3e/lib/pathalloc.c), at the first call.
use unix_system_programming.Prelude.{
  ℕ, zero, suc, ◌+◌, ◌≤◌, ◌<◌, ◌≡◌, Bool, true, ◌&&◌, Option, none, some, Option-cases, inl, inr,
  ltb, if◌then◌else◌, refl, arith,
}
use unix_system_programming.Database.{ℤ, pos, negsuc}

-- What pathconf answers for _PC_PATH_MAX: a limit, or -1 with errno left at 0, or an error.
pub data PathConf : Type 0 where
  limit : ℕ → PathConf
  no_limit : PathConf
  bad : PathConf

-- PATH_MAX where <limits.h> has it, the answers of sysconf and pathconf, and the sizes malloc has.
pub record Limits : Type 0 where
  pub path_max : Option ℕ
  pub version : ℤ
  pub xopen_version : ℤ
  pub pathconf : PathConf
  pub malloc : ℕ → Bool

abbrev pub path_max_guess : ℕ
path_max_guess = 1024

unfoldable pub less_than : ℤ → ℕ → Bool
less_than (pos n) k = ltb n k
less_than (negsuc n) k = true

-- The static `pathmax` as the file initialises it.
unfoldable pub pathmax_initial : Option ℕ → ℕ
pathmax_initial none = 0
pathmax_initial (some n) = n

-- `pathmax` when the size is computed; none is the end of the process in err_sys.
unfoldable pub pathmax_from : ℕ → PathConf → Option ℕ
pathmax_from zero (limit n) = some (n + 1)
pathmax_from zero no_limit = some path_max_guess
pathmax_from zero bad = none
pathmax_from pathmax answer = some pathmax

-- The size of the block.
unfoldable pub path_alloc : Limits → Option ℕ
unfolding less_than pathmax_from pathmax_initial
path_alloc l = elim (pathmax_from (pathmax_initial l.path_max) l.pathconf) [
  | none ↦ none
  | some pathmax ↦
      let size : ℕ =
        if less_than l.version 200112 && less_than l.xopen_version 4
        then pathmax + 1
        else pathmax in
      if l.malloc size then some size else none
]

-- A limit is one of at least 256 bytes, the least that POSIX lets it be: as PATH_MAX, which counts
-- the NUL, or from pathconf, which counts from the root.
abbrev pub IsPosix : Limits → Type 0
IsPosix l = ((n : ℕ) → l.path_max ≡ some n → 256 ≤ n) × ((n : ℕ) → l.pathconf ≡ limit n → 255 ≤ n)

pathmax-IsPosix :
    (macro : Option ℕ) (answer : PathConf) (n : ℕ)
    → ((k : ℕ) → macro ≡ some k → 256 ≤ k)
    → ((k : ℕ) → answer ≡ limit k → 255 ≤ k)
    → pathmax_from (pathmax_initial macro) answer ≡ some n
    → 256 ≤ n
unfolding pathmax_from pathmax_initial
pathmax-IsPosix none (limit k) n p q h = let least = q k refl in ground arith
pathmax-IsPosix none no_limit n p q h = ground arith
pathmax-IsPosix none bad n p q h = ground arith
pathmax-IsPosix (some zero) answer n p q h = let least = p 0 refl in ground arith
pathmax-IsPosix (some (suc k)) answer n p q h = let least = p (suc k) refl in ground arith

-- On a POSIX system a block that path_alloc returns has more than 255 bytes.
pub path_alloc-IsPosix : (l : Limits) (size : ℕ) → IsPosix l → path_alloc l ≡ some size → 255 < size
unfolding path_alloc
path_alloc-IsPosix l size (macro, answer) h =
    elim (Option-cases (pathmax_from (pathmax_initial l.path_max) l.pathconf)) [
      | inl e ↦ ground arith
      | inr (n, e) ↦
          let least = pathmax-IsPosix l.path_max l.pathconf n macro answer e in ground arith
    ]
