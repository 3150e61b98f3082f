-- ===== src/Printer/Reads.antt =====
-- Reading with a time limit: tread and treadn of apue.3e/printer/util.c.
pub mod Whole
use unix_system_programming.Prelude.{
  ℕ, zero, suc, ◌+◌, ◌-◌, List, [], ◌∷◌, ◌++◌, length, Option, none, some, true, false, ◌==◌,
  if◌then◌else◌,
}

-- What select answers: -1 with errno, 0, or that there is something to read.
pub data Selected : Type 0 where
  select_failed : ℕ → Selected
  timed_out : Selected
  readable : Selected

-- What a read answers: -1 with errno, or the bytes, none at the end of the input.
pub data Got : Type 0 where
  failed : ℕ → Got
  got : List ℕ → Got

-- The answers of the system on one descriptor, at each call of tread; a read is told how many bytes it may give.
pub record Input : Type 0 where
  pub select : ℕ → Selected
  pub read : ℕ → ℕ → Got

-- The value of ETIME is a parameter.
module _ (etime : ℕ) (input : Input) where
  unfoldable pub tread : ℕ → ℕ → Got
  tread call nbytes = elim (Input.select input call) [
    | select_failed e ↦ failed e
    | timed_out ↦ failed etime
    | readable ↦ Input.read input call nbytes
  ]

  -- The loop of treadn, with the bytes that are in `buf`; the fuel is a round for each byte and one more.
  unfoldable pub treadn_loop : ℕ → ℕ → ℕ → ℕ → List ℕ → Option Got
  treadn_loop zero nbytes call nleft buf = none
  treadn_loop (suc fuel) nbytes call nleft buf = elim (nleft == 0) [
    | true ↦ some (got buf)
    | false ↦ elim (tread call nleft) [
      | failed e ↦ some (if nleft == nbytes then failed e else got buf)
      | got [] ↦ some (got buf)
      | got (x ∷ xs) ↦ treadn_loop fuel nbytes (suc call) (nleft - length (x ∷ xs)) (buf ++ x ∷ xs)
    ]
  ]

  -- -1 with errno, or the bytes whose number is returned.
  unfoldable pub treadn : ℕ → Option Got
  treadn nbytes = treadn_loop (suc nbytes) nbytes 0 nbytes []
