-- ===== src/Printer/Jobs/Numbers.antt =====
-- The job numbers that apue.3e/printer/printd.c gives out.
use unix_system_programming.Prelude.{
  ℕ, zero, suc, ◌≡◌, ◌≢◌, sym, ap, ◌∙◌, ◌==◌, ◌<◌, ◌≤◌, ◌%◌, ◌^◌, ◌+◌, ◌-◌, if◌then◌else◌, arith,
}
use unix_system_programming.Printer.Jobs.{get_newjobno}

-- A job number: a positive int32_t.
abbrev pub Numbered : ℕ → Type 0
Numbered n = (1 ≤ n) × (n < 2 ^ 31)

-- The number given is the one that was next, and the next one is the one after it, 1 after the greatest.
pub get_newjobno_lem :
    (n : ℕ) → Numbered n → get_newjobno n ≡ (n, if n == 2 ^ 31 - 1 then 1 else n + 1)
unfolding get_newjobno
get_newjobno_lem n (one, small) = ground arith

-- The state after some calls.
abbrev pub next_after : ℕ → ℕ → ℕ
next_after zero n = n
next_after (suc k) n = next_after k (get_newjobno n).1

get_newjobno-Numbered : (n : ℕ) → Numbered n → Numbered (get_newjobno n).1
get_newjobno-Numbered n (one, small) = rw (get_newjobno_lem n (one, small)) (ground arith)

next_residue :
    (k n : ℕ)
    → Numbered n
    → ((if n == 2 ^ 31 - 1 then 1 else n + 1) - 1 + k) % (2 ^ 31 - 1)
      ≡ (n - 1 + suc k) % (2 ^ 31 - 1)
next_residue k n (one, small) = ground arith

-- The k-th number that is given after `n`: the numbers go round from 1 to the greatest.
pub get_newjobno_all : (k n : ℕ) → Numbered n → next_after k n ≡ (n - 1 + k) % (2 ^ 31 - 1) + 1
get_newjobno_all zero n (one, small) = omega arith
get_newjobno_all (suc k) n (one, small) =
    get_newjobno_all k (get_newjobno n).1 (get_newjobno-Numbered n (one, small))
    ∙ ap (λ r. (r.1 - 1 + k) % (2 ^ 31 - 1) + 1) (get_newjobno_lem n (one, small))
    ∙ ap suc_of (next_residue k n (one, small))
  where
    suc_of : ℕ → ℕ
    suc_of r = r + 1

-- The number that the call after k calls hands out.
abbrev pub number_given : ℕ → ℕ → ℕ
number_given k n = (get_newjobno (next_after k n)).0

next_after-Numbered : (k n : ℕ) → Numbered n → Numbered (next_after k n)
next_after-Numbered zero n one = one
next_after-Numbered (suc k) n one =
    next_after-Numbered k (get_newjobno n).1 (get_newjobno-Numbered n one)

number_given-next : (k n : ℕ) → Numbered n → number_given k n ≡ next_after k n
number_given-next k n one =
    ap (λ (r : ℕ × ℕ). r.0) (get_newjobno_lem (next_after k n) (next_after-Numbered k n one))

-- From a job number on, each call hands out a positive number below 2^31, and two of the numbers that are
-- handed out are different unless 2^31 - 1 calls or more lie between them.
pub get_newjobno_distinct :
    (j d n : ℕ)
    → Numbered n
    → 0 < d
    → d < 2 ^ 31 - 1
    → Numbered (number_given j n) × (number_given j n ≢ number_given (j + d) n)
get_newjobno_distinct j d n one some_calls few =
    let first = number_given-next j n one in
    let second = number_given-next (j + d) n one in
    (
      rw first (next_after-Numbered j n one),
      λ same.
          let e : (n - 1 + j) % (2 ^ 31 - 1) + 1 ≡ (n - 1 + (j + d)) % (2 ^ 31 - 1) + 1 =
            sym (get_newjobno_all j n one)
            ∙ sym first
            ∙ same
            ∙ second
            ∙ get_newjobno_all (j + d) n one in
          omega arith,
    )
