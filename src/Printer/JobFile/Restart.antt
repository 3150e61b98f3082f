-- ===== src/Printer/JobFile/Restart.antt =====
-- The next job number over a restart of the daemon.
use unix_system_programming.Prelude.{
  ℕ, zero, suc, ◌≡◌, refl, ap, ◌∙◌, ◌%◌, ◌^◌, ◌≤◌, ◌<◌, true, false, List, [], ◌∷◌, ◌++◌, length,
  take, drop, All, some, ◌==◌, arith,
}
use unix_system_programming.Clib.{Text}
use unix_system_programming.Database.{read_at, write_at}
use unix_system_programming.Database.Numbers.{decimal, is_digit}
use unix_system_programming.Database.Numbers.Laws.{atol-decimal_stop, length-decimal}
use unix_system_programming.Linked.{◌>>=◌}
use unix_system_programming.Printer.Jobs.Numbers.{Numbered}
use unix_system_programming.Printer.JobFile.{
  job_file, init_request, print_int32, update_jobno, filenmsz,
}

write_whole : (bytes file : List ℕ) → length file ≤ length bytes → write_at 0 bytes file ≡ bytes
write_whole [] [] fits = refl
write_whole [] (x ∷ file) fits = ground arith
write_whole (b ∷ bs) [] fits = refl
write_whole (b ∷ bs) (x ∷ file) fits =
    ap (λ (l : List ℕ). b ∷ l) (write_whole bs file (omega arith))

take_whole : (n : ℕ) (bytes : List ℕ) → length bytes ≤ n → take n bytes ≡ bytes
take_whole zero [] fits = refl
take_whole zero (x ∷ xs) fits = ground arith
take_whole (suc n) [] fits = refl
take_whole (suc n) (x ∷ xs) fits = ap (λ (l : List ℕ). x ∷ l) (take_whole n xs (omega arith))

-- What stands behind the number in `name` is a part of the file's name, which has no digit.
abbrev pub NoDigits : Text → Type 0
NoDigits = All (λ c. is_digit c ≡ false)

name_part :
    (k : ℕ) (path more : Text)
    → NoDigits path
    → k < length path
    → (c : ℕ) × (rest : Text) × (drop k (path ++ more) ≡ c ∷ rest) × (is_digit c ≡ false)
name_part k [] more h short = ground arith
name_part zero (c ∷ path) more (h, hs) short = (c, path ++ more, refl, h)
name_part (suc k) (c ∷ path) more (h, hs) short = name_part k path more hs (omega arith)

job_file-NoDigits : NoDigits job_file
unfolding is_digit
job_file-NoDigits = ground arith

-- A job number that was written over a file that is no longer than it is the next number of the daemon that reads it.
pub update_jobno-init_request :
    (n : ℕ) (stale file : Text)
    → Numbered n
    → length file ≤ length (print_int32 n)
    → (update_jobno true true n file >>= λ bytes. init_request true true stale bytes) ≡ some n
unfolding update_jobno print_int32 init_request
update_jobno-init_request n stale file (one, small) fits =
    let (some_digit, few) = length-decimal 9 n (omega arith) in
    let (c, rest, eq, stop) =
      name_part (length (decimal n)) job_file (0 ∷ stale) job_file-NoDigits (omega arith) in
    let plain : print_int32 n ≡ decimal n = ground arith in
    let whole : read_at 0 filenmsz (write_at 0 (print_int32 n) file) ≡ decimal n =
      ap (take filenmsz) (write_whole (print_int32 n) file fits)
      ∙ ap (take filenmsz) plain
      ∙ take_whole filenmsz (decimal n) (omega arith) in
    let some_bytes : (length (decimal n) == 0) ≡ false = ground arith in
    let same : n % 2 ^ 32 ≡ n = omega arith in
    rw (whole, some_bytes, eq, atol-decimal_stop n c rest stop) (ap some same)
