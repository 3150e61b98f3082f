-- ===== src/Printer/Tests/Submits.antt =====
-- A file sent by submit_file of print.c.
use unix_system_programming.Prelude.{
  ℕ, zero, suc, ◌+◌, ◌*◌, ◌/◌, ◌%◌, ◌^◌, ◌≤◌, ◌<◌, ◌≡◌, refl, ap, true, List, [], ◌∷◌, ◌++◌, length,
  take, drop, All, some, arith,
}
use unix_system_programming.Clib.{Text, codes, c_string}
use unix_system_programming.Printer.Submit.{
  Calls, read_bytes, read_failed, request_bytes, submit_file, read_response, padded, strcpy,
  user_name, job_name,
}
use unix_system_programming.Printer.Submit.Header.{
  shown_user, shown_job, request_bytes-fields, OptionText,
}
use unix_system_programming.Printer.Submit.Strings.{IsText}
use unix_system_programming.Printer.Submit.Stream.{
  read_all, Sends, submit_file-Sends, Accepts, submit_file-delivers,
}

-- A machine in the byte order of the network.
abbrev store32 : ℕ → List ℕ
store32 n = n / 16777216 ∷ n / 65536 % 256 ∷ n / 256 % 256 ∷ n % 256 ∷ []

abbrev load32 : List ℕ → ℕ
load32 (a ∷ b ∷ c ∷ d ∷ []) = a * 16777216 + b * 65536 + c * 256 + d
load32 bytes = 0

load32-store32 : (n : ℕ) → load32 (store32 n) ≡ n
load32-store32 n = omega arith

abbrev same : ℕ → ℕ
same n = n

abbrev copies {ℓ} : {A : Type ℓ} → ℕ → A → List A
copies zero x = []
copies (suc n) x = x ∷ copies n x

length-copies {ℓ} : {A : Type ℓ} (n : ℕ) (x : A) → length (copies n x) ≡ n
length-copies zero x = refl
length-copies (suc n) x = ap suc (length-copies n x)

copies-Accepts : (n : ℕ) → All Accepts (copies n (some 200))
copies-Accepts zero = tt
copies-Accepts (suc n) = (omega arith, copies-Accepts n)

abbrev printed : Calls
printed = record {
  usernm = copies 64 7;
  jobnm = copies 256 9;
  pwd = some (codes "ann");
  reads = read_bytes (codes "page one") ∷ read_bytes (codes "page two") ∷ [];
  writes = copies 400 (some 200);
  answers = [];
}

-- A name of 300 bytes, "a" and then 299 times "b".
abbrev long_name : Text
long_name = b'a' ∷ copies 299 b'b'

long_name-IsText : IsText long_name
long_name-IsText = (ground arith, copies-IsText 299)
  where
    copies-IsText : (n : ℕ) → IsText (copies n b'b')
    copies-IsText zero = tt
    copies-IsText (suc n) = (ground arith, copies-IsText n)

ann : OptionText printed.pwd
ann = ground arith

-- The name is cut to its last 251 bytes.
cut_name : shown_job long_name ≡ codes "... " ++ copies 251 b'b'
unfolding shown_job
cut_name = refl

request_bytes-fields_example :
    (length (request_bytes store32 load32 same same printed long_name 16 true) ≡ 328)
    × (load32 (take 4 (request_bytes store32 load32 same same printed long_name 16 true))
        ≡ 16 % 2 ^ 32)
    × (load32 (take 4 (drop 4 (request_bytes store32 load32 same same printed long_name 16 true)))
        ≡ 1)
    × (c_string
          (take 64 (drop 8 (request_bytes store32 load32 same same printed long_name 16 true)))
        ≡ shown_user (some (codes "ann")))
    × (c_string (drop 72 (request_bytes store32 load32 same same printed long_name 16 true))
        ≡ shown_job long_name)
request_bytes-fields_example =
    request_bytes-fields store32 load32 same same printed long_name 16 true (λ (n : ℕ). refl)
      (λ (n : ℕ) (small : n < 2 ^ 32). load32-store32 n)
      (λ (n : ℕ) (small : n < 2 ^ 32). (small, refl)) refl ann long_name-IsText
      (length-copies {A = ℕ} 64 7) (length-copies {A = ℕ} 256 9)

submit_file-Sends_example :
    Sends
      (request_bytes store32 load32 same same printed (codes "f") 16 true ++ read_all printed.reads)
      (submit_file store32 load32 same same printed (codes "f") 16 true)
submit_file-Sends_example =
    submit_file-Sends store32 load32 same same printed (codes "f") 16 true (tt, (tt, tt))

enough_writes :
    length (request_bytes store32 load32 same same printed (codes "f") 16 true)
      + length (read_all printed.reads)
    ≤ 400
unfolding request_bytes read_all user_name job_name strcpy padded
enough_writes = omega arith

submit_file-delivers_example : submit_file store32 load32 same same printed (codes "f") 16 true ≡ (
  request_bytes store32 load32 same same printed (codes "f") 16 true ++ read_all printed.reads,
  read_response store32 load32 same same [],
)
submit_file-delivers_example =
    submit_file-delivers store32 load32 same same printed (codes "f") 16 true (tt, (tt, tt))
      (copies-Accepts 400) enough_writes

-- The second read fails, with the first page still in the buffer and something behind it.
abbrev broken : Calls
broken = record printed {
  reads = read_bytes (codes "page one") ∷ read_failed (codes "page one, secret") ∷ [];
}
