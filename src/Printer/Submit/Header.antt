-- ===== src/Printer/Submit/Header.antt =====
-- The request that submit_file of print.c sends: its layout and its two names.
use unix_system_programming.Prelude.{
  ℕ, zero, suc, ◌+◌, ◌-◌, ◌%◌, ◌^◌, ◌<◌, ◌≡◌, refl, ap, ◌∙◌, Bool, true, false, List, [], ◌∷◌, ◌++◌,
  length, take, drop, length-append, Option, none, some, leb, if◌then◌else◌, Bool-cases, inl, inr,
  arith,
}
use unix_system_programming.Clib.{Text, codes, c_string}
use unix_system_programming.Printer.Submit.{pr_text, user_name, job_name, Calls, request_bytes}
use unix_system_programming.Printer.Submit.Strings.{
  IsText, strcpy-fits, padded-fits, strncat-strcpy, drop-IsText, length-drop,
}

-- The name that the request holds for the one getpwuid gives.
unfoldable pub shown_user : Option Text → Text
shown_user none = codes "unknown"
shown_user (some name) = take 63 name

-- The file's name, or its last 251 bytes behind four others.
unfoldable pub shown_job : Text → Text
shown_job fname =
    if leb 256 (length fname) then codes "... " ++ drop (length fname - 251) fname else fname

abbrev pub OptionText : Option Text → Type 0
OptionText none = Unit
OptionText (some t) = IsText t

user_name-fits :
    (pwd : Option Text) (room : List ℕ)
    → OptionText pwd
    → length room ≡ 64
    → (length (user_name pwd room) ≡ 64) × (c_string (user_name pwd room) ≡ shown_user pwd)
unfolding user_name shown_user
user_name-fits none room ok size =
    let (long, same) = strcpy-fits (codes "unknown") room (ground arith) (omega arith) in
    (long ∙ size, same)
user_name-fits (some name) room ok size = padded-fits name room 63 ok size

job_name-fits :
    (fname : Text) (room : List ℕ)
    → IsText fname
    → length room ≡ 256
    → (length (job_name fname room) ≡ 256) × (c_string (job_name fname room) ≡ shown_job fname)
unfolding job_name shown_job
job_name-fits fname room ok size = elim (Bool-cases (leb 256 (length fname))) [
  | inl e ↦
      let from : length fname - 256 + 5 ≡ length fname - 251 = ground arith in
      let few : length (drop (length fname - 251) fname) ≡ 251 =
        length-drop (length fname - 251) fname ∙ ground arith in
      let (long, same) =
        strncat-strcpy (codes "... ") (drop (length fname - 251) fname) room 251 (ground arith)
          (drop-IsText (length fname - 251) fname ok) (omega (arith, few)) (omega (arith, few)) in
      rw (e, from) (long ∙ size, same)
  | inr e ↦ let (long, same) = strcpy-fits fname room ok (ground arith) in rw e (long ∙ size, same)
]

take-append : (n : ℕ) (a b : List ℕ) → length a ≡ n → take n (a ++ b) ≡ a
take-append zero [] b h = refl
take-append zero (x ∷ a) b h = ground arith
take-append (suc n) [] b h = ground arith
take-append (suc n) (x ∷ a) b h = ground (arith, take-append n a b)

drop-append : (n k : ℕ) (a b : List ℕ) → length a ≡ n → drop (n + k) (a ++ b) ≡ drop k b
drop-append zero k [] b h = ap (λ (m : ℕ). drop m b) {x = 0 + k} {y = k} (omega arith)
drop-append zero k (x ∷ a) b h = ground arith
drop-append (suc n) k [] b h = ground arith
drop-append (suc n) k (x ∷ a) b h =
    ap (λ (m : ℕ). drop m (x ∷ (a ++ b))) {x = suc n + k} {y = suc (n + k)} (omega arith)
    ∙ drop-append n k a b (ground arith)

-- The members of the structure, at their offsets.
members :
    (a b u j : List ℕ)
    → length a ≡ 4
    → length b ≡ 4
    → length u ≡ 64
    → length j ≡ 256
    → (length (a ++ (b ++ (u ++ j))) ≡ 328)
      × (take 4 (a ++ (b ++ (u ++ j))) ≡ a)
      × (take 4 (drop 4 (a ++ (b ++ (u ++ j)))) ≡ b)
      × (take 64 (drop 8 (a ++ (b ++ (u ++ j)))) ≡ u)
      × (drop 72 (a ++ (b ++ (u ++ j))) ≡ j)
members a b u j la lb lu lj = (
  length-append a (b ++ (u ++ j)) ∙ omega (arith, length-append b (u ++ j), length-append u j),
  take-append 4 a (b ++ (u ++ j)) la,
  ap (take 4) (drop-append 4 0 a (b ++ (u ++ j)) la) ∙ take-append 4 b (u ++ j) lb,
  ap (take 64) (drop-append 4 4 a (b ++ (u ++ j)) la ∙ drop-append 4 0 b (u ++ j) lb)
      ∙ take-append 64 u j lu,
  drop-append 4 68 a (b ++ (u ++ j)) la ∙ drop-append 4 64 b (u ++ j) lb ∙ drop-append 64 0 u j lu,
)

-- Where an uint32_t is stored in four bytes and read back, htonl and ntohl are inverse and 0 is the same
-- in both orders, the name of the user and that of the file have no NUL, and the arrays have their sizes:
-- the request is 328 bytes long, and a reader finds in it the size of the file modulo 2^32, the flag, the
-- first 63 bytes of the user's name or "unknown", and the file's name, or from 256 bytes on "... " and
-- its last 251 bytes.
pub request_bytes-fields :
    (store32 : ℕ → List ℕ) (load32 : List ℕ → ℕ) (htonl ntohl : ℕ → ℕ) (c : Calls) (fname : Text)
    (nbytes : ℕ) (text : Bool)
    → ((n : ℕ) → length (store32 n) ≡ 4)
    → ((n : ℕ) → n < 2 ^ 32 → load32 (store32 n) ≡ n)
    → ((n : ℕ) → n < 2 ^ 32 → (htonl n < 2 ^ 32) × (ntohl (htonl n) ≡ n))
    → ntohl 0 ≡ 0
    → OptionText c.pwd
    → IsText fname
    → length c.usernm ≡ 64
    → length c.jobnm ≡ 256
    → (length (request_bytes store32 load32 htonl ntohl c fname nbytes text) ≡ 328)
      × (ntohl (load32 (take 4 (request_bytes store32 load32 htonl ntohl c fname nbytes text)))
          ≡ nbytes % 2 ^ 32)
      × (ntohl (
            load32 (take 4 (drop 4 (request_bytes store32 load32 htonl ntohl c fname nbytes text))))
          ≡ (if text then 1 else 0))
      × (c_string (take 64 (drop 8 (request_bytes store32 load32 htonl ntohl c fname nbytes text)))
          ≡ shown_user c.pwd)
      × (c_string (drop 72 (request_bytes store32 load32 htonl ntohl c fname nbytes text))
          ≡ shown_job fname)
unfolding request_bytes
request_bytes-fields store32 load32 htonl ntohl c fname nbytes text four back net same user_ok ok
      user_room job_room =
    let (user_size, user) = user_name-fits c.pwd c.usernm user_ok user_room in
    let (job_size, job) = job_name-fits fname c.jobnm ok job_room in
    let word = nbytes % 2 ^ 32 in
    let (small, there) = net word (omega arith) in
    let (size, first, second, third, fourth) =
      members (store32 (htonl word)) (store32 (if text then htonl pr_text else 0))
        (user_name c.pwd c.usernm) (job_name fname c.jobnm) (four _) (four _) user_size job_size in
    (
      size,
      rw (first, back (htonl word) small) there,
      ap (λ (w : List ℕ). ntohl (load32 w)) second ∙ flag-read back net same text,
      ap c_string third ∙ user,
      ap c_string fourth ∙ job,
    )
  where
    flag-read :
        ((n : ℕ) → n < 2 ^ 32 → load32 (store32 n) ≡ n)
        → ((n : ℕ) → n < 2 ^ 32 → (htonl n < 2 ^ 32) × (ntohl (htonl n) ≡ n))
        → ntohl 0 ≡ 0
        → (text : Bool)
        → ntohl (load32 (store32 (if text then htonl pr_text else 0))) ≡ (if text then 1 else 0)
    flag-read back net same true =
        let (small, there) = net 1 (omega arith) in rw (back (htonl 1) small) there
    flag-read back net same false = rw (back 0 (omega arith)) same
