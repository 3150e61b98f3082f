-- ===== src/Printer/Submit/Stream.antt =====
-- What submit_file of print.c sends to the server, whatever the reads and writes answer.
use unix_system_programming.Prelude.{
  ℕ, zero, suc, ◌+◌, ◌≤◌, ◌<◌, ◌≡◌, refl, sym, ap, subst, ◌∙◌, Bool, true, false, List, [], ◌∷◌,
  ◌++◌, length, take, drop, length-append, All, Option, none, some, ◌==◌, append_assoc, append-nil,
  Bool-cases, inl, inr, arith, ==_iff, ==_refl,
}
use unix_system_programming.Clib.{Text}
use unix_system_programming.Printer.Submit.{
  Sent, writen_loop, writen, Submitted, job_id, rejected, died, FileRead, read_bytes, read_failed,
  Calls, checked, send_file, request_bytes, read_response, submit_file,
}

take-drop_whole : (n : ℕ) (xs : List ℕ) → take n xs ++ drop n xs ≡ xs
take-drop_whole zero xs = refl
take-drop_whole (suc n) [] = refl
take-drop_whole (suc n) (x ∷ xs) = ap (λ (r : List ℕ). x ∷ r) (take-drop_whole n xs)

-- The bytes of the file up to its end or to the first read that fails.
unfoldable pub read_all : List FileRead → List ℕ
read_all [] = []
read_all (read_failed memory ∷ reads) = []
read_all (read_bytes [] ∷ reads) = []
read_all (read_bytes (b ∷ buf) ∷ reads) = (b ∷ buf) ++ read_all reads

-- writen sends its bytes from the first on.
writen_loop-prefix :
    (first : Bool) (ptr : List ℕ) (answers : List (Option ℕ))
    → (rest : List ℕ) × (ptr ≡ Sent.bytes (writen_loop first ptr answers) ++ rest)
unfolding writen_loop
writen_loop-prefix first [] answers = ([], refl)
writen_loop-prefix first (p ∷ ptr) [] = (p ∷ ptr, refl)
writen_loop-prefix first (p ∷ ptr) (none ∷ answers) = (p ∷ ptr, refl)
writen_loop-prefix first (p ∷ ptr) (some n ∷ answers) =
    let (rest, same) = writen_loop-prefix false (drop n (p ∷ ptr)) answers in
    let went = writen_loop false (drop n (p ∷ ptr)) answers in
    let Part : Bool → Type 0 = λ (b : Bool).
      (rest : List ℕ) × (p ∷ ptr
        ≡ Sent.bytes (elim b [
          | true ↦ record { bytes = []; refused = false; left = answers }
          | false ↦ record went { bytes = take n (p ∷ ptr) ++ Sent.bytes went }
        ])
          ++ rest) in
    elim (Bool-cases (n == 0)) [
      | inl e ↦ subst Part (sym e) (p ∷ ptr, refl)
      | inr e ↦ subst Part (sym e) (
        rest,
        sym (take-drop_whole n (p ∷ ptr))
            ∙ ap (λ (r : List ℕ). take n (p ∷ ptr) ++ r) same
            ∙ sym (append_assoc (take n (p ∷ ptr)) (Sent.bytes went) rest),
      )
    ]

-- As many bytes sent as given are all of them.
append_all : (ptr sent rest : List ℕ) → ptr ≡ sent ++ rest → length sent ≡ length ptr → rest ≡ []
append_all ptr sent [] e h = refl
append_all ptr sent (r ∷ rest) e h =
    let sizes = ap length e ∙ length-append sent (r ∷ rest) in ground arith

unfoldable pub Answered : Submitted → Type 0
Answered (job_id n) = Unit
Answered (rejected t) = Unit
Answered died = ⊥

-- Part of the stream, and all of it where there is an answer.
abbrev pub Sends : List ℕ → List ℕ × Submitted → Type 0
Sends stream r = (rest : List ℕ) × (stream ≡ r.0 ++ rest) × (Answered (r.1) → rest ≡ [])

checked-Sends :
    (buf stream : List ℕ) (writes : List (Option ℕ)) (after : List ℕ × Submitted)
    → Sends stream after
    → Sends (buf ++ stream) (checked buf (writen buf writes) after)
unfolding checked writen Answered
checked-Sends buf stream writes after (rest, same, whole) =
    let s = writen buf writes in
    let (more, prefix) = writen_loop-prefix true buf writes in
    let Parted : Bool → Type 0 = λ (b : Bool).
      Sends (buf ++ stream)
        (elim b [ true ↦ (Sent.bytes s ++ after.0, after.1) | false ↦ (Sent.bytes s, died) ]) in
    elim (Bool-cases (length (Sent.bytes s) == length buf)) [
      | inl e ↦
          let none_left = append_all buf (Sent.bytes s) more prefix ((==_iff _ _).0 e) in
          let all_sent : buf ≡ Sent.bytes s =
            prefix ∙ ap (λ (r : List ℕ). Sent.bytes s ++ r) none_left ∙ append-nil (Sent.bytes s) in
          subst Parted (sym e) (
            rest,
            ap (λ (r : List ℕ). r ++ stream) all_sent
                ∙ ap (λ (r : List ℕ). Sent.bytes s ++ r) same
                ∙ sym (append_assoc (Sent.bytes s) (after.0) rest),
            whole,
          )
      | inr e ↦ subst Parted (sym e) (
        more ++ stream,
        ap (λ (r : List ℕ). r ++ stream) prefix ∙ append_assoc (Sent.bytes s) more stream,
        λ answer. elim answer [ ],
      )
    ]

-- A write takes at least one byte, and a read does not fail.
abbrev pub Accepts : Option ℕ → Type 0
Accepts none = ⊥
Accepts (some n) = 0 < n

abbrev pub Reads : FileRead → Type 0
Reads (read_bytes buf) = Unit
Reads (read_failed memory) = ⊥

send_file-Sends :
    (next : Submitted) (reads : List FileRead) (writes : List (Option ℕ))
    → All Reads reads
    → Sends (read_all reads) (send_file next reads writes)
unfolding send_file read_all Answered
send_file-Sends next [] writes good = ([], refl, λ h. refl)
send_file-Sends next (read_failed memory ∷ reads) writes good = elim (good.0) [ ]
send_file-Sends next (read_bytes [] ∷ reads) writes good = ([], refl, λ h. refl)
send_file-Sends next (read_bytes (b ∷ buf) ∷ reads) writes (read, good) =
    let s = writen (b ∷ buf) writes in
    checked-Sends (b ∷ buf) (read_all reads) writes (send_file next reads (Sent.left s))
      (send_file-Sends next reads (Sent.left s) good)

-- Where no read of the file fails, and whatever the other calls answer: what has gone to the server is the
-- request and then the file, from the first byte on and with no gap; all of it, where submit_file gets an
-- answer.
pub submit_file-Sends :
    (store32 : ℕ → List ℕ) (load32 : List ℕ → ℕ) (htonl ntohl : ℕ → ℕ) (c : Calls) (fname : Text)
    (nbytes : ℕ) (text : Bool)
    → All Reads c.reads
    → Sends
        (request_bytes store32 load32 htonl ntohl c fname nbytes text ++ read_all c.reads)
        (submit_file store32 load32 htonl ntohl c fname nbytes text)
unfolding submit_file
submit_file-Sends store32 load32 htonl ntohl c fname nbytes text good =
    let req = request_bytes store32 load32 htonl ntohl c fname nbytes text in
    let s = writen req c.writes in
    let next = read_response store32 load32 htonl ntohl c.answers in
    checked-Sends req (read_all c.reads) c.writes (send_file next c.reads (Sent.left s))
      (send_file-Sends next c.reads (Sent.left s) good)

length-drop_some : (n p : ℕ) (xs : List ℕ) → 0 < n → length (drop n (p ∷ xs)) ≤ length xs
length-drop_some zero p xs h = ground arith
length-drop_some (suc zero) p xs h = omega arith
length-drop_some (suc (suc n)) p [] h = omega arith
length-drop_some (suc (suc n)) p (x ∷ xs) h =
    let shorter = length-drop_some (suc n) x xs in omega (arith, shorter (omega arith))

pub writen_loop-Accepts :
    (first : Bool) (ptr : List ℕ) (answers : List (Option ℕ))
    → All Accepts answers
    → length ptr ≤ length answers
    → (Sent.bytes (writen_loop first ptr answers) ≡ ptr)
      × All Accepts (Sent.left (writen_loop first ptr answers))
      × (length answers ≤ length (Sent.left (writen_loop first ptr answers)) + length ptr)
unfolding writen_loop
writen_loop-Accepts first [] answers ok enough = (refl, ok, omega arith)
writen_loop-Accepts first (p ∷ ptr) [] ok enough = ground arith
writen_loop-Accepts first (p ∷ ptr) (none ∷ answers) ok enough = elim (ok.0) [ ]
writen_loop-Accepts first (p ∷ ptr) (some n ∷ answers) (positive, ok) enough =
    let fewer = length-drop_some n p ptr positive in
    let (same, rest, count) =
      writen_loop-Accepts false (drop n (p ∷ ptr)) answers ok (omega (arith, fewer)) in
    let e : (n == 0) ≡ false = ground arith in
    let went = writen_loop false (drop n (p ∷ ptr)) answers in
    subst
      (λ (b : Bool).
        let r : Sent = elim b [
          | true ↦ record { bytes = []; refused = false; left = answers }
          | false ↦ record went { bytes = take n (p ∷ ptr) ++ Sent.bytes went }
        ] in
        (Sent.bytes r ≡ p ∷ ptr)
        × All Accepts (Sent.left r)
        × (suc (length answers) ≤ length (Sent.left r) + length (p ∷ ptr)))
      (sym e)
      (
        ap (λ (r : List ℕ). take n (p ∷ ptr) ++ r) same ∙ take-drop_whole n (p ∷ ptr),
        rest,
        omega (arith, count, fewer),
      )

pub checked-whole :
    (buf : List ℕ) (s : Sent) (after : List ℕ × Submitted)
    → Sent.bytes s ≡ buf
    → checked buf s after ≡ (buf ++ after.0, after.1)
unfolding checked
checked-whole buf s after same =
    rw (checked, same, ==_refl (length buf)) (ap (λ (r : List ℕ). (r ++ after.0, after.1)) same)

send_file-Accepts :
    (next : Submitted) (reads : List FileRead) (writes : List (Option ℕ))
    → All Reads reads
    → All Accepts writes
    → length (read_all reads) ≤ length writes
    → send_file next reads writes ≡ (read_all reads, next)
unfolding send_file read_all writen
send_file-Accepts next [] writes good ok enough = refl
send_file-Accepts next (read_failed memory ∷ reads) writes good ok enough = elim (good.0) [ ]
send_file-Accepts next (read_bytes [] ∷ reads) writes good ok enough = refl
send_file-Accepts next (read_bytes (b ∷ buf) ∷ reads) writes (read, good) ok enough =
    let sizes = length-append (b ∷ buf) (read_all reads) in
    let (same, rest, count) =
      writen_loop-Accepts true (b ∷ buf) writes ok (omega (arith, sizes, enough)) in
    let s = writen (b ∷ buf) writes in
    checked-whole (b ∷ buf) s (send_file next reads (Sent.left s)) same
    ∙ rw
        (send_file-Accepts next reads (Sent.left s) good rest (omega (arith, sizes, enough, count)))
        refl

-- Where no read fails, every write takes at least one byte, and there are as many writes as bytes:
-- the server gets the request and the whole file, and the outcome is the response it sends.
pub submit_file-delivers :
    (store32 : ℕ → List ℕ) (load32 : List ℕ → ℕ) (htonl ntohl : ℕ → ℕ) (c : Calls) (fname : Text)
    (nbytes : ℕ) (text : Bool)
    → All Reads c.reads
    → All Accepts c.writes
    → length (request_bytes store32 load32 htonl ntohl c fname nbytes text)
        + length (read_all c.reads)
      ≤ length c.writes
    → submit_file store32 load32 htonl ntohl c fname nbytes text ≡ (
      request_bytes store32 load32 htonl ntohl c fname nbytes text ++ read_all c.reads,
      read_response store32 load32 htonl ntohl c.answers,
    )
unfolding submit_file writen
submit_file-delivers store32 load32 htonl ntohl c fname nbytes text good ok enough =
    let req = request_bytes store32 load32 htonl ntohl c fname nbytes text in
    let next = read_response store32 load32 htonl ntohl c.answers in
    let (same, rest, count) = writen_loop-Accepts true req c.writes ok (omega (arith, enough)) in
    let s = writen req c.writes in
    checked-whole req s (send_file next c.reads (Sent.left s)) same
    ∙ rw (send_file-Accepts next c.reads (Sent.left s) good rest (omega (arith, enough, count)))
        refl
