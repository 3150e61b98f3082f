-- ===== src/Printer/Submit.antt =====
-- The client that prints a file (submit_file of apue.3e/printer/print.c), with readn and writen of
-- apue.3e/lib.
pub mod Header
pub mod Leaks
pub mod Stream
pub mod Strings
use unix_system_programming.Prelude.{
  ℕ, zero, suc, ◌+◌, ◌-◌, ◌%◌, ◌^◌, Bool, true, false, List, [], ◌∷◌, ◌++◌, length, take, drop,
  Option, none, some, ◌==◌, leb, if◌then◌else◌,
}
use unix_system_programming.Clib.{Text, codes, c_string}
use unix_system_programming.Database.{write_at}

-- What a run of writen has sent, whether its first write failed, and the answers that are left.
pub record Sent : Type 0 where
  pub bytes : List ℕ
  pub refused : Bool
  pub left : List (Option ℕ)

-- A write answers -1 or how many bytes it takes, at most those it is given. Behind the end of the list
-- every write answers 0.
unfoldable pub writen_loop : Bool → List ℕ → List (Option ℕ) → Sent
writen_loop first [] answers = record { bytes = []; refused = false; left = answers }
writen_loop first ptr [] = record { bytes = []; refused = false; left = [] }
writen_loop first ptr (none ∷ answers) = record { bytes = []; refused = first; left = answers }
writen_loop first ptr (some n ∷ answers) =
    let rest = writen_loop false (drop n ptr) answers in
    elim (n == 0) [
      | true ↦ record { bytes = []; refused = false; left = answers }
      | false ↦ record rest { bytes = take n ptr ++ Sent.bytes rest }
    ]

unfoldable pub writen : List ℕ → List (Option ℕ) → Sent
writen ptr answers = writen_loop true ptr answers

-- What a read gives: -1, or bytes, none at the end; behind the end of the list none as well.
unfoldable pub readn_loop : Bool → ℕ → List ℕ → List (Option (List ℕ)) → Option (List ℕ)
readn_loop first zero buf answers = some buf
readn_loop first nleft buf [] = some buf
readn_loop first nleft buf (none ∷ answers) = if first then none else some buf
readn_loop first nleft buf (some [] ∷ answers) = some buf
readn_loop first nleft buf (some bytes ∷ answers) =
    let n = length (take nleft bytes) in
    readn_loop false (nleft - n) (buf ++ take nleft bytes) answers

-- none is -1; otherwise the bytes, whose number is returned.
unfoldable pub readn : ℕ → List (Option (List ℕ)) → Option (List ℕ)
readn n answers = readn_loop true n [] answers

abbrev pub usernm_max : ℕ
usernm_max = 64

abbrev pub jobnm_max : ℕ
jobnm_max = 256

-- sizeof(struct printresp)
abbrev pub response_size : ℕ
response_size = 520

abbrev pub pr_text : ℕ
pr_text = 1

-- `strcpy(room, t)`
unfoldable pub strcpy : Text → List ℕ → List ℕ
strcpy t room = write_at 0 (t ++ 0 ∷ []) room

-- The n bytes that strncpy stores.
unfoldable pub padded : Text → ℕ → List ℕ
padded t zero = []
padded [] (suc n) = 0 ∷ padded [] n
padded (c ∷ t) (suc n) = c ∷ padded t n

-- `strncat(room, t, n)`
unfoldable pub strncat : List ℕ → Text → ℕ → List ℕ
strncat room t n = write_at (length (c_string room)) (take n t ++ 0 ∷ []) room

-- `usernm`, from the name that getpwuid gives, in an array of those bytes.
unfoldable pub user_name : Option Text → List ℕ → List ℕ
unfolding strcpy padded
user_name none room = strcpy (codes "unknown") room
user_name (some pw_name) room =
    write_at (usernm_max - 1) (0 ∷ []) (write_at 0 (padded pw_name (usernm_max - 1)) room)

-- `jobnm`, from the file's name.
unfoldable pub job_name : Text → List ℕ → List ℕ
unfolding strcpy strncat
job_name fname room =
    let len = length fname in
    if leb jobnm_max len
    then strncat (strcpy (codes "... ") room) (drop (len - jobnm_max + 5) fname) (jobnm_max - 5)
    else strcpy fname room

-- What submit_file comes to: the job's number, the text of a refusal, an end in err_sys or err_quit.
pub data Submitted : Type 0 where
  job_id : ℕ → Submitted
  rejected : Text → Submitted
  died : Submitted

-- What a read of the file answers: bytes, none at the end; or -1, with what the process then has in its
-- memory from `buf` on, where nothing but its end stops the write that follows.
pub data FileRead : Type 0 where
  read_bytes : List ℕ → FileRead
  read_failed : List ℕ → FileRead

-- The bytes that the names of `req` hold before it is filled, the answers of getpwuid, of each read of the file, of
-- each write to the socket and of each read from it.
pub record Calls : Type 0 where
  pub usernm : List ℕ
  pub jobnm : List ℕ
  pub pwd : Option Text
  pub reads : List FileRead
  pub writes : List (Option ℕ)
  pub answers : List (Option (List ℕ))

-- The comparison of writen's value with the length of what it was given: err_sys or err_quit where they
-- differ, and `after` otherwise.
unfoldable pub checked : List ℕ → Sent → List ℕ × Submitted → List ℕ × Submitted
checked buf s after = elim (length (Sent.bytes s) == length buf) [
  | true ↦ (Sent.bytes s ++ after.0, after.1)
  | false ↦ (Sent.bytes s, died)
]

-- The same where the read gave -1: writen is called with (size_t)-1 bytes. Its value is -1 too where its
-- first write fails, and the loop goes on; otherwise it is another.
unfoldable pub checked_failed : Sent → List ℕ × Submitted → List ℕ × Submitted
checked_failed s after = elim (Sent.refused s) [ true ↦ after | false ↦ (Sent.bytes s, died) ]

-- The loop over the buffers of the file; `next` is what follows its end. Behind the end of the list every
-- read gives the end of the file.
unfoldable pub send_file : Submitted → List FileRead → List (Option ℕ) → List ℕ × Submitted
send_file next [] writes = ([], next)
send_file next (read_failed memory ∷ reads) writes =
    let s = writen memory writes in checked_failed s (send_file next reads (Sent.left s))
send_file next (read_bytes [] ∷ reads) writes = ([], next)
send_file next (read_bytes buf ∷ reads) writes =
    let s = writen buf writes in checked buf s (send_file next reads (Sent.left s))

-- How the machine stores a uint32_t in memory, and reads one; and the byte order of the network.
module _ (store32 : ℕ → List ℕ) (load32 : List ℕ → ℕ) (htonl : ℕ → ℕ) (ntohl : ℕ → ℕ) where
  -- struct printreq, as it lies in memory.
  unfoldable pub request_bytes : Calls → Text → ℕ → Bool → List ℕ
  request_bytes c fname nbytes text =
      store32 (htonl (nbytes % 2 ^ 32))
      ++ (store32 (if text then htonl pr_text else 0)
          ++ (user_name c.pwd c.usernm ++ job_name fname c.jobnm))

  -- From readn on.
  unfoldable pub read_response : List (Option (List ℕ)) → Submitted
  read_response answers = elim (readn response_size answers) [
    | none ↦ died
    | some res ↦
        if length res == response_size
        then (if load32 (take 4 res) == 0
            then job_id (ntohl (load32 (take 4 (drop 4 res))))
            else rejected (c_string (drop 8 res)))
        else died
  ]

  -- The bytes that go to the server, and the outcome.
  unfoldable pub submit_file : Calls → Text → ℕ → Bool → List ℕ × Submitted
  submit_file c fname nbytes text =
      let req = request_bytes c fname nbytes text in
      let s = writen req c.writes in
      checked req s (send_file (read_response c.answers) c.reads (Sent.left s))
