-- ===== src/Printer/Clients.antt =====
-- The service of one client by apue.3e/printer/printd.c: the files of the spool directories, the answer, and the job
-- that is queued.
pub mod Files
pub mod Spooled
use unix_system_programming.Prelude.{
  ℕ, zero, suc, List, [], ◌∷◌, ◌++◌, Option, none, some, Bool, true, false, ◌==◌, if◌then◌else◌,
  length, take, ◌%◌, ◌+◌, ◌-◌,
}
use unix_system_programming.Linked.{Ptr, ◌>>=◌}
use unix_system_programming.Printer.Workers.{Pool, add_worker, client_cleanup}
use unix_system_programming.Printer.Jobs.{Request, Pending, add_job, get_newjobno}

-- "%s/%s/%d" with SPOOLDIR and DATADIR, or REQDIR
pub data FileName : Type 0 where
  data_file : ℕ → FileName
  request_file : ℕ → FileName

unfoldable pub same_file : FileName → FileName → Bool
same_file (data_file m) (data_file n) = m == n
same_file (request_file m) (request_file n) = m == n
same_file (data_file m) (request_file n) = false
same_file (request_file m) (data_file n) = false

pub data Content : Type 0 where
  bytes : List ℕ → Content
  request : Request → Content

-- The text of the answer: strerror of a number, or "request ID %d".
pub data Message : Type 0 where
  error_text : ℕ → Message
  request_id : ℕ → Message

-- struct printresp
pub record Response : Type 0 where
  pub retcode : ℕ
  pub jobid : ℕ
  pub msg : Message

-- What a call answers: -1 with errno, fewer bytes than asked for, or all of it.
pub data Answer (A : Type 0) : Type 0 where
  failed : ℕ → Answer A
  short : Answer A
  whole : A → Answer A

-- The answers of the calls in the service of one client: treadn, creat, tread with the write of each buffer, creat
-- and write for the request, and malloc.
pub record Calls : Type 0 where
  pub header : Answer Request
  pub creat_data : Option ℕ
  pub buffers : List (List ℕ × Answer Unit)
  pub creat_request : Option ℕ
  pub write_request : Answer Unit
  pub malloced : Ptr

pub record Server : Type 0 where
  pub files : FileName → Option Content
  pub nextjob : ℕ
  pub pending : Pending
  pub answers : List Response

unfoldable pub put_file : Server → FileName → Option Content → Server
put_file s name c = record s { files = λ n. if same_file n name then c else Server.files s n }

-- `req.flags |= PR_TEXT`
unfoldable pub with_text : Request → Request
with_text r = record r {
  flags = if Request.flags r % 2 == 1 then Request.flags r else Request.flags r + 1;
}

-- "%!PS"
abbrev pub postscript : List ℕ
postscript = 37 ∷ 33 ∷ 80 ∷ 83 ∷ []

unfoldable pub starts_with : List ℕ → List ℕ → Bool
starts_with [] text = true
starts_with (c ∷ cs) [] = false
starts_with (c ∷ cs) (x ∷ xs) = let rest = starts_with cs xs in if c == x then rest else false

-- The file that is written so far and the request's flags, or the error of a write.
pub data Copied : Type 0 where
  stopped : ℕ → Copied
  copied : List ℕ → Request → Copied

unfoldable pub respond : Server → Response → Server
respond s r = record s { answers = Server.answers s ++ r ∷ [] }

-- Both files are removed, the control file first.
unfoldable pub unlink_both : Server → ℕ → Server
unlink_both s jobid = put_file (put_file s (request_file jobid) none) (data_file jobid) none

-- The byte order of the network, and EIO; `stale` is what `buf` holds behind the bytes that are read.
module _ (htonl : ℕ → ℕ) (ntohl : ℕ → ℕ) (eio : ℕ) (stale : List ℕ) where
  -- The answer of every failure.
  unfoldable pub refuse : Server → ℕ → Server
  refuse s e = respond s (record { retcode = htonl e; jobid = 0; msg = error_text (htonl e) })

  unfoldable pub look_at : Bool → List ℕ → Request → Request
  look_at first buf req =
      if first then (if starts_with postscript (buf ++ stale) then req else with_text req) else req

  -- The loop over the buffers that are read: it ends with the end of the input, and with an error of tread.
  unfoldable pub copy : Bool → Request → List ℕ → List (List ℕ × Answer Unit) → Copied
  copy first req done [] = copied done req
  copy first req done (([], w) ∷ more) = copied done req
  copy first req done ((x ∷ xs, failed e) ∷ more) = stopped e
  copy first req done ((x ∷ xs, short) ∷ more) = stopped eio
  copy first req done ((x ∷ xs, whole _) ∷ more) =
      copy false (look_at first (x ∷ xs) req) (done ++ x ∷ xs) more

  -- From the control file on.
  unfoldable pub store_request : Calls → Server → ℕ → Request → Option Server
  store_request c s jobid req = elim (Calls.creat_request c) [
    | some e ↦ some (put_file (refuse s e) (data_file jobid) none)
    | none ↦ elim (Calls.write_request c) [
      | failed e ↦ some (unlink_both (refuse s e) jobid)
      | short ↦ some (unlink_both (refuse s eio) jobid)
      | whole _ ↦
          let s2 = put_file s (request_file jobid) (some (request req)) in
          let s3 =
            respond s2 (record { retcode = 0; jobid = htonl jobid; msg = request_id jobid }) in
          add_job (Server.pending s3) (Calls.malloced c) req jobid >>= λ e.
          some (record s3 { pending = e })
    ]
  ]

  unfoldable pub after_copy : Calls → Server → ℕ → Copied → Option Server
  after_copy c s jobid (stopped e) = some (put_file (refuse s e) (data_file jobid) none)
  after_copy c s jobid (copied all req) =
      store_request c (put_file s (data_file jobid) (some (bytes all))) jobid req

  -- From the data file on.
  unfoldable pub store_data : Calls → Server → ℕ → Request → Option Server
  store_data c s jobid req = elim (Calls.creat_data c) [
    | some e ↦ some (refuse s e)
    | none ↦ after_copy c s jobid (copy true req [] (Calls.buffers c))
  ]

  -- Between add_worker and the cleanup.
  unfoldable pub serve_client : Calls → Server → Option Server
  serve_client c s = elim (Calls.header c) [
    | failed e ↦ some (refuse s e)
    | short ↦ some (refuse s eio)
    | whole req ↦
        let (jobid, next) = get_newjobno (Server.nextjob s) in
        store_data c (record s { nextjob = next }) jobid
          (record req { size = ntohl (Request.size req); flags = ntohl (Request.flags req) })
  ]

  -- The whole thread: its worker is added, and cleaned up however the service ends. The result has the pool, the server
  -- and the sockets closed; the fuel is for the search of the pool.
  unfoldable pub client_thread :
      ℕ → Ptr → ℕ → ℕ → Calls → Pool → Server → Option (Pool × Server × List ℕ)
  client_thread fuel malloced tid sockfd c w s =
      add_worker w malloced tid sockfd >>= λ (goes_on, w1).
      (if goes_on then serve_client c s else some s) >>= λ t.
      client_cleanup fuel w1 tid >>= λ (w2, closed). some (w2, t, closed)
