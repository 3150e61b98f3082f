-- ===== src/Printer/Clients/Spooled.antt =====
-- What the service of one client leaves behind: a job with both its files, or nothing.
use unix_system_programming.Prelude.{
  ℕ, suc, ◌≡◌, ◌≢◌, refl, sym, ap, ◌∙◌, Bool, true, false, ◌⊎◌, inl, inr, Option, none, some, List,
  [], ◌∷◌, ◌++◌, ==_refl, Option-cases, append-nil, append_assoc,
}
use unix_system_programming.Linked.{Ptr}
use unix_system_programming.Linked.Segments.{Nodes, has, Lists}
use unix_system_programming.Printer.Jobs.{Request, Job, Pending, job, get_newjobno}
use unix_system_programming.Printer.Jobs.Queue.{add_job-Lists}
use unix_system_programming.Printer.Workers.{Pool}
use unix_system_programming.Printer.Workers.Second.{Works, add_worker-alone}
use unix_system_programming.Printer.Clients.{
  FileName, same_file, Answer, Calls, Server, put_file, copy, after_copy, look_at, respond, refuse,
  unlink_both, client_thread, store_request, store_data, serve_client,
}
use unix_system_programming.Printer.Clients.FileName.{data_file, request_file}
use unix_system_programming.Printer.Clients.Content.{bytes, request}
use unix_system_programming.Printer.Clients.Message.{error_text, request_id}
use unix_system_programming.Printer.Clients.Answer.{failed, short, whole}
use unix_system_programming.Printer.Clients.Copied.{stopped, copied}
use unix_system_programming.Printer.Clients.Files.{
  Answer-cases, SameFiles, Free, undo_data, undo_both, remove_data,
}

-- The bytes of the buffers up to the end of the input.
abbrev pub received : List (List ℕ × Answer Unit) → List ℕ
received [] = []
received (([], w) ∷ more) = []
received ((x ∷ xs, w) ∷ more) = (x ∷ xs) ++ received more

module _ (htonl : ℕ → ℕ) (ntohl : ℕ → ℕ) (eio : ℕ) (stale : List ℕ) where
  -- What the first buffer tells of the request.
  abbrev pub flagged : List (List ℕ × Answer Unit) → Request → Request
  flagged [] req = req
  flagged (([], w) ∷ more) req = req
  flagged ((x ∷ xs, w) ∷ more) req = look_at htonl ntohl eio stale true (x ∷ xs) req

  -- The job is refused: one answer, with an error, and all else as it was.
  abbrev pub Refused : Server → Server → Type 0
  Refused s t =
      SameFiles t s
      × (Server.pending t ≡ Server.pending s)
      × ((e : ℕ) × (Server.answers t
            ≡ Server.answers s
              ++ record { retcode = htonl e; jobid = 0; msg = error_text (htonl e) } ∷ []))

  -- The job is accepted: its data and its request are on disk, it is the last one in the queue, and the one answer
  -- tells its number.
  abbrev pub Accepted : Server → Nodes Job → ℕ → Ptr → List ℕ → Request → Server → Type 0
  Accepted s xs j p all req t =
      (Server.files t (data_file j) ≡ some (bytes all))
      × (Server.files t (request_file j) ≡ some (request req))
      × ((n : FileName)
          → same_file n (data_file j) ≡ false
          → same_file n (request_file j) ≡ false
          → Server.files t n ≡ Server.files s n)
      × Lists (Server.pending t) (xs ++ (p, job j req) ∷ [])
      × (Server.answers t
          ≡ Server.answers s ++ record { retcode = 0; jobid = htonl j; msg = request_id j } ∷ [])

  abbrev pub Copies : Bool → Request → List ℕ → List (List ℕ × Answer Unit) → Request → Type 0
  Copies first req done bs r =
      (copy htonl ntohl eio stale first req done bs ≡ copied (done ++ received bs) r)
      ⊎ ((e : ℕ) × (copy htonl ntohl eio stale first req done bs ≡ stopped e))

  copy_rest :
      (req : Request) (done : List ℕ) (bs : List (List ℕ × Answer Unit))
      → Copies false req done bs req
  unfolding copy look_at
  copy_rest req done [] = inl (ap (λ l. copied l req) (sym (append-nil done)))
  copy_rest req done (([], w) ∷ more) = inl (ap (λ l. copied l req) (sym (append-nil done)))
  copy_rest req done ((x ∷ xs, failed f) ∷ more) = inr (f, refl)
  copy_rest req done ((x ∷ xs, short) ∷ more) = inr (eio, refl)
  copy_rest req done ((x ∷ xs, whole w) ∷ more) = elim (copy_rest req (done ++ x ∷ xs) more) [
    | inl e ↦ inl (e ∙ ap (λ l. copied l req) (append_assoc done (x ∷ xs) (received more)))
    | inr s ↦ inr s
  ]

  -- The loop ends with all that was received, or with the error of a write.
  copy_cases :
      (req : Request) (bs : List (List ℕ × Answer Unit)) → Copies true req [] bs (flagged bs req)
  unfolding copy
  copy_cases req [] = inl refl
  copy_cases req (([], w) ∷ more) = inl refl
  copy_cases req ((x ∷ xs, failed f) ∷ more) = inr (f, refl)
  copy_cases req ((x ∷ xs, short) ∷ more) = inr (eio, refl)
  copy_cases req ((x ∷ xs, whole w) ∷ more) =
      copy_rest (look_at htonl ntohl eio stale true (x ∷ xs) req) (x ∷ xs) more

  -- The request in the byte order of the host.
  abbrev pub host : Request → Request
  host req = record req { size = ntohl (Request.size req); flags = ntohl (Request.flags req) }

  abbrev pub Done : Calls → Server → Nodes Job → ℕ → List ℕ → Request → Option Server → Type 0
  Done c s xs j all req result =
      (t : Server) × (result ≡ some t)
      × (Refused s t ⊎ Accepted s xs j (Calls.malloced c) all req t)

  abbrev pub accepted_server : Server → ℕ → List ℕ → Request → Pending → Server
  accepted_server s j all req e =
      record (respond
        (put_file (put_file s (data_file j) (some (bytes all))) (request_file j)
          (some (request req)))
        (record { retcode = 0; jobid = htonl j; msg = request_id j })) { pending = e }

  accept :
      (c : Calls) (s : Server) (xs : Nodes Job) (j : ℕ) (all : List ℕ) (req : Request) (e : Pending)
      → Lists e (xs ++ (Calls.malloced c, job j req) ∷ [])
      → Accepted s xs j (Calls.malloced c) all req (accepted_server s j all req e)
  unfolding put_file same_file respond
  accept c s xs j all req e l =
      (rw (==_refl j) refl, rw (==_refl j) refl, (λ n d r. rw (r, d) refl), l, refl)

  store_request_lem :
      (c : Calls) (s : Server) (xs : Nodes Job) (j : ℕ) (all : List ℕ) (req : Request)
      → Lists (Server.pending s) xs
      → Calls.malloced c ≢ 0
      → has (Calls.malloced c) xs ≡ false
      → Free s j
      → Done c s xs j all req (
          store_request htonl ntohl eio stale c (put_file s (data_file j) (some (bytes all))) j req)
  unfolding store_request refuse respond put_file unlink_both
  store_request_lem c s xs j all req l ne fresh free =
      let made = put_file s (data_file j) (some (bytes all)) in
      elim (Option-cases (Calls.creat_request c)) [
        | inr (e, at) ↦ (
          put_file (refuse htonl ntohl eio stale made e) (data_file j) none,
          rw at refl,
          inl (undo_data s j _ free, refl, (e, refl)),
        )
        | inl at ↦ elim (Answer-cases (Calls.write_request c)) [
          | inr (inl (e, at2)) ↦ (
            unlink_both (refuse htonl ntohl eio stale made e) j,
            rw (at, at2) refl,
            inl (undo_both s j _ free, refl, (e, refl)),
          )
          | inr (inr at2) ↦ (
            unlink_both (refuse htonl ntohl eio stale made eio) j,
            rw (at, at2) refl,
            inl (undo_both s j _ free, refl, (eio, refl)),
          )
          | inl (w, at2) ↦
              let (p, eq, l2) =
                add_job-Lists (Server.pending s) xs (Calls.malloced c) req j l ne fresh in
              (
                accepted_server s j all req p,
                rw (at, at2, eq) refl,
                inr (accept c s xs j all req p l2),
              )
        ]
      ]

  data_made :
      (c : Calls) (s : Server) (j : ℕ) (req : Request)
      → Calls.creat_data c ≡ none
      → store_data htonl ntohl eio stale c s j req
        ≡ after_copy htonl ntohl eio stale c s j
            (copy htonl ntohl eio stale true req [] (Calls.buffers c))
  unfolding store_data
  data_made c s j req at = rw at refl

  store_data_lem :
      (c : Calls) (s : Server) (xs : Nodes Job) (j : ℕ) (req : Request)
      → Lists (Server.pending s) xs
      → Calls.malloced c ≢ 0
      → has (Calls.malloced c) xs ≡ false
      → Free s j
      → Done c s xs j
          (received (Calls.buffers c))
          (flagged (Calls.buffers c) req)
          (store_data htonl ntohl eio stale c s j req)
  unfolding store_data after_copy refuse respond put_file
  store_data_lem c s xs j req l ne fresh free = elim (Option-cases (Calls.creat_data c)) [
    | inr (e, at) ↦
        (refuse htonl ntohl eio stale s e, rw at refl, inl ((λ n. refl), refl, (e, refl)))
    | inl at ↦ elim (copy_cases req (Calls.buffers c)) [
      | inr (e, at2) ↦ (
        put_file (refuse htonl ntohl eio stale s e) (data_file j) none,
        data_made c s j req at ∙ ap (after_copy htonl ntohl eio stale c s j) at2,
        inl (remove_data s j free, refl, (e, refl)),
      )
      | inl at2 ↦
          let (t, eq, r) =
            store_request_lem c s xs j (received (Calls.buffers c)) (flagged (Calls.buffers c) req)
              l ne fresh free in
          (t, data_made c s j req at ∙ ap (after_copy htonl ntohl eio stale c s j) at2 ∙ eq, r)
    ]
  ]

  client_whole :
      (c : Calls) (s : Server) (req : Request)
      → Calls.header c ≡ whole req
      → serve_client htonl ntohl eio stale c s
        ≡ store_data htonl ntohl eio stale c
            (record s { nextjob = (get_newjobno (Server.nextjob s)).1 })
            (Server.nextjob s)
            (host req)
  unfolding serve_client get_newjobno
  client_whole c s req at = rw at refl

  -- The service between add_worker and the cleanup.
  pub serve_client_lem :
      (c : Calls) (s : Server) (xs : Nodes Job)
      → Lists (Server.pending s) xs
      → Calls.malloced c ≢ 0
      → has (Calls.malloced c) xs ≡ false
      → Free s (Server.nextjob s)
      → (t : Server) × (serve_client htonl ntohl eio stale c s ≡ some t)
        × (Refused s t
            ⊎ ((req : Request) × (Calls.header c ≡ whole req)
                × Accepted s xs
                    (Server.nextjob s)
                    (Calls.malloced c)
                    (received (Calls.buffers c))
                    (flagged (Calls.buffers c) (host req))
                    t))
  unfolding serve_client refuse respond
  serve_client_lem c s xs l ne fresh free = elim (Answer-cases (Calls.header c)) [
    | inr (inl (e, at)) ↦
        (refuse htonl ntohl eio stale s e, rw at refl, inl ((λ n. refl), refl, (e, refl)))
    | inr (inr at) ↦
        (refuse htonl ntohl eio stale s eio, rw at refl, inl ((λ n. refl), refl, (eio, refl)))
    | inl (req, at) ↦
        let (t, eq, r) =
          store_data_lem c (record s { nextjob = (get_newjobno (Server.nextjob s)).1 }) xs
            (Server.nextjob s) (host req) l ne fresh free in
        (
          t,
          client_whole c s req at ∙ eq,
          elim r [ inl refused ↦ inl refused | inr accepted ↦ inr (req, at, accepted) ],
        )
  ]

  -- When the client is the only one, the queue is a list, malloc gives addresses that are not in it and the next number
  -- has no files, the thread ends with its worker cleaned up and its socket closed; the client is refused with one
  -- answer, and nothing of its job is left, or its job is accepted with all that was received.
  pub client_thread_lem :
      (fuel p tid sockfd : ℕ) (c : Calls) (w : Pool) (s : Server) (xs : Nodes Job)
      → Works w []
      → p ≢ 0
      → Lists (Server.pending s) xs
      → Calls.malloced c ≢ 0
      → has (Calls.malloced c) xs ≡ false
      → Free s (Server.nextjob s)
      → (w2 : Pool) × (t : Server) × (client_thread htonl ntohl eio stale
            (suc fuel)
            p
            tid
            sockfd
            c
            w
            s
          ≡ some (w2, t, sockfd ∷ []))
        × Works w2 []
        × (Refused s t
            ⊎ ((req : Request) × (Calls.header c ≡ whole req)
                × Accepted s xs
                    (Server.nextjob s)
                    (Calls.malloced c)
                    (received (Calls.buffers c))
                    (flagged (Calls.buffers c) (host req))
                    t))
  unfolding client_thread
  client_thread_lem fuel p tid sockfd c w s xs alone ne l ne2 fresh free =
      let (w1, w2, added, cleaned, empty, _) = add_worker-alone fuel w p tid sockfd alone ne in
      let (t, served, r) = serve_client_lem c s xs l ne2 fresh free in
      (w2, t, rw (added, served, cleaned) refl, empty, r)
