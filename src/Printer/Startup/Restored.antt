-- ===== src/Printer/Startup/Restored.antt =====
-- What the queue of apue.3e/printer/printd.c is after build_qonstart.
use unix_system_programming.Prelude.{
  ◌+◌, ◌<◌, ◌≡◌, ◌≢◌, refl, sym, ap, ◌∙◌, Bool, true, false, List, [], ◌∷◌, ◌++◌, length, some, ltb,
  if◌then◌else◌, length-append, append-nil, append_assoc, arith,
}
use unix_system_programming.Clib.{Text}
use unix_system_programming.Database.Numbers.{atol}
use unix_system_programming.Linked.{Ptr}
use unix_system_programming.Linked.Segments.{Nodes, has, Lists}
use unix_system_programming.Printer.JobFile.{filenmsz, int32}
use unix_system_programming.Printer.Jobs.{Request, Job, Pending, job}
use unix_system_programming.Printer.Jobs.Queue.{add_job-Lists}
use unix_system_programming.Printer.Startup.{
  Found, Entry, Startup, request_path, data_path, is_dot, take_entry, take_entries, build_qonstart,
}

-- The jobs of some entries, in order.
abbrev pub job_of : Text → Ptr → Found → Nodes Job
job_of name p Found.unopened = []
job_of name p Found.unreadable = []
job_of name p (Found.request req) = (p, job (int32 (atol name)) req) ∷ []

abbrev pub jobs_of : Entry → Nodes Job
jobs_of e = if is_dot e.name then [] else job_of e.name e.malloced e.found

abbrev pub rubbish_of : Text → Found → List Text
rubbish_of name Found.unreadable = request_path name ∷ data_path name ∷ []
rubbish_of name _ = []

abbrev pub removed_of : Entry → List Text
removed_of e = if is_dot e.name then [] else rubbish_of e.name e.found

abbrev pub concat_map : {A B : Type 0} → (A → List B) → List A → List B
concat_map f [] = []
concat_map f (x ∷ xs) = f x ++ concat_map f xs

-- The names fit into the buffer.
abbrev pub Fits : List Entry → Type 0
Fits [] = Unit
Fits (e ∷ es) = (length (request_path e.name) < filenmsz) × Fits es

-- malloc gives addresses that are not in use.
abbrev pub Fresh : Nodes Job → Nodes Job → Type 0
Fresh xs [] = Unit
Fresh xs ((p, j) ∷ js) = (p ≢ 0) × (has p xs ≡ false) × Fresh (xs ++ (p, j) ∷ []) js

added :
    (s : Startup) (name : Text) (p : Ptr) (req : Request) (xs : Nodes Job)
    → is_dot name ≡ false
    → length (request_path name) < filenmsz
    → Lists s.pending xs
    → p ≢ 0
    → has p xs ≡ false
    → (q : Pending) × (take_entry
          (record { name = name; found = Found.request req; malloced = p })
          s
        ≡ some (record s { pending = q; left_open = s.left_open + 1 }))
      × Lists q (xs ++ (p, job (int32 (atol name)) req) ∷ [])
unfolding take_entry
added s name p req xs shown fits l ne fresh =
    let (q, eq, l2) = add_job-Lists s.pending xs p req (int32 (atol name)) l ne fresh in
    let small : ltb (length (request_path name)) filenmsz ≡ true = ground arith in
    (q, rw (shown, small, eq) refl, l2)

-- What one entry does to a startup whose queue is `xs`.
abbrev pub Does : Startup → Nodes Job → Nodes Job → List Text → Startup → Type 0
Does s xs js gone s2 =
    Lists s2.pending (xs ++ js)
    × (s2.unlinked ≡ s.unlinked ++ gone)
    × (s2.left_open ≡ s.left_open + length js)

Does-nothing : (s : Startup) (xs : Nodes Job) → Lists s.pending xs → Does s xs [] [] s
Does-nothing s xs l = (rw (append-nil xs) l, sym (append-nil s.unlinked), omega arith)

takes_shown :
    (s : Startup) (name : Text) (p : Ptr) (f : Found) (xs rest : Nodes Job)
    → is_dot name ≡ false
    → length (request_path name) < filenmsz
    → Lists s.pending xs
    → Fresh xs (job_of name p f ++ rest)
    → (s2 : Startup) × (take_entry (record { name = name; found = f; malloced = p }) s ≡ some s2)
      × Does s xs (job_of name p f) (rubbish_of name f) s2
      × Fresh (xs ++ job_of name p f) rest
unfolding take_entry
takes_shown s name p Found.unopened xs rest shown fits l fresh =
    let small : ltb (length (request_path name)) filenmsz ≡ true = ground arith in
    (s, rw (shown, small) refl, Does-nothing s xs l, rw (append-nil xs) fresh)
takes_shown s name p Found.unreadable xs rest shown fits l fresh =
    let small : ltb (length (request_path name)) filenmsz ≡ true = ground arith in
    let s2 : Startup = record s {
      unlinked = s.unlinked ++ request_path name ∷ data_path name ∷ [];
    } in
    (
      s2,
      rw (shown, small) refl,
      (rw (append-nil xs) l, refl, omega arith),
      rw (append-nil xs) fresh,
    )
takes_shown s name p (Found.request req) xs rest shown fits l (ne, new, fresh) =
    let (q, eq, l2) = added s name p req xs shown fits l ne new in
    (_, eq, (l2, sym (append-nil s.unlinked), refl), fresh)

takes_by :
    (dot : Bool) (s : Startup) (name : Text) (p : Ptr) (f : Found) (xs rest : Nodes Job)
    → is_dot name ≡ dot
    → length (request_path name) < filenmsz
    → Lists s.pending xs
    → Fresh xs ((if dot then [] else job_of name p f) ++ rest)
    → (s2 : Startup) × (take_entry (record { name = name; found = f; malloced = p }) s ≡ some s2)
      × Does s xs (if dot then [] else job_of name p f) (if dot then [] else rubbish_of name f) s2
      × Fresh (xs ++ (if dot then [] else job_of name p f)) rest
unfolding take_entry
takes_by false s name p f xs rest shown fits l fresh =
    takes_shown s name p f xs rest shown fits l fresh
takes_by true s name p f xs rest dot fits l fresh =
    (s, rw dot refl, Does-nothing s xs l, rw (append-nil xs) fresh)

takes :
    (es : List Entry) (s : Startup) (xs : Nodes Job)
    → Fits es
    → Lists s.pending xs
    → Fresh xs (concat_map jobs_of es)
    → (s2 : Startup) × (take_entries es s ≡ some s2)
      × Does s xs (concat_map jobs_of es) (concat_map removed_of es) s2
unfolding take_entries
takes [] s xs fits l fresh = (s, refl, Does-nothing s xs l)
takes (e ∷ es) s xs (fit, fits) l fresh =
    let (s2, eq, (l2, gone, fds), fresh2) =
      takes_by (is_dot e.name) s e.name e.malloced e.found xs (concat_map jobs_of es) refl fit l
        fresh in
    let (s3, eq2, (l3, gone2, fds2)) = takes es s2 (xs ++ jobs_of e) fits l2 fresh2 in
    (
      s3,
      rw (eq, eq2) refl,
      (
        rw (sym (append_assoc xs (jobs_of e) (concat_map jobs_of es))) l3,
        gone2
            ∙ ap (λ (t : List Text). t ++ concat_map removed_of es) gone
            ∙ append_assoc s.unlinked (removed_of e) (concat_map removed_of es),
        omega (arith, fds, fds2, length-append (jobs_of e) (concat_map jobs_of es)),
      ),
    )

-- When the queue is a list, malloc gives addresses that are not in it and the names fit into their buffer,
-- build_qonstart puts a job for each entry that holds a request behind the queue, in the directory's order; it removes
-- the two files of each entry that can be opened and not read, and no other; and it leaves a descriptor open for each job.
pub build_qonstart-Lists :
    (es : List Entry) (s : Startup) (xs : Nodes Job)
    → Fits es
    → Lists s.pending xs
    → Fresh xs (concat_map jobs_of es)
    → (s2 : Startup) × (build_qonstart (some es) s ≡ some s2)
      × Lists s2.pending (xs ++ concat_map jobs_of es)
      × (s2.unlinked ≡ s.unlinked ++ concat_map removed_of es)
      × (s2.left_open ≡ s.left_open + length (concat_map jobs_of es))
unfolding build_qonstart
build_qonstart-Lists es s xs fits l fresh =
    let (s2, eq, (l2, gone, fds)) = takes es s xs fits l fresh in (s2, eq, l2, gone, fds)
