-- ===== src/Printer/Startup/Respooled.antt =====
-- The jobs that clients have left in the spool of apue.3e/printer/printd.c, found again by build_qonstart.
use unix_system_programming.Prelude.{
  ℕ, ◌≡◌, refl, sym, ap, ◌∙◌, false, ◌||◌, List, [], ◌∷◌, ◌++◌, Option, none, some, append-nil,
  arith,
}
use unix_system_programming.Clib.{Text, codes, str_eq, has_char}
use unix_system_programming.Database.Numbers.{atol, decimal, is_digit}
use unix_system_programming.Database.Numbers.Laws.{atol-decimal, has_char-decimal, length-decimal}
use unix_system_programming.Linked.{Ptr}
use unix_system_programming.Linked.Segments.{Nodes, Lists}
use unix_system_programming.Printer.Clients.{FileName, Content}
use unix_system_programming.Printer.JobFile.{int32}
use unix_system_programming.Printer.Jobs.{Job}
use unix_system_programming.Printer.Jobs.Numbers.{Numbered}
use unix_system_programming.Printer.Startup.{Found, Entry, Startup, is_dot, build_qonstart}
use unix_system_programming.Printer.Startup.Restored.{
  jobs_of, removed_of, concat_map, Fits, Fresh, build_qonstart-Lists,
}

-- What open and read answer for a control file.
abbrev pub found_in : Option Content → Found
found_in none = Found.unopened
found_in (some (Content.request req)) = Found.request req
found_in (some (Content.bytes all)) = Found.unreadable

-- The entry of a job's control file, named "%d".
abbrev pub entry_of : (FileName → Option Content) → Ptr × Job → Entry
entry_of files (p, j) = record {
  name = decimal (Job.jobid j);
  found = found_in (files (FileName.request_file (Job.jobid j)));
  malloced = p;
}

-- The control file of a job is there, under its number.
abbrev pub Spooled : (FileName → Option Content) → Ptr × Job → Type 0
Spooled files (p, j) =
    (files (FileName.request_file (Job.jobid j)) ≡ some (Content.request (Job.req j)))
    × Numbered (Job.jobid j)

dotless :
    (text : Text)
    → has_char b'.' text ≡ false
    → (str_eq text (codes ".") || str_eq text (codes "..")) ≡ false
unfolding has_char str_eq
dotless [] h = refl
dotless (c ∷ text) h = ground arith

not_dot : (n : ℕ) → is_dot (decimal n) ≡ false
unfolding is_dot is_digit
not_dot n = dotless (decimal n) (has_char-decimal b'.' n refl)

number_kept : (n : ℕ) → Numbered n → int32 (atol (decimal n)) ≡ n
number_kept n (one, small) = ap int32 (atol-decimal n) ∙ omega arith

Spooled-job :
    (files : FileName → Option Content) (p : Ptr) (j : Job)
    → Spooled files (p, j)
    → (jobs_of (entry_of files (p, j)) ≡ (p, j) ∷ []) × (removed_of (entry_of files (p, j)) ≡ [])
Spooled-job files p j (there, one) = (
  rw (not_dot (Job.jobid j), there, number_kept (Job.jobid j) one) refl,
  rw (not_dot (Job.jobid j), there) refl,
)

-- What readdir gives for a spool: the control files of the jobs in their order, and "." and ".." anywhere
-- among them, whatever open, read and malloc would answer for these two.
pub data Directory (files : FileName → Option Content) : List Entry → Nodes Job → Type 0 where
  no_more : Directory files [] []
  dot :
      {es : List Entry} {js : Nodes Job} (found : Found) (p : Ptr)
      → Directory files es js
      → Directory files (record { name = codes "."; found = found; malloced = p } ∷ es) js
  dot_dot :
      {es : List Entry} {js : Nodes Job} (found : Found) (p : Ptr)
      → Directory files es js
      → Directory files (record { name = codes ".."; found = found; malloced = p } ∷ es) js
  control_file :
      {es : List Entry} {js : Nodes Job} (p : Ptr) (j : Job)
      → Spooled files (p, j)
      → Directory files es js
      → Directory files (entry_of files (p, j) ∷ es) ((p, j) ∷ js)

Directory-jobs :
    (files : FileName → Option Content) {es : List Entry} {js : Nodes Job}
    → Directory files es js
    → (concat_map jobs_of es ≡ js) × (concat_map removed_of es ≡ []) × Fits es
unfolding is_dot str_eq
Directory-jobs files no_more = (refl, refl, tt)
Directory-jobs files (dot found p d) =
    let (jobs, nothing, fits) = Directory-jobs files d in (jobs, nothing, (omega arith, fits))
Directory-jobs files (dot_dot found p d) =
    let (jobs, nothing, fits) = Directory-jobs files d in (jobs, nothing, (omega arith, fits))
Directory-jobs files (control_file p j there d) =
    let (job, nothing) = Spooled-job files p j there in
    let (jobs, nothing2, fits) = Directory-jobs files d in
    let (some_digit, short) = length-decimal 9 (Job.jobid j) (omega (arith, there.1)) in
    (rw (job, jobs) refl, rw (nothing, nothing2) refl, (omega (arith, short), fits))

-- A daemon that starts with an empty queue on a spool whose directory has "." and ".." and the control files
-- of some jobs, each under its number, queues these jobs, with their numbers and their requests, in the order
-- of the directory, and removes nothing; malloc gives addresses that are not in use.
pub build_qonstart-Spooled :
    (files : FileName → Option Content) (es : List Entry) (js : Nodes Job) (s : Startup)
    → Directory files es js
    → Lists s.pending []
    → Fresh [] js
    → (s2 : Startup) × (build_qonstart (some es) s ≡ some s2)
      × Lists s2.pending js
      × (s2.unlinked ≡ s.unlinked)
build_qonstart-Spooled files es js s d l fresh =
    let (same, nothing, fits) = Directory-jobs files d in
    let (s2, eq, l2, gone, fds) = build_qonstart-Lists es s [] fits l (rw same fresh) in
    (
      s2,
      eq,
      rw (sym same) l2,
      gone ∙ ap (λ (t : List Text). s.unlinked ++ t) nothing ∙ append-nil s.unlinked,
    )
