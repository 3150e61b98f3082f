-- ===== src/Printer/Tests/Spool.antt =====
-- The start of apue.3e/printer/printd.c on a small spool, and its reads on a small input.
use unix_system_programming.Prelude.{
  ℕ, zero, suc, take, ◌+◌, ◌<◌, ◌≤◌, ◌≡◌, refl, false, List, Option, none, some, [], ◌∷◌, ◌==◌,
  length, if◌then◌else◌, arith,
}
use unix_system_programming.Clib.{codes, str_eq}
use unix_system_programming.Linked.Segments.{Nodes, Lists}
use unix_system_programming.Printer.Clients.{FileName, Content}
use unix_system_programming.Printer.Jobs.{Request, Job, job}
use unix_system_programming.Printer.Reads.{
  Input, Got, got, failed, readable, timed_out, tread, treadn, treadn_loop,
}
use unix_system_programming.Printer.Response.{Buffer, byte_at, ends_at, found_at, header_end}
use unix_system_programming.Printer.Response.Header.{header_end-found, header_end-Endless}
use unix_system_programming.Printer.Startup.{Found, Entry, Startup, build_qonstart, is_dot}
use unix_system_programming.Printer.Startup.Respooled.{
  entry_of, Directory, dot, dot_dot, control_file, no_more, build_qonstart-Spooled,
}
use unix_system_programming.Printer.Startup.Restored.{
  concat_map, jobs_of, removed_of, build_qonstart-Lists,
}

abbrev letter : Request
letter = record { size = 2; flags = 0; usernm = codes "ann"; jobnm = codes "letter" }

abbrev notes : Request
notes = record { size = 3; flags = 1; usernm = codes "bob"; jobnm = codes "notes" }

abbrev started : Startup
started = record {
  pending = record { heap = λ a. none; head = 0; tail = 0 };
  unlinked = [];
  left_open = 0;
}

-- The control files of two jobs.
abbrev two_files : FileName → Option Content
two_files (FileName.request_file n) =
    if n == 7
    then some (Content.request letter)
    else if n == 8
    then some (Content.request notes)
    else none
two_files (FileName.data_file n) = none

abbrev two_jobs : Nodes Job
two_jobs = (3, job 8 notes) ∷ (4, job 7 letter) ∷ []

-- Their directory: "." first, and ".." between the two.
abbrev two_entries : List Entry
two_entries =
    record { name = codes "."; found = Found.unreadable; malloced = 0 }
    ∷ entry_of two_files (3, job 8 notes)
    ∷ record { name = codes ".."; found = Found.unreadable; malloced = 0 }
    ∷ entry_of two_files (4, job 7 letter)
    ∷ []

two_entries-Directory : Directory two_files two_entries two_jobs
two_entries-Directory = dot Found.unreadable 0 (
    control_file 3 (job 8 notes) (refl, (omega arith, omega arith))
      (dot_dot Found.unreadable 0
        (control_file 4 (job 7 letter) (refl, (omega arith, omega arith)) no_more)))

build_qonstart-Spooled_example :
    (s2 : Startup) × (build_qonstart (some two_entries) started ≡ some s2)
    × Lists s2.pending two_jobs
    × (s2.unlinked ≡ [])
build_qonstart-Spooled_example =
    build_qonstart-Spooled two_files two_entries two_jobs started two_entries-Directory
      (tt, tt, refl, refl) (omega arith, refl, (omega arith, refl, tt))

-- The directory itself, a control file that was cut off, and a whole one.
abbrev three_entries : List Entry
three_entries =
    record { name = codes "."; found = Found.unreadable; malloced = 0 }
    ∷ record { name = codes "6"; found = Found.unreadable; malloced = 0 }
    ∷ record { name = codes "7"; found = Found.request letter; malloced = 4 }
    ∷ []

build_qonstart-Lists_example :
    (s2 : Startup) × (build_qonstart (some three_entries) started ≡ some s2)
    × Lists s2.pending (concat_map jobs_of three_entries)
    × (s2.unlinked ≡ concat_map removed_of three_entries)
    × (s2.left_open ≡ 0 + length (concat_map jobs_of three_entries))
unfolding is_dot str_eq
build_qonstart-Lists_example =
    build_qonstart-Lists three_entries started [] (omega arith, (omega arith, (omega arith, tt)))
      (tt, tt, refl, refl) (omega arith, refl, tt)

-- Two bytes twice, then nothing within the time.
abbrev slow : Input
slow = record {
  select = λ call. if call == 2 then timed_out else readable;
  read = λ call n. got (take n (codes "on"));
}

take-le : (n : ℕ) (bytes : List ℕ) → length (take n bytes) ≤ n
take-le zero bytes = omega arith
take-le (suc n) [] = omega arith
take-le (suc n) (b ∷ bytes) = omega (arith, take-le n bytes)

abbrev bytes_of : Got → List ℕ
bytes_of (failed e) = []
bytes_of (got bytes) = bytes

four_bytes : treadn 62 slow 5 ≡ some (got (codes "onon"))
unfolding treadn treadn_loop tread
four_bytes = refl

-- The header ends in what was read, or has not come as a whole.
abbrev header : List ℕ → Buffer
header bytes = record { bytes = bytes; bufsz = 12; calls = 1 }

abbrev both : List ℕ
both = b'5' ∷ b'\r' ∷ b'\n' ∷ b'\r' ∷ b'\n' ∷ 2 ∷ 0 ∷ 0 ∷ 0 ∷ 0 ∷ 0 ∷ 0 ∷ []

cut : (k : ℕ) → 0 ≤ k → k + 2 < 4 → ends_at both k ≡ some false
unfolding ends_at byte_at
cut zero low high = refl
cut (suc zero) low high = refl
cut (suc (suc k)) low high = ground arith

both_found : header_end 62 slow 1 [] 0 6 (header both) ≡ some (found_at 5 6 (header both))
unfolding ends_at byte_at
both_found = header_end-found 62 slow [] 0 6 (header both) 2 0 cut refl (omega arith)

-- The first four bytes alone: the search goes on for ever.
header_end-Endless_example : header_end 62 slow 1000 [] 0 4 (header both) ≡ none
unfolding ends_at byte_at
header_end-Endless_example = header_end-Endless 62 slow 1000 [] 0 4 (header both) cut (omega arith)
