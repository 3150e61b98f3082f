-- ===== src/Printer/Startup.antt =====
-- The jobs that apue.3e/printer/printd.c finds in its spool directory when it starts (build_qonstart).
pub mod Restored
pub mod Respooled
use unix_system_programming.Prelude.{
  ℕ, ◌+◌, Bool, true, false, ◌||◌, List, [], ◌∷◌, ◌++◌, length, Option, none, some, ltb,
  if◌then◌else◌,
}
use unix_system_programming.Clib.{Text, codes, str_eq}
use unix_system_programming.Database.Numbers.{atol}
use unix_system_programming.Linked.{Ptr, ◌>>=◌}
use unix_system_programming.Printer.JobFile.{filenmsz, int32}
use unix_system_programming.Printer.Jobs.{Request, Pending, add_job}

-- "%s/%s/%s" with SPOOLDIR and REQDIR, or DATADIR.
abbrev pub request_path : Text → Text
request_path name = codes "/var/spool/printer/reqs/" ++ name

abbrev pub data_path : Text → Text
data_path name = codes "/var/spool/printer/data/" ++ name

-- What open and read answer for an entry of the directory: no file, a file with fewer bytes than a request or with an
-- error of read, or a request.
pub data Found : Type 0 where
  unopened : Found
  unreadable : Found
  request : Request → Found

-- An entry as readdir returns it, with what is found under it and what malloc answers if it becomes a job.
pub record Entry : Type 0 where
  pub name : Text
  pub found : Found
  pub malloced : Ptr

-- The queue, the files that are removed in order, and the descriptors that are left open.
pub record Startup : Type 0 where
  pub pending : Pending
  pub unlinked : List Text
  pub left_open : ℕ

unfoldable pub is_dot : Text → Bool
is_dot name = str_eq name (codes ".") || str_eq name (codes "..")

-- One round of the loop; none is that the path goes past `fname`, or that add_job ends the process.
unfoldable pub take_entry : Entry → Startup → Option Startup
take_entry e s =
    if is_dot e.name
    then some s
    else if ltb (length (request_path e.name)) filenmsz
    then elim e.found [
      | unopened ↦ some s
      | unreadable ↦
          some (record s { unlinked = s.unlinked ++ request_path e.name ∷ data_path e.name ∷ [] })
      | request req ↦ add_job s.pending e.malloced req (int32 (atol e.name)) >>= λ p.
          some (record s { pending = p; left_open = s.left_open + 1 })
    ]
    else none

unfoldable pub take_entries : List Entry → Startup → Option Startup
take_entries [] s = some s
take_entries (e ∷ es) s = take_entry e s >>= λ s2. take_entries es s2

-- none is that opendir fails.
unfoldable pub build_qonstart : Option (List Entry) → Startup → Option Startup
build_qonstart none s = some s
build_qonstart (some es) s = take_entries es s
