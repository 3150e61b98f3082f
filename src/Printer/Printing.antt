-- ===== src/Printer/Printing.antt =====
-- One round of the printer thread of apue.3e/printer/printd.c: a job is taken from the queue and printed, put back or
-- given up.
pub mod Rounds
use unix_system_programming.Prelude.{
  ℕ, Option, none, some, Bool, true, false, ◌&&◌, ◌||◌, not, if◌then◌else◌,
}
use unix_system_programming.Linked.{Ptr, Node, Ends, write, ◌>>=◌}
use unix_system_programming.Printer.Jobs.{Request, Job, Pending, pick, replace_job}
use unix_system_programming.Printer.Clients.{Server, FileName, put_file}
use unix_system_programming.Printer.Clients.FileName.{data_file, request_file}
use unix_system_programming.Printer.Ipp.{is_text}

-- Which calls of the round succeed: open and fstat of the data file, connect_retry, writev of the headers, write of
-- the backspace, the loop that reads the file and writes to the printer, and printer_status.
pub record Round : Type 0 where
  pub opened : Bool
  pub stated : Bool
  pub connected : Bool
  pub headed : Bool
  pub spaced : Bool
  pub copied : Bool
  pub confirmed : Bool

unfoldable pub free : Pending → Ptr → Pending
free e jp = record e { heap = write (Ends.heap e) jp none }

-- `goto defer`: the job is put back, and the thread sleeps for a minute.
unfoldable pub defer : Server → Pending → Ptr → Option Server
defer s e jp = replace_job e jp >>= λ e2. some (record s { pending = e2 })

-- The document is removed, then the request.
unfoldable pub unlink_job : Server → ℕ → Server
unlink_job s jobid = put_file (put_file s (data_file jobid) none) (request_file jobid) none

-- The end of the round when the document was sent; both files are named by the job.
unfoldable pub conclude : Round → Server → Pending → Ptr → Job → Option Server
conclude r s e jp v =
    if Round.confirmed r
    then some (record (unlink_job s (Job.jobid v)) { pending = free e jp })
    else defer s e jp

-- From the connection to the printer on.
unfoldable pub send : Round → Server → Pending → Ptr → Job → Option Server
send r s e jp v =
    if not (Round.connected r)
    then defer s e jp
    else if not (Round.headed r)
    then defer s e jp
    else if is_text (Job.req v) && not (Round.spaced r)
    then defer s e jp
    else if not (Round.copied r)
    then defer s e jp
    else conclude r s e jp v

-- From the data file on.
unfoldable pub attempt : Round → Server → Pending → Ptr → Job → Option Server
attempt r s e jp v =
    if not (Round.opened r)
    then some (record s { pending = free e jp })
    else if not (Round.stated r)
    then some (record s { pending = free e jp })
    else send r s e jp v

-- none is also that there is no job and the thread waits.
unfoldable pub printer_round : Round → Server → Option Server
printer_round r s =
    pick (Server.pending s) >>= λ (jp, e). Ends.heap e jp >>= λ n. attempt r s e jp (Node.value n)
