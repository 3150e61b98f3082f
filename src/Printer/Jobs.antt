-- ===== src/Printer/Jobs.antt =====
-- The pending jobs of apue.3e/printer/printd.c: the job numbers and the list from `jobhead` to `jobtail`.
pub mod Queue
pub mod Numbers
use unix_system_programming.Prelude.{
  ℕ, List, Option, none, some, Bool, true, false, ◌||◌, not, ◌==◌, ltb, if◌then◌else◌, ◌%◌, ◌+◌,
  ◌^◌,
}
use unix_system_programming.Linked.{Ptr, Ends, ◌>>=◌}
use unix_system_programming.Linked.Deque.{append_node, push_node, unlink_node}

-- struct printreq
pub record Request : Type 0 where
  pub size : ℕ
  pub flags : ℕ
  pub usernm : List ℕ
  pub jobnm : List ℕ

-- What struct job has besides its two links.
pub record Job : Type 0 where
  pub jobid : ℕ
  pub req : Request

abbrev pub job : ℕ → Request → Job
job jobid req = record { jobid = jobid; req = req }

-- `jobhead`, `jobtail` and the nodes
abbrev pub Pending : Type 0
Pending = Ends Job

-- none where the process ends: out of memory, or a pointer to no node
unfoldable pub add_job : Pending → Ptr → Request → ℕ → Option Pending
add_job e malloced req jobid =
    if malloced == 0 then none else append_node e malloced (job jobid req)

abbrev pub replace_job : Pending → Ptr → Option Pending
replace_job e jp = push_node e jp

abbrev pub remove_job : Pending → Ptr → Option Pending
remove_job e target = unlink_node e target

-- What `printer_thread` takes when there is a job, with the jobs that are left; none is that it waits.
unfoldable pub pick : Pending → Option (Ptr × Pending)
pick e =
    if Ends.head e == 0 then none else remove_job e (Ends.head e) >>= λ e2. some (Ends.head e, e2)

-- An int32_t is its 32 bits; these are the numbers that are negative or 0.
abbrev pub not_positive : ℕ → Bool
not_positive n = n == 0 || not (ltb n (2 ^ 31))

-- The number, and `nextjob` after it; `nextjob++` wraps around.
unfoldable pub get_newjobno : ℕ → ℕ × ℕ
get_newjobno nextjob =
    let after = (nextjob + 1) % 2 ^ 32 in (nextjob, if not_positive after then 1 else after)
