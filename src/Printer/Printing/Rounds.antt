-- ===== src/Printer/Printing/Rounds.antt =====
-- What a round of the printer thread does with the first job of the queue.
use unix_system_programming.Prelude.{
  ℕ, ◌≡◌, refl, ap, ◌∙◌, subst, Bool, true, false, ◌&&◌, ◌||◌, not, none, some, ◌∷◌, if◌then◌else◌,
  Bool-cases, inl, inr, ==_refl, arith,
}
use unix_system_programming.Linked.{Ptr, Node, Ends, write}
use unix_system_programming.Linked.Segments.{Nodes, has, Lists, Seg-Same, Same-write}
use unix_system_programming.Linked.Deque.{push_node-Lists}
use unix_system_programming.Printer.Jobs.{Request, Job, Pending, pick}
use unix_system_programming.Printer.Jobs.Queue.{pick-Lists}
use unix_system_programming.Printer.Clients.{Server, put_file, same_file}
use unix_system_programming.Printer.Clients.FileName.{data_file, request_file}
use unix_system_programming.Printer.Ipp.{is_text}
use unix_system_programming.Printer.Printing.{
  Round, free, unlink_job, defer, conclude, send, attempt, printer_round,
}

-- The job cannot be printed at all: its data file does not open.
abbrev pub given_up : Round → Bool
given_up r = not (Round.opened r && Round.stated r)

-- Every call that its printing takes succeeds.
abbrev pub printed : Round → Request → Bool
printed r req =
    Round.connected r
    && (Round.headed r
        && ((not (is_text req) || Round.spaced r) && (Round.copied r && Round.confirmed r)))

free-Lists :
    (e : Pending) (jp : Ptr) (ys : Nodes Job)
    → has jp ys ≡ false
    → Lists e ys
    → Lists (free e jp) ys
unfolding free
free-Lists e jp ys out (s, d, at_head, at_tail) = (
  Seg-Same (write (Ends.heap e) jp none) (Ends.heap e) 0 ys 0
      (Same-write (Ends.heap e) jp none ys out) s,
  d,
  at_head,
  at_tail,
)

-- The first job is deferred: it is the first again.
abbrev pub Deferred : Server → Nodes Job → Server → Type 0
Deferred s jobs t = Lists (Server.pending t) jobs × (Server.files t ≡ Server.files s)

-- The first job is printed: it has left the queue, and its files are gone.
abbrev pub Printed : Nodes Job → ℕ → Server → Type 0
Printed ys jobid t =
    Lists (Server.pending t) ys
    × (Server.files t (data_file jobid) ≡ none)
    × (Server.files t (request_file jobid) ≡ none)

-- The first job is given up: it has left the queue, and its files are still there.
abbrev pub GivenUp : Server → Nodes Job → Server → Type 0
GivenUp s ys t = Lists (Server.pending t) ys × (Server.files t ≡ Server.files s)

unlink_job_lem :
    (s : Server) (j : ℕ)
    → (Server.files (unlink_job s j) (data_file j) ≡ none)
      × (Server.files (unlink_job s j) (request_file j) ≡ none)
unfolding unlink_job put_file same_file
unlink_job_lem s j = (rw (==_refl j) refl, rw (==_refl j) refl)

-- What is left to do with a job that is out of the queue, given how it ends.
send-printed :
    (r : Round) (s : Server) (e : Pending) (jp : Ptr) (v : Job)
    → printed r (Job.req v) ≡ true
    → send r s e jp v ≡ some (record (unlink_job s (Job.jobid v)) { pending = free e jp })
unfolding send conclude
send-printed r s e jp v ok = ground arith

send-deferred :
    (r : Round) (s : Server) (e : Pending) (jp : Ptr) (v : Job)
    → printed r (Job.req v) ≡ false
    → send r s e jp v ≡ defer s e jp
unfolding send conclude
send-deferred r s e jp v fails = ground arith

attempt-given_up :
    (r : Round) (s : Server) (e : Pending) (jp : Ptr) (v : Job)
    → given_up r ≡ true
    → attempt r s e jp v ≡ some (record s { pending = free e jp })
unfolding attempt
attempt-given_up r s e jp v up = ground arith

attempt-send :
    (r : Round) (s : Server) (e : Pending) (jp : Ptr) (v : Job)
    → given_up r ≡ false
    → attempt r s e jp v ≡ send r s e jp v
unfolding attempt
attempt-send r s e jp v up = ground arith

picked :
    (r : Round) (s : Server) (e : Pending) (t : Ptr) (n : Node Job) (v : Job)
    → pick (Server.pending s) ≡ some (t, e)
    → Ends.heap e t ≡ some n
    → Node.value n ≡ v
    → printer_round r s ≡ attempt r s e t v
unfolding printer_round
picked r s e t n v eq there same = rw (eq, there) refl ∙ ap (attempt r s e t) same

-- By what fails, the first job of a list is given up, printed, or deferred.
pub printer_round_lem :
    (r : Round) (s : Server) (t : Ptr) (v : Job) (ys : Nodes Job)
    → Lists (Server.pending s) ((t, v) ∷ ys)
    → (s2 : Server) × (printer_round r s ≡ some s2)
      × (if given_up r
          then GivenUp s ys s2
          else if printed r (Job.req v)
          then Printed ys (Job.jobid v) s2
          else Deferred s ((t, v) ∷ ys) s2)
unfolding defer
printer_round_lem r s t v ys l =
    let (e, eq, l2, (n, there, same)) = pick-Lists (Server.pending s) t v ys l in
    let start = picked r s e t n v eq there same in
    elim (Bool-cases (given_up r)) [
      | inl up ↦ (
        record s { pending = free e t },
        start ∙ attempt-given_up r s e t v up,
        rw up (free-Lists e t ys (l.1.1) l2, refl),
      )
      | inr up ↦ elim (Bool-cases (printed r (Job.req v))) [
        | inl ok ↦ (
          record (unlink_job s (Job.jobid v)) { pending = free e t },
          start ∙ attempt-send r s e t v up ∙ send-printed r s e t v ok,
          rw (up, ok)
              (
                free-Lists e t ys (l.1.1) l2,
                (unlink_job_lem s (Job.jobid v)).0,
                (unlink_job_lem s (Job.jobid v)).1,
              ),
        )
        | inr fails ↦
            let (e3, eq3, l3) = push_node-Lists e ys t n l2 (l.1.0) (l.1.1) there in
            (
              record s { pending = e3 },
              start ∙ attempt-send r s e t v up ∙ send-deferred r s e t v fails ∙ rw eq3 refl,
              rw (up, fails) (subst (λ w. Lists e3 ((t, w) ∷ ys)) same l3, refl),
            )
      ]
    ]
