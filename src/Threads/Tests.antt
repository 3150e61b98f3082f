-- ===== src/Threads/Tests.antt =====
-- The theorems on apue.3e/threads at a queue of three jobs and at an object that two threads share.
use unix_system_programming.Prelude.{
  ◌⊎◌, ◌≢◌, ℕ, true, false, ◌≡◌, refl, Bool, none, some, [], ◌∷◌, ◌++◌, ◌==◌, if◌then◌else◌, arith,
}
use unix_system_programming.Linked.{node}
use unix_system_programming.Linked.Segments.{Lists}
use unix_system_programming.Threads.References.{Pc, Move}
use unix_system_programming.Threads.References.System.{
  System, update, total, Reach, begin, more, step,
}
use unix_system_programming.Threads.References.Invariant.{weight, touches}
use unix_system_programming.Threads.References.Safety.{references_lem}
use unix_system_programming.Threads.References.Progress.{Going, no_deadlock}
use unix_system_programming.Threads.Jobs.{Queue, job_remove}
use unix_system_programming.Threads.Jobs.Queue.{job_remove-Lists}

abbrev three_jobs : Queue
three_jobs = record {
  heap = λ a.
      if a == 1
      then some (node 2 0 10)
      else if a == 2
      then some (node 3 1 20)
      else if a == 3
      then some (node 0 2 30)
      else none;
  head = 1;
  tail = 3;
}

three_jobs-Lists : Lists three_jobs ((1, 10) ∷ (2, 20) ∷ (3, 30) ∷ [])
three_jobs-Lists = (
  (refl, (refl, (refl, tt))),
  (ground arith, refl, (ground arith, refl, (ground arith, refl, tt))),
  refl,
  refl,
)

job_remove-Lists_example :
    (r : Queue) × (job_remove three_jobs 2 ≡ some r) × Lists r (((1, 10) ∷ []) ++ (3, 30) ∷ [])
job_remove-Lists_example =
    job_remove-Lists three_jobs ((1, 10) ∷ []) 2 20 ((3, 30) ∷ []) three_jobs-Lists

abbrev pthread_equal : ℕ → ℕ → Bool
pthread_equal a b = a == b

-- Two threads, the first of which has put the object on its chain.
abbrev linked : System
linked = record {
  mem = record { alive = true; listed = true; count = 1; f_lock = none; hashlock = some 0 };
  pc = update (update (λ i. Pc.idle) 0 Pc.alloc_hash) 0 Pc.alloc_lock;
  refs = update (update (λ i. 0) 0 0) 0 0;
}

linked-Reach : Reach 2 linked
linked-Reach =
    more (more begin (step 0 (omega arith) (Move.alloc refl)))
      (step 0 (omega arith) (Move.link refl))

references_lem_example :
    (((linked.mem.alive ≡ true) × (linked.mem.count ≡ total 2 (weight linked.pc linked.refs)))
      ⊎ ((linked.mem.alive ≡ false) × (linked.refs 0 ≡ 0) × (touches (linked.pc 0) ≡ false)))
    × ((linked.pc 0 ≢ Pc.last_lock) ⊎ (linked.mem.listed ≡ true))
references_lem_example = references_lem 2 linked 0 linked-Reach (omega arith)

no_deadlock_example : Going 2 linked
no_deadlock_example = no_deadlock 2 linked linked-Reach 0 (omega arith) (λ e. ground arith)
