-- ===== src/Printer/Jobs/Queue.antt =====
-- The list of pending jobs as a sequence, first in first out.
use unix_system_programming.Prelude.{
  subst, ℕ, ◌≡◌, ◌≢◌, refl, ◌∙◌, false, Option, none, some, [], ◌∷◌, ◌++◌, ◌==◌, if◌then◌else◌,
  arith,
}
use unix_system_programming.Linked.{Ptr, Node, Ends, ◌>>=◌}
use unix_system_programming.Linked.Deque.{append_node-Lists, push_node-Lists, unlink_node-Lists}
use unix_system_programming.Linked.Segments.{Nodes, has, Lists}
use unix_system_programming.Printer.Jobs.{
  Request, Job, Pending, job, add_job, replace_job, remove_job, pick,
}

-- On a list, add_job succeeds, and the job it adds is the last one.
pub add_job-Lists :
    (e : Pending) (xs : Nodes Job) (p : Ptr) (req : Request) (jobid : ℕ)
    → Lists e xs
    → p ≢ 0
    → has p xs ≡ false
    → (e2 : Pending) × (add_job e p req jobid ≡ some e2) × Lists e2 (xs ++ (p, job jobid req) ∷ [])
unfolding add_job
add_job-Lists e xs p req jobid l ne fresh =
    let there : (p == 0) ≡ false = ground arith in
    let (e2, eq, l2) = append_node-Lists e xs p (job jobid req) l ne fresh in
    (e2, rw (there, eq) refl, l2)

pick_at :
    (e : Pending) (h t : Ptr) (e2 : Pending)
    → h ≡ t
    → (t == 0) ≡ false
    → remove_job e t ≡ some e2
    → if◌then◌else◌ {A = Option (Ptr × Pending)}
        (h == 0)
        none
        (remove_job e h >>= λ e3. some (h, e3))
      ≡ some (t, e2)
pick_at e h t e2 at_t ne eq = rw (at_t, ne, eq) refl

-- The printer thread picks the first job; with no job it waits.
pub pick-Lists :
    (e : Pending) (t : Ptr) (v : Job) (ys : Nodes Job)
    → Lists e ((t, v) ∷ ys)
    → (e2 : Pending) × (pick e ≡ some (t, e2))
      × Lists e2 ys
      × ((n : Node Job) × (Ends.heap e2 t ≡ some n) × (Node.value n ≡ v))
unfolding pick
pick-Lists e t v ys ((there, s), d, at_head, at_tail) =
    let (e2, eq, l2, kept) = unlink_node-Lists e [] t v ys ((there, s), d, at_head, at_tail) in
    let ne : (t == 0) ≡ false = ground (arith, d.0) in
    (e2, pick_at e (Ends.head e) t e2 at_head ne eq, l2, (_, kept ∙ there, refl))

pub pick-none : (e : Pending) → Lists e [] → pick e ≡ none
unfolding pick
pick-none e (s, d, at_head, at_tail) = rw at_head refl

-- A job that is deferred is the first one again, and the list is the one it was.
pub pick-replace_job :
    (e : Pending) (t : Ptr) (v : Job) (ys : Nodes Job)
    → Lists e ((t, v) ∷ ys)
    → (e2 : Pending) × ((pick e >>= λ (jp, e1). replace_job e1 jp) ≡ some e2)
      × Lists e2 ((t, v) ∷ ys)
pick-replace_job e t v ys l =
    let (e1, eq, l1, (n, there, same)) = pick-Lists e t v ys l in
    let (e2, eq2, l2) = push_node-Lists e1 ys t n l1 (l.1.0) (l.1.1) there in
    (e2, rw (eq, eq2) refl, subst (λ w. Lists e2 ((t, w) ∷ ys)) same l2)
