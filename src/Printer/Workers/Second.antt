-- ===== src/Printer/Workers/Second.antt =====
-- A worker that is added while there is another one (add_worker of apue.3e/printer/printd.c).
use unix_system_programming.Prelude.{
  ℕ, zero, suc, ◌≡◌, ◌≢◌, refl, ap, ◌∙◌, true, false, none, some, List, [], ◌∷◌, ◌==◌,
  if◌then◌else◌, ◌<◌, length, arith,
}
use unix_system_programming.Linked.{Ptr, Node, Heap, node, write, set_prev, set_next, ◌>>=◌}
use unix_system_programming.Linked.Segments.{
  Nodes, has, Distinct, Seg, first, set_prev-first, Seg-Same, Same-write,
}
use unix_system_programming.Printer.Workers.{
  Worker, worker, Pool, add_worker, cancel_from, kill_workers, find_worker, unlink_worker,
  client_cleanup,
}

-- The pool stands for the workers of a list.
abbrev pub Works : Pool → Nodes Worker → Type 0
Works w xs = Seg (Pool.heap w) 0 xs 0 × Distinct xs × (Pool.workers w ≡ first xs 0)

abbrev pub tids : Nodes Worker → List ℕ
tids [] = []
tids ((p, v) ∷ xs) = Worker.tid v ∷ tids xs

pub cancel_from-Seg :
    (fuel : ℕ) (h : Heap Worker) (before : Ptr) (xs : Nodes Worker) (p : Ptr)
    → length xs < fuel
    → Seg h before xs 0
    → Distinct xs
    → p ≡ first xs 0
    → cancel_from fuel h p ≡ some (tids xs)
unfolding cancel_from
cancel_from-Seg zero h before xs p enough s d at = ground arith
cancel_from-Seg (suc fuel) h before [] p enough s d at = rw at refl
cancel_from-Seg (suc fuel) h before ((x, v) ∷ xs) p enough (there, s) (ne, out, d) at =
    let e : (x == 0) ≡ false = ground arith in
    let rest = cancel_from-Seg fuel h x xs (first xs 0) (omega arith) s d refl in
    rw (at, e, there, rest) refl

-- kill_workers returns, and cancels every worker of the list.
pub kill_workers-Works :
    (fuel : ℕ) (w : Pool) (xs : Nodes Worker)
    → Works w xs
    → length xs < fuel
    → kill_workers fuel w ≡ some (tids xs)
unfolding kill_workers
kill_workers-Works fuel w xs (s, d, at) enough =
    cancel_from-Seg fuel (Pool.heap w) 0 xs (Pool.workers w) enough s d at

-- The first worker is on the list.
pub add_worker-first :
    (w : Pool) (p : Ptr) (tid sockfd : ℕ)
    → Works w []
    → p ≢ 0
    → (w2 : Pool) × (add_worker w p tid sockfd ≡ some (true, w2))
      × Works w2 ((p, worker tid sockfd) ∷ [])
unfolding add_worker write
add_worker-first w p tid sockfd (s, d, at) ne =
    let e : (p == 0) ≡ false = ground arith in
    let e2 : (Pool.workers w == 0) ≡ true = ground arith in
    (
      record w {
        heap = write (Pool.heap w) p (some (node (Pool.workers w) 0 (worker tid sockfd)));
        workers = p;
      },
      rw (e, e2) refl,
      ((ground (arith, at), tt), (ne, refl, tt), refl),
    )

-- What add_worker does when there is a worker: the new node is behind `workers`, where no pointer of the list
-- leads.
add_worker-Seg :
    (w : Pool) (x : Ptr) (u : Worker) (xs : Nodes Worker) (p : Ptr) (tid sockfd : ℕ)
    → Works w ((x, u) ∷ xs)
    → p ≢ 0
    → has p ((x, u) ∷ xs) ≡ false
    → (w2 : Pool) × (add_worker w p tid sockfd ≡ some (true, w2))
      × Seg (Pool.heap w2) p ((x, u) ∷ xs) 0
      × (Pool.workers w2 ≡ x)
      × (Pool.heap w2 p ≡ some (node x 0 (worker tid sockfd)))
unfolding add_worker write
add_worker-Seg w x u xs p tid sockfd (s, (nx, out, d), at) ne fresh =
    let made = write (Pool.heap w) p (some (node (Pool.workers w) 0 (worker tid sockfd))) in
    let s1 =
      Seg-Same made (Pool.heap w) 0 ((x, u) ∷ xs) 0
        (Same-write (Pool.heap w) p _ ((x, u) ∷ xs) fresh) s in
    let (g, eq, s2, outside) = set_prev-first made 0 p x u xs 0 out s1 in
    let e : (p == 0) ≡ false = ground arith in
    let e2 : (Pool.workers w == 0) ≡ false = ground arith in
    (
      record w { heap = g },
      rw (e, e2, ap (λ a. set_prev made a p) at ∙ eq) refl,
      s2,
      at,
      outside p (ground arith) ∙ ground (arith, at),
    )

-- A worker that is added while there is another one is not cancelled with the rest.
pub add_worker-kill_workers :
    (fuel : ℕ) (w : Pool) (x : Ptr) (u : Worker) (xs : Nodes Worker) (p : Ptr) (tid sockfd : ℕ)
    → Works w ((x, u) ∷ xs)
    → p ≢ 0
    → has p ((x, u) ∷ xs) ≡ false
    → length ((x, u) ∷ xs) < fuel
    → (w2 : Pool) × (add_worker w p tid sockfd ≡ some (true, w2))
      × (kill_workers fuel w2 ≡ some (tids ((x, u) ∷ xs)))
unfolding kill_workers
add_worker-kill_workers fuel w x u xs p tid sockfd (s, d, at) ne fresh enough =
    let (w2, eq, s2, at2, _) = add_worker-Seg w x u xs p tid sockfd (s, d, at) ne fresh in
    (w2, eq, cancel_from-Seg fuel (Pool.heap w2) p ((x, u) ∷ xs) (Pool.workers w2) enough s2 d at2)

-- The pointers of the node behind a worker, before the worker is taken out.
behind_step :
    (w : Pool) (before : Ptr) (xs : Nodes Worker) (q : Ptr)
    → Seg (Pool.heap w) before xs 0
    → Distinct xs
    → (h : Heap Worker) × ((if first xs 0 == 0
          then some w
          else set_prev (Pool.heap w) (first xs 0) q >>= λ g. some (record w { heap = g }))
        ≡ some (record w { heap = h }))
      × Seg h q xs 0
      × ((a : Ptr) → has a xs ≡ false → h a ≡ Pool.heap w a)
behind_step w before [] q s d = (Pool.heap w, refl, tt, λ a i. refl)
behind_step w before ((y, v) ∷ ys) q s (ne, out, d) =
    let (g, eq, s2, outside) = set_prev-first (Pool.heap w) before q y v ys 0 out s in
    let e : (y == 0) ≡ false = ground arith in
    (g, rw (e, eq) refl, s2, λ a i. outside a (ground arith))

pub cleanup_run :
    (fuel : ℕ) (w : Pool) (tid wtp : ℕ) (w2 : Pool) (n : Node Worker)
    → find_worker fuel (Pool.heap w) (Pool.workers w) tid ≡ some wtp
    → (wtp == 0) ≡ false
    → unlink_worker w wtp ≡ some w2
    → Pool.heap w2 wtp ≡ some n
    → client_cleanup fuel w tid
      ≡ some (record w2 { heap = write (Pool.heap w2) wtp none }, Worker.sockfd (Node.value n) ∷ [])
unfolding client_cleanup
cleanup_run fuel w tid wtp w2 n found there eq still = rw (found, there, eq, still) refl

pub find_first :
    (fuel : ℕ) (h : Heap Worker) (x p : Ptr) (n : Node Worker)
    → p ≡ x
    → (x == 0) ≡ false
    → h x ≡ some n
    → find_worker (suc fuel) h p (Worker.tid (Node.value n)) ≡ some x
unfolding find_worker
find_first fuel h x p n at ne there = rw (at, ne, there) (ground arith)

unlink-second :
    (w : Pool) (x : Ptr) (u : Worker) (xs : Nodes Worker) (p : Ptr) (v : Worker)
    → Pool.heap w x ≡ some (node (first xs 0) p u)
    → Seg (Pool.heap w) x xs 0
    → Distinct xs
    → Pool.heap w p ≡ some (node x 0 v)
    → has x xs ≡ false
    → has p ((x, u) ∷ xs) ≡ false
    → (p == 0) ≡ false
    → (g : Heap Worker) × (unlink_worker w x ≡ some (record w { heap = g }))
      × (g x ≡ some (node (first xs 0) p u))
unfolding unlink_worker set_next write
unlink-second w x u xs p v there s d new out apart ne =
    let (h, eq, _, outside) = behind_step w x xs p s d in
    let still = outside x out ∙ there in
    let new2 = outside p (ground arith) ∙ new in
    (
      write h p (some (node (first xs 0) 0 v)),
      rw (there, eq, still, ne, set_next, new2) refl,
      ground arith,
    )

unlink-alone :
    (w : Pool) (x : Ptr) (u : Worker)
    → Pool.heap w x ≡ some (node 0 0 u)
    → unlink_worker w x ≡ some (record w { workers = 0 })
unfolding unlink_worker
unlink-alone w x u there = rw (there, there) refl

-- A worker that is alone from beginning to end is cleaned up: its socket is closed and its node freed, and the list
-- is empty.
pub add_worker-alone :
    (fuel : ℕ) (w : Pool) (p : Ptr) (tid sockfd : ℕ)
    → Works w []
    → p ≢ 0
    → (w2 : Pool) × (w3 : Pool) × (add_worker w p tid sockfd ≡ some (true, w2))
      × (client_cleanup (suc fuel) w2 tid ≡ some (w3, sockfd ∷ []))
      × Works w3 []
      × (Pool.heap w3 p ≡ none)
unfolding write
add_worker-alone fuel w p tid sockfd l ne =
    let (w2, eq, ((there, _), _, at2)) = add_worker-first w p tid sockfd l ne in
    let e : (p == 0) ≡ false = ground arith in
    (
      w2,
      record w2 { heap = write (Pool.heap w2) p none; workers = 0 },
      eq,
      cleanup_run (suc fuel) w2 tid p (record w2 { workers = 0 }) _
          (find_first fuel (Pool.heap w2) p (Pool.workers w2) _ at2 e there) e
          (unlink-alone w2 p _ there) there,
      (tt, tt, refl),
      ground arith,
    )

-- When the first worker of a list ends after another one was added at an address that is not in the list, `workers`
-- is left at the node that was freed.
pub add_worker-client_cleanup :
    (fuel : ℕ) (w : Pool) (x : Ptr) (u : Worker) (xs : Nodes Worker) (p : Ptr) (tid sockfd : ℕ)
    → Works w ((x, u) ∷ xs)
    → p ≢ 0
    → has p ((x, u) ∷ xs) ≡ false
    → (w2 : Pool) × (w3 : Pool) × (add_worker w p tid sockfd ≡ some (true, w2))
      × (client_cleanup (suc fuel) w2 (Worker.tid u) ≡ some (w3, Worker.sockfd u ∷ []))
      × (Pool.workers w3 ≡ x)
      × (Pool.heap w3 x ≡ none)
unfolding write
add_worker-client_cleanup fuel w x u xs p tid sockfd (s, (nx, out, d), at) ne fresh =
    let (w2, eq, (there, s2), at2, new) =
      add_worker-Seg w x u xs p tid sockfd (s, (nx, out, d), at) ne fresh in
    let e : (x == 0) ≡ false = ground arith in
    let e2 : (p == 0) ≡ false = ground arith in
    let (g, eq2, still) =
      unlink-second w2 x u xs p (worker tid sockfd) there s2 d new out (ground arith) e2 in
    (
      w2,
      record w2 { heap = write g x none },
      eq,
      cleanup_run (suc fuel) w2 (Worker.tid u) x (record w2 { heap = g }) _
          (find_first fuel (Pool.heap w2) x (Pool.workers w2) _ at2 e there) e eq2 still,
      at2,
      ground arith,
    )
