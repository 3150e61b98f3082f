-- ===== src/Printer/Workers.antt =====
-- The threads that serve clients in apue.3e/printer/printd.c: the list that begins at `workers`.

pub mod Second
use unix_system_programming.Prelude.{
  ℕ, zero, suc, List, [], ◌∷◌, Option, none, some, Bool, true, false, ◌==◌, if◌then◌else◌,
}
use unix_system_programming.Linked.{Ptr, Node, Heap, node, write, set_next, set_prev, ◌>>=◌}

-- What struct worker_thread has besides its two links.
pub record Worker : Type 0 where
  pub tid : ℕ
  pub sockfd : ℕ

abbrev pub worker : ℕ → ℕ → Worker
worker tid sockfd = record { tid = tid; sockfd = sockfd }

-- The nodes, and the pointer to the first one.
pub record Pool : Type 0 where
  pub heap : Heap Worker
  pub workers : Ptr

-- The pool, and whether the thread goes on; none is the use of a pointer to no node.
unfoldable pub add_worker : Pool → Ptr → ℕ → ℕ → Option (Bool × Pool)
add_worker w malloced tid sockfd =
    let made = write (Pool.heap w) malloced (some (node (Pool.workers w) 0 (worker tid sockfd))) in
    if malloced == 0
    then some (false, w)
    else if Pool.workers w == 0
    then some (true, record w { heap = made; workers = malloced })
    else set_prev made (Pool.workers w) malloced >>= λ h. some (true, record w { heap = h })

-- The threads that are cancelled, in order; none is also that the fuel, a bound of the list's length, is used up.
unfoldable pub cancel_from : ℕ → Heap Worker → Ptr → Option (List ℕ)
cancel_from zero h p = none
cancel_from (suc fuel) h p =
    let rest : Ptr → Option (List ℕ) = λ next. cancel_from fuel h next in
    if p == 0
    then some []
    else h p >>= λ n. rest (Node.next n) >>= λ tids. some (Worker.tid (Node.value n) ∷ tids)

unfoldable pub kill_workers : ℕ → Pool → Option (List ℕ)
kill_workers fuel w = cancel_from fuel (Pool.heap w) (Pool.workers w)

unfoldable pub find_worker : ℕ → Heap Worker → Ptr → ℕ → Option Ptr
find_worker zero h p tid = none
find_worker (suc fuel) h p tid =
    let rest : Ptr → Option Ptr = λ next. find_worker fuel h next tid in
    if p == 0
    then some 0
    else h p >>= λ n. if Worker.tid (Node.value n) == tid then some p else rest (Node.next n)

-- The statements under the test of the loop in `client_cleanup`.
unfoldable pub unlink_worker : Pool → Ptr → Option Pool
unlink_worker w wtp = Pool.heap w wtp >>= λ n.
    (if Node.next n == 0
      then some w
      else set_prev (Pool.heap w) (Node.next n) (Node.prev n) >>= λ h. some (record w { heap = h }))
    >>= λ w1. Pool.heap w1 wtp >>= λ m.
        if Node.prev m == 0
        then some (record w1 { workers = Node.next m })
        else set_next (Pool.heap w1) (Node.prev m) (Node.next m) >>= λ h.
            some (record w1 { heap = h })

-- The pool without the thread's node, which is freed, and the sockets closed.
unfoldable pub client_cleanup : ℕ → Pool → ℕ → Option (Pool × List ℕ)
client_cleanup fuel w tid = find_worker fuel (Pool.heap w) (Pool.workers w) tid >>= λ wtp.
    if wtp == 0
    then some (w, [])
    else unlink_worker w wtp >>= λ w2. Pool.heap w2 wtp >>= λ n.
        some (record w2 { heap = write (Pool.heap w2) wtp none }, Worker.sockfd (Node.value n) ∷ [])
