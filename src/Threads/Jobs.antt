-- ===== src/Threads/Jobs.antt =====
-- The queue of jobs of apue.3e/threads/rwlock.c, a doubly linked list under a readers-writer lock.
pub mod Queue
use unix_system_programming.Prelude.{
  ℕ, zero, suc, Option, none, some, Bool, true, false, ◌==◌, if◌then◌else◌,
}
use unix_system_programming.Linked.{Ptr, Node, Heap, Ends, write, set_next, set_prev, ◌>>=◌}
use unix_system_programming.Linked.Deque.{append_node, push_node}

-- A job is the thread that handles it; the lock is held throughout each operation on the queue.
abbrev pub Queue : Type 0
Queue = Ends ℕ

-- The queue and what is returned: `err` is the answer of pthread_rwlock_init.
unfoldable pub queue_init : Heap ℕ → ℕ → Queue × ℕ
queue_init h err = (record { heap = h; head = 0; tail = 0 }, if err == 0 then 0 else err)

abbrev pub job_insert : Queue → Ptr → Option Queue
job_insert q jp = push_node q jp

unfoldable pub job_append : Queue → Ptr → Option Queue
job_append q jp = Ends.heap q jp >>= λ n. append_node q jp (Node.value n)

-- none is the use of a pointer to no node
unfoldable pub job_remove : Queue → Ptr → Option Queue
job_remove q jp = Ends.heap q jp >>= λ n.
    if jp == Ends.head q
    then (if Ends.tail q == jp
        then some (record q { head = Node.next n; tail = 0 })
        else set_prev (Ends.heap q) (Node.next n) (Node.prev n) >>= λ h.
            some (record q { head = Node.next n; heap = h }))
    else if jp == Ends.tail q
    then (set_next (Ends.heap q) (Node.prev n) (Node.next n) >>= λ h.
        some (record q { tail = Node.prev n; heap = h }))
    else set_next (Ends.heap q) (Node.prev n) (Node.next n) >>= λ h.
        h jp >>= λ m. set_prev h (Node.next m) (Node.prev m) >>= λ g. some (record q { heap = g })

-- `pthread_equal` is the library's; the fuel bounds the jobs looked at, and none is that it is used up.
module _ (pthread_equal : ℕ → ℕ → Bool) where
  unfoldable pub find_from : ℕ → Heap ℕ → Ptr → ℕ → Option Ptr
  find_from zero h jp id = none
  find_from (suc fuel) h jp id =
      let rest : Ptr → Option Ptr = λ next. find_from fuel h next id in
      if jp == 0
      then some 0
      else h jp >>= λ n. if pthread_equal (Node.value n) id then some jp else rest (Node.next n)

  -- `rdlock` is the answer of pthread_rwlock_rdlock.
  unfoldable pub job_find : ℕ → ℕ → Queue → ℕ → Option Ptr
  job_find fuel rdlock q id =
      if rdlock == 0 then find_from fuel (Ends.heap q) (Ends.head q) id else some 0
