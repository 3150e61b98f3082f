-- ===== src/Linked.antt =====
-- Doubly linked lists on a heap: the lists of apue.3e/printer/printd.c and apue.3e/threads/rwlock.c are made
-- of such nodes.
pub mod Segments
pub mod Links
pub mod Deque
use unix_system_programming.Prelude.{ℕ, Option, none, some, ◌==◌, if◌then◌else◌}

-- An address; 0 is NULL.
abbrev pub Ptr : Type 0
Ptr = ℕ

pub record Node (V : Type 0) : Type 0 where
  pub next : Ptr
  pub prev : Ptr
  pub value : V

abbrev pub Heap : Type 0 → Type 0
Heap V = Ptr → Option (Node V)

abbrev pub node : {V : Type 0} → Ptr → Ptr → V → Node V
node next prev value = record { next = next; prev = prev; value = value }

unfoldable pub write : {V : Type 0} → Heap V → Ptr → Option (Node V) → Heap V
write h p n a = if a == p then n else h a

-- `p->next = q`, `p->prev = q` and a read of `*p`; none is the use of a pointer to no node.
unfoldable pub set_next : {V : Type 0} → Heap V → Ptr → Ptr → Option (Heap V)
set_next h p q = elim (h p) [
  | none ↦ none
  | some n ↦ some (write h p (some (record n { next = q })))
]

unfoldable pub set_prev : {V : Type 0} → Heap V → Ptr → Ptr → Option (Heap V)
set_prev h p q = elim (h p) [
  | none ↦ none
  | some n ↦ some (write h p (some (record n { prev = q })))
]

-- A list: its first node and its last one, with the heap.
pub record Ends (V : Type 0) : Type 0 where
  pub heap : Heap V
  pub head : Ptr
  pub tail : Ptr

infixl 5 ◌>>=◌
abbrev pub ◌>>=◌ : {A B : Type 0} → Option A → (A → Option B) → Option B
none >>= f = none
some a >>= f = f a
