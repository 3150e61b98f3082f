-- ===== src/Threads/Jobs/Queue.antt =====
-- The queue of jobs of apue.3e/threads/rwlock.c as a sequence.
use unix_system_programming.Prelude.{
  ℕ, zero, suc, ◌≡◌, ◌≢◌, refl, sym, ◌∙◌, Bool, true, false, some, [], ◌∷◌, ◌++◌, ◌==◌,
  if◌then◌else◌, ◌<◌, length, arith,
}
use unix_system_programming.Linked.{Ptr, Node, Heap, Ends}
use unix_system_programming.Linked.Segments.{
  Nodes, has, Distinct, Apart-node, Apart-rest, Apart-sym, Seg, Lists, first, last, Seg-Same,
  Seg-split, Seg-join, Distinct-split, Distinct-join, has-last, set_prev-first, set_next-last,
  last-append,
}
use unix_system_programming.Linked.Deque.{append_node-Lists, push_node-Lists}
use unix_system_programming.Threads.Jobs.{
  Queue, job_insert, job_append, job_remove, find_from, job_find,
}

not_first :
    (q : Queue) (x u : ℕ) (xs : Nodes ℕ) (t : Ptr)
    → Ends.head q ≡ x
    → has t ((x, u) ∷ xs) ≡ false
    → (t == Ends.head q) ≡ false
not_first q x u xs t at_head out = ground arith

not_last :
    (q : Queue) (y w : ℕ) (ys : Nodes ℕ) (t : Ptr)
    → Ends.tail q ≡ last y ys
    → has t ((y, w) ∷ ys) ≡ false
    → (t == Ends.tail q) ≡ false
not_last q y w ys t at_tail out = ground (arith, has-last y w ys)

not_in : (y w : ℕ) (ys : Nodes ℕ) (a : Ptr) → has a ((y, w) ∷ ys) ≡ false → (a == y) ≡ false
not_in y w ys a out = ground arith

-- On a queue, a job that is removed is the one that leaves it, wherever it stands.
pub job_remove-Lists :
    (q : Queue) (xs : Nodes ℕ) (t : Ptr) (v : ℕ) (ys : Nodes ℕ)
    → Lists q (xs ++ (t, v) ∷ ys)
    → (r : Queue) × (job_remove q t ≡ some r) × Lists r (xs ++ ys)
unfolding job_remove
job_remove-Lists q [] t v [] ((there, _), d, at_head, at_tail) =
    let e1 : (t == Ends.head q) ≡ true = ground arith in
    let e2 : (Ends.tail q == t) ≡ true = ground arith in
    (record q { head = 0; tail = 0 }, rw (there, e1, e2) refl, (tt, tt, refl, refl))
job_remove-Lists q [] t v ((y, w) ∷ ys) ((there, s), (ne, out, d), at_head, at_tail) =
    let e1 : (t == Ends.head q) ≡ true = ground arith in
    let e2 : (Ends.tail q == t) ≡ false = ground (arith, has-last y w ys) in
    let (g, eq, s2, outside) = set_prev-first (Ends.heap q) t 0 y w ys 0 d.1 s in
    (record q { head = y; heap = g }, rw (there, e1, e2, eq) refl, (s2, d, refl, at_tail))
job_remove-Lists q ((x, u) ∷ xs) t v [] (s, d, at_head, at_tail) =
    let (s1, (there, _)) = Seg-split (Ends.heap q) 0 ((x, u) ∷ xs) ((t, v) ∷ []) 0 s in
    let (d1, d2, apart) = Distinct-split ((x, u) ∷ xs) ((t, v) ∷ []) d in
    let ends = at_tail ∙ last-append 0 ((x, u) ∷ xs) ((t, v) ∷ []) in
    let e1 : (t == Ends.head q) ≡ false = ground (arith, apart x) in
    let e2 : (t == Ends.tail q) ≡ true = ground arith in
    let (g, eq, s2, outside, _) = set_next-last (Ends.heap q) 0 0 (x, u) xs t d1 s1 in
    (
      record q { tail = last x xs; heap = g },
      rw (there, e1, e2, eq) refl,
      (
        Seg-join g 0 ((x, u) ∷ xs) [] 0 s2 tt,
        Distinct-join ((x, u) ∷ xs) [] d1 tt (λ a i. refl),
        at_head,
        sym (last-append 0 ((x, u) ∷ xs) []),
      ),
    )
job_remove-Lists q ((x, u) ∷ xs) t v ((y, w) ∷ ys) (s, d, at_head, at_tail) =
    let (s1, (there, s2)) = Seg-split (Ends.heap q) 0 ((x, u) ∷ xs) ((t, v) ∷ (y, w) ∷ ys) 0 s in
    let (d1, (ne, out, d2), apart) = Distinct-split ((x, u) ∷ xs) ((t, v) ∷ (y, w) ∷ ys) d in
    let there_x = Apart-node ((x, u) ∷ xs) t v ((y, w) ∷ ys) apart in
    let rest = Apart-rest ((x, u) ∷ xs) t v ((y, w) ∷ ys) apart in
    let back = Apart-sym ((x, u) ∷ xs) ((y, w) ∷ ys) rest in
    let ends = at_tail ∙ last-append 0 ((x, u) ∷ xs) ((t, v) ∷ (y, w) ∷ ys) in
    let e1 : (t == Ends.head q) ≡ false = not_first q x u xs t at_head there_x in
    let e2 : (t == Ends.tail q) ≡ false = not_last q y w ys t ends out in
    let (h, eq, s3, outside, _) = set_next-last (Ends.heap q) 0 y (x, u) xs t d1 s1 in
    let kept = outside t there_x ∙ there in
    let s4 = Seg-Same h (Ends.heap q) t ((y, w) ∷ ys) 0 (λ a i. outside a (back a i)) s2 in
    let (g, eq2, s5, outside2) = set_prev-first h t (last x xs) y w ys 0 d2.1 s4 in
    (
      record q { heap = g },
      rw (there, e1, e2, eq, kept, eq2) refl,
      (
        Seg-join g 0 ((x, u) ∷ xs) ((y, w) ∷ ys) 0
            (Seg-Same g h 0 ((x, u) ∷ xs) y (λ a i. outside2 a (not_in y w ys a (rest a i))) s3) s5,
        Distinct-join ((x, u) ∷ xs) ((y, w) ∷ ys) d1 d2 rest,
        at_head,
        ends ∙ sym (last-append 0 ((x, u) ∷ xs) ((y, w) ∷ ys)),
      ),
    )

-- An inserted job is the first one.
pub job_insert-Lists :
    (q : Queue) (xs : Nodes ℕ) (jp : Ptr) (n : Node ℕ)
    → Lists q xs
    → jp ≢ 0
    → has jp xs ≡ false
    → Ends.heap q jp ≡ some n
    → (r : Queue) × (job_insert q jp ≡ some r) × Lists r ((jp, Node.value n) ∷ xs)
job_insert-Lists = push_node-Lists

-- An appended job is the last one.
pub job_append-Lists :
    (q : Queue) (xs : Nodes ℕ) (jp : Ptr) (n : Node ℕ)
    → Lists q xs
    → jp ≢ 0
    → has jp xs ≡ false
    → Ends.heap q jp ≡ some n
    → (r : Queue) × (job_append q jp ≡ some r) × Lists r (xs ++ (jp, Node.value n) ∷ [])
unfolding job_append
job_append-Lists q xs jp n l ne fresh there =
    let (r, eq, l2) = append_node-Lists q xs jp (Node.value n) l ne fresh in (r, rw there eq, l2)

module _ (pthread_equal : ℕ → ℕ → Bool) where
  -- The address of the first job of a thread, and 0 if there is none.
  abbrev pub first_of : ℕ → Nodes ℕ → Ptr
  first_of id [] = 0
  first_of id ((p, v) ∷ xs) = if pthread_equal v id then p else first_of id xs

  find_from-Seg :
      (fuel : ℕ) (h : Heap ℕ) (before : Ptr) (xs : Nodes ℕ) (jp id : ℕ)
      → length xs < fuel
      → Seg h before xs 0
      → Distinct xs
      → jp ≡ first xs 0
      → find_from pthread_equal fuel h jp id ≡ some (first_of id xs)
  unfolding find_from
  find_from-Seg zero h before xs jp id enough s d at = ground arith
  find_from-Seg (suc fuel) h before [] jp id enough s d at = rw at refl
  find_from-Seg (suc fuel) h before ((p, v) ∷ xs) jp id enough (there, s) (ne, out, d) at =
      let e : (p == 0) ≡ false = ground arith in
      let rest = find_from-Seg fuel h p xs (first xs 0) id (omega arith) s d refl in
      rw (at, e, there, rest) (ground arith)

  -- On a queue whose lock is taken, with more fuel than it has jobs, job_find returns, with the first job of the thread, or NULL if the queue has none.
  pub job_find-Lists :
      (fuel : ℕ) (q : Queue) (xs : Nodes ℕ) (id : ℕ)
      → Lists q xs
      → length xs < fuel
      → job_find pthread_equal fuel 0 q id ≡ some (first_of id xs)
  unfolding job_find
  job_find-Lists fuel q xs id (s, d, at_head, at_tail) enough =
      find_from-Seg fuel (Ends.heap q) 0 xs (Ends.head q) id enough s d at_head
