-- ===== src/Linked/Deque.antt =====
-- Doubly linked lists as sequences: appending a node, pushing one and taking one out.
use unix_system_programming.Prelude.{
  ◌≡◌, ◌≢◌, refl, sym, ◌∙◌, false, Option, some, [], ◌∷◌, ◌++◌, arith,
}
use unix_system_programming.Linked.{Ptr, Node, Ends, node, write, ◌>>=◌}
use unix_system_programming.Linked.Links.{forward, back, forward-Seg, back-Seg}
use unix_system_programming.Linked.Segments.{
  Nodes, has, Lists, first, last, Seg-Same, Same-write, Seg-split, Seg-join, last-append,
  first-append, Distinct-split, Distinct-join,
}

module _ {V : Type 0} where
  -- A node behind the last one; none is the use of a pointer to no node.
  unfoldable pub append_node : Ends V → Ptr → V → Option (Ends V)
  append_node e p v =
      let made = write (Ends.heap e) p (some (node 0 (Ends.tail e) v)) in
      forward (record e { heap = made }) (Ends.tail e) p >>= λ e2. some (record e2 { tail = p })

  -- A node before the first one, which keeps its value.
  unfoldable pub push_node : Ends V → Ptr → Option (Ends V)
  push_node e jp = Ends.heap e jp >>= λ n.
      let put = write (Ends.heap e) jp (some (record n { prev = 0; next = Ends.head e })) in
      back (record e { heap = put }) (Ends.head e) jp >>= λ e2. some (record e2 { head = jp })

  unfoldable pub unlink_node : Ends V → Ptr → Option (Ends V)
  unlink_node e target = Ends.heap e target >>= λ n. back e (Node.next n) (Node.prev n) >>= λ e2.
      Ends.heap e2 target >>= λ m. forward e2 (Node.prev m) (Node.next m)

  -- On a list, a node that is appended is the last one.
  pub append_node-Lists :
      (e : Ends V) (xs : Nodes V) (p : Ptr) (v : V)
      → Lists e xs
      → p ≢ 0
      → has p xs ≡ false
      → (e2 : Ends V) × (append_node e p v ≡ some e2) × Lists e2 (xs ++ (p, v) ∷ [])
  unfolding append_node write
  append_node-Lists e xs p v (s, d, at_head, at_tail) ne fresh =
      let made = write (Ends.heap e) p (some (node 0 (Ends.tail e) v)) in
      let e1 : Ends V = record e { heap = made } in
      let s1 = Seg-Same made (Ends.heap e) 0 xs 0 (Same-write (Ends.heap e) p _ xs fresh) s in
      let (e2, eq, (s2, head2, tail2, outside)) =
        forward-Seg e1 xs (Ends.tail e) 0 p d s1 at_head at_tail in
      (
        record e2 { tail = p },
        rw eq refl,
        (
          Seg-join (Ends.heap e2) 0 xs ((p, v) ∷ []) 0 s2
              (outside p fresh ∙ ground (arith, at_tail), tt),
          Distinct-join xs ((p, v) ∷ []) d (ne, refl, tt) λ a i. ground arith,
          head2 ∙ sym (first-append xs ((p, v) ∷ []) 0),
          sym (last-append 0 xs ((p, v) ∷ [])),
        ),
      )

  -- A node that is pushed is the first one, with the value it had.
  pub push_node-Lists :
      (e : Ends V) (xs : Nodes V) (jp : Ptr) (n : Node V)
      → Lists e xs
      → jp ≢ 0
      → has jp xs ≡ false
      → Ends.heap e jp ≡ some n
      → (e2 : Ends V) × (push_node e jp ≡ some e2) × Lists e2 ((jp, Node.value n) ∷ xs)
  unfolding push_node write
  push_node-Lists e xs jp n (s, d, at_head, at_tail) ne fresh there =
      let put = write (Ends.heap e) jp (some (record n { prev = 0; next = Ends.head e })) in
      let e1 : Ends V = record e { heap = put } in
      let s1 = Seg-Same put (Ends.heap e) 0 xs 0 (Same-write (Ends.heap e) jp _ xs fresh) s in
      let (e2, eq, (s2, tail2, head2, outside)) =
        back-Seg e1 (Ends.head e) 0 jp xs d s1 at_tail at_head in
      (
        record e2 { head = jp },
        rw (there, eq) refl,
        ((outside jp fresh ∙ ground (arith, at_head), s2), (ne, fresh, d), refl, tail2),
      )

  -- A node that is taken out leaves the others as they were; its node is still there.
  pub unlink_node-Lists :
      (e : Ends V) (xs : Nodes V) (t : Ptr) (v : V) (ys : Nodes V)
      → Lists e (xs ++ (t, v) ∷ ys)
      → (e2 : Ends V) × (unlink_node e t ≡ some e2)
        × Lists e2 (xs ++ ys)
        × (Ends.heap e2 t ≡ Ends.heap e t)
  unfolding unlink_node
  unlink_node-Lists e xs t v ys (s, d, at_head, at_tail) =
      let (s1, (there, s2)) = Seg-split (Ends.heap e) 0 xs ((t, v) ∷ ys) 0 s in
      let (d1, (ne, out, d2), apart) = Distinct-split xs ((t, v) ∷ ys) d in
      let (e1, eq1, (s3, tail1, head1, outside1)) =
        back-Seg e (first ys 0) t (last 0 xs) ys d2 s2 (at_tail ∙ last-append 0 xs ((t, v) ∷ ys))
          refl in
      let s4 =
        Seg-Same (Ends.heap e1) (Ends.heap e) 0 xs t (λ a i. outside1 a (ground (arith, apart a)))
          s1 in
      let (e2, eq2, (s5, head2, tail2, outside2)) =
        forward-Seg e1 xs (last 0 xs) t (first ys 0) d1 s4
          (head1 ∙ at_head ∙ first-append xs ((t, v) ∷ ys) 0) refl in
      (
        e2,
        rw (there, eq1, outside1 t out, there, eq2) refl,
        (
          Seg-join (Ends.heap e2) 0 xs ys 0 s5 (
              Seg-Same (Ends.heap e2) (Ends.heap e1) (last 0 xs) ys 0
                (λ a i. outside2 a (ground (arith, apart a))) s3),
          Distinct-join xs ys d1 d2 λ a i. ground (arith, apart a),
          head2 ∙ sym (first-append xs ys 0),
          tail2 ∙ tail1 ∙ sym (last-append 0 xs ys),
        ),
        outside2 t (ground (arith, apart t)) ∙ outside1 t out,
      )
