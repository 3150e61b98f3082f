-- ===== src/Linked/Links.antt =====
-- The two joints of a doubly linked list: what stands before a node and what stands behind it.
use unix_system_programming.Prelude.{
  ◌≡◌, refl, false, Option, some, [], ◌∷◌, ◌==◌, if◌then◌else◌, arith,
}
use unix_system_programming.Linked.{Ptr, Ends, set_next, set_prev, ◌>>=◌}
use unix_system_programming.Linked.Segments.{
  Nodes, has, Distinct, Seg, first, last, set_prev-first, set_next-last, last-NonNull,
}

module _ {V : Type 0} where
  -- `if (p == NULL) head = q; else p->next = q;`
  unfoldable pub forward : Ends V → Ptr → Ptr → Option (Ends V)
  forward e p q =
      if p == 0
      then some (record e { head = q })
      else set_next (Ends.heap e) p q >>= λ h. some (record e { heap = h })

  -- `if (p == NULL) tail = q; else p->prev = q;`
  unfoldable pub back : Ends V → Ptr → Ptr → Option (Ends V)
  back e p q =
      if p == 0
      then some (record e { tail = q })
      else set_prev (Ends.heap e) p q >>= λ h. some (record e { heap = h })

  -- The nodes `xs` lead to `q`, and the rest of the heap is as it was.
  abbrev pub Forwarded : Ends V → Nodes V → Ptr → Ends V → Type 0
  Forwarded e xs q e2 =
      Seg (Ends.heap e2) 0 xs q
      × (Ends.head e2 ≡ first xs q)
      × (Ends.tail e2 ≡ Ends.tail e)
      × ((a : Ptr) → has a xs ≡ false → Ends.heap e2 a ≡ Ends.heap e a)

  pub forward-Seg :
      (e : Ends V) (xs : Nodes V) (p behind q : Ptr)
      → Distinct xs
      → Seg (Ends.heap e) 0 xs behind
      → Ends.head e ≡ first xs behind
      → p ≡ last 0 xs
      → (e2 : Ends V) × (forward e p q ≡ some e2) × Forwarded e xs q e2
  unfolding forward
  forward-Seg e [] l behind q d s at_head at_p =
      (record e { head = q }, rw at_p refl, (tt, refl, refl, λ a i. refl))
  forward-Seg e ((p, v) ∷ xs) l behind q (ne, out, d) s at_head at_p =
      let (g, eq, t, outside, _) =
        set_next-last (Ends.heap e) 0 q (p, v) xs behind (ne, out, d) s in
      let there : (last p xs == 0) ≡ false = ground (arith, last-NonNull p xs ne d) in
      (record e { heap = g }, rw (at_p, there, eq) refl, (t, at_head, refl, outside))

  -- The nodes `ys` lead back to `q`, and the rest of the heap is as it was.
  abbrev pub Backed : Ends V → Nodes V → Ptr → Ends V → Type 0
  Backed e ys q e2 =
      Seg (Ends.heap e2) q ys 0
      × (Ends.tail e2 ≡ last q ys)
      × (Ends.head e2 ≡ Ends.head e)
      × ((a : Ptr) → has a ys ≡ false → Ends.heap e2 a ≡ Ends.heap e a)

  pub back-Seg :
      (e : Ends V) (p before q : Ptr) (ys : Nodes V)
      → Distinct ys
      → Seg (Ends.heap e) before ys 0
      → Ends.tail e ≡ last before ys
      → p ≡ first ys 0
      → (e2 : Ends V) × (back e p q ≡ some e2) × Backed e ys q e2
  unfolding back
  back-Seg e f before q [] d s at_tail at_p =
      (record e { tail = q }, rw at_p refl, (tt, refl, refl, λ a i. refl))
  back-Seg e f before q ((p, v) ∷ ys) (ne, out, d) s at_tail at_p =
      let (g, eq, t, outside) = set_prev-first (Ends.heap e) before q p v ys 0 out s in
      let there : (p == 0) ≡ false = ground arith in
      (
        record e { heap = g },
        rw (at_p, there, eq) refl,
        (t, at_tail, refl, λ a i. outside a (ground arith)),
      )
