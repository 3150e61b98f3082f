-- ===== src/Linked/Segments.antt =====
-- Segments of doubly linked lists: what the pointers of consecutive nodes are, and what a write keeps.
use unix_system_programming.Prelude.{
  ◌≡◌, ◌≢◌, refl, sym, ap, ◌∙◌, Bool, true, false, ◌||◌, Option, some, List, [], ◌∷◌, ◌++◌, ◌==◌,
  arith,
}
use unix_system_programming.Linked.{Ptr, Node, Heap, Ends, node, write, set_next, set_prev}

-- The nodes in order, each with what it holds.
abbrev pub Nodes : Type 0 → Type 0
Nodes V = List (Ptr × V)

abbrev pub has : {V : Type 0} → Ptr → Nodes V → Bool
has a [] = false
has a ((p, v) ∷ xs) = a == p || has a xs

abbrev pub Distinct : {V : Type 0} → Nodes V → Type 0
Distinct [] = Unit
Distinct ((p, v) ∷ xs) = (p ≢ 0) × (has p xs ≡ false) × Distinct xs

-- Where a segment begins, or what stands behind it if it is empty.
abbrev pub first : {V : Type 0} → Nodes V → Ptr → Ptr
first [] behind = behind
first ((p, v) ∷ xs) behind = p

abbrev pub last : {V : Type 0} → Ptr → Nodes V → Ptr
last before [] = before
last before ((p, v) ∷ xs) = last p xs

-- The nodes are linked both ways, between one node before them and one behind.
abbrev pub Seg : {V : Type 0} → Heap V → Ptr → Nodes V → Ptr → Type 0
Seg h before [] behind = Unit
Seg h before ((p, v) ∷ xs) behind =
    (h p ≡ some (node (first xs behind) before v)) × Seg h p xs behind

-- The two heaps have the same nodes at the addresses of the segment.
abbrev pub Same : {V : Type 0} → Nodes V → Heap V → Heap V → Type 0
Same xs g h = (a : Ptr) → has a xs ≡ true → g a ≡ h a

abbrev pub Apart : {V : Type 0} → Nodes V → Nodes V → Type 0
Apart xs ys = (a : Ptr) → has a xs ≡ true → has a ys ≡ false

-- A list with its two ends stands for a sequence of nodes.
abbrev pub Lists : {V : Type 0} → Ends V → Nodes V → Type 0
Lists q xs =
    Seg (Ends.heap q) 0 xs 0 × Distinct xs × (Ends.head q ≡ first xs 0) × (Ends.tail q ≡ last 0 xs)

module _ {V : Type 0} where
  pub Seg-Same :
      (g h : Heap V) (before : Ptr) (xs : Nodes V) (behind : Ptr)
      → Same xs g h
      → Seg h before xs behind
      → Seg g before xs behind
  Seg-Same g h before [] behind same s = tt
  Seg-Same g h before ((p, v) ∷ xs) behind same (e, s) =
      (same p (ground arith) ∙ e, Seg-Same g h p xs behind (λ a i. same a (ground arith)) s)

  pub Same-write :
      (h : Heap V) (p : Ptr) (n : Option (Node V)) (xs : Nodes V)
      → has p xs ≡ false
      → Same xs (write h p n) h
  unfolding write
  Same-write h p n xs out a i = ground arith

  pub has-append : (a : Ptr) (xs ys : Nodes V) → has a (xs ++ ys) ≡ (has a xs || has a ys)
  has-append a [] ys = refl
  has-append a ((p, v) ∷ xs) ys = ground (arith, has-append a xs ys)

  pub first-append :
      (xs ys : Nodes V) (behind : Ptr) → first (xs ++ ys) behind ≡ first xs (first ys behind)
  first-append [] ys behind = refl
  first-append (x ∷ xs) ys behind = refl

  pub last-append :
      (before : Ptr) (xs ys : Nodes V) → last before (xs ++ ys) ≡ last (last before xs) ys
  last-append before [] ys = refl
  last-append before ((p, v) ∷ xs) ys = last-append p xs ys

  pub Seg-split :
      (h : Heap V) (before : Ptr) (xs ys : Nodes V) (behind : Ptr)
      → Seg h before (xs ++ ys) behind
      → Seg h before xs (first ys behind) × Seg h (last before xs) ys behind
  Seg-split h before [] ys behind s = (tt, s)
  Seg-split h before ((p, v) ∷ xs) ys behind (e, s) =
      let (s1, s2) = Seg-split h p xs ys behind s in
      ((e ∙ ap (λ q. some (node q before v)) (first-append xs ys behind), s1), s2)

  pub Seg-join :
      (h : Heap V) (before : Ptr) (xs ys : Nodes V) (behind : Ptr)
      → Seg h before xs (first ys behind)
      → Seg h (last before xs) ys behind
      → Seg h before (xs ++ ys) behind
  Seg-join h before [] ys behind s t = t
  Seg-join h before ((p, v) ∷ xs) ys behind (e, s) t = (
    e ∙ ap (λ q. some (node q before v)) (sym (first-append xs ys behind)),
    Seg-join h p xs ys behind s t,
  )

  -- `if (first != NULL) first->prev = q;` on a segment whose first node is `p`
  pub set_prev-first :
      (h : Heap V) (before q : Ptr) (p : Ptr) (v : V) (xs : Nodes V) (behind : Ptr)
      → has p xs ≡ false
      → Seg h before ((p, v) ∷ xs) behind
      → (g : Heap V) × (set_prev h p q ≡ some g)
        × Seg g q ((p, v) ∷ xs) behind
        × ((a : Ptr) → (a == p) ≡ false → g a ≡ h a)
  unfolding write set_prev set_next
  set_prev-first h before q p v xs behind out (e, s) =
      let n : Node V = node (first xs behind) q v in
      (
        write h p (some n),
        rw (set_prev, e) refl,
        (
          ground arith,
          Seg-Same (write h p (some n)) h p xs behind (Same-write h p (some n) xs out) s,
        ),
        λ a i. ground arith,
      )

  pub set_next-last :
      (h : Heap V) (before q : Ptr) (x : Ptr × V) (xs : Nodes V) (behind : Ptr)
      → Distinct (x ∷ xs)
      → Seg h before (x ∷ xs) behind
      → (g : Heap V) × (set_next h (last before (x ∷ xs)) q ≡ some g)
        × Seg g before (x ∷ xs) q
        × ((a : Ptr) → has a (x ∷ xs) ≡ false → g a ≡ h a)
        × ((a : Ptr) → (a == last before (x ∷ xs)) ≡ false → g a ≡ h a)
  unfolding write set_prev set_next
  set_next-last h before q (p, v) [] behind d (e, s) =
      let n : Node V = node q before v in
      (
        write h p (some n),
        rw (set_next, e) refl,
        (ground arith, tt),
        (λ a i. ground arith),
        λ a i. ground arith,
      )
  set_next-last h before q (p, v) (y ∷ xs) behind (ne, out, d) (e, s) =
      let (g, eq, t, outside, rest) = set_next-last h p q y xs behind d s in
      (g, eq, (outside p out ∙ e, t), (λ a i. outside a (ground arith)), rest)

  pub last-NonNull : (before : Ptr) (xs : Nodes V) → before ≢ 0 → Distinct xs → last before xs ≢ 0
  last-NonNull before [] ne d = ne
  last-NonNull before ((p, v) ∷ xs) ne (ne2, out, d) = last-NonNull p xs ne2 d

  pub Distinct-split :
      (xs ys : Nodes V) → Distinct (xs ++ ys) → Distinct xs × Distinct ys × Apart xs ys
  Distinct-split [] ys d = (tt, d, ground arith)
  Distinct-split ((p, v) ∷ xs) ys (ne, out, d) =
      let (d1, d2, apart) = Distinct-split xs ys d in
      (
        (ne, ground (arith, has-append p xs ys), d1),
        d2,
        λ a i. ground (arith, has-append p xs ys, apart a),
      )

  pub Distinct-join :
      (xs ys : Nodes V) → Distinct xs → Distinct ys → Apart xs ys → Distinct (xs ++ ys)
  Distinct-join [] ys d1 d2 apart = d2
  Distinct-join ((p, v) ∷ xs) ys (ne, out, d1) d2 apart = (
    ne,
    ground (arith, has-append p xs ys, apart p),
    Distinct-join xs ys d1 d2 λ a i. apart a (ground arith),
  )

  pub has-last : (p : Ptr) (v : V) (xs : Nodes V) → has (last p xs) ((p, v) ∷ xs) ≡ true
  has-last p v [] = ground arith
  has-last p v ((q, w) ∷ xs) = ground (arith, has-last q w xs)

  pub Apart-node :
      (xs : Nodes V) (t : Ptr) (v : V) (ys : Nodes V) → Apart xs ((t, v) ∷ ys) → has t xs ≡ false
  Apart-node xs t v ys apart = ground (arith, apart t)

  pub Apart-rest :
      (xs : Nodes V) (t : Ptr) (v : V) (ys : Nodes V) → Apart xs ((t, v) ∷ ys) → Apart xs ys
  Apart-rest xs t v ys apart a i = ground (arith, apart a)

  pub Apart-sym : (xs ys : Nodes V) → Apart xs ys → Apart ys xs
  Apart-sym xs ys apart a i = ground (arith, apart a)
