-- ===== src/Walk/Names.antt =====
-- The walk of ftw8.c through the names of one directory, where dopath follows the calls of each.
use unix_system_programming.Prelude.{
  ℕ, zero, suc, ◌+◌, ◌≤◌, ◌<◌, ◌≡◌, refl, ap, subst, Bool, true, false, List, [], ◌∷◌, ◌++◌, length,
  take, length-append, Option, none, some, Bool-cases, inl, inr, leb, arith,
}
use unix_system_programming.Clib.{Text}
use unix_system_programming.Database.{ℤ, pos, negsuc}
use unix_system_programming.Walk.{
  Mode, Files, name_max, Walker, Walked, returned, exited, overrun, unfinished, is_zero, is_dot,
  strcpy_at, each_name,
}
use unix_system_programming.Walk.Trees.{
  Entries, end, entry, names_of, undotted, Visit, visits, visits_entries, call_each, resume,
  Follows,
}

pub take_prefix : (q a xs : Text) → take (length (q ++ a)) xs ≡ q ++ a → take (length q) xs ≡ q
take_prefix [] a xs h = refl
take_prefix (c ∷ q) a [] h = ground arith
take_prefix (c ∷ q) a (x ∷ xs) h = ground (arith, take_prefix q a xs)

pub take_whole : (q : Text) → take (length q) q ≡ q
take_whole [] = refl
take_whole (c ∷ q) = ap (λ (r : Text). c ∷ r) (take_whole q)

take-length : (n : ℕ) (xs q : Text) → take n xs ≡ q → length q ≡ n → n ≤ length xs
take-length zero xs q h e = omega arith
take-length (suc n) [] q h e = ground arith
take-length (suc n) (x ∷ xs) [] h e = ground arith
take-length (suc n) (x ∷ xs) (c ∷ q) h e = ground (arith, take-length n xs q)

strcpy_at_onto :
    (n : ℕ) (name path q : Text)
    → take n path ≡ q
    → length q ≡ n
    → strcpy_at n name path ≡ q ++ name
unfolding strcpy_at
strcpy_at_onto n name path q h e =
    let le : n ≤ length path = take-length n path q h e in rw h (ground arith)

module _ {S : Type 0} (fs : Files) (realloc : ℕ → Bool)
    (func : Text → Option Mode → ℕ → S → Option (S × ℤ)) where
  pub Follows-weaken :
      (p : Text) (a b : ℕ) (c : Option (S × ℤ)) (o : Walked S)
      → a ≤ b
      → Follows S realloc p b c o
      → Follows S realloc p a c o
  unfolding Follows
  Follows-weaken p a b none (returned w ret) le h = h
  Follows-weaken p a b (some x) (returned w ret) le (same, back, path, size) =
      (same, back, path, omega arith)
  Follows-weaken p a b none exited le h = h
  Follows-weaken p a b (some x) exited le h = h
  Follows-weaken p a b none overrun le h = h
  Follows-weaken p a b (some x) overrun le h = h
  Follows-weaken p a b none unfinished le h = h
  Follows-weaken p a b (some x) unfinished le h = h

  resume-resume :
      (f g h : S → Option (S × ℤ)) (o : Option (S × ℤ))
      → ((u : S) → f u ≡ resume g (h u))
      → resume f o ≡ resume g (resume h o)
  unfolding resume is_zero
  resume-resume f g h none same = refl
  resume-resume f g h (some (u, pos zero)) same = same u
  resume-resume f g h (some (u, pos (suc n))) same = refl
  resume-resume f g h (some (u, negsuc n)) same = refl

  pub call_each-append :
      (vs ws : List Visit) (u : S)
      → call_each func (vs ++ ws) u ≡ resume (call_each func ws) (call_each func vs u)
  unfolding call_each resume is_zero
  call_each-append [] ws u = refl
  call_each-append ((p, m, type) ∷ vs) ws u =
      resume-resume (call_each func (vs ++ ws)) (call_each func ws) (call_each func vs)
        (func p m type u) (call_each-append vs ws)

  -- dopath, where it is called for each name of a directory, follows the calls of that name's tree.
  abbrev pub FollowsAll : (Walker S → Walked S) → Text → Entries → Type 0
  FollowsAll go q end = Unit
  FollowsAll go q (entry name t es) =
      (length name ≤ name_max)
      × ((v : Walker S)
          → v.fullpath ≡ q ++ name
          → length (q ++ name) < v.pathlen
          → name_max < v.pathlen
          → Follows S realloc (q ++ name) v.pathlen (call_each func (visits (q ++ name) t) v.user)
              (go v))
      × FollowsAll go q es

  pub failed_realloc :
      (p : Text) (c : Option (S × ℤ)) (size : ℕ)
      → (n : ℕ) × (realloc n ≡ false)
      → Follows S realloc p size c exited
  unfolding Follows
  failed_realloc p none size h = tt
  failed_realloc p (some x) size h = h

  then_names :
      (go : Walker S → Walked S) (q name : Text) (names : List Text) (vs : List Visit) (size : ℕ)
      (u : S) (r : ℤ) (v : Walker S)
      → v.user ≡ u
      → take (length (q ++ name)) v.fullpath ≡ q ++ name
      → size ≤ v.pathlen
      → ((v : Walker S)
          → take (length q) v.fullpath ≡ q
          → size ≤ v.pathlen
          → Follows S realloc q v.pathlen
              (call_each func vs v.user)
              (each_name fs realloc func go (length q) names v (pos 0)))
      → Follows S realloc q size (resume (call_each func vs) (some (u, r))) (elim (is_zero r) [
        | true ↦ each_name fs realloc func go (length q) names v r
        | false ↦ returned v r
      ])
  unfolding Follows resume is_zero
  then_names go q name names vs size u (pos zero) v same path le next =
      subst
        (λ (x : S).
          Follows S realloc q size (call_each func vs x)
            (each_name fs realloc func go (length q) names v (pos 0)))
        same (Follows-weaken q size v.pathlen _ _ le (next v (take_prefix q name _ path) le))
  then_names go q name names vs size u (pos (suc n)) v same path le next =
      (same, refl, take_prefix q name _ path, le)
  then_names go q name names vs size u (negsuc n) v same path le next =
      (same, refl, take_prefix q name _ path, le)

  -- One name, and then the others.
  go_on :
      (go : Walker S → Walked S) (q name : Text) (names : List Text) (vs : List Visit) (size : ℕ)
      (c : Option (S × ℤ)) (o : Walked S)
      → Follows S realloc (q ++ name) size c o
      → ((v : Walker S)
          → take (length q) v.fullpath ≡ q
          → size ≤ v.pathlen
          → Follows S realloc q v.pathlen
              (call_each func vs v.user)
              (each_name fs realloc func go (length q) names v (pos 0)))
      → Follows S realloc q size (resume (call_each func vs) c) (elim o [
        | returned v r ↦ elim (is_zero r) [
          | true ↦ each_name fs realloc func go (length q) names v r
          | false ↦ returned v r
        ]
        | exited ↦ exited
        | overrun ↦ overrun
        | unfinished ↦ unfinished
      ])
  unfolding Follows resume
  go_on go q name names vs size none exited h next = tt
  go_on go q name names vs size (some x) exited h next =
      failed_realloc q (resume (call_each func vs) (some x)) size h
  go_on go q name names vs size (some (u, r)) (returned v ret) (same, back, path, le) next =
      subst
        (λ (r : ℤ).
          Follows S realloc q size (resume (call_each func vs) (some (u, r))) (elim (is_zero ret) [
            | true ↦ each_name fs realloc func go (length q) names v ret
            | false ↦ returned v ret
          ]))
        back (then_names go q name names vs size u ret v same path le next)
  go_on go q name names vs size none (returned v ret) h next = elim h [ ]
  go_on go q name names vs size none overrun h next = h
  go_on go q name names vs size (some x) overrun h next = elim h [ ]
  go_on go q name names vs size none unfinished h next = h
  go_on go q name names vs size (some x) unfinished h next = elim h [ ]

  pub each_name-Follows :
      (go : Walker S → Walked S) (q : Text) (names : List Text) (es : Entries) (w : Walker S)
      → FollowsAll go q es
      → undotted names ≡ names_of es
      → take (length q) w.fullpath ≡ q
      → length q + name_max < w.pathlen
      → Follows S realloc q w.pathlen
          (call_each func (visits_entries q es) w.user)
          (each_name fs realloc func go (length q) names w (pos 0))
  unfolding each_name undotted names_of visits_entries call_each Follows
  each_name-Follows go q [] end w all same path room = (refl, refl, path, omega arith)
  each_name-Follows go q [] (entry name t es) w all same path room = ground arith
  each_name-Follows go q (d ∷ ds) end w all same path room = elim (Bool-cases (is_dot d)) [
    | inl e ↦ rw (each_name, e) (each_name-Follows go q ds end w all (ground arith) path room)
    | inr e ↦ ground arith
  ]
  each_name-Follows go q (d ∷ ds) (entry name t es) w (short, child, others) same path room =
      elim (Bool-cases (is_dot d)) [
        | inl e ↦
            rw (each_name, e)
              (each_name-Follows go q ds (entry name t es) w (short, child, others) (ground arith)
                path room)
        | inr e ↦
            let here : d ≡ name = ground arith in
            let rest : undotted ds ≡ names_of es = ground arith in
            let fits : leb (suc (length q + length name)) w.pathlen ≡ true = ground arith in
            rw (here) (
              rw (each_name, subst (λ (x : Text). is_dot x ≡ false) here e, fits)
                (rw (call_each-append (visits (q ++ name) t) (visits_entries q es) w.user) (
                  go_on go q name ds (visits_entries q es) w.pathlen
                    (call_each func (visits (q ++ name) t) w.user)
                    (go (record w { fullpath = strcpy_at (length q) name w.fullpath }))
                    (child _ (strcpy_at_onto (length q) name w.fullpath q path refl)
                      (rw (length-append q name) (omega arith)) (omega arith))
                    (λ (v : Walker S) (p : take (length q) v.fullpath ≡ q)
                        (le : w.pathlen ≤ v.pathlen).
                      each_name-Follows go q ds es v others rest p (omega arith)))))
      ]
