-- ===== src/Opend/Entries.antt =====
-- What client_add and client_del of apue.3e/ipc2/opend/client.c do to the entries.
use unix_system_programming.Prelude.{
  subst, ℕ, zero, suc, ◌≡◌, ◌≢◌, refl, sym, ap, ◌∙◌, ◌⊎◌, inl, inr, true, false, List, [], ◌∷◌,
  ◌++◌, length, Option, none, some, ◌==◌, ==_refl, Option-cases, arith,
}
use unix_system_programming.Opend.{
  Client, available, client_alloc, take_entry, again, client_add, client_del, nalloc,
}
use unix_system_programming.Opend.Added.{added}

abbrev pub client : ℕ → ℕ → Client
client fd uid = record { fd = some fd; uid = uid }

-- No entry has the descriptor.
abbrev pub Unused : ℕ → List Client → Type 0
Unused fd [] = Unit
Unused fd (c ∷ cs) = (Client.fd c ≢ some fd) × Unused fd cs

-- One entry, which was available, is the client's, and the others are as they were.
abbrev pub Taken : ℕ → ℕ → List Client → ℕ → List Client → Type 0
Taken fd uid cs i ds =
    (front : List Client) × (old : Client) × (behind : List Client) × (Client.fd old ≡ none)
    × (cs ≡ front ++ old ∷ behind)
    × (ds ≡ front ++ client fd uid ∷ behind)
    × (i ≡ length front)

take_entry-Taken :
    (fd uid : ℕ) (cs : List Client)
    → (take_entry fd uid cs ≡ none)
      ⊎ ((i : ℕ) × (ds : List Client) × (take_entry fd uid cs ≡ some (i, ds))
          × Taken fd uid cs i ds)
unfolding take_entry
take_entry-Taken fd uid [] = inl refl
take_entry-Taken fd uid (c ∷ cs) = elim (Option-cases (Client.fd c)) [
  | inl free ↦ inr (0, client fd uid ∷ cs, rw free refl, ([], c, cs, free, refl, refl, refl))
  | inr (f, used) ↦ elim (take_entry-Taken fd uid cs) [
    | inl e ↦ inl (rw (used, e) refl)
    | inr (i, ds, e, (front, old, behind, free, before, after, at)) ↦ inr (
      suc i,
      c ∷ ds,
      rw (used, e) refl,
      (
        c ∷ front,
        old,
        behind,
        free,
        ap (λ (l : List Client). c ∷ l) before,
        ap (λ (l : List Client). c ∷ l) after,
        omega (arith, at),
      ),
    )
  ]
]

-- Among new entries there is one to take.
take_entry-available :
    (fd uid n : ℕ) (stale : List ℕ) (cs : List Client)
    → (i : ℕ) × (ds : List Client) × (take_entry fd uid (cs ++ available (suc n) stale)
        ≡ some (i, ds))
unfolding take_entry available
take_entry-available fd uid n [] [] = (_, _, refl)
take_entry-available fd uid n (u ∷ stale) [] = (_, _, refl)
take_entry-available fd uid n stale (c ∷ cs) = elim (Option-cases (Client.fd c)) [
  | inl free ↦ (0, client fd uid ∷ (cs ++ available (suc n) stale), rw free refl)
  | inr (f, used) ↦
      let (i, ds, e) = take_entry-available fd uid n stale cs in (suc i, c ∷ ds, rw (used, e) refl)
]

not_equal : (a b : ℕ) → a ≢ b → (a == b) ≡ false
not_equal a b ne = ground arith

-- A client that is removed leaves its entry available.
client_del-Taken :
    (fd uid : ℕ) (front behind : List Client)
    → Unused fd front
    → client_del fd (front ++ client fd uid ∷ behind)
      ≡ some (front ++ record { fd = none; uid = uid } ∷ behind)
unfolding client_del
client_del-Taken fd uid [] behind unused = rw (==_refl fd) refl
client_del-Taken fd uid (c ∷ front) behind (other, unused) =
    let rest = client_del-Taken fd uid front behind unused in
    elim (Option-cases (Client.fd c)) [
      | inl free ↦ rw (free, rest) refl
      | inr (f, used) ↦
          let e : (f == fd) ≡ false = not_equal f fd (λ same. other (used ∙ ap some same)) in
          rw (used, e, rest) refl
    ]

Unused-front : (fd : ℕ) (front behind : List Client) → Unused fd (front ++ behind) → Unused fd front
Unused-front fd [] behind unused = tt
Unused-front fd (c ∷ front) behind (other, unused) = (other, Unused-front fd front behind unused)

Unused-available :
    (fd n : ℕ) (stale : List ℕ) (cs : List Client)
    → Unused fd cs
    → Unused fd (cs ++ available n stale)
unfolding available
Unused-available fd zero stale [] unused = tt
Unused-available fd (suc n) [] [] unused = (ground arith, Unused-available fd n [] [] tt)
Unused-available fd (suc n) (u ∷ stale) [] unused =
    (ground arith, Unused-available fd n stale [] tt)
Unused-available fd n stale (c ∷ cs) (other, unused) =
    (other, Unused-available fd n stale cs unused)

-- The array in which the entry was found: the one there was, or the larger one.
abbrev pub Searched : List ℕ → List Client → List Client → Type 0
Searched stale cs ds = (ds ≡ cs) ⊎ (ds ≡ cs ++ available nalloc stale)

again_found :
    (fuel fd uid i : ℕ) (stale : List ℕ) (cs ds : List Client)
    → take_entry fd uid cs ≡ some (i, ds)
    → again (suc fuel) true stale fd uid cs ≡ added i ds
unfolding again
again_found fuel fd uid i stale cs ds e = rw (again, e) refl

again_full :
    (fuel fd uid : ℕ) (stale : List ℕ) (cs : List Client)
    → take_entry fd uid cs ≡ none
    → again (suc fuel) true stale fd uid cs
      ≡ again fuel true stale fd uid (cs ++ available nalloc stale)
unfolding again client_alloc
again_full fuel fd uid stale cs e = rw (again, e) refl

not_both : {A : Type 0} {a : A} (o : Option A) → o ≡ some a → o ≡ none → ⊥
not_both o e e2 = ground arith

again_lem :
    (fuel fd uid : ℕ) (stale : List ℕ) (cs : List Client)
    → (i : ℕ) × (ds es : List Client) × (again (suc (suc fuel)) true stale fd uid cs ≡ added i ds)
      × Searched stale cs es
      × Taken fd uid es i ds
again_lem fuel fd uid stale cs = elim (take_entry-Taken fd uid cs) [
  | inr (i, ds, e, taken) ↦
      (i, ds, cs, again_found (suc fuel) fd uid i stale cs ds e, inl refl, taken)
  | inl e ↦
      let (j, es, found) = take_entry-available fd uid 9 stale cs in
      elim (take_entry-Taken fd uid (cs ++ available nalloc stale)) [
        | inr (i, ds, e2, taken) ↦ (
          i,
          ds,
          cs ++ available nalloc stale,
          again_full (suc fuel) fd uid stale cs e ∙ again_found fuel fd uid i stale _ ds e2,
          inr refl,
          taken,
        )
        | inl e2 ↦ elim (not_both _ found e2) [ ]
      ]
]

add_lem :
    (fuel fd uid : ℕ) (stale : List ℕ) (cs : List Client)
    → (i : ℕ) × (ds es : List Client) × (client_add (suc (suc fuel)) true stale fd uid cs
        ≡ added i ds)
      × Searched stale cs es
      × Taken fd uid es i ds
unfolding client_add client_alloc
add_lem fuel fd uid stale [] =
    let (i, ds, e) = take_entry-available fd uid 9 stale [] in
    elim (take_entry-Taken fd uid (available nalloc stale)) [
      | inr (j, es, e2, taken) ↦ (
        j,
        es,
        available nalloc stale,
        again_found (suc fuel) fd uid j stale (available nalloc stale) es e2,
        inr refl,
        taken,
      )
      | inl e2 ↦ elim (not_both _ e e2) [ ]
    ]
add_lem fuel fd uid stale (c ∷ cs) = again_lem fuel fd uid stale (c ∷ cs)

-- With memory and two searches client_add returns an entry that was available, in the array or behind its old end, and
-- fills it; client_del of the same descriptor, if no other client has it, makes just that entry available again.
pub client_add-client_del :
    (fuel fd uid : ℕ) (stale : List ℕ) (cs : List Client)
    → Unused fd cs
    → (i : ℕ) × (ds es : List Client) × (client_add (suc (suc fuel)) true stale fd uid cs
        ≡ added i ds)
      × Searched stale cs es
      × ((front : List Client) × (old : Client) × (behind : List Client) × (Client.fd old ≡ none)
          × (es ≡ front ++ old ∷ behind)
          × (ds ≡ front ++ client fd uid ∷ behind)
          × (i ≡ length front)
          × (client_del fd ds ≡ some (front ++ record { fd = none; uid = uid } ∷ behind)))
client_add-client_del fuel fd uid stale cs unused =
    let (i, ds, es, e, searched, (front, old, behind, free, before, after, at)) =
      add_lem fuel fd uid stale cs in
    let all : Unused fd es = elim searched [
      | inl same ↦ subst (Unused fd) (sym same) unused
      | inr larger ↦ subst (Unused fd) (sym larger) (Unused-available fd nalloc stale cs unused)
    ] in
    let unused_front = Unused-front fd front (old ∷ behind) (subst (Unused fd) before all) in
    (
      i,
      ds,
      es,
      e,
      searched,
      (
        front,
        old,
        behind,
        free,
        before,
        after,
        at,
        ap (client_del fd) after ∙ client_del-Taken fd uid front behind unused_front,
      ),
    )
