-- ===== src/Opend/Loop/Packed.antt =====
-- The user ID of a client that was moved, in apue.3e/ipc2/opend/loop.poll.c.
use unix_system_programming.Prelude.{
  ℕ, zero, suc, ◌≡◌, refl, ap, ◌∙◌, Bool, true, false, List, [], ◌∷◌, ◌++◌, length, none, some,
  Option-cases, Bool-cases, ◌⊎◌, inl, inr, ◌==◌, arith,
}
use unix_system_programming.Opend.{Client, client_del}
use unix_system_programming.Opend.Loop.{
  Polled, Received, request, removed, kept, Round, client_at, pack, packed, hang_up, handle,
  receive, serve_entry, serve,
}

-- client_del keeps the user IDs of all entries.
client_del-cons :
    (fd : ℕ) (d : Client) (cs ds : List Client)
    → client_del fd (d ∷ cs) ≡ some ds
    → (ds ≡ record d { fd = none } ∷ cs)
      ⊎ ((es : List Client) × (client_del fd cs ≡ some es) × (ds ≡ d ∷ es))
unfolding client_del
client_del-cons fd d cs ds e = elim (Option-cases (client_del fd cs)) [
  | inl nothing ↦ inl (ground (arith, nothing, e))
  | inr (es, found) ↦ elim (Option-cases d.fd) [
    | inl free ↦ inr (es, found, ground (arith, e, found, free))
    | inr (used, in_use) ↦ elim (Bool-cases (used == fd)) [
      | inl hit ↦ inl (ground (arith, e, in_use, hit))
      | inr miss ↦ inr (es, found, ground (arith, e, found, in_use, miss))
    ]
  ]
]

client_del-uid :
    (fd : ℕ) (cs ds : List Client) (i : ℕ) (c : Client)
    → client_del fd cs ≡ some ds
    → client_at cs i ≡ some c
    → (c2 : Client) × (client_at ds i ≡ some c2) × (c2.uid ≡ c.uid)
unfolding client_del
client_del-uid fd [] ds i c e at = ground arith
client_del-uid fd (d ∷ cs) ds zero c e at = elim (client_del-cons fd d cs ds e) [
  | inl hit ↦ (record d { fd = none }, rw hit refl, ground (arith, at))
  | inr (es, found, same) ↦ (d, rw same refl, ground (arith, at))
]
client_del-uid fd (d ∷ cs) ds (suc i) c e at = elim (client_del-cons fd d cs ds e) [
  | inl hit ↦ (c, rw hit at, refl)
  | inr (es, found, same) ↦
      let (c2, at2, stays) = client_del-uid fd cs es i c found at in (c2, rw same at2, stays)
]

pack-last : (e last : Polled) (mid : List Polled) → pack e (mid ++ last ∷ []) ≡ (last, e ∷ mid)
pack-last e last [] = refl
pack-last e last (f ∷ mid) = rw (pack-last f last mid) refl

packed-last : (last : Polled) (mid : List Polled) → packed (mid ++ last ∷ []) ≡ last ∷ mid
unfolding packed
packed-last last [] = refl
packed-last last (e ∷ mid) = rw (pack-last e last mid) refl

gone_lem :
    (hup readable : Bool) (e : Polled) (r : Round) (ds : List Client)
    → hup ≡ true
    → client_del e.fd r.client ≡ some ds
    → serve_entry hup readable e r ≡ removed (record r { client = ds })
unfolding serve_entry hang_up
gone_lem true readable e r ds h deleted = rw (deleted, hang_up) refl
gone_lem false readable e r ds h deleted = ground arith

abbrev after : Polled → List ℕ → Client → Round → Round
after e bytes c r = record r {
  front = r.front ++ e ∷ [];
  handled = r.handled ++ record { bytes = bytes; on = e.fd; uid = c.uid } ∷ [];
}

request_lem :
    (e : Polled) (bytes : List ℕ) (r : Round) (c : Client)
    → e.hup ≡ false
    → e.readable ≡ true
    → e.received ≡ request bytes
    → client_at r.client (suc (length r.front)) ≡ some c
    → serve_entry e.hup e.readable e r ≡ kept (after e bytes c r)
unfolding serve_entry handle receive
request_lem e bytes r c up ready sent at =
    ap (λ (h : Bool). serve_entry h e.readable e r) up
    ∙ ap (λ (h : Bool). serve_entry false h e r) ready
    ∙ ap (λ (x : Received). receive x e r) sent
    ∙ rw (at, handle) refl

two_rounds :
    (e f : Polled) (es fs : List Polled) (r r2 r3 : Round)
    → serve_entry e.hup e.readable e r ≡ removed r2
    → packed es ≡ f ∷ fs
    → serve_entry f.hup f.readable f r2 ≡ kept r3
    → serve 2 (e ∷ es) r ≡ some r3
unfolding serve
two_rounds e f es fs r r2 r3 first same second = rw (first, same, second, serve) refl

-- A client hangs up, and the last client of the array, which is another, has sent a request: its request is handled with
-- the user ID of the entry of the client that has hung up.
pub serve-packed :
    (gone last : Polled) (mid : List Polled) (bytes : List ℕ) (r : Round) (c : Client)
    (ds : List Client)
    → gone.hup ≡ true
    → last.hup ≡ false
    → last.readable ≡ true
    → last.received ≡ request bytes
    → client_del gone.fd r.client ≡ some ds
    → client_at r.client (suc (length r.front)) ≡ some c
    → (r2 : Round) × (serve 2 (gone ∷ mid ++ last ∷ []) r ≡ some r2)
      × (r2.handled ≡ r.handled ++ record { bytes = bytes; on = last.fd; uid = c.uid } ∷ [])
serve-packed gone last mid bytes r c ds hup up ready sent deleted at =
    let (c2, at2, same) = client_del-uid gone.fd r.client ds (suc (length r.front)) c deleted at in
    let r2 : Round = record r { client = ds } in
    (
      after last bytes c2 r2,
      two_rounds gone last (mid ++ last ∷ []) mid r r2 (after last bytes c2 r2)
          (gone_lem gone.hup gone.readable gone r ds hup deleted) (packed-last last mid)
          (request_lem last bytes r2 c2 up ready sent at2),
      ap (λ (u : ℕ). r.handled ++ record { bytes = bytes; on = last.fd; uid = u } ∷ []) same,
    )
