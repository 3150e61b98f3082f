-- ===== src/Threads/References/Invariant/Moves.antt =====
-- A move of a thread keeps the invariant, field by field.
use unix_system_programming.Prelude.{
  ℕ, ◌+◌, ◌≤◌, ◌<◌, ◌≡◌, ◌≢◌, refl, true, false, none, some, arith,
}
use unix_system_programming.Threads.References.{Object, Pc, Move}
use unix_system_programming.Threads.References.Move.{
  take_other, drop_other, alloc, link, alloc_locked, hold, hold_locked, found, missed, find_locked,
  rele, not_last, last, last_hashed, kept, unlink, gone_unhashed, gone_unlocked, free,
}
use unix_system_programming.Threads.References.System.{
  total, update, total-update, le-total, add-le-total, total-map,
}
use unix_system_programming.Threads.References.Invariant.{
  Inv, claim, holds_f, holds_h, touches, alone, looking, holding, freeing, weight,
}

-- The premise of a move.
abbrev Guard : {i : ℕ} {m m2 : Object} {p p2 : Pc} {r r2 : ℕ} → Move i m p r m2 p2 r2 → Type 0
Guard {m} (take_other _) = m.hashlock ≡ none
Guard {m} (alloc _) = m.alive ≡ false
Guard {m} (link _) = m.hashlock ≡ none
Guard {m} (alloc_locked _) = m.f_lock ≡ none
Guard {r} (hold _) = 1 ≤ r
Guard {m} (hold_locked _) = m.f_lock ≡ none
Guard {m} (found _ _) = (m.hashlock ≡ none) × (m.listed ≡ true)
Guard {m} (missed _ _) = (m.hashlock ≡ none) × (m.listed ≡ false)
Guard {m} (find_locked _) = m.f_lock ≡ none
Guard {r} (rele _) = 1 ≤ r
Guard {m} (not_last _ _) = (m.f_lock ≡ none) × (m.count ≢ 1)
Guard {m} (last _ _) = (m.f_lock ≡ none) × (m.count ≡ 1)
Guard {m} (last_hashed _) = m.hashlock ≡ none
Guard {m} (kept _ _) = (m.f_lock ≡ none) × (m.count ≢ 1)
Guard {m} (unlink _ _) = (m.f_lock ≡ none) × (m.count ≡ 1)
Guard _ = Unit

guard : {i : ℕ} {m m2 : Object} {p p2 : Pc} {r r2 : ℕ} (mv : Move i m p r m2 p2 r2) → Guard mv
guard (take_other g) = g
guard (alloc g) = g
guard (link g) = g
guard (alloc_locked g) = g
guard (hold g) = g
guard (hold_locked g) = g
guard (found g h) = (g, h)
guard (missed g h) = (g, h)
guard (find_locked g) = g
guard (rele g) = g
guard (not_last g h) = (g, h)
guard (last g h) = (g, h)
guard (last_hashed g) = g
guard (kept g h) = (g, h)
guard (unlink g h) = (g, h)
guard _ = tt

module _ {n : ℕ} {m : Object} {pc : ℕ → Pc} {refs : ℕ → ℕ} (inv : Inv n m pc refs) (i : ℕ) where
  open inv use {
    counted, unused, f_own, h_own, f_held, h_held, seen, has_one, only, unlisted, linked, late,
    safe,
  }

  abbrev all : ℕ
  all = total n (weight pc refs)

  -- Thread `i` goes from `p` and `r` to `p2` and `r2`, with `t` references counted after it.
  record Mover (p : Pc) (r : ℕ) (p2 : Pc) (r2 t : ℕ) : Type 0 where
    lt : i < n
    pc_here : pc i ≡ p
    refs_here : refs i ≡ r
    balance : t + (r + claim p) ≡ all + (r2 + claim p2)
    mine : r + claim p ≤ all
    others : (j : ℕ) → j < n → i ≢ j → (r + claim p) + weight pc refs j ≤ all

  Move-counted :
      {p p2 : Pc} {r r2 t : ℕ} {m2 : Object}
      → Move i m p r m2 p2 r2
      → Mover p r p2 r2 t
      → m2.alive ≡ true
      → m2.count ≡ t
  Move-counted (alloc g) f l = ground (arith, unused g, f.balance)
  Move-counted mv f l = ground (arith, guard mv, counted, f.balance, f.mine, safe i)

  Move-unused :
      {p p2 : Pc} {r r2 t : ℕ} {m2 : Object}
      → Move i m p r m2 p2 r2
      → Mover p r p2 r2 t
      → m2.alive ≡ false
      → t ≡ 0
  Move-unused free f l = ground (arith, only i, f.balance, f.mine)
  Move-unused mv f l = ground (arith, guard mv, unused, f.balance, f.mine, safe i)

  Move-f_own :
      {p p2 : Pc} {r r2 t : ℕ} {m2 : Object}
      → Move i m p r m2 p2 r2
      → Mover p r p2 r2 t
      → (j : ℕ) → j < n
      → holds_f (update pc i p2 j) ≡ true
      → m2.f_lock ≡ some j
  Move-f_own (alloc g) f j lj h = ground (arith, unused g, safe j, f.others j, f_own j)
  Move-f_own mv f j lj h = ground (arith, guard mv, f_own j, f_own i, f.lt, f.pc_here)

  Move-h_own :
      {p p2 : Pc} {r r2 t : ℕ} {m2 : Object}
      → Move i m p r m2 p2 r2
      → Mover p r p2 r2 t
      → (j : ℕ) → j < n
      → holds_h (update pc i p2 j) ≡ true
      → m2.hashlock ≡ some j
  Move-h_own drop_other f j lj h = ground (arith, h_own j, h_own i, f.lt, f.pc_here)
  Move-h_own mv f j lj h = ground (arith, guard mv, h_own j, h_own i, f.lt, f.pc_here)

  Move-seen :
      {p p2 : Pc} {r r2 t : ℕ} {m2 : Object}
      → Move i m p r m2 p2 r2
      → Mover p r p2 r2 t
      → (j : ℕ) → j < n
      → looking (update pc i p2 j) ≡ true
      → m2.listed ≡ true
  Move-seen (alloc g) f j lj h = ground (arith, safe j, seen j)
  Move-seen mv f j lj h = ground (arith, guard mv, seen j, h_own j, h_own i, f.lt, f.pc_here)

  Move-has_one :
      {p p2 : Pc} {r r2 t : ℕ} {m2 : Object}
      → Move i m p r m2 p2 r2
      → Mover p r p2 r2 t
      → (j : ℕ) → j < n
      → holding (update pc i p2 j) ≡ true
      → 1 ≤ update refs i r2 j
  Move-has_one drop_other f j lj h = ground (arith, has_one j, f.lt, f.pc_here)
  Move-has_one mv f j lj h =
      ground (arith, guard mv, has_one j, has_one i, f.lt, f.pc_here, f.refs_here)

  Move-only :
      {p p2 : Pc} {r r2 t : ℕ} {m2 : Object}
      → Move i m p r m2 p2 r2
      → Mover p r p2 r2 t
      → (j : ℕ) → j < n
      → alone (update pc i p2 j) ≡ true
      → (m2.listed ≡ false) × (t ≡ 1)
  Move-only (alloc g) f j lj h = ground (arith, unused g, only j, f.balance, f.others j)
  Move-only (unlink g e) f j lj h =
      ground (arith, counted, safe i, only j, f.balance, f.others j, f.lt, f.pc_here)
  Move-only mv f j lj h = ground (
    arith,
    guard mv,
    only j,
    only i,
    seen i,
    has_one i,
    f.balance,
    f.mine,
    f.others j,
    f.lt,
    f.pc_here,
    f.refs_here,
  )

  Move-late :
      {p p2 : Pc} {r r2 t : ℕ} {m2 : Object}
      → Move i m p r m2 p2 r2
      → Mover p r p2 r2 t
      → (j : ℕ) → j < n
      → freeing (update pc i p2 j) ≡ true
      → m2.f_lock ≡ none
  Move-late (hold_locked g) f j lj h =
      ground (arith, late j, only j, seen i, has_one i, f.others j, f.lt, f.pc_here, f.refs_here)
  Move-late mv f j lj h =
      ground (arith, guard mv, late j, only j, seen i, f.others j, f.lt, f.pc_here)

  Move-safe :
      {p p2 : Pc} {r r2 t : ℕ} {m2 : Object}
      → Move i m p r m2 p2 r2
      → Mover p r p2 r2 t
      → (j : ℕ) → j < n
      → touches (update pc i p2 j) ≡ true
      → m2.alive ≡ true
  Move-safe free f j lj h =
      ground (
        arith,
        late i,
        only i,
        seen j,
        has_one j,
        f_own j,
        f.others j,
        f.lt,
        f.pc_here,
        f.refs_here,
      )
  Move-safe mv f j lj h =
      ground (arith, guard mv, unused, linked, safe j, safe i, f.mine, f.lt, f.pc_here)

  Move-unlisted :
      {p p2 : Pc} {r r2 t : ℕ} {m2 : Object}
      → Move i m p r m2 p2 r2
      → Mover p r p2 r2 t
      → m2.alive ≡ true
      → m2.listed ≡ false
      → (j : ℕ) × (j < n) × (alone (update pc i p2 j) ≡ true)
  Move-unlisted (alloc g) f l u = (i, f.lt, ground arith)
  Move-unlisted (unlink g e) f l u = (i, f.lt, ground arith)
  Move-unlisted (gone_unhashed) f l u = (i, f.lt, ground arith)
  Move-unlisted (gone_unlocked) f l u = (i, f.lt, ground arith)
  Move-unlisted mv f l u =
      let (j, lj, a) = unlisted (ground arith) (ground arith) in (j, lj, ground (arith, f.pc_here))

  Move-linked :
      {p p2 : Pc} {r r2 t : ℕ} {m2 : Object}
      → Move i m p r m2 p2 r2
      → Mover p r p2 r2 t
      → m2.listed ≡ true
      → m2.alive ≡ true
  Move-linked (alloc g) f u = refl
  Move-linked free f u = ground (arith, only i, f.lt, f.pc_here)
  Move-linked mv f u = ground (arith, guard mv, linked, safe i, f.lt, f.pc_here)

  Move-f_held :
      {p p2 : Pc} {r r2 t : ℕ} {m2 : Object}
      → Move i m p r m2 p2 r2
      → Mover p r p2 r2 t
      → (j : ℕ) → m2.f_lock ≡ some j
      → (j < n) × (holds_f (update pc i p2 j) ≡ true)
  Move-f_held drop_other f j h = ground (arith, f_held j, f.lt, f.pc_here)
  Move-f_held mv f j h = ground (arith, guard mv, f_held j, f.lt, f.pc_here)

  Move-h_held :
      {p p2 : Pc} {r r2 t : ℕ} {m2 : Object}
      → Move i m p r m2 p2 r2
      → Mover p r p2 r2 t
      → (j : ℕ) → m2.hashlock ≡ some j
      → (j < n) × (holds_h (update pc i p2 j) ≡ true)
  Move-h_held drop_other f j h = ground (arith, h_held j, f.lt, f.pc_here)
  Move-h_held mv f j h = ground (arith, guard mv, h_held j, f.lt, f.pc_here)

  weight-update :
      (p2 : Pc) (r2 : ℕ) (j : ℕ)
      → weight (update pc i p2) (update refs i r2) j ≡ update (weight pc refs) i (r2 + claim p2) j
  weight-update p2 r2 j = ground arith

  mover :
      (p2 : Pc) (r2 : ℕ)
      → i < n
      → Mover (pc i) (refs i) p2 r2 (total n (weight (update pc i p2) (update refs i r2)))
  mover p2 r2 lt = record {
    lt = lt;
    pc_here = refl;
    refs_here = refl;
    balance =
        rw (total-map n _ _ (weight-update p2 r2))
          (total-update n i (r2 + claim p2) (weight pc refs) lt);
    mine = le-total n i (weight pc refs) lt;
    others = λ j lj ne. add-le-total n i j (weight pc refs) lt lj ne;
  }

  pub Move-Inv :
      {p2 : Pc} {r2 : ℕ} {m2 : Object}
      → i < n
      → Move i m (pc i) (refs i) m2 p2 r2
      → Inv n m2 (update pc i p2) (update refs i r2)
  Move-Inv {p2} {r2} lt mv =
      let f = mover p2 r2 lt in
      record {
        counted = Move-counted mv f;
        unused = Move-unused mv f;
        f_own = Move-f_own mv f;
        h_own = Move-h_own mv f;
        f_held = Move-f_held mv f;
        h_held = Move-h_held mv f;
        seen = Move-seen mv f;
        has_one = Move-has_one mv f;
        only = Move-only mv f;
        unlisted = Move-unlisted mv f;
        linked = Move-linked mv f;
        late = Move-late mv f;
        safe = Move-safe mv f;
      }
