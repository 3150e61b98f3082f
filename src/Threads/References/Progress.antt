-- ===== src/Threads/References/Progress.antt =====
-- The threads of apue.3e/threads/mutex2.c never stop for one another's locks for ever.
use unix_system_programming.Prelude.{
  ℕ, ◌<◌, ◌≡◌, ◌≢◌, ◌⊎◌, inl, inr, refl, true, false, none, some, ◌==◌, Bool-cases, Option-cases,
  arith,
}
use unix_system_programming.Threads.References.{Object, Pc, Move}
use unix_system_programming.Threads.References.System.{System, Reach}
use unix_system_programming.Threads.References.Invariant.{holds_f, holds_h}
use unix_system_programming.Threads.References.Safety.{Reach-Inv}

abbrev pub CanMove : ℕ → Object → Pc → ℕ → Type 0
CanMove i m p r = (m2 : Object) × (p2 : Pc) × (r2 : ℕ) × Move i m p r m2 p2 r2

-- A thread moves, or waits for one of the two locks, of which it has neither or the other one.
abbrev Ready : ℕ → Object → Pc → ℕ → Type 0
Ready i m p r =
    CanMove i m p r
    ⊎ (((k : ℕ) × (m.f_lock ≡ some k) × (holds_f p ≡ false))
        ⊎ ((k : ℕ) × (m.hashlock ≡ some k) × (holds_f p ≡ false) × (holds_h p ≡ false)))

module _ (i : ℕ) (m : Object) (r : ℕ) where
  at_f : (p : Pc) → holds_f p ≡ false → (m.f_lock ≡ none → CanMove i m p r) → Ready i m p r
  at_f p h go = elim (Option-cases m.f_lock) [
    | inl open_lock ↦ inl (go open_lock)
    | inr (k, e) ↦ inr (inl (k, e, h))
  ]

  at_h :
      (p : Pc)
      → holds_f p ≡ false
      → holds_h p ≡ false
      → (m.hashlock ≡ none → CanMove i m p r)
      → Ready i m p r
  at_h p hf hh go = elim (Option-cases m.hashlock) [
    | inl open_lock ↦ inl (go open_lock)
    | inr (k, e) ↦ inr (inr (k, e, hf, hh))
  ]

  not_one : (n : ℕ) → (n ≡ 1) ⊎ (n ≢ 1)
  not_one n = elim (Bool-cases (n == 1)) [ inl e ↦ inl (ground arith) | inr e ↦ inr (ground arith) ]

  ready : (p : Pc) → p ≢ Pc.idle → Ready i m p r
  ready Pc.idle busy = elim (busy refl) [ ]
  ready Pc.other busy = inl (_, _, _, Move.drop_other)
  ready Pc.alloc_hash busy = at_h Pc.alloc_hash refl refl (λ e. (_, _, _, Move.link e))
  ready Pc.alloc_lock busy = at_f Pc.alloc_lock refl (λ e. (_, _, _, Move.alloc_locked e))
  ready Pc.alloc_unhash busy = inl (_, _, _, Move.alloc_unhashed)
  ready Pc.alloc_unlock busy = inl (_, _, _, Move.allocated)
  ready Pc.hold_lock busy = at_f Pc.hold_lock refl (λ e. (_, _, _, Move.hold_locked e))
  ready Pc.hold_unlock busy = inl (_, _, _, Move.held)
  ready Pc.find_hash busy = at_h Pc.find_hash refl refl λ e. elim (Bool-cases m.listed) [
    | inl there ↦ (_, _, _, Move.found e there)
    | inr off ↦ (_, _, _, Move.missed e off)
  ]
  ready Pc.find_lock busy = at_f Pc.find_lock refl (λ e. (_, _, _, Move.find_locked e))
  ready Pc.find_unlock busy = inl (_, _, _, Move.find_unlocked)
  ready Pc.find_unhash busy = inl (_, _, _, Move.find_done)
  ready Pc.find_missed busy = inl (_, _, _, Move.miss_done)
  ready Pc.rele_lock busy = at_f Pc.rele_lock refl λ e. elim (not_one m.count) [
    | inl one ↦ (_, _, _, Move.last e one)
    | inr several ↦ (_, _, _, Move.not_last e several)
  ]
  ready Pc.rele_unlock busy = inl (_, _, _, Move.released)
  ready Pc.last_unlock busy = inl (_, _, _, Move.last_unlocked)
  ready Pc.last_hash busy = at_h Pc.last_hash refl refl (λ e. (_, _, _, Move.last_hashed e))
  ready Pc.last_lock busy = at_f Pc.last_lock refl λ e. elim (not_one m.count) [
    | inl one ↦ (_, _, _, Move.unlink e one)
    | inr several ↦ (_, _, _, Move.kept e several)
  ]
  ready Pc.kept_unlock busy = inl (_, _, _, Move.kept_unlocked)
  ready Pc.kept_unhash busy = inl (_, _, _, Move.kept_done)
  ready Pc.gone_unhash busy = inl (_, _, _, Move.gone_unhashed)
  ready Pc.gone_unlock busy = inl (_, _, _, Move.gone_unlocked)
  ready Pc.gone_free busy = inl (_, _, _, Move.free)

busy_f : (p : Pc) → holds_f p ≡ true → p ≢ Pc.idle
busy_f p h idle = ground arith

busy_h : (p : Pc) → holds_h p ≡ true → p ≢ Pc.idle
busy_h p h idle = ground arith

-- A thread under way is one that can go on.
abbrev pub Going : ℕ → System → Type 0
Going n s = (i : ℕ) × (i < n) × (s.pc i ≢ Pc.idle) × CanMove i s.mem (s.pc i) (s.refs i)

owner_f : {n : ℕ} {s : System} → Reach n s → (k : ℕ) → s.mem.f_lock ≡ some k → Going n s
owner_f {n} {s} r k e =
    let (lk, h) = (Reach-Inv r).f_held k e in
    let busy = busy_f (s.pc k) h in
    elim (ready k s.mem (s.refs k) (s.pc k) busy) [
      | inl go ↦ (k, lk, busy, go)
      | inr (inl (_, _, no_lock)) ↦ ground arith
      | inr (inr (_, _, no_lock, _)) ↦ ground arith
    ]

owner_h : {n : ℕ} {s : System} → Reach n s → (k : ℕ) → s.mem.hashlock ≡ some k → Going n s
owner_h {n} {s} r k e =
    let (lk, h) = (Reach-Inv r).h_held k e in
    let busy = busy_h (s.pc k) h in
    elim (ready k s.mem (s.refs k) (s.pc k) busy) [
      | inl go ↦ (k, lk, busy, go)
      | inr (inl (l, e2, _)) ↦ owner_f r l e2
      | inr (inr (_, _, _, no_lock)) ↦ ground arith
    ]

-- In every state that is reached, if an operation is under way, then one that is under way can go on.
pub no_deadlock : (n : ℕ) (s : System) → Reach n s → (j : ℕ) → j < n → s.pc j ≢ Pc.idle → Going n s
no_deadlock n s r j lj busy = elim (ready j s.mem (s.refs j) (s.pc j) busy) [
  | inl go ↦ (j, lj, busy, go)
  | inr (inl (k, e, _)) ↦ owner_f r k e
  | inr (inr (k, e, _, _)) ↦ owner_h r k e
]
