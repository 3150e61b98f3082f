-- ===== src/Threads/References/Safety.antt =====
-- What holds in every state that the threads of apue.3e/threads/mutex2.c reach.
use unix_system_programming.Prelude.{
  ℕ, ◌<◌, ◌≡◌, ◌≢◌, ◌⊎◌, inl, inr, refl, ap, true, false, Bool-cases, arith,
}
use unix_system_programming.Threads.References.{Pc}
use unix_system_programming.Threads.References.System.{
  System, step, Reach, begin, more, start, total, total-zero, le-total, add-le-total,
}
use unix_system_programming.Threads.References.Invariant.{Inv, touches, weight}
use unix_system_programming.Threads.References.Invariant.Moves.{Move-Inv}

Inv-start : (n : ℕ) → Inv n start.mem start.pc start.refs
Inv-start n = record {
  counted = λ h. ground arith;
  unused = λ h. total-zero n _ (λ j. refl);
  f_own = λ j l h. ground arith;
  h_own = λ j l h. ground arith;
  f_held = λ j h. ground arith;
  h_held = λ j h. ground arith;
  seen = λ j l h. ground arith;
  has_one = λ j l h. ground arith;
  only = λ j l h. ground arith;
  unlisted = λ h k. ground arith;
  linked = λ h. ground arith;
  late = λ j l h. ground arith;
  safe = λ j l h. ground arith;
}

pub Reach-Inv : {n : ℕ} {s : System} → Reach n s → Inv n s.mem s.pc s.refs
Reach-Inv {n} begin = Inv-start n
Reach-Inv (more r (step i lt mv)) = Move-Inv (Reach-Inv r) i lt mv

unlink-listed :
    (n : ℕ) (s : System) → Reach n s → (j : ℕ) → j < n → s.pc j ≡ Pc.last_lock → s.mem.listed ≡ true
unlink-listed n s r j lj at =
    let inv = Reach-Inv r in
    elim (Bool-cases s.mem.listed) [
      | inl there ↦ there
      | inr off ↦
          let live : s.mem.alive ≡ true = ground (arith, inv.safe j) in
          let (k, lk, alone_k) = inv.unlisted live off in
          let other : k ≢ j = λ same. ground (arith, ap s.pc same) in
          ground (arith, inv.only k, add-le-total n k j (weight s.pc s.refs) lk lj other)
    ]

-- In every state that is reached and for each of the threads, either the object is allocated and its count is the number
-- of references, between operations and in them, or it is not, and the thread has no reference to it and is not about to
-- use it; and if the thread is about to take the object off its chain, it is there.
pub references_lem :
    (n : ℕ) (s : System) (j : ℕ)
    → Reach n s
    → j < n
    → (((s.mem.alive ≡ true) × (s.mem.count ≡ total n (weight s.pc s.refs)))
        ⊎ ((s.mem.alive ≡ false) × (s.refs j ≡ 0) × (touches (s.pc j) ≡ false)))
      × ((s.pc j ≢ Pc.last_lock) ⊎ (s.mem.listed ≡ true))
references_lem n s j r lj =
    let inv = Reach-Inv r in
    (
      elim (Bool-cases s.mem.alive) [
        | inl live ↦ inl (live, inv.counted live)
        | inr gone ↦ inr (
          gone,
          ground (arith, inv.unused gone, le-total n j (weight s.pc s.refs) lj),
          ground (arith, inv.safe j),
        )
      ],
      elim (Bool-cases s.mem.listed) [
        | inl there ↦ inr there
        | inr off ↦ inl λ at. ground (arith, unlink-listed n s r j lj at)
      ],
    )
