-- ===== src/Rot13/Copies.antt =====
-- The whole copy of apue.3e/advio/rot13c2.c, in whatever order its operations complete.
use unix_system_programming.Prelude.{
  ℕ, zero, suc, ◌+◌, ◌≤◌, ◌<◌, ◌≡◌, ◌≢◌, ◌⊎◌, inl, inr, refl, ap, ◌∙◌, Bool, true, false, ◌||◌,
  List, [], ◌∷◌, map, All, length, Option, none, some, ◌==◌, leb, if◌then◌else◌, Bool-cases, arith,
}
use unix_system_programming.Rot13.{
  translate, Op, Buf, Copy, Poll, Aio, failed, is_pending, pass, polls_in, copied, loop,
}
use unix_system_programming.Rot13.Bytes.{length-map, same_bytes}
use unix_system_programming.Rot13.Passes.{
  covers_all, pendings, total, Woken, Moves, Woken-Moves, pass_lem,
}
use unix_system_programming.Rot13.Rounds.{steps, Holds, Copied, left, target}

abbrev pub any : List Bool → Bool
any [] = false
any (b ∷ bs) = b || any bs

abbrev pub is_set : List Bool → ℕ → Bool
is_set [] i = false
is_set (b ∷ bs) zero = b
is_set (b ∷ bs) (suc i) = is_set bs i

-- No operation fails.
abbrev pub Works : Aio → Type 0
Works a = (k i : ℕ) → Aio.error a k i ≢ failed

-- aio_suspend returns for an operation that is pending, if there is one.
abbrev pub Wakes : Aio → Type 0
Wakes a = (k : ℕ) (ops : List Bool) → any ops ≡ true → is_set ops (Aio.suspend a k ops) ≡ true

abbrev ops_of : List Buf → List Bool
ops_of bs = map (λ (b : Buf). is_pending b.op) bs

none_covers : (bs : List Buf) (q : ℕ) → pendings bs ≡ 0 → covers_all bs q ≡ false
none_covers [] q e = refl
none_covers (b ∷ bs) q e = ground (arith, none_covers bs q)

some_pending : (bs : List Buf) → 0 < pendings bs → any (ops_of bs) ≡ true
some_pending [] e = ground arith
some_pending (b ∷ bs) e = ground (arith, some_pending bs)

pendings-le-total : (bs : List Buf) → pendings bs ≤ total bs
pendings-le-total [] = omega arith
pendings-le-total (b ∷ bs) = omega (arith, pendings-le-total bs, one (Buf.op b))
  where
    one : (o : Op) → (if is_pending o then 1 else 0) ≤ steps o
    one Op.unused = omega arith
    one Op.read_pending = omega arith
    one Op.write_pending = omega arith

woken :
    (a : Aio) (k w i j : ℕ) (bs : List Buf)
    → w ≡ i + j
    → is_set (ops_of bs) j ≡ true
    → Woken (polls_in a k (some w)) i bs
woken a k w i j [] e at = ground arith
woken a k w i zero (b ∷ bs) e at = inl (at, ground arith)
woken a k w i (suc j) (b ∷ bs) e at = inr (woken a k w (suc i) j bs (omega arith) at)

never_failed : (a : Aio) (k : ℕ) (w : Option ℕ) → Works a → (i : ℕ) → polls_in a k w i ≢ failed
never_failed a k none works i e = works k i e
never_failed a k (some w) works i e = elim (Bool-cases (i == w)) [
  | inl t ↦ ground arith
  | inr t ↦ works k i (ground arith)
]

idle_first :
    (input : List ℕ) (polls : ℕ → Poll) (bs : List Buf) (s : Copy)
    → 0 < length bs
    → pendings bs ≡ 0
    → s.off < length input
    → Moves input polls 0 bs s
idle_first input polls [] s some_buffer e more = ground arith
idle_first input polls (b ∷ bs) s some_buffer e more = inl (inr (ground arith, more))

all_copied :
    (input : List ℕ) (bs : List Buf) (s : Copy)
    → Copied input (λ q. false || covers_all bs q) (0 + pendings bs) s
    → pendings bs ≡ 0
    → length input ≤ s.off
    → s.out ≡ target input
all_copied input bs s k none_left end =
    let size = length-map translate input in
    same_bytes s.out (target input) (omega (arith, k.short, size)) λ p lt.
      elim (k.done p (omega (arith, size)) (omega (arith, size))) [
        | inl e ↦ ground (arith, none_covers bs p none_left)
        | inr same ↦ same
      ]

module _ (input : List ℕ) (a : Aio) (works : Works a) (wakes : Wakes a) where
  abbrev pub Ready : ℕ → Option ℕ → List Buf → Copy → Type 0
  Ready k w bs s = Moves input (polls_in a k w) 0 bs s ⊎ (total bs + left input s ≡ 0)

  loop_ends :
      (fuel k : ℕ) (w : Option ℕ) (bs : List Buf) (s : Copy) (bs2 : List Buf) (s2 : Copy)
      → pass input (polls_in a k w) 0 bs s ≡ some (bs2, s2)
      → (s2.numop == 0) ≡ true
      → leb (length input) s2.off ≡ true
      → loop input a (suc fuel) k w bs s ≡ copied s2.out
  unfolding loop
  loop_ends fuel k w bs s bs2 s2 e idle end = rw (e, idle, end, loop) refl

  loop_reads :
      (fuel k : ℕ) (w : Option ℕ) (bs : List Buf) (s : Copy) (bs2 : List Buf) (s2 : Copy)
      → pass input (polls_in a k w) 0 bs s ≡ some (bs2, s2)
      → (s2.numop == 0) ≡ true
      → leb (length input) s2.off ≡ false
      → loop input a (suc fuel) k w bs s ≡ loop input a fuel (suc k) none bs2 s2
  unfolding loop
  loop_reads fuel k w bs s bs2 s2 e idle more = rw (e, idle, more, loop) refl

  loop_waits :
      (fuel k : ℕ) (w : Option ℕ) (bs : List Buf) (s : Copy) (bs2 : List Buf) (s2 : Copy)
      → pass input (polls_in a k w) 0 bs s ≡ some (bs2, s2)
      → (s2.numop == 0) ≡ false
      → loop input a (suc fuel) k w bs s
        ≡ loop input a fuel (suc k) (some (Aio.suspend a k (ops_of bs2))) bs2 s2
  unfolding loop
  loop_waits fuel k w bs s bs2 s2 e busy = rw (e, busy, loop) refl

  smaller :
      (bs : List Buf) (s : Copy) (bs2 : List Buf) (s2 : Copy) (k : ℕ) (w : Option ℕ)
      → Ready k w bs s
      → total bs2 + left input s2 ≤ total bs + left input s
      → (Moves input (polls_in a k w) 0 bs s → total bs2 + left input s2 < total bs + left input s)
      → (total bs2 + left input s2 < total bs + left input s) ⊎ (total bs2 + left input s2 ≡ 0)
  smaller bs s bs2 s2 k w (inl moves) le lt = inl (lt moves)
  smaller bs s bs2 s2 k w (inr nothing) le lt = inr (omega arith)

  after_pass :
      (fuel k : ℕ) (w : Option ℕ) (bs : List Buf) (s : Copy) (bs2 : List Buf) (s2 : Copy)
      → pass input (polls_in a k w) 0 bs s ≡ some (bs2, s2)
      → Copied input (λ q. false || covers_all bs2 q) (0 + pendings bs2) s2
      → 0 < length bs2
      → total bs2 + left input s2 < suc fuel
      → (total bs2 + left input s2 < fuel) ⊎ (total bs2 + left input s2 ≡ 0)
      → ((w2 : Option ℕ)
          → Ready (suc k) w2 bs2 s2
          → total bs2 + left input s2 < fuel
          → loop input a fuel (suc k) w2 bs2 s2 ≡ copied (target input))
      → loop input a (suc fuel) k w bs s ≡ copied (target input)
  after_pass fuel k w bs s bs2 s2 e c some_buffer enough less continue =
      elim (Bool-cases (s2.numop == 0)) [
        | inl idle ↦ elim (Bool-cases (leb (length input) s2.off)) [
          | inl end ↦
              loop_ends fuel k w bs s bs2 s2 e idle end
              ∙ ap (λ (out : List ℕ). copied out)
                  (all_copied input bs2 s2 c (ground (arith, c.count)) (ground arith))
          | inr more ↦
              let first =
                idle_first input (polls_in a (suc k) none) bs2 s2 some_buffer
                  (ground (arith, c.count)) (ground arith) in
              loop_reads fuel k w bs s bs2 s2 e idle more ∙ continue none (inl first) (ground arith)
        ]
        | inr busy ↦
            let in_use : 0 < pendings bs2 = ground (arith, c.count) in
            let w2 = Aio.suspend a k (ops_of bs2) in
            let woke =
              woken a (suc k) w2 0 w2 bs2 (omega arith)
                (wakes k (ops_of bs2) (some_pending bs2 in_use)) in
            let ready : Ready (suc k) (some w2) bs2 s2 =
              inl (Woken-Moves input (polls_in a (suc k) (some w2)) 0 bs2 s2 woke) in
            loop_waits fuel k w bs s bs2 s2 e busy
            ∙ continue (some w2) ready (ground (arith, pendings-le-total bs2))
      ]

  pub loop_lem :
      (fuel k : ℕ) (w : Option ℕ) (bs : List Buf) (s : Copy)
      → All (Holds input) bs
      → Copied input (λ q. false || covers_all bs q) (0 + pendings bs) s
      → 0 < length bs
      → Ready k w bs s
      → total bs + left input s < fuel
      → loop input a fuel k w bs s ≡ copied (target input)
  loop_lem zero k w bs s hs c some_buffer ready enough =
      let none_left : ⊥ = omega arith in elim none_left [ ]
  loop_lem (suc fuel) k w bs s hs c some_buffer ready enough =
      let (bs2, s2, e, (hs2, c2, size, le, lt)) =
        pass_lem input (polls_in a k w) (never_failed a k w works) 0 bs (λ q. false) 0 s hs c in
      let less = smaller bs s bs2 s2 k w ready le lt in
      after_pass fuel k w bs s bs2 s2 e c2 (omega (arith, size)) (omega (arith, le))
        (elim less [ inl l ↦ inl (omega arith) | inr z ↦ inr z ])
        λ w2 ready2 fewer. loop_lem fuel (suc k) w2 bs2 s2 hs2 c2 (omega (arith, size)) ready2 fewer
