-- ===== src/Rot13/Passes.antt =====
-- One round over the buffers of apue.3e/advio/rot13c2.c.
use unix_system_programming.Prelude.{
  ℕ, suc, ◌+◌, ◌≤◌, ◌<◌, ◌≡◌, ◌≢◌, ◌⊎◌, inl, inr, refl, Bool, true, false, ◌||◌, List, [], ◌∷◌, All,
  length, some, arith,
}
use unix_system_programming.Rot13.{Buf, Copy, Poll, failed, complete, is_pending, step_of, pass}
use unix_system_programming.Rot13.Rounds.{
  covers, pending, steps, Holds, Copied, Copied-same, left, step_lem,
}

abbrev pub covers_all : List Buf → ℕ → Bool
covers_all [] q = false
covers_all (b ∷ bs) q = covers b q || covers_all bs q

abbrev pub pendings : List Buf → ℕ
pendings [] = 0
pendings (b ∷ bs) = pending b + pendings bs

abbrev pub total : List Buf → ℕ
total [] = 0
total (b ∷ bs) = steps (Buf.op b) + total bs

-- A buffer in use has its operation complete; or that, or the first buffer is not in use and there is more to read.
abbrev pub Woken : (ℕ → Poll) → ℕ → List Buf → Type 0
Woken polls i [] = ⊥
Woken polls i (b ∷ bs) =
    ((is_pending (Buf.op b) ≡ true) × (polls i ≡ complete)) ⊎ Woken polls (suc i) bs

abbrev pub Moves : List ℕ → (ℕ → Poll) → ℕ → List Buf → Copy → Type 0
Moves input polls i [] s = ⊥
Moves input polls i (b ∷ bs) s =
    (((is_pending (Buf.op b) ≡ true) × (polls i ≡ complete))
      ⊎ ((is_pending (Buf.op b) ≡ false) × (Copy.off s < length input)))
    ⊎ Woken polls (suc i) bs

pub Woken-Moves :
    (input : List ℕ) (polls : ℕ → Poll) (i : ℕ) (bs : List Buf) (s : Copy)
    → Woken polls i bs
    → Moves input polls i bs s
Woken-Moves input polls i [] s w = w
Woken-Moves input polls i (b ∷ bs) s (inl e) = inl (inl e)
Woken-Moves input polls i (b ∷ bs) s (inr w) = inr w

module _ (input : List ℕ) (polls : ℕ → Poll) where
  -- What a round does, beside buffers that cover `c` and of which `n` are in use.
  abbrev pub Passes : ℕ → (ℕ → Bool) → ℕ → List Buf → Copy → List Buf → Copy → Type 0
  Passes i c n bs s bs2 s2 =
      All (Holds input) bs2
      × Copied input (λ q. c q || covers_all bs2 q) (n + pendings bs2) s2
      × (length bs2 ≡ length bs)
      × (total bs2 + left input s2 ≤ total bs + left input s)
      × (Moves input polls i bs s → total bs2 + left input s2 < total bs + left input s)

  pass-cons :
      (i : ℕ) (b : Buf) (bs : List Buf) (s : Copy) (b2 : Buf) (s2 : Copy) (bs2 : List Buf)
      (s3 : Copy)
      → step_of input b.op (polls i) b s ≡ some (b2, s2)
      → pass input polls (suc i) bs s2 ≡ some (bs2, s3)
      → pass input polls i (b ∷ bs) s ≡ some (b2 ∷ bs2, s3)
  unfolding pass
  pass-cons i b bs s b2 s2 bs2 s3 e e2 = rw (e, e2, pass) refl

  pub pass_lem :
      ((i : ℕ) → polls i ≢ failed)
      → (i : ℕ) (bs : List Buf) (c : ℕ → Bool) (n : ℕ) (s : Copy) → All (Holds input) bs
      → Copied input (λ q. c q || covers_all bs q) (n + pendings bs) s
      → (bs2 : List Buf) × (s2 : Copy) × (pass input polls i bs s ≡ some (bs2, s2))
        × Passes i c n bs s bs2 s2
  unfolding pass
  pass_lem fine i [] c n s hs k = ([], s, refl, (hs, k, refl, omega arith, λ m. elim m [ ]))
  pass_lem fine i (b ∷ bs) c n s (h, hs) k =
      let k1 =
        Copied-same input (λ q. c q || (covers b q || covers_all bs q))
          (λ q. (c q || covers_all bs q) || covers b q) (n + (pending b + pendings bs))
          ((n + pendings bs) + pending b) s (λ q e. ground arith) (omega arith) k in
      let (b2, s2, e, (h2, k2, le, lt)) =
        step_lem input (polls i) (λ q. c q || covers_all bs q) (n + pendings bs) b s (fine i) h
          k1 in
      let k3 =
        Copied-same input (λ q. (c q || covers_all bs q) || covers b2 q)
          (λ q. (c q || covers b2 q) || covers_all bs q) ((n + pendings bs) + pending b2)
          ((n + pending b2) + pendings bs) s2 (λ q e. ground arith) (omega arith) k2 in
      let (bs2, s3, e2, (hs2, k4, size, le2, lt2)) =
        pass_lem fine (suc i) bs (λ q. c q || covers b2 q) (n + pending b2) s2 hs k3 in
      let k5 =
        Copied-same input (λ q. (c q || covers b2 q) || covers_all bs2 q)
          (λ q. c q || (covers b2 q || covers_all bs2 q)) ((n + pending b2) + pendings bs2)
          (n + (pending b2 + pendings bs2)) s3 (λ q e. ground arith) (omega arith) k4 in
      (
        b2 ∷ bs2,
        s3,
        pass-cons i b bs s b2 s2 bs2 s3 e e2,
        (
          (h2, hs2),
          k5,
          omega (arith, size),
          omega (arith, le, le2),
          λ m. elim m [
            | inl now ↦ omega (arith, lt now, le2)
            | inr later ↦ omega (arith, le, lt2 (Woken-Moves input polls (suc i) bs s2 later))
          ],
        ),
      )
