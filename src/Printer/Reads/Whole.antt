-- ===== src/Printer/Reads/Whole.antt =====
-- treadn of apue.3e/printer/util.c returns the bytes of its reads together.
use unix_system_programming.Prelude.{
  ℕ, zero, suc, ◌+◌, ◌-◌, ◌≤◌, ◌<◌, ◌≡◌, refl, sym, ap, List, [], ◌∷◌, ◌++◌, length, length-append,
  append-nil, append_assoc, some, arith,
}
use unix_system_programming.Printer.Reads.{Input, Got, failed, got, tread, treadn, treadn_loop}

module _ (etime : ℕ) (input : Input) where
  -- A read gives as many bytes as it may, at most.
  abbrev pub Bounded : Type 0
  Bounded = (call n : ℕ) (bytes : List ℕ) → Input.read input call n ≡ got bytes → length bytes ≤ n

  -- The calls of tread from the `call`-th on, for `nleft` bytes, give these bytes one after another, and then the last
  -- of them ends the reading: nothing is left, or it failed, or it is the end of the input.
  pub data Reads : ℕ → ℕ → List ℕ → Type 0 where
    complete : {call : ℕ} → Reads call 0 []
    broken :
        {call nleft : ℕ} (e : ℕ)
        → 0 < nleft
        → tread etime input call nleft ≡ failed e
        → Reads call nleft []
    ended :
        {call nleft : ℕ} → 0 < nleft → tread etime input call nleft ≡ got [] → Reads call nleft []
    more :
        {call nleft left : ℕ} (x : ℕ) (xs ys : List ℕ)
        → tread etime input call nleft ≡ got (x ∷ xs)
        → left + suc (length xs) ≡ nleft
        → Reads (suc call) left ys
        → Reads call nleft (x ∷ xs ++ ys)

  tread_bounded :
      Bounded
      → (call n : ℕ) (bytes : List ℕ) → tread etime input call n ≡ got bytes
      → length bytes ≤ n
  unfolding tread
  tread_bounded bounded call n bytes e = ground (arith, bounded call n bytes)

  -- What a loop that is under way returns.
  loop_lem :
      Bounded
      → (fuel nbytes call nleft : ℕ) (buf : List ℕ) → nleft < fuel
      → nleft < nbytes
      → (bytes : List ℕ) × (treadn_loop etime input fuel nbytes call nleft buf
          ≡ some (got (buf ++ bytes)))
        × Reads call nleft bytes
  unfolding treadn_loop
  loop_lem bounded zero nbytes call nleft buf enough begun = ground arith
  loop_lem bounded (suc fuel) nbytes call zero buf enough begun =
      ([], ap (λ (b : List ℕ). some (got b)) (sym (append-nil buf)), Reads.complete)
  loop_lem bounded (suc fuel) nbytes call (suc left) buf enough begun =
      go (tread etime input call (suc left)) refl
        λ n bytes. loop_lem bounded fuel nbytes (suc call) n (buf ++ bytes)
    where
      go :
          (g : Got)
          → tread etime input call (suc left) ≡ g
          → ((n : ℕ) (bytes : List ℕ)
              → n < fuel
              → n < nbytes
              → (rest : List ℕ) × (treadn_loop etime input fuel nbytes (suc call) n (buf ++ bytes)
                  ≡ some (got ((buf ++ bytes) ++ rest)))
                × Reads (suc call) n rest)
          → (bytes : List ℕ) × (treadn_loop etime input (suc fuel) nbytes call (suc left) buf
              ≡ some (got (buf ++ bytes)))
            × Reads call (suc left) bytes
      go (failed e) at loop =
          let same : some (got buf) ≡ some (got (buf ++ [])) =
            ap (λ (b : List ℕ). some (got b)) (sym (append-nil buf)) in
          ([], ground (arith, same, at), Reads.broken e (omega arith) at)
      go (got []) at loop =
          let same : some (got buf) ≡ some (got (buf ++ [])) =
            ap (λ (b : List ℕ). some (got b)) (sym (append-nil buf)) in
          ([], ground (arith, same, at), Reads.ended (omega arith) at)
      go (got (x ∷ xs)) at loop =
          let size = tread_bounded bounded call (suc left) (x ∷ xs) at in
          let (rest, eq, r) =
            loop (suc left - length (x ∷ xs)) (x ∷ xs) (omega arith) (omega arith) in
          (
            x ∷ xs ++ rest,
            ground (arith, at, eq, append_assoc buf (x ∷ xs) rest),
            Reads.more x xs rest at (omega arith) r,
          )

  -- What a read returns as a whole: it fails only with its first call, and gives the bytes of its reads otherwise.
  abbrev pub Whole : ℕ → Got → Type 0
  Whole nbytes (failed e) = (0 < nbytes) × (tread etime input 0 nbytes ≡ failed e)
  Whole nbytes (got bytes) = Reads 0 nbytes bytes × (length bytes ≤ nbytes)

  Reads-length : {call nleft : ℕ} {bytes : List ℕ} → Reads call nleft bytes → length bytes ≤ nleft
  Reads-length Reads.complete = omega arith
  Reads-length (Reads.broken e left at) = omega arith
  Reads-length (Reads.ended left at) = omega arith
  Reads-length (Reads.more x xs ys at size r) =
      omega (arith, size, Reads-length r, length-append xs ys)

  first_round :
      Bounded
      → (k : ℕ) (g : Got) → tread etime input 0 (suc k) ≡ g
      → (r : Got) × (treadn etime input (suc k) ≡ some r) × Whole (suc k) r
  unfolding treadn treadn_loop
  first_round bounded k (failed e) at = (failed e, ground (arith, at), (omega arith, at))
  first_round bounded k (got []) at =
      let r : Reads 0 (suc k) [] = Reads.ended (omega arith) at in
      (got [], ground (arith, at), (r, Reads-length r))
  first_round bounded k (got (x ∷ xs)) at =
      let size = tread_bounded bounded 0 (suc k) (x ∷ xs) at in
      let (rest, eq, r) =
        loop_lem bounded (suc k) (suc k) 1 (suc k - length (x ∷ xs)) (x ∷ xs) (omega arith)
          (omega arith) in
      let all : Reads 0 (suc k) (x ∷ xs ++ rest) = Reads.more x xs rest at (omega arith) r in
      (got (x ∷ xs ++ rest), ground (arith, at, eq), (all, Reads-length all))

  -- With a read that gives as many bytes as it may at most, treadn returns within a round for each byte and one more.
  -- It fails only with its first call of tread; otherwise it returns the bytes that its calls give, one after another,
  -- up to the first that fails or that is at the end of the input, or until nothing is left to read.
  pub treadn-Whole :
      Bounded → (nbytes : ℕ) → (r : Got) × (treadn etime input nbytes ≡ some r) × Whole nbytes r
  unfolding treadn treadn_loop
  treadn-Whole bounded zero = (got [], refl, (Reads.complete, omega arith))
  treadn-Whole bounded (suc k) = first_round bounded k (tread etime input 0 (suc k)) refl
