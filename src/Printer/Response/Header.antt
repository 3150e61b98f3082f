-- ===== src/Printer/Response/Header.antt =====
-- The end of the HTTP header in apue.3e/printer/printd.c: it is found where it stands, and never read on for.
use unix_system_programming.Prelude.{
  ℕ, zero, suc, ◌+◌, ◌≤◌, ◌<◌, ◌≡◌, inl, inr, refl, sym, subst, true, false, List, none, some, ltb,
  leb, Bool-cases, arith,
}
use unix_system_programming.Printer.Reads.{Input}
use unix_system_programming.Printer.Response.{
  Buffer, ends_at, at_end, unfound, scan_header, header_end, next_round, found_at,
}

-- No end of the header stands among the bytes from an offset on.
abbrev pub Endless : List ℕ → ℕ → ℕ → Type 0
Endless bp i datsz = (k : ℕ) → i ≤ k → k + 2 < datsz → ends_at bp k ≡ some false

scan_header-Endless :
    (fuel : ℕ) (bp : List ℕ) (i datsz : ℕ)
    → Endless bp i datsz
    → i < datsz
    → (j : ℕ) × (scan_header fuel bp i datsz ≡ unfound j) × (i ≤ j) × (j < datsz)
unfolding scan_header
scan_header-Endless zero bp i datsz none_there lt = (i, refl, omega arith, lt)
scan_header-Endless (suc fuel) bp i datsz none_there lt = elim (Bool-cases (ltb (i + 2) datsz)) [
  | inr e ↦ (i, rw (e, scan_header) refl, omega arith, lt)
  | inl e ↦
      let (j, eq, le, lt2) =
        scan_header-Endless fuel bp (i + 1) datsz (λ k h. none_there k (omega arith))
          (ground arith) in
      let no_end = none_there i (omega arith) (ground arith) in
      (j, rw (e, no_end, scan_header) eq, omega arith, lt2)
]

scan_header-at_end :
    (fuel : ℕ) (bp : List ℕ) (d i datsz : ℕ)
    → Endless bp i (i + d + 2)
    → ends_at bp (i + d) ≡ some true
    → i + d + 2 < datsz
    → d < fuel
    → scan_header fuel bp i datsz ≡ at_end (i + d + 3)
unfolding scan_header
scan_header-at_end zero bp d i datsz before at lt enough = ground arith
scan_header-at_end (suc fuel) bp zero i datsz before at lt enough =
    let e : ltb (i + 2) datsz ≡ true = ground arith in
    let here : i + 0 ≡ i = omega arith in
    let there : ends_at bp i ≡ some true = subst (λ (k : ℕ). ends_at bp k ≡ some true) here at in
    rw (here, e, there, scan_header) refl
scan_header-at_end (suc fuel) bp (suc d) i datsz before at lt enough =
    let e : ltb (i + 2) datsz ≡ true = ground arith in
    let later : i + suc d ≡ (i + 1) + d = omega arith in
    let rest =
      scan_header-at_end fuel bp d (i + 1) datsz (λ k h l. before k (omega arith) (omega arith))
        (rw (sym later) at) (omega arith) (omega arith) in
    rw (later, e, before i (omega arith) (omega arith), scan_header) rest

module _ (etime : ℕ) (input : Input) where
  -- When the first end of the header stands among the bytes that were read, and a byte follows it, the loop of
  -- printer_status ends there in its first round.
  pub header_end-found :
      (grown : List ℕ) (i datsz : ℕ) (b : Buffer) (d fuel : ℕ)
      → Endless b.bytes i (i + d + 2)
      → ends_at b.bytes (i + d) ≡ some true
      → i + d + 3 < datsz
      → header_end etime input (suc fuel) grown i datsz b ≡ some (found_at (i + d + 3) datsz b)
  unfolding header_end
  header_end-found grown i datsz b d fuel before at inside =
      let scan = scan_header-at_end datsz b.bytes d i datsz before at (omega arith) (omega arith) in
      let short : leb datsz (i + d + 3) ≡ false = ground arith in
      rw (scan, short, header_end, next_round) refl

  -- When bytes are left and no end of the header stands among them, the loop never ends: it does not read on.
  pub header_end-Endless :
      (fuel : ℕ) (grown : List ℕ) (i datsz : ℕ) (b : Buffer)
      → Endless b.bytes i datsz
      → i < datsz
      → header_end etime input fuel grown i datsz b ≡ none
  unfolding header_end
  header_end-Endless zero grown i datsz b none_there lt = refl
  header_end-Endless (suc fuel) grown i datsz b none_there lt =
      let (j, scan, le, lt2) = scan_header-Endless datsz b.bytes i datsz none_there lt in
      let short : leb datsz j ≡ false = ground arith in
      rw (scan, short, header_end, next_round)
        (header_end-Endless fuel grown j datsz b (λ k h. none_there k (omega arith)) lt2)
