-- ===== src/Memstream/Slices.antt =====
-- Prefixes of a buffer that was written to, for apue.3e/exercises/fmemopen.c.
use unix_system_programming.Prelude.{
  ℕ, zero, suc, ◌+◌, ◌-◌, ◌≤◌, ◌≡◌, refl, sym, ap, ◌∙◌, List, [], ◌∷◌, length, take, drop, arith,
}
use unix_system_programming.Database.{write_at}
use unix_system_programming.Memstream.{min}
use unix_system_programming.Memstream.Bounds.{larger}

write_at_nil : (off : ℕ) (file : List ℕ) → write_at off [] file ≡ file
write_at_nil zero file = refl
write_at_nil (suc off) [] = refl
write_at_nil (suc off) (x ∷ file) = ap (λ (r : List ℕ). x ∷ r) (write_at_nil off file)

write_at-onto_nil : (bs : List ℕ) → write_at 0 bs [] ≡ bs
write_at-onto_nil [] = refl
write_at-onto_nil (b ∷ bs) = refl

pub take-write_at :
    (off v n : ℕ) (bs buf : List ℕ)
    → off ≤ v
    → v ≤ length buf
    → off + length bs ≤ length buf
    → n ≡ larger v (off + length bs)
    → take n (write_at off bs buf) ≡ write_at off bs (take v buf)
take-write_at zero v n [] buf le inside fits e = ap (λ (k : ℕ). take k buf) (ground arith)
take-write_at zero v zero (b ∷ bs) buf le inside fits e = ground arith
take-write_at zero v (suc n) (b ∷ bs) [] le inside fits e = ground arith
take-write_at zero zero (suc n) (b ∷ bs) (x ∷ buf) le inside fits e =
    ground (arith, take-write_at zero zero n bs buf, write_at-onto_nil bs)
take-write_at zero (suc v) (suc n) (b ∷ bs) (x ∷ buf) le inside fits e =
    ground (arith, take-write_at zero v n bs buf)
take-write_at (suc off) zero n bs buf le inside fits e = ground arith
take-write_at (suc off) (suc v) n bs [] le inside fits e = ground arith
take-write_at (suc off) (suc v) zero bs (x ∷ buf) le inside fits e = ground arith
take-write_at (suc off) (suc v) (suc n) bs (x ∷ buf) le inside fits e =
    ground (arith, take-write_at off v n bs buf)

pub take-write_at_end :
    (v n : ℕ) (bs buf : List ℕ) → v ≤ n → n ≤ length buf → take v (write_at n bs buf) ≡ take v buf
take-write_at_end zero n bs buf le h = refl
take-write_at_end (suc v) zero bs buf le h = ground arith
take-write_at_end (suc v) (suc n) bs [] le h = ground arith
take-write_at_end (suc v) (suc n) bs (x ∷ buf) le h =
    ap (λ (r : List ℕ). x ∷ r) (take-write_at_end v n bs buf (omega arith) (ground arith))

take-take : (len v : ℕ) (buf : List ℕ) → take (min len v) buf ≡ take len (take v buf)
take-take zero zero buf = ap (λ (k : ℕ). take k buf) {x = min 0 0} {y = 0} (ground arith)
take-take zero (suc v) buf = ap (λ (k : ℕ). take k buf) {x = min 0 (suc v)} {y = 0} (ground arith)
take-take (suc len) zero buf =
    ap (λ (k : ℕ). take k buf) {x = min (suc len) 0} {y = 0} (ground arith)
take-take (suc len) (suc v) [] = ground arith
take-take (suc len) (suc v) (x ∷ buf) = ground (arith, take-take len v buf)

take_nil : (n : ℕ) → take {A = ℕ} n [] ≡ []
take_nil zero = refl
take_nil (suc n) = refl

pub take-drop :
    (len p v : ℕ) (buf : List ℕ)
    → v ≤ length buf
    → take (min len (v - p)) (drop p buf) ≡ take len (drop p (take v buf))
take-drop len zero v buf h =
    ap (λ (k : ℕ). take (min len k) buf) (omega arith) ∙ take-take len v buf
take-drop len (suc p) zero buf h =
    ap (λ (k : ℕ). take k (drop (suc p) buf)) {y = 0} (ground arith) ∙ sym (take_nil len)
take-drop len (suc p) (suc v) [] h = ground arith
take-drop len (suc p) (suc v) (x ∷ buf) h =
    ap (λ (k : ℕ). take (min len k) (drop p buf)) (omega arith)
    ∙ take-drop len p v buf (ground arith)

pub take-min :
    (k : ℕ) (bytes : List ℕ)
    → (take (min (length bytes) k) bytes ≡ take k bytes)
      × (length (take k bytes) ≡ min (length bytes) k)
take-min zero [] = (ap (λ (n : ℕ). take n []) {x = min 0 0} {y = 0} (ground arith), ground arith)
take-min zero (b ∷ bytes) = (
  ap (λ (n : ℕ). take n (b ∷ bytes)) {x = min (suc (length bytes)) 0} {y = 0} (ground arith),
  ground arith,
)
take-min (suc k) [] = (take_nil _, ground arith)
take-min (suc k) (b ∷ bytes) = let (same, size) = take-min k bytes in (ground arith, ground arith)
