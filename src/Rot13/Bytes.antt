-- ===== src/Rot13/Bytes.antt =====
-- Files byte by byte, for apue.3e/advio/rot13c2.c.
use unix_system_programming.Prelude.{
  ℕ, zero, suc, ◌+◌, ◌-◌, ◌≤◌, ◌<◌, ◌≡◌, ◌⊎◌, inr, refl, sym, ap, ◌∙◌, List, [], ◌∷◌, map, length,
  Option, none, some, leb, if◌then◌else◌, arith,
}
use unix_system_programming.Database.{read_at, write_at}

-- The byte at an offset, if there is one.
abbrev pub byte_at : List ℕ → ℕ → Option ℕ
byte_at [] p = none
byte_at (x ∷ xs) zero = some x
byte_at (x ∷ xs) (suc p) = byte_at xs p

byte_at_nil : (p : ℕ) → byte_at [] p ≡ none
byte_at_nil zero = refl
byte_at_nil (suc p) = refl

-- A byte that is there and beside what is written stays.
pub write_at-beside :
    (o : ℕ) (bs file : List ℕ) (p v : ℕ)
    → byte_at file p ≡ some v
    → (p < o) ⊎ (o + length bs ≤ p)
    → byte_at (write_at o bs file) p ≡ some v
write_at-beside zero [] file p v at beside = at
write_at-beside zero (b ∷ bs) [] p v at beside = ground arith
write_at-beside zero (b ∷ bs) (x ∷ file) zero v at beside = ground arith
write_at-beside zero (b ∷ bs) (x ∷ file) (suc p) v at beside =
    write_at-beside zero bs file p v at (inr (ground arith))
write_at-beside (suc o) bs [] p v at beside = ground arith
write_at-beside (suc o) bs (x ∷ file) zero v at beside = ground arith
write_at-beside (suc o) bs (x ∷ file) (suc p) v at beside =
    write_at-beside o bs file p v at (ground arith)

-- What is written is there.
pub write_at-inside :
    (o : ℕ) (bs file : List ℕ) (q p : ℕ)
    → q ≡ o + p
    → p < length bs
    → byte_at (write_at o bs file) q ≡ byte_at bs p
write_at-inside o [] file q p e lt = ground arith
write_at-inside zero (b ∷ bs) [] q p e lt = ap (byte_at (b ∷ bs)) (omega arith)
write_at-inside zero (b ∷ bs) (x ∷ file) zero zero e lt = refl
write_at-inside zero (b ∷ bs) (x ∷ file) zero (suc p) e lt = ground arith
write_at-inside zero (b ∷ bs) (x ∷ file) (suc q) zero e lt = ground arith
write_at-inside zero (b ∷ bs) (x ∷ file) (suc q) (suc p) e lt =
    write_at-inside zero bs file q p (omega arith) (omega arith)
write_at-inside (suc o) (b ∷ bs) file zero p e lt = ground arith
write_at-inside (suc o) (b ∷ bs) [] (suc q) p e lt =
    write_at-inside o (b ∷ bs) [] q p (omega arith) lt
write_at-inside (suc o) (b ∷ bs) (x ∷ file) (suc q) p e lt =
    write_at-inside o (b ∷ bs) file q p (omega arith) lt

pub length-write_at-le :
    (o n : ℕ) (bs file : List ℕ)
    → length file ≤ n
    → o + length bs ≤ n
    → length (write_at o bs file) ≤ n
length-write_at-le zero n [] file h h2 = h
length-write_at-le zero n (b ∷ bs) [] h h2 = omega arith
length-write_at-le zero zero (b ∷ bs) (x ∷ file) h h2 = omega arith
length-write_at-le zero (suc n) (b ∷ bs) (x ∷ file) h h2 =
    omega (arith, length-write_at-le zero n bs file (omega arith) (omega arith))
length-write_at-le (suc o) n [] [] h h2 = omega arith
length-write_at-le (suc o) zero (b ∷ bs) [] h h2 = omega arith
length-write_at-le (suc o) (suc n) (b ∷ bs) [] h h2 =
    omega (arith, length-write_at-le o n (b ∷ bs) [] (omega arith) (omega arith))
length-write_at-le (suc o) zero bs (x ∷ file) h h2 = omega arith
length-write_at-le (suc o) (suc n) bs (x ∷ file) h h2 =
    omega (arith, length-write_at-le o n bs file (omega arith) (omega arith))

pub byte_at-read_at :
    (o n : ℕ) (file : List ℕ) (q p : ℕ)
    → q ≡ o + p
    → p < n
    → byte_at (read_at o n file) p ≡ byte_at file q
byte_at-read_at o zero file q p e lt = ground arith
byte_at-read_at zero (suc n) [] q p e lt = byte_at_nil p ∙ sym (byte_at_nil q)
byte_at-read_at zero (suc n) (x ∷ file) zero zero e lt = refl
byte_at-read_at zero (suc n) (x ∷ file) zero (suc p) e lt = ground arith
byte_at-read_at zero (suc n) (x ∷ file) (suc q) zero e lt = ground arith
byte_at-read_at zero (suc n) (x ∷ file) (suc q) (suc p) e lt =
    byte_at-read_at zero n file q p (omega arith) (omega arith)
byte_at-read_at (suc o) (suc n) [] q p e lt = byte_at_nil p ∙ sym (byte_at_nil q)
byte_at-read_at (suc o) (suc n) (x ∷ file) zero p e lt = ground arith
byte_at-read_at (suc o) (suc n) (x ∷ file) (suc q) p e lt =
    byte_at-read_at o (suc n) file q p (omega arith) lt

pub length-read_at :
    (o n : ℕ) (file : List ℕ)
    → o ≤ length file
    → length (read_at o n file) ≡ (if leb n (length file - o) then n else length file - o)
length-read_at zero zero file h = ground arith
length-read_at zero (suc n) [] h = ground arith
length-read_at zero (suc n) (x ∷ file) h = ground (arith, length-read_at zero n file)
length-read_at (suc o) n [] h = ground arith
length-read_at (suc o) n (x ∷ file) h =
    length-read_at o n file (omega arith)
    ∙ ap (λ (k : ℕ). if leb n k then n else k) {x = length file - o} {y = suc (length file) - suc o}
        (omega arith)

pub length-map : (f : ℕ → ℕ) (xs : List ℕ) → length (map f xs) ≡ length xs
length-map f [] = refl
length-map f (x ∷ xs) = ap suc_of (length-map f xs)
  where
    suc_of : ℕ → ℕ
    suc_of n = suc n

-- The byte of a translated file is the translation of the file's byte.
abbrev pub each : (ℕ → ℕ) → Option ℕ → Option ℕ
each f none = none
each f (some x) = some (f x)

pub byte_at-map : (f : ℕ → ℕ) (xs : List ℕ) (p : ℕ) → byte_at (map f xs) p ≡ each f (byte_at xs p)
byte_at-map f [] p = refl
byte_at-map f (x ∷ xs) zero = refl
byte_at-map f (x ∷ xs) (suc p) = byte_at-map f xs p

pub byte_at-some : (xs : List ℕ) (p : ℕ) → p < length xs → (v : ℕ) × (byte_at xs p ≡ some v)
byte_at-some [] p lt = ground arith
byte_at-some (x ∷ xs) zero lt = (x, refl)
byte_at-some (x ∷ xs) (suc p) lt = byte_at-some xs p (omega arith)

-- Two files with the same bytes and the same length.
pub same_bytes :
    (xs ys : List ℕ)
    → length xs ≤ length ys
    → ((p : ℕ) → p < length ys → byte_at xs p ≡ byte_at ys p)
    → xs ≡ ys
same_bytes [] [] h same = refl
same_bytes (x ∷ xs) [] h same = ground arith
same_bytes [] (y ∷ ys) h same = ground (arith, same 0)
same_bytes (x ∷ xs) (y ∷ ys) h same =
    let first : x ≡ y = ground (arith, same 0) in
    let rest : xs ≡ ys = same_bytes xs ys (omega arith) (λ p lt. same (suc p) (omega arith)) in cc
