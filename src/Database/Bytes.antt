-- ===== src/Database/Bytes.antt =====
-- Bytes read and written at an offset of a file.
use unix_system_programming.Prelude.{
  ℕ, zero, suc, ◌+◌, ◌≤◌, ◌≡◌, ◌⊎◌, inl, inr, refl, sym, ap, ◌∙◌, List, [], ◌∷◌, ◌++◌, length, take,
  drop, get_or, arith,
}
use unix_system_programming.Clib.{Text}
use unix_system_programming.Database.{read_at, write_at}

pub take_all : (xs : List ℕ) → take (length xs) xs ≡ xs
take_all [] = refl
take_all (x ∷ xs) = ap (λ (l : List ℕ). x ∷ l) (take_all xs)

-- What was written is read back, and what lies beside it is what was there.
pub read_at-write_at :
    (offset : ℕ) (bytes file : List ℕ)
    → read_at offset (length bytes) (write_at offset bytes file) ≡ bytes
read_at-write_at zero [] file = refl
read_at-write_at zero (b ∷ bs) [] = ap (λ (xs : List ℕ). b ∷ xs) (take_all bs)
read_at-write_at zero (b ∷ bs) (x ∷ file) =
    ap (λ (xs : List ℕ). b ∷ xs) (read_at-write_at zero bs file)
read_at-write_at (suc n) [] [] = refl
read_at-write_at (suc n) (b ∷ bs) [] = read_at-write_at n (b ∷ bs) []
read_at-write_at (suc n) [] (x ∷ file) = read_at-write_at n [] file
read_at-write_at (suc n) (b ∷ bs) (x ∷ file) = read_at-write_at n (b ∷ bs) file

pub read_at-write_at_beside :
    (i n offset : ℕ) (bytes file : List ℕ)
    → i + n ≤ length file
    → (i + n ≤ offset) ⊎ (offset + length bytes ≤ i)
    → read_at i n (write_at offset bytes file) ≡ read_at i n file
read_at-write_at_beside i zero o bs file fits apart = refl
read_at-write_at_beside i (suc m) o bs [] fits apart = ground arith
read_at-write_at_beside i (suc m) zero [] (x ∷ file) fits apart = refl
read_at-write_at_beside zero (suc m) zero (b ∷ bs) (x ∷ file) fits apart = ground arith
read_at-write_at_beside (suc i) (suc m) zero (b ∷ bs) (x ∷ file) fits apart =
    read_at-write_at_beside i (suc m) zero bs file (omega arith) (inr (ground arith))
read_at-write_at_beside zero (suc m) (suc o) bs (x ∷ file) fits apart =
    ap (λ (l : List ℕ). x ∷ l)
      (read_at-write_at_beside zero m o bs file (omega arith) (inl (ground arith)))
read_at-write_at_beside (suc i) (suc m) (suc o) bs (x ∷ file) fits apart =
    read_at-write_at_beside i (suc m) o bs file (omega arith)
      (elim apart [ inl p ↦ inl (omega (arith, p)) | inr q ↦ inr (omega (arith, q)) ])

pub last_byte : (text : Text) (c : ℕ) → get_or (text ++ c ∷ []) (length text) 0 ≡ c
last_byte [] c = refl
last_byte (x ∷ xs) c = last_byte xs c

pub front : (text : Text) (c : ℕ) → take (length text) (text ++ c ∷ []) ≡ text
front [] c = refl
front (x ∷ xs) c = ap (λ (l : Text). x ∷ l) (front xs c)

take_append : (xs ys : List ℕ) → take (length xs) (xs ++ ys) ≡ xs
take_append [] ys = refl
take_append (x ∷ xs) ys = ap (λ (l : List ℕ). x ∷ l) (take_append xs ys)

drop_append : (xs ys : List ℕ) → drop (length xs) (xs ++ ys) ≡ ys
drop_append [] ys = refl
drop_append (x ∷ xs) ys = drop_append xs ys

-- The same at a number that is known to be the length.
pub take-append :
    (n : ℕ) (xs ys : List ℕ) → length xs ≡ n → (take n (xs ++ ys) ≡ xs) × (drop n (xs ++ ys) ≡ ys)
take-append n xs ys h = rw (sym h) (take_append xs ys, drop_append xs ys)

drop_nil : (n : ℕ) → drop {A = ℕ} n [] ≡ []
drop_nil zero = refl
drop_nil (suc n) = refl

drop-drop : (m n : ℕ) (xs : List ℕ) → drop m (drop n xs) ≡ drop (n + m) xs
drop-drop m zero xs = ap (λ (k : ℕ). drop k xs) (omega arith)
drop-drop m (suc n) [] = drop_nil m ∙ sym (drop_nil (suc n + m))
drop-drop m (suc n) (x ∷ xs) = drop-drop m n xs ∙ ap (λ (k : ℕ). drop k (x ∷ xs)) (suc_add n m)
  where
    suc_add : (a b : ℕ) → suc (a + b) ≡ suc a + b
    suc_add a b = omega arith

take-suc : (n b : ℕ) (file : List ℕ) → take (suc n + b) file ≡ take (suc (n + b)) file
take-suc n b file = let e : suc n + b ≡ suc (n + b) = omega arith in ap (λ (k : ℕ). take k file) e

split_take :
    (xs ys file : List ℕ) (b : ℕ)
    → take (length xs + b) file ≡ xs ++ ys
    → (take (length xs) file ≡ xs) × (take b (drop (length xs) file) ≡ ys)
split_take [] ys file b h = (refl, ap (λ (k : ℕ). take k file) (omega arith) ∙ h)
split_take (x ∷ xs) ys [] b h = cc (sym (take-suc (length xs) b []) ∙ h)
split_take (x ∷ xs) ys (y ∷ file) b h =
    let e = sym (take-suc (length xs) b (y ∷ file)) ∙ h in
    let (p, q) = split_take xs ys file b (cc e) in (cc (e, p), q)

-- Two pieces that lie one after the other are read one after the other.
pub read_at-append :
    (offset n b : ℕ) (xs ys file : List ℕ)
    → length xs ≡ n
    → read_at offset (n + b) file ≡ xs ++ ys
    → (read_at offset n file ≡ xs) × (read_at (offset + n) b file ≡ ys)
read_at-append offset n b xs ys file size h =
    let (p, q) =
      split_take xs ys (drop offset file) b
        (ap (λ (k : ℕ). take (k + b) (drop offset file)) size ∙ h) in
    (
      ap (λ (k : ℕ). take k (drop offset file)) (sym size) ∙ p,
      ap (λ (l : List ℕ). take b l)
            (sym (drop-drop n offset file) ∙ ap (λ (k : ℕ). drop k (drop offset file)) (sym size))
          ∙ q,
    )

-- A write never makes a file shorter, and behind the end it makes it longer by what is written.
pub le-length-write_at :
    (offset : ℕ) (bytes file : List ℕ) → length file ≤ length (write_at offset bytes file)
le-length-write_at zero [] file = omega arith
le-length-write_at zero (b ∷ bs) [] = omega arith
le-length-write_at zero (b ∷ bs) (x ∷ file) = omega (arith, le-length-write_at zero bs file)
le-length-write_at (suc n) [] [] = omega arith
le-length-write_at (suc n) (b ∷ bs) [] = omega arith
le-length-write_at (suc n) [] (x ∷ file) = omega (arith, le-length-write_at n [] file)
le-length-write_at (suc n) (b ∷ bs) (x ∷ file) = omega (arith, le-length-write_at n (b ∷ bs) file)

pub length-write_at_end :
    (bytes file : List ℕ) → length (write_at (length file) bytes file) ≡ length file + length bytes
length-write_at_end [] [] = omega arith
length-write_at_end (b ∷ bs) [] = omega arith
length-write_at_end [] (x ∷ file) = omega (arith, length-write_at_end [] file)
length-write_at_end (b ∷ bs) (x ∷ file) = omega (arith, length-write_at_end (b ∷ bs) file)
