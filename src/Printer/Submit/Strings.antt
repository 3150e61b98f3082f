-- ===== src/Printer/Submit/Strings.antt =====
-- strcpy, strncpy and strncat into the arrays of print.c.
use unix_system_programming.Prelude.{
  ℕ, zero, suc, ◌+◌, ◌-◌, ◌≤◌, ◌<◌, ◌≡◌, ◌≢◌, refl, sym, ap, ◌∙◌, List, [], ◌∷◌, ◌++◌, length, take,
  drop, length-append, All, append_assoc, arith,
}
use unix_system_programming.Clib.{Text, c_string}
use unix_system_programming.Database.{write_at}
use unix_system_programming.Printer.Submit.{strcpy, padded, strncat}

-- A text has no NUL.
abbrev pub IsText : Text → Type 0
IsText t = All (λ c. c ≢ 0) t

write_at_front :
    (bs xs : List ℕ) → length bs ≤ length xs → write_at 0 bs xs ≡ bs ++ drop (length bs) xs
write_at_front [] [] h = refl
write_at_front [] (x ∷ xs) h = refl
write_at_front (b ∷ bs) [] h = ground arith
write_at_front (b ∷ bs) (x ∷ xs) h = ground (arith, write_at_front bs xs)

c_string-append : (t rest : Text) → IsText t → c_string (t ++ 0 ∷ rest) ≡ t
unfolding c_string
c_string-append [] rest h = refl
c_string-append (c ∷ t) rest (nonzero, h) = ground (arith, c_string-append t rest h)

pub length-drop : (n : ℕ) (xs : List ℕ) → length (drop n xs) ≡ length xs - n
length-drop zero xs = omega arith
length-drop (suc n) [] = omega arith
length-drop (suc n) (x ∷ xs) = omega (arith, length-drop n xs)

write_at_behind :
    (n : ℕ) (a r bs : List ℕ) → length a ≡ n → write_at n bs (a ++ r) ≡ a ++ write_at 0 bs r
write_at_behind zero [] r bs e = refl
write_at_behind zero (x ∷ a) r bs e = ground arith
write_at_behind (suc n) [] r bs e = ground arith
write_at_behind (suc n) (x ∷ a) r bs e = ground (arith, write_at_behind n a r bs)

strcpy-shape :
    (t room : Text) → length t < length room → strcpy t room ≡ t ++ 0 ∷ drop (suc (length t)) room
unfolding strcpy
strcpy-shape t room short =
    let n : length (t ++ 0 ∷ []) ≡ suc (length t) = length-append t (0 ∷ []) ∙ omega arith in
    write_at_front (t ++ 0 ∷ []) room (omega (arith, n))
    ∙ rw n (append_assoc t (0 ∷ []) (drop (suc (length t)) room))

-- strcpy into an array that holds the text and its NUL.
pub strcpy-fits :
    (t room : Text)
    → IsText t
    → length t < length room
    → (length (strcpy t room) ≡ length room) × (c_string (strcpy t room) ≡ t)
strcpy-fits t room ok short = rw (strcpy-shape t room short) (
  length-append t (0 ∷ drop (suc (length t)) room)
      ∙ omega (arith, length-drop (suc (length t)) room),
  c_string-append t _ ok,
)

length-padded : (t : Text) (n : ℕ) → length (padded t n) ≡ n
unfolding padded
length-padded t zero = refl
length-padded [] (suc n) = ap suc (length-padded [] n)
length-padded (c ∷ t) (suc n) = ap suc (length-padded t n)

c_string-padded :
    (t : Text) (n : ℕ) (rest : List ℕ) → IsText t → c_string (padded t n ++ 0 ∷ rest) ≡ take n t
unfolding padded c_string
c_string-padded t zero rest ok = refl
c_string-padded [] (suc n) rest ok = refl
c_string-padded (c ∷ t) (suc n) rest (nonzero, ok) = ground (arith, c_string-padded t n rest ok)

take_all : (n : ℕ) (xs : List ℕ) → length xs ≤ n → take n xs ≡ xs
take_all zero [] h = refl
take_all zero (x ∷ xs) h = ground arith
take_all (suc n) [] h = refl
take_all (suc n) (x ∷ xs) h = ground (arith, take_all n xs)

pub drop-IsText : (n : ℕ) (t : Text) → IsText t → IsText (drop n t)
drop-IsText zero t ok = ok
drop-IsText (suc n) [] ok = tt
drop-IsText (suc n) (c ∷ t) (nonzero, ok) = drop-IsText n t ok

append-IsText : (s t : Text) → IsText s → IsText t → IsText (s ++ t)
append-IsText [] t ok well = well
append-IsText (c ∷ s) t (nonzero, ok) well = (nonzero, append-IsText s t ok well)

-- strncpy of k bytes, and a NUL behind them.
pub padded-fits :
    (name room : Text) (k : ℕ)
    → IsText name
    → length room ≡ suc k
    → (length (write_at k (0 ∷ []) (write_at 0 (padded name k) room)) ≡ suc k)
      × (c_string (write_at k (0 ∷ []) (write_at 0 (padded name k) room)) ≡ take k name)
padded-fits name room k ok size =
    let n : length (padded name k) ≡ k = length-padded name k in
    let one : length (drop k room) ≡ 1 = length-drop k room ∙ omega arith in
    let last : write_at 0 (0 ∷ []) (drop k room) ≡ 0 ∷ drop 1 (drop k room) =
      write_at_front (0 ∷ []) (drop k room) (omega (arith, one)) in
    let shape : write_at k (0 ∷ []) (write_at 0 (padded name k) room)
        ≡ padded name k ++ 0 ∷ drop 1 (drop k room) =
      ap (write_at k (0 ∷ [])) (
        write_at_front (padded name k) room (omega (arith, n))
        ∙ ap (λ (m : ℕ). padded name k ++ drop m room) n)
      ∙ write_at_behind k (padded name k) (drop k room) (0 ∷ []) n
      ∙ ap (λ (r : List ℕ). padded name k ++ r) last in
    rw shape (
      length-append (padded name k) (0 ∷ drop 1 (drop k room))
          ∙ omega (arith, n, one, length-drop 1 (drop k room)),
      c_string-padded name k _ ok,
    )

-- strncat onto a string that strcpy has put there.
pub strncat-strcpy :
    (pre t room : Text) (n : ℕ)
    → IsText pre
    → IsText t
    → length t ≤ n
    → length pre + length t < length room
    → (length (strncat (strcpy pre room) t n) ≡ length room)
      × (c_string (strncat (strcpy pre room) t n) ≡ pre ++ t)
unfolding strncat
strncat-strcpy pre t room n pre_ok ok few short =
    let rest = drop (suc (length pre)) room in
    let size : length rest ≡ length room - suc (length pre) = length-drop (suc (length pre)) room in
    let added : length (t ++ 0 ∷ []) ≡ suc (length t) = length-append t (0 ∷ []) ∙ omega arith in
    let front = c_string-append pre rest pre_ok in
    let shape : strncat (strcpy pre room) t n ≡ (pre ++ t) ++ 0 ∷ drop (suc (length t)) (0 ∷ rest) =
      ap (λ (b : List ℕ). strncat b t n) (strcpy-shape pre room (omega arith))
      ∙ rw (strncat, front, take_all n t few)
          (write_at_behind (length pre) pre (0 ∷ rest) (t ++ 0 ∷ []) refl
            ∙ ap (λ (r : List ℕ). pre ++ r)
                (write_at_front (t ++ 0 ∷ []) (0 ∷ rest) (omega (arith, added, size))
                  ∙ rw added (append_assoc t (0 ∷ []) (drop (suc (length t)) (0 ∷ rest))))
            ∙ sym (append_assoc pre t (0 ∷ drop (suc (length t)) (0 ∷ rest)))) in
    rw shape (
      length-append (pre ++ t) (0 ∷ drop (suc (length t)) (0 ∷ rest))
          ∙ omega (arith, length-append pre t, length-drop (length t) rest, size),
      c_string-append (pre ++ t) _ (append-IsText pre t pre_ok ok),
    )
