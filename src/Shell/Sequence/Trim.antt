-- ===== src/Shell/Sequence/Trim.antt =====
-- The trimming loops: what stands between the spaces at either end.
use unix_system_programming.Prelude.{
  ℕ, zero, suc, ◌-◌, [], ◌∷◌, ◌++◌, ◌≡◌, ◌≢◌, refl, sym, ap, ◌∙◌, length, take, get_or, arith,
  append-nil, append_assoc, length-append,
}
use unix_system_programming.Clib.{Text, skip_delims}
use unix_system_programming.Shell.Sequence.{trim_end, trim}

abbrev pub spaces : ℕ → Text
spaces zero = []
spaces (suc n) = b' ' ∷ spaces n

spaces-concat : (n : ℕ) → spaces (suc n) ≡ spaces n ++ b' ' ∷ []
spaces-concat zero = refl
spaces-concat (suc n) = ap (◌∷◌ b' ') (spaces-concat n)

skip_delims-spaces : (n : ℕ) (s : Text) → skip_delims b' ' (spaces n ++ s) ≡ skip_delims b' ' s
unfolding skip_delims
skip_delims-spaces zero s = refl
skip_delims-spaces (suc n) s = skip_delims-spaces n s

get_or_last : (xs : Text) (c : ℕ) → get_or (xs ++ c ∷ []) (length xs) 0 ≡ c
get_or_last [] c = refl
get_or_last (x ∷ xs) c = get_or_last xs c

take_front : (xs ys : Text) → take (length xs) (xs ++ ys) ≡ xs
take_front [] ys = refl
take_front (x ∷ xs) ys = ap (◌∷◌ x) (take_front xs ys)

-- One round of the loop that cuts off trailing spaces, and its end.
trim_end-space :
    (x : ℕ) (xs : Text)
    → trim_end ((x ∷ xs) ++ b' ' ∷ []) (suc (length xs)) ≡ trim_end (x ∷ xs) (length xs)
unfolding trim_end
trim_end-space x xs = rw (get_or_last xs b' ', trim_end) (rw (take_front xs (b' ' ∷ [])))

trim_end-stop : (xs : Text) (z : ℕ) → z ≢ b' ' → trim_end (xs ++ z ∷ []) (length xs) ≡ xs ++ z ∷ []
unfolding trim_end
trim_end-stop [] z h = refl
trim_end-stop (x ∷ xs) z h = rw (get_or_last xs z, trim_end) (ground arith)

-- A text with a last byte that is no space.
pub record HasEnd (core : Text) : Type 0 where
  pub before : Text
  pub last : ℕ
  pub from_right : core ≡ before ++ last ∷ []
  pub last_no_space : last ≢ b' '

length-concat : (xs : Text) (c : ℕ) → length (xs ++ c ∷ []) ≡ suc (length xs)
length-concat xs c = omega (arith, length-append xs (c ∷ []))

trim_end-spaces :
    (n x : ℕ) (xs : Text)
    → trim_end (x ∷ (xs ++ spaces n)) (length (xs ++ spaces n)) ≡ trim_end (x ∷ xs) (length xs)
trim_end-spaces zero x xs = rw append-nil
trim_end-spaces (suc n) x xs =
    let longer : xs ++ spaces (suc n) ≡ (xs ++ spaces n) ++ b' ' ∷ [] =
      ap (λ (l : Text). xs ++ l) (spaces-concat n) ∙ sym (append_assoc xs (spaces n) (b' ' ∷ [])) in
    ap (λ (l : Text). trim_end (x ∷ l) (length l)) longer
    ∙ ap (trim_end (x ∷ ((xs ++ spaces n) ++ b' ' ∷ []))) (length-concat (xs ++ spaces n) b' ')
    ∙ trim_end-space x (xs ++ spaces n)
    ∙ trim_end-spaces n x xs

trim_end-HasEnd : (x : ℕ) (xs : Text) → HasEnd (x ∷ xs) → trim_end (x ∷ xs) (length xs) ≡ x ∷ xs
trim_end-HasEnd x xs e =
    let size : length xs ≡ length e.before =
      omega (arith, ap (λ (l : Text). length l) e.from_right, length-concat e.before e.last) in
    ap (trim_end (x ∷ xs)) size
    ∙ ap (λ (l : Text). trim_end l (length e.before)) e.from_right
    ∙ trim_end-stop e.before e.last e.last_no_space
    ∙ sym e.from_right

-- Trimming takes the spaces at both ends of a text away, and nothing else.
pub trim-spaces :
    (m n x : ℕ) (xs : Text)
    → x ≢ b' '
    → HasEnd (x ∷ xs)
    → trim (spaces m ++ (x ∷ (xs ++ spaces n))) ≡ x ∷ xs
unfolding trim
trim-spaces m n x xs no_space e =
    let lead : skip_delims b' ' (spaces m ++ (x ∷ (xs ++ spaces n))) ≡ x ∷ (xs ++ spaces n) =
      skip_delims-spaces m (x ∷ (xs ++ spaces n)) ∙ (unfold skip_delims in ground arith) in
    ap (λ (l : Text). trim_end l (length l - 1)) lead
    ∙ ap (trim_end (x ∷ (xs ++ spaces n))) (omega arith)
    ∙ trim_end-spaces n x xs
    ∙ trim_end-HasEnd x xs e
