-- ===== src/Database/Numbers/Laws.antt =====
-- What a number printed by sprintf is read as.
use native.Mathlib.Nat.{pow-succ'}
use unix_system_programming.Prelude.{
  ℕ, zero, suc, ◌+◌, ◌-◌, ◌*◌, ◌/◌, ◌%◌, ◌^◌, ◌<◌, ◌≤◌, ◌≡◌, refl, ap, ◌∙◌, true, false, [], ◌∷◌,
  ◌++◌, length, length-append, All, ltb, ltb→lt, ◌==◌, inl, inr, arith, Bool-cases,
}
use unix_system_programming.Clib.{Text, c_string, has_char}
use unix_system_programming.Database.{pos}
use unix_system_programming.Database.Numbers.{
  digits, decimal, spaces, pad, is_space, is_digit, digits_value, atol,
}

abbrev Digits : Text → Type 0
Digits [] = Unit
Digits (c ∷ cs) = (is_digit c ≡ true) × Digits cs

ltb-false : (a b : ℕ) → ltb a b ≡ false → b ≤ a
ltb-false a b h = ground arith

lt→ltb : (a b : ℕ) → a < b → ltb a b ≡ true
lt→ltb a b h = ground arith

is_digit-digit : (d : ℕ) → d < 10 → is_digit (b'0' + d) ≡ true
unfolding is_digit
is_digit-digit d h = ground (arith, h)

Digits-append : (xs ys : Text) → Digits xs → Digits ys → Digits (xs ++ ys)
Digits-append [] ys hx hy = hy
Digits-append (x ∷ xs) ys (h, hx) hy = (h, Digits-append xs ys hx hy)

digits-Digits : (fuel n : ℕ) → Digits (digits fuel n)
unfolding digits
digits-Digits zero n = (is_digit-digit (n % 10) (omega arith), tt)
digits-Digits (suc fuel) n = elim (Bool-cases (ltb n 10)) [
  | inl e ↦ rw e (is_digit-digit n (ltb→lt n 10 e), tt)
  | inr e ↦ rw e (
      Digits-append (digits fuel (n / 10)) _ (digits-Digits fuel (n / 10))
        (is_digit-digit (n % 10) (omega arith), tt))
]

-- Reading digits one after another.
digits_value-append :
    (acc : ℕ) (xs ys : Text)
    → Digits xs
    → digits_value acc (xs ++ ys) ≡ digits_value (digits_value acc xs) ys
unfolding digits_value
digits_value-append acc [] ys h = refl
digits_value-append acc (x ∷ xs) ys (h, hs) =
    rw h (digits_value-append (acc * 10 + (x - b'0')) xs ys hs)

one_digit : (acc d : ℕ) → d < 10 → digits_value acc ((b'0' + d) ∷ []) ≡ acc * 10 + d
unfolding digits_value
one_digit acc d h = rw (is_digit-digit d h) (omega arith)

digits_value-digits : (fuel n : ℕ) → n ≤ fuel → digits_value 0 (digits fuel n) ≡ n
unfolding digits
digits_value-digits zero n h = one_digit 0 (n % 10) (omega arith) ∙ omega arith
digits_value-digits (suc fuel) n h = elim (Bool-cases (ltb n 10)) [
  | inl e ↦ rw e (one_digit 0 n (ltb→lt n 10 e) ∙ omega arith)
  | inr e ↦
      let step = digits_value-digits fuel (n / 10) (omega (arith, ltb-false n 10 e)) in
      rw e (
        digits_value-append 0 (digits fuel (n / 10)) _ (digits-Digits fuel (n / 10))
        ∙ one_digit _ (n % 10) (omega arith)
        ∙ omega (arith, step))
]

-- Blanks in front are skipped, and text that begins with a digit, or is empty, has no sign.
atol-spaces : (k : ℕ) (text : Text) → atol (spaces k ++ text) ≡ atol text
unfolding atol is_space
atol-spaces zero text = refl
atol-spaces (suc k) text = atol-spaces k text

not_sign :
    (c : ℕ)
    → is_digit c ≡ true
    → (is_space c ≡ false) × ((c == b'-') ≡ false) × ((c == b'+') ≡ false)
unfolding is_digit is_space
not_sign c h = ground arith

atol-Digits : (text : Text) → Digits text → atol text ≡ pos (digits_value 0 text)
unfolding atol digits_value
atol-Digits [] h = refl
atol-Digits (c ∷ cs) (h, hs) = let (p, q, r) = not_sign c h in rw (p, q, r) refl

-- A number that sprintf has printed with blanks up to a width is the number that atol reads, whatever
-- the width.
pub atol-pad : (width n : ℕ) → atol (pad width n) ≡ pos n
unfolding pad decimal
atol-pad width n =
    atol-spaces _ (digits n n)
    ∙ atol-Digits (digits n n) (digits-Digits n n)
    ∙ ap pos (digits_value-digits n n (omega arith))

length-digits : (k fuel n : ℕ) → n < 10 ^ suc k → length (digits fuel n) ≤ suc k
unfolding digits
length-digits k zero n h = omega arith
length-digits zero (suc fuel) n h = rw (lt→ltb n 10 h) (omega arith)
length-digits (suc k) (suc fuel) n h = elim (Bool-cases (ltb n 10)) [
  | inl e ↦ rw e (omega arith)
  | inr e ↦
      let step = length-digits k fuel (n / 10) (omega (arith, h, pow-succ' 10 (suc k))) in
      rw e (omega (arith, step, length-append (digits fuel (n / 10)) ((b'0' + n % 10) ∷ [])))
]

length-spaces : (k : ℕ) (text : Text) → length (spaces k ++ text) ≡ k + length text
length-spaces zero text = omega arith
length-spaces (suc k) text = omega (arith, length-spaces k text)

-- A number that fits is printed at exactly the width.
pub length-pad : (k n : ℕ) → n < 10 ^ suc k → length (pad (suc k) n) ≡ suc k
unfolding pad decimal
length-pad k n h =
    omega (arith, length-spaces (suc k - length (digits n n)) (digits n n), length-digits k n n h)

-- No byte is NUL.
abbrev pub Full : Text → Type 0
Full = All (λ c. 0 < c)

pub c_string-Full : (s : Text) → Full s → c_string s ≡ s
unfolding c_string
c_string-Full [] h = refl
c_string-Full (zero ∷ cs) (h, hs) = ground arith
c_string-Full (suc c ∷ cs) (h, hs) = ground (arith, c_string-Full cs hs)

pub Full-append : (xs ys : Text) → Full xs → Full ys → Full (xs ++ ys)
Full-append [] ys hx hy = hy
Full-append (x ∷ xs) ys (h, hs) hy = (h, Full-append xs ys hs hy)

digits-Full : (fuel n : ℕ) → Full (digits fuel n)
unfolding digits
digits-Full zero n = (omega arith, tt)
digits-Full (suc fuel) n = elim (Bool-cases (ltb n 10)) [
  | inl e ↦ rw e (omega arith, tt)
  | inr e ↦
      rw e (Full-append (digits fuel (n / 10)) _ (digits-Full fuel (n / 10)) (omega arith, tt))
]

spaces-Full : (k : ℕ) (text : Text) → Full text → Full (spaces k ++ text)
spaces-Full zero text h = h
spaces-Full (suc k) text h = (omega arith, spaces-Full k text h)

pub c_string-pad : (k n : ℕ) → c_string (pad k n) ≡ pad k n
unfolding pad decimal
c_string-pad k n = c_string-Full _ (spaces-Full _ (digits n n) (digits-Full n n))

-- A number with no width: its digits, which are neither NUL nor the separator.
pub atol-decimal : (n : ℕ) → atol (decimal n) ≡ pos n
unfolding decimal
atol-decimal n =
    atol-Digits (digits n n) (digits-Digits n n) ∙ ap pos (digits_value-digits n n (omega arith))

no_char : (c : ℕ) (text : Text) → is_digit c ≡ false → Digits text → has_char c text ≡ false
unfolding has_char is_digit
no_char c [] other h = refl
no_char c (d ∷ ds) other (h, hs) = ground (arith, no_char c ds other)

-- No other character than a digit stands in a number.
pub has_char-decimal : (c n : ℕ) → is_digit c ≡ false → has_char c (decimal n) ≡ false
unfolding decimal
has_char-decimal c n other = no_char c (digits n n) other (digits-Digits n n)

pub decimal-Full : (n : ℕ) → Full (decimal n)
unfolding decimal
decimal-Full n = digits-Full n n

digits-NonEmpty : (fuel n : ℕ) → 1 ≤ length (digits fuel n)
unfolding digits
digits-NonEmpty zero n = omega arith
digits-NonEmpty (suc fuel) n = elim (Bool-cases (ltb n 10)) [
  | inl e ↦ rw e (omega arith)
  | inr e ↦ rw e (omega (arith, length-append (digits fuel (n / 10)) ((b'0' + n % 10) ∷ [])))
]

digits_value-stop :
    (acc c : ℕ) (rest : Text) → is_digit c ≡ false → digits_value acc (c ∷ rest) ≡ acc
unfolding digits_value
digits_value-stop acc c rest h = rw h refl

atol-stop :
    (text : Text) (c : ℕ) (rest : Text)
    → Digits text
    → 1 ≤ length text
    → is_digit c ≡ false
    → atol (text ++ c ∷ rest) ≡ pos (digits_value 0 text)
unfolding atol
atol-stop [] c rest h some_digit stop = ground arith
atol-stop (d ∷ ds) c rest (h, hs) some_digit stop =
    let (p, q, r) = not_sign d h in
    let all = digits_value-append 0 (d ∷ ds) (c ∷ rest) (h, hs) ∙ digits_value-stop _ c rest stop in
    rw (p, q, r) (ap pos all)

-- The same when what follows does not begin with a digit.
pub atol-decimal_stop :
    (n c : ℕ) (rest : Text) → is_digit c ≡ false → atol (decimal n ++ c ∷ rest) ≡ pos n
unfolding decimal
atol-decimal_stop n c rest stop =
    atol-stop (digits n n) c rest (digits-Digits n n) (digits-NonEmpty n n) stop
    ∙ ap pos (digits_value-digits n n (omega arith))

pub length-decimal :
    (k n : ℕ) → n < 10 ^ suc k → (1 ≤ length (decimal n)) × (length (decimal n) ≤ suc k)
unfolding decimal
length-decimal k n h = (digits-NonEmpty n n, length-digits k n n h)
