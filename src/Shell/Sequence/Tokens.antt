-- ===== src/Shell/Sequence/Tokens.antt =====
-- The loops over strtok and the trimming loops, against descriptions without loops.
use unix_system_programming.Prelude.{
  ℕ, zero, suc, ◌≤◌, ◌<◌, Bool, false, [], ◌∷◌, ◌≡◌, refl, sym, ap, ◌∙◌, none, some, length, ◌==◌,
  Bool-cases, inl, inr, arith,
}
use unix_system_programming.Clib.Pieces.{pieces, non_empty, all_pieces}
use unix_system_programming.Clib.{Text, skip_delims, cut_token, strtok}
use unix_system_programming.Shell.Sequence.{tokens}

abbrev pub is_delim : ℕ → ℕ → Bool
is_delim d c = c == d

non_empty-skip_delims :
    (d : ℕ) (s : Text)
    → non_empty (all_pieces (is_delim d) (skip_delims d s)) ≡ non_empty (all_pieces (is_delim d) s)
unfolding skip_delims pieces non_empty
non_empty-skip_delims d [] = refl
non_empty-skip_delims d (c ∷ cs) = elim (Bool-cases (c == d)) [
  | inl e ↦ rw e (non_empty-skip_delims d cs)
  | inr e ↦ rw e (rw e)
]

skip_delims-head :
    (d : ℕ) (s : Text) (c : ℕ) (cs : Text) → skip_delims d s ≡ c ∷ cs → (c == d) ≡ false
unfolding skip_delims
skip_delims-head d [] c cs h = cc
skip_delims-head d (x ∷ xs) c cs h = ground (arith, skip_delims-head d xs c cs)

length-skip_delims : (d : ℕ) (s : Text) → length (skip_delims d s) ≤ length s
unfolding skip_delims
length-skip_delims d [] = omega arith
length-skip_delims d (c ∷ cs) = ground (arith, length-skip_delims d cs)

cut_token-pieces : (d : ℕ) (s : Text) → (cut_token d s).0 ≡ (pieces (is_delim d) s).0
unfolding cut_token pieces
cut_token-pieces d [] = refl
cut_token-pieces d (c ∷ cs) = elim (Bool-cases (c == d)) [
  | inl e ↦ rw e
  | inr e ↦ rw e (ap (◌∷◌ c) (cut_token-pieces d cs))
]

cut_token_rest :
    (d : ℕ) (s : Text)
    → non_empty (all_pieces (is_delim d) (cut_token d s).1) ≡ non_empty (pieces (is_delim d) s).1
unfolding cut_token pieces non_empty
cut_token_rest d [] = refl
cut_token_rest d (c ∷ cs) = elim (Bool-cases (c == d)) [
  | inl e ↦ rw e
  | inr e ↦ rw e (cut_token_rest d cs)
]

length-cut_token : (d : ℕ) (s : Text) → length (cut_token d s).1 ≤ length s
unfolding cut_token
length-cut_token d [] = omega arith
length-cut_token d (c ∷ cs) = ground (arith, length-cut_token d cs)

first_token :
    (d c : ℕ) (cs : Text)
    → (c == d) ≡ false
    → non_empty (all_pieces (is_delim d) (c ∷ cs))
      ≡ (cut_token d (c ∷ cs)).0 ∷ non_empty (all_pieces (is_delim d) (cut_token d (c ∷ cs)).1)
unfolding cut_token pieces non_empty
first_token d c cs e = rw e (λ i. (c ∷ sym (cut_token-pieces d cs) i) ∷ sym (cut_token_rest d cs) i)

length-first_token :
    (d c : ℕ) (cs : Text) → (c == d) ≡ false → length (cut_token d (c ∷ cs)).1 < length (c ∷ cs)
unfolding cut_token
length-first_token d c cs e = ground (arith, length-cut_token d cs)

-- A call of strtok: no token is left, or the first one is returned and a shorter text is left.
pub data Call (d : ℕ) (s : Text) : Type 0 where
  nothing : strtok d s ≡ none → non_empty (all_pieces (is_delim d) s) ≡ [] → Call d s
  token :
      (t rest : Text)
      → strtok d s ≡ some (t, rest)
      → length rest < length s
      → non_empty (all_pieces (is_delim d) s) ≡ t ∷ non_empty (all_pieces (is_delim d) rest)
      → Call d s

strtok-Call : (d : ℕ) (s : Text) → Call d s
unfolding strtok
strtok-Call d s = go (skip_delims d s) refl
  where
    same :
        non_empty (all_pieces (is_delim d) s)
        ≡ non_empty (all_pieces (is_delim d) (skip_delims d s))
    same = sym (non_empty-skip_delims d s)

    go : (t : Text) → skip_delims d s ≡ t → Call d s
    go [] e = nothing (rw (e, strtok)) (same ∙ rw e (unfold pieces non_empty in refl))
    go (c ∷ cs) e =
        let other = skip_delims-head d s c cs e in
        let shorter = length-skip_delims d s in
        let e' : length (skip_delims d s) ≡ length (c ∷ cs) = ap (λ (x : Text). length x) e in
        token (cut_token d (c ∷ cs)).0 (cut_token d (c ∷ cs)).1 (rw (e, strtok))
          (omega (arith, length-first_token d c cs other, shorter, e'))
          (same ∙ rw e (first_token d c cs other))

non_empty-nil : (d : ℕ) → non_empty (all_pieces (is_delim d) []) ≡ []
unfolding pieces non_empty
non_empty-nil d = refl

-- With the length of the text as fuel the loop over strtok gives the pieces between delimiters
-- that are not empty, in order.
pub tokens-pieces :
    (fuel d : ℕ) (s : Text)
    → length s ≤ fuel
    → tokens fuel d s ≡ non_empty (all_pieces (is_delim d) s)
unfolding tokens
tokens-pieces zero d [] h = sym (non_empty-nil d)
tokens-pieces zero d (c ∷ cs) h = absurd (omega arith)
tokens-pieces (suc fuel) d s h = elim (strtok-Call d s) [
  | nothing e n ↦ rw (e, tokens) (sym n)
  | token t rest e less n ↦
      rw (e, tokens) (ap (◌∷◌ t) (tokens-pieces fuel d rest (omega arith)) ∙ sym n)
]
