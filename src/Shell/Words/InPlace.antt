-- ===== src/Shell/Words/InPlace.antt =====
-- What the pointers of `parse` point to, against a description of a line's words that knows
-- nothing of buffers and offsets.
use unix_system_programming.Prelude.{
  ℕ, suc, ◌+◌, ◌-◌, ◌≤◌, not, Bool, true, false, List, [], ◌∷◌, ◌≡◌, refl, sym, ap, ◌∙◌, ◌≢◌, map,
  drop, inl, inr, All, arith, Bool-cases,
}
use unix_system_programming.Clib.Pieces.{pieces}
use unix_system_programming.Clib.{Text, c_string}
use unix_system_programming.Shell.Words.{is_blank, Parsed, scan, arguments}

-- All the pieces that are not empty, and the last one in any case.
unfoldable pub words_of : Text → List Text → List Text
words_of [] (w ∷ ws) = words_of w ws
words_of [] [] = [] ∷ []
words_of (c ∷ w) [] = (c ∷ w) ∷ []
words_of (c ∷ w) (v ∷ ws) = (c ∷ w) ∷ words_of v ws

unfoldable pub words : Text → List Text
unfolding pieces words_of
words [] = []
words (c ∷ cs) = let (w, ws) = pieces is_blank (c ∷ cs) in words_of w ws

-- The words behind the first piece.
abbrev pub later : List Text → List Text
later [] = []
later (w ∷ ws) = words_of w ws

abbrev pub IsText : Text → Type 0
IsText = All (λ c. c ≢ 0)

-- The strings at pointers into a buffer that begins at offset `at`.
strings : ℕ → List ℕ → List ℕ → List Text
strings at b ps = map (λ p. c_string (drop (p - at) b)) ps

All-le_trans : (a b : ℕ) (ps : List ℕ) → a ≤ b → All (λ p. b ≤ p) ps → All (λ p. a ≤ p) ps
All-le_trans a b [] h k = tt
All-le_trans a b (p ∷ ps) h k = (omega arith, All-le_trans a b ps h k.1)

scan_above : (inside : Bool) (at : ℕ) (cs : Text) → All (λ p. at ≤ p) (scan inside at cs).argv
unfolding scan
scan_above true at [] = tt
scan_above false at [] = omega arith
scan_above inside at (c ∷ cs) =
    let deeper = scan_above (not (is_blank c)) (at + 1) cs in
    let here =
      All-le_trans at (at + 1) (scan (not (is_blank c)) (at + 1) cs).argv (omega arith) deeper in
    elim (Bool-cases (is_blank c)) [
      | inl blank ↦ rw blank (rw blank at here)
      | inr word ↦ elim (Bool-cases inside) [
        | inl e ↦ rw (word, e) (rw word at here)
        | inr e ↦ rw (word, e) (omega arith, (rw word at here))
      ]
    ]

strings-shift :
    (at c : ℕ) (b ps : List ℕ)
    → All (λ p. at + 1 ≤ p) ps
    → strings at (c ∷ b) ps ≡ strings (at + 1) b ps
unfolding strings
strings-shift at c b [] h = refl
strings-shift at c b (p ∷ ps) h =
    let e : p - at ≡ suc (p - (at + 1)) = omega arith in
    rw e (ap (◌∷◌ (c_string (drop (p - (at + 1)) b))) (strings-shift at c b ps h.1))

-- Inside a word the buffer begins with the rest of that word; among blanks all is still to come.
abbrev Meets : Bool → ℕ → Text → Parsed → Type 0
Meets true at cs p =
    (c_string p.buffer ≡ (pieces is_blank cs).0)
    × (strings at p.buffer p.argv ≡ later (pieces is_blank cs).1)
Meets false at cs p =
    strings at p.buffer p.argv ≡ words_of (pieces is_blank cs).0 (pieces is_blank cs).1

pub words_of-cons : (c : ℕ) (w : Text) (ws : List Text) → words_of (c ∷ w) ws ≡ (c ∷ w) ∷ later ws
unfolding words_of
words_of-cons c w [] = refl
words_of-cons c w (v ∷ ws) = refl

scan-Meets :
    (inside : Bool) (at : ℕ) (cs : Text) → IsText cs → Meets inside at cs (scan inside at cs)
unfolding scan pieces words_of strings c_string
scan-Meets true at [] h = (refl, refl)
scan-Meets false at [] h = let e : at - at ≡ 0 = omega arith in rw e
scan-Meets true at (c ∷ cs) h = elim (Bool-cases (is_blank c)) [
  | inl blank ↦
      rw (blank, words_of)
        (
          refl,
          strings-shift at 0 _ _ (scan_above false (at + 1) cs) ∙ scan-Meets false (at + 1) cs h.1,
        )
  | inr word ↦
      let (w, ws) = scan-Meets true (at + 1) cs h.1 in
      rw word ((ground (arith, w)), strings-shift at c _ _ (scan_above true (at + 1) cs) ∙ ws)
]
scan-Meets false at (c ∷ cs) h = elim (Bool-cases (is_blank c)) [
  | inl blank ↦
      rw (blank)
        (strings-shift at 0 _ _ (scan_above false (at + 1) cs) ∙ scan-Meets false (at + 1) cs h.1)
  | inr word ↦
      let (w, ws) = scan-Meets true (at + 1) cs h.1 in
      let e : at - at ≡ 0 = omega arith in
      let first : c_string (c ∷ (scan true (at + 1) cs).buffer) ≡ c ∷ (pieces is_blank cs).0 =
        ground (arith, w) in
      rw word (
        rw (e, first)
          (ap (◌∷◌ (c ∷ (pieces is_blank cs).0))
              (strings-shift at c _ _ (scan_above true (at + 1) cs) ∙ ws)
            ∙ sym (words_of-cons c _ _)))
]

strings-zero : (b ps : List ℕ) → map (λ p. c_string (drop p b)) ps ≡ strings 0 b ps
unfolding strings
strings-zero b [] = refl
strings-zero b (p ∷ ps) =
    let e : p - 0 ≡ p = omega arith in rw e (ap (◌∷◌ (c_string (drop p b))) (strings-zero b ps))

-- On a C string `argv` points to exactly the words of the line, in order: the pieces between
-- blanks that are not empty, and the last piece of a line that ends in a blank.
pub arguments_lem : (line : Text) → IsText line → arguments line ≡ words line
unfolding arguments words
arguments_lem [] h = refl
arguments_lem (c ∷ cs) h =
    strings-zero (scan false 0 (c ∷ cs)).buffer (scan false 0 (c ∷ cs)).argv
    ∙ scan-Meets false 0 (c ∷ cs) h
