-- ===== src/Shell/Words/Trailing.antt =====
-- A blank at the end of a line.
use unix_system_programming.Prelude.{
  ℕ, true, List, [], ◌∷◌, ◌++◌, ◌≡◌, ◌≢◌, refl, ap, ◌∙◌, Bool-cases, inl, inr,
}
use unix_system_programming.Clib.Pieces.{pieces}
use unix_system_programming.Clib.{Text}
use unix_system_programming.Shell.Words.InPlace.{words_of, words, later, IsText, arguments_lem}
use unix_system_programming.Shell.Words.{is_blank, arguments}

-- The list ends in an empty text.
abbrev EndsEmpty : List Text → Type 0
EndsEmpty ws = (front : List Text) × (ws ≡ front ++ [] ∷ [])

EndsEmpty-words_of :
    (w v : Text) (ws : List Text) → EndsEmpty (later (v ∷ ws)) → EndsEmpty (words_of w (v ∷ ws))
unfolding words_of
EndsEmpty-words_of [] v ws h = h
EndsEmpty-words_of (c ∷ w) v ws (front, e) = ((c ∷ w) ∷ front, ap (◌∷◌ (c ∷ w)) e)

-- Behind the first piece of a line that ends in a blank there is another piece, and the last is empty.
abbrev Trailing : List Text → Type 0
Trailing ws = (v : Text) × (vs : List Text) × (ws ≡ v ∷ vs) × EndsEmpty (later (v ∷ vs))

pieces-Trailing :
    (s : Text) (b : ℕ) → is_blank b ≡ true → Trailing (pieces is_blank (s ++ b ∷ [])).1
unfolding pieces words_of
pieces-Trailing [] b h = rw h ([], [], refl, ([], refl))
pieces-Trailing (c ∷ s) b h =
    let (v, vs, e, t) = pieces-Trailing s b h in
    elim (Bool-cases (is_blank c)) [
      | inl blank ↦ rw blank (_, _, refl, rw e (EndsEmpty-words_of _ v vs t))
      | inr word ↦ rw word (v, vs, e, t)
    ]

words-Trailing : (s : Text) (b : ℕ) → is_blank b ≡ true → EndsEmpty (words (s ++ b ∷ []))
unfolding words
words-Trailing [] b h = unfold pieces words_of in rw h ([], refl)
words-Trailing (c ∷ s) b h =
    let (v, vs, e, t) = pieces-Trailing (c ∷ s) b h in rw e (EndsEmpty-words_of _ v vs t)

IsText-concat : (s : Text) (b : ℕ) → IsText s → b ≢ 0 → IsText (s ++ b ∷ [])
IsText-concat [] b h n = (n, tt)
IsText-concat (c ∷ s) b h n = (h.0, IsText-concat s b h.1 n)

-- A command line that ends in a blank gets an empty argument behind its words.
pub arguments_trailing :
    (s : Text) (b : ℕ)
    → is_blank b ≡ true
    → b ≢ 0
    → IsText s
    → (front : List Text) × (arguments (s ++ b ∷ []) ≡ front ++ [] ∷ [])
arguments_trailing s b h n t =
    let (front, e) = words-Trailing s b h in
    (front, arguments_lem (s ++ b ∷ []) (IsText-concat s b t n) ∙ e)
