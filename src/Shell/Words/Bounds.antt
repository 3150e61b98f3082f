-- ===== src/Shell/Words/Bounds.antt =====
-- How far `parse` writes: the line keeps its length, the pointers lie in it, and a line of n bytes
-- gives at most n / 2 + 1 arguments.
use unix_system_programming.Prelude.{
  ℕ, suc, ◌+◌, ◌*◌, ◌≤◌, not, Bool, true, false, List, [], ◌∷◌, ◌≡◌, refl, inl, inr, All, arith,
  length, Bool-cases,
}
use native.Mathlib.Nat.{zero-add}
use unix_system_programming.Clib.{Text}
use unix_system_programming.Shell.Words.{is_blank, Parsed, scan, parse}

-- A line that is shorter than the array of arguments allows for.
pub record InBounds (line : Text) (p : Parsed) : Type 0 where
  pub same_length : length p.buffer ≡ length line
  pub pointers : All (λ at. at ≤ length line) p.argv
  pub few : 2 * length p.argv ≤ length line + 2

All-le_trans : (a b : ℕ) (ps : List ℕ) → a ≤ b → All (λ p. p ≤ a) ps → All (λ p. p ≤ b) ps
All-le_trans a b [] h k = tt
All-le_trans a b (p ∷ ps) h k = (omega arith, All-le_trans a b ps h k.1)

scan-length : (inside : Bool) (at : ℕ) (cs : Text) → length (scan inside at cs).buffer ≡ length cs
unfolding scan
scan-length true at [] = refl
scan-length false at [] = refl
scan-length inside at (c ∷ cs) = ground (arith, scan-length (not (is_blank c)) (at + 1) cs)

scan_pointers :
    (inside : Bool) (at : ℕ) (cs : Text) → All (λ p. p ≤ at + length cs) (scan inside at cs).argv
unfolding scan
scan_pointers true at [] = tt
scan_pointers false at [] = omega arith
scan_pointers inside at (c ∷ cs) =
    let deeper =
      All-le_trans (at + 1 + length cs) (at + suc (length cs))
        (scan (not (is_blank c)) (at + 1) cs).argv (omega arith)
        (scan_pointers (not (is_blank c)) (at + 1) cs) in
    elim (Bool-cases (is_blank c)) [
      | inl blank ↦ rw blank (rw blank at deeper)
      | inr word ↦ elim (Bool-cases inside) [
        | inl e ↦ rw (word, e) (rw word at deeper)
        | inr e ↦ rw (word, e) (omega arith, (rw word at deeper))
      ]
    ]

-- Among blanks one pointer more may come.
abbrev spare : Bool → ℕ
spare true = 1
spare false = 2

scan_few :
    (inside : Bool) (at : ℕ) (cs : Text)
    → 2 * length (scan inside at cs).argv ≤ length cs + spare inside
unfolding scan
scan_few true at [] = omega arith
scan_few false at [] = omega arith
scan_few inside at (c ∷ cs) = ground (arith, scan_few (not (is_blank c)) (at + 1) cs)

-- `parse` writes within the line: the buffer keeps its length, every pointer lies in it or on its
-- NUL, and there are at most as many as the line's length allows.
pub parse-InBounds : (line : Text) → InBounds line (parse line)
unfolding parse
parse-InBounds [] = record { same_length = refl; pointers = tt; few = omega arith }
parse-InBounds (c ∷ cs) = record {
  same_length = scan-length false 0 (c ∷ cs);
  pointers = rw (zero-add) at (scan_pointers false 0 (c ∷ cs));
  few = scan_few false 0 (c ∷ cs);
}
