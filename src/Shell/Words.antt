-- ===== src/Shell/Words.antt =====
-- `parse`, which every shell of the course shares: week08Lab2/myShell2.c, pipeloop.c,
-- week07Lab1/tryShell.c and tryShell1.c. It works in place on the line: blanks become NUL, and
-- `argv` receives pointers into the line, which are offsets here.
pub mod InPlace
pub mod Bounds
pub mod Trailing
use unix_system_programming.Prelude.{
  ℕ, zero, suc, ◌+◌, not, ◌||◌, Bool, true, false, List, [], ◌∷◌, map, drop, ◌==◌, if◌then◌else◌,
}
use unix_system_programming.Clib.{Text, c_string}

-- ' ', '\t' and '\n'.
unfoldable pub is_blank : ℕ → Bool
is_blank c = c == b' ' || c == b'\t' || c == b'\n'

-- What `parse` leaves: the line's bytes, and the pointers stored through `argv`.
pub record Parsed : Type 0 where
  pub buffer : List ℕ
  pub argv : List ℕ

abbrev pub keep : ℕ → Parsed → Parsed
keep c p = record p { buffer = c ∷ p.buffer }

abbrev pub store : ℕ → Parsed → Parsed
store at p = record p { argv = at ∷ p.argv }

-- The two inner loops, each a pass over what is left of the line from offset `at`: over blanks,
-- and, when `inside`, over the bytes of a word. A line that ends among blanks still has a pointer
-- stored, to its NUL.
unfoldable pub scan : Bool → ℕ → Text → Parsed
scan true at [] = record { buffer = []; argv = [] }
scan false at [] = record { buffer = []; argv = at ∷ [] }
scan inside at (c ∷ cs) =
    let rest = scan (not (is_blank c)) (at + 1) cs in
    if is_blank c then keep zero rest else if inside then keep c rest else store at (keep c rest)

-- The outer loop: an empty line stores no pointer.
unfoldable pub parse : Text → Parsed
unfolding scan
parse [] = record { buffer = []; argv = [] }
parse (c ∷ cs) = scan false 0 (c ∷ cs)

-- The strings that `argv` points to once `parse` has returned.
unfoldable pub arguments : Text → List Text
unfolding parse c_string is_blank
arguments line = map (λ at. c_string (drop at (parse line).buffer)) (parse line).argv
