-- ===== src/Database/Numbers.antt =====
-- How apue.3e/db/db.c writes and reads numbers as text: the calls of sprintf, atol and atoi.
pub mod Laws
use unix_system_programming.Prelude.{
  ℕ, zero, suc, ◌+◌, ◌-◌, ◌*◌, ◌/◌, ◌%◌, Bool, true, false, ◌&&◌, ◌||◌, List, [], ◌∷◌, ◌++◌, length,
  ltb, leb, ◌==◌, if◌then◌else◌,
}
use unix_system_programming.Clib.{Text}
use unix_system_programming.Database.{ℤ, pos, negsuc}

-- The digits of a number, with fuel for one more digit each.
unfoldable pub digits : ℕ → ℕ → Text
digits zero n = (b'0' + n % 10) ∷ []
digits (suc fuel) n =
    let rest = digits fuel (n / 10) in
    if ltb n 10 then (b'0' + n) ∷ [] else rest ++ (b'0' + n % 10) ∷ []

-- A "%ld" of a number that is not negative. A number is at least 2 ^ (its digits - 1), so itself is fuel.
unfoldable pub decimal : ℕ → Text
unfolding digits
decimal n = digits n n

abbrev pub spaces : ℕ → Text
spaces zero = []
spaces (suc n) = b' ' ∷ spaces n

-- A "%*ld": blanks on the left up to the width.
unfoldable pub pad : ℕ → ℕ → Text
unfolding decimal
pad width n = let text = decimal n in spaces (width - length text) ++ text

-- isspace and isdigit in the C locale.
unfoldable pub is_space : ℕ → Bool
is_space c = c == b' ' || leb 9 c && leb c 13

unfoldable pub is_digit : ℕ → Bool
is_digit c = leb b'0' c && leb c b'9'

-- The value of the digits in front, on top of what was read before.
unfoldable pub digits_value : ℕ → Text → ℕ
unfolding is_digit
digits_value acc [] = acc
digits_value acc (c ∷ cs) =
    let rest = digits_value (acc * 10 + (c - b'0')) cs in if is_digit c then rest else acc

abbrev pub negate : ℕ → ℤ
negate zero = pos 0
negate (suc n) = negsuc n

-- atol and atoi, whose behaviour C leaves undefined on numbers that do not fit.
unfoldable pub atol : Text → ℤ
unfolding is_space digits_value
atol [] = pos 0
atol (c ∷ cs) =
    let rest = atol cs in
    if is_space c
    then rest
    else if c == b'-'
    then negate (digits_value 0 cs)
    else if c == b'+'
    then pos (digits_value 0 cs)
    else pos (digits_value 0 (c ∷ cs))
