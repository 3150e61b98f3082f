-- ===== src/Clib/Laws.antt =====
-- Laws of the C string functions.
use unix_system_programming.Prelude.{◌≡◌, ◌↔◌, true, ◌∷◌, arith}
use unix_system_programming.Clib.{Text, str_eq}

pub str_eq_iff : (a b : Text) → (str_eq a b ≡ true) ↔ (a ≡ b)
unfolding str_eq
str_eq_iff (x ∷ a) (y ∷ b) = ground (arith, str_eq_iff a b)
str_eq_iff _ _ = ground arith
