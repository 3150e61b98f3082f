-- ===== src/Printer/Ipp/Options.antt =====
-- The options of the IPP header read back, by a reader of RFC 2910's attributes.
use unix_system_programming.Prelude.{
  ℕ, ◌≡◌, refl, ◌+◌, ◌*◌, ◌/◌, ◌%◌, ◌^◌, ◌<◌, true, Option, none, some, [], ◌∷◌, ◌++◌, length, take,
  drop, leb, if◌then◌else◌, append_assoc, length-append, arith,
}
use unix_system_programming.Clib.{Text, c_string}
use unix_system_programming.Database.Bytes.{take-append}
use unix_system_programming.Linked.{◌>>=◌}
use unix_system_programming.Printer.Ipp.{add_option}

-- A text behind its length in two bytes, the high one first, and what follows it.
unfoldable pub read_counted : Text → Option (Text × Text)
read_counted [] = none
read_counted (hi ∷ []) = none
read_counted (hi ∷ lo ∷ rest) =
    let n = hi * 256 + lo in if leb n (length rest) then some (take n rest, drop n rest) else none

-- The tag, the name and the value of an option, and what follows it.
unfoldable pub read_option : Text → Option (ℕ × Text × Text × Text)
read_option [] = none
read_option (tag ∷ text) = read_counted text >>= λ (name, text2).
    read_counted text2 >>= λ (val, rest). some (tag, name, val, rest)

-- Two bytes in the order of the network.
abbrev pub NetworkShort : (ℕ → Text) → Type 0
NetworkShort htons = (n : ℕ) → n < 2 ^ 16 → htons n ≡ n / 256 ∷ n % 256 ∷ []

read_counted_lem :
    (htons : ℕ → Text) (text rest : Text)
    → NetworkShort htons
    → length text < 2 ^ 16
    → read_counted (htons (length text) ++ (text ++ rest)) ≡ some (text, rest)
unfolding read_counted
read_counted_lem htons text rest net short =
    let (front, behind) = take-append (length text) text rest refl in
    let n : length text / 256 * 256 + length text % 256 ≡ length text = omega arith in
    let fits : leb (length text) (length (text ++ rest)) ≡ true =
      ground (arith, length-append text rest) in
    rw (net (length text) short, n, fits, front, behind) refl

-- Where htons gives the bytes of the network and the tag and the two lengths fit, the reader of an option reads the
-- tag, the name and the value it was made of.
pub add_option-read_option :
    (htons htonl : ℕ → Text) (tag : ℕ) (name val rest : Text)
    → NetworkShort htons
    → tag < 2 ^ 8
    → length (c_string name) < 2 ^ 16
    → length (c_string val) < 2 ^ 16
    → read_option (add_option htons htonl tag name val ++ rest)
      ≡ some (tag, c_string name, c_string val, rest)
unfolding add_option read_option
add_option-read_option htons htonl tag name val rest net byte short short2 =
    let e : tag % 2 ^ 8 ≡ tag = omega arith in
    let n = c_string name in
    let v = c_string val in
    let first = read_counted_lem htons n (htons (length v) ++ (v ++ rest)) net short in
    let second = read_counted_lem htons v rest net short2 in
    rw e (simp append_assoc (rw (first, second) refl))
