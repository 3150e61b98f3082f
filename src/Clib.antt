-- ===== src/Clib.antt =====
-- The functions of <string.h>, <strings.h> and <stdio.h> that the programs call, over texts. A text
-- is the bytes of a C string before its terminating NUL.
pub mod Laws
pub mod Pieces
use Prim.Native.Char.{code}
use Prim.Native.Nat.{min}
use Prim.Native.String.{String}
use unix_system_programming.Prelude.{
  ℕ, zero, suc, ◌+◌, ◌-◌, ◌<◌, Bool, true, false, ◌&&◌, ◌||◌, List, [], ◌∷◌, Option, none, some,
  length, take, leb, ◌==◌, if◌then◌else◌,
}

abbrev pub Text : Type 0
Text = List ℕ

-- The bytes of a literal, which is ASCII in all the programs.
abbrev pub codes : String → Text
codes String.[] = []
codes (String.◌∷◌ c s) = code c ∷ codes s

-- `strcmp(a, b) == 0`.
unfoldable pub str_eq : Text → Text → Bool
str_eq [] [] = true
str_eq (x ∷ xs) (y ∷ ys) = x == y && str_eq xs ys
str_eq _ _ = false

-- `tolower` in the C locale.
unfoldable pub to_lower : ℕ → ℕ
to_lower c = if leb b'A' c && leb c b'Z' then c + 32 else c

-- `strcasecmp(a, b) == 0`.
unfoldable pub str_case_eq : Text → Text → Bool
unfolding to_lower
str_case_eq [] [] = true
str_case_eq (x ∷ xs) (y ∷ ys) = to_lower x == to_lower y && str_case_eq xs ys
str_case_eq _ _ = false

-- `strchr(s, c) != NULL`, for a byte other than NUL.
unfoldable pub has_char : ℕ → Text → Bool
has_char c [] = false
has_char c (x ∷ xs) = x == c || has_char c xs

-- The text that starts at a pointer into a buffer: up to the first NUL.
unfoldable pub c_string : List ℕ → Text
c_string [] = []
c_string (c ∷ cs) = if c == 0 then [] else c ∷ c_string cs

-- `strndup(s, n)`.
abbrev pub strndup : Text → ℕ → Text
strndup s n = take n s

-- `fgets(buf, size, f)` with `n = size - 1`: at most `n` bytes, up to and with the first newline.
unfoldable pub read_line : ℕ → List ℕ → List ℕ × List ℕ
read_line zero input = ([], input)
read_line (suc n) [] = ([], [])
read_line (suc n) (c ∷ cs) =
    let (line, rest) = read_line n cs in if c == b'\n' then (c ∷ [], cs) else (c ∷ line, rest)

-- `strtok(s, d)` for one delimiter: what it skips, and the token with what it leaves for the next call.
unfoldable pub skip_delims : ℕ → Text → Text
skip_delims d [] = []
skip_delims d (c ∷ cs) = if c == d then skip_delims d cs else c ∷ cs

unfoldable pub cut_token : ℕ → Text → Text × Text
cut_token d [] = ([], [])
cut_token d (c ∷ cs) =
    let (token, rest) = cut_token d cs in if c == d then ([], cs) else (c ∷ token, rest)

unfoldable pub strtok : ℕ → Text → Option (Text × Text)
unfolding skip_delims cut_token
strtok d s = elim (skip_delims d s) [ [] ↦ none | c ∷ cs ↦ some (cut_token d (c ∷ cs)) ]
