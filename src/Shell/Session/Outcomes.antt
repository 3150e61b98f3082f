-- ===== src/Shell/Session/Outcomes.antt =====
-- What the shell makes of particular lines.
use unix_system_programming.Prelude.{
  ℕ, suc, ◌*◌, ◌+◌, ◌≤◌, ◌<◌, ◌≡◌, refl, ap, ◌∙◌, true, false, List, [], ◌∷◌, map, length, ltb,
  drop, arith,
}
use unix_system_programming.Clib.{Text, c_string}
use unix_system_programming.Shell.Execute.{max_args}
use unix_system_programming.Shell.Session.Lines.{follow, loop_read, run_bytes-cons, read_line-typed}
use unix_system_programming.Shell.Session.{run_line, dispatch, main_with, loop, chop}
use unix_system_programming.Shell.Words.Bounds.{parse-InBounds}
use unix_system_programming.Shell.Words.InPlace.{IsText, words, arguments_lem}
use unix_system_programming.Shell.Words.{arguments, parse}
use unix_system_programming.Shell.World.{
  Os, World, crashed, null_string, argv_overflow, tell, printed,
}

length-map {ℓ κ} :
    {A : Type ℓ} {B : Type κ} (f : A → B) (xs : List A) → length (map f xs) ≡ length xs
length-map f [] = refl
length-map f (x ∷ xs) = ap suc (length-map f xs)

arguments_few : (line : Text) → 2 * length (arguments line) ≤ length line + 2
unfolding arguments
arguments_few line =
    let p = parse line in
    omega (
      arith,
      (parse-InBounds line).few,
      length-map (λ (at : ℕ). c_string (drop at p.buffer)) p.argv,
    )

run_line-dispatch :
    (p : Text) (os : Os) (line : Text) (w : World)
    → length (arguments line) ≤ max_args
    → run_line p os line w ≡ dispatch p os line (arguments line) w
unfolding run_line
run_line-dispatch p os line w h =
    let few : ltb max_args (length (arguments line)) ≡ false = ground arith in rw (few, run_line)

-- A command line of at most 124 bytes fits argv, and the shell goes by its words.
pub run_line-words :
    (p : Text) (os : Os) (line : Text) (w : World)
    → IsText line
    → length line ≤ 124
    → run_line p os line w ≡ dispatch p os line (words line) w
run_line-words p os line w t short =
    run_line-dispatch p os line w (omega (arith, arguments_few line))
    ∙ ap (λ (argv : List Text). dispatch p os line argv w) (arguments_lem line t)

-- More arguments than argv has room for are written past its end.
pub run_line_overflow :
    (p : Text) (os : Os) (line : Text) (w : World)
    → IsText line
    → max_args < length (words line)
    → run_line p os line w ≡ crashed argv_overflow w
unfolding run_line
run_line_overflow p os line w t many =
    let same : length (arguments line) ≡ length (words line) =
      ap (λ (l : List Text). length l) (arguments_lem line t) in
    let much : ltb max_args (length (arguments line)) ≡ true = ground arith in rw (much, run_line)

run_line-nil : (p : Text) (os : Os) (w : World) → run_line p os [] w ≡ crashed null_string w
unfolding run_line
run_line-nil p os w = refl

chop_newline : chop (b'\n' ∷ []) ≡ []
unfolding chop
chop_newline = refl

c_string_newline : c_string (b'\n' ∷ []) ≡ b'\n' ∷ []
unfolding c_string
c_string_newline = refl

-- An empty line makes the shell compare a null pointer, whatever follows it.
pub main_with-empty_line :
    (p : Text) (os : Os) (rest : List ℕ) (w : World)
    → main_with p os (b'\n' ∷ rest) w ≡ crashed null_string (tell (printed p) w)
unfolding main_with
main_with-empty_line p os rest w =
    let v = tell (printed p) w in
    loop_read p (length rest) os (b'\n' ∷ rest) (b'\n' ∷ []) rest v (λ e. cc)
      (read_line-typed 4095 [] rest (omega arith) tt)
    ∙ ap (follow (loop p (length rest) os rest)) (
        run_bytes-cons p os (b'\n' ∷ []) b'\n' [] v c_string_newline
        ∙ ap (λ (s : Text). run_line p os s v) chop_newline
        ∙ run_line-nil p os v)
