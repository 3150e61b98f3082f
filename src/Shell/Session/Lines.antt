-- ===== src/Shell/Session/Lines.antt =====
-- The loop over fgets against a session given line by line.
use unix_system_programming.Prelude.{
  ℕ, zero, suc, ◌≤◌, ◌<◌, ◌≡◌, ◌≢◌, refl, sym, ap, ◌∙◌, fun_ext, List, [], ◌∷◌, ◌++◌, length,
  length-append, All, arith,
}
use unix_system_programming.Clib.{Text, c_string, read_line}
use unix_system_programming.Shell.Session.{
  Flow, again, leave, max_line, run_line, chop, run_bytes, loop, main_with,
}
use unix_system_programming.Shell.World.{
  Os, World, Outcome, done, exited, crashed, M, tell, printed,
}

pub read_line_shorter : (n c : ℕ) (cs : List ℕ) → length (read_line (suc n) (c ∷ cs)).1 ≤ length cs
unfolding read_line
read_line_shorter zero c cs = ground arith
read_line_shorter (suc n) c [] = ground arith
read_line_shorter (suc n) c (d ∷ cs) = ground (arith, read_line_shorter n d cs)

-- What the loop makes of a line's outcome.
abbrev pub follow : (World → Outcome (Unit {0})) → Outcome Flow → Outcome (Unit {0})
follow more (done flow v) = elim flow [ again ↦ more v | leave ↦ exited 0 v ]
follow more (exited n v) = exited n v
follow more (crashed e v) = crashed e v

pub follow_ends :
    (more : World → Outcome (Unit {0})) (o : Outcome Flow) {v : World}
    → ((u : World) → more u ≢ done tt v)
    → follow more o ≢ done tt v
follow_ends more (done again u) h e = h u e
follow_ends more (done leave u) h e = cc
follow_ends more (exited n u) h e = cc
follow_ends more (crashed x u) h e = cc

loop-cons :
    (p : Text) (fuel : ℕ) (os : Os) (c : ℕ) (cs : List ℕ) (w : World)
    → loop p (suc fuel) os (c ∷ cs) w
      ≡ follow
          (loop p fuel os (read_line max_line (c ∷ cs)).1)
          (run_bytes p os (read_line max_line (c ∷ cs)).0 w)
unfolding loop
loop-cons p fuel os c cs w = ground arith

loop_ends :
    (p : Text) (fuel : ℕ) (os : Os) (input : List ℕ) (w : World) {v : World}
    → length input ≤ fuel
    → loop p fuel os input w ≢ done tt v
loop_ends p fuel os [] w h e = unfold loop in cc
loop_ends p zero os (c ∷ cs) w h e = absurd (omega arith)
loop_ends p (suc fuel) os (c ∷ cs) w {v} h e =
    let shorter = read_line_shorter 4094 c cs in
    let rest = (read_line max_line (c ∷ cs)).1 in
    follow_ends (loop p fuel os rest) (run_bytes p os (read_line max_line (c ∷ cs)).0 w)
      (λ u. loop_ends p fuel os rest u (omega arith)) (sym (loop-cons p fuel os c cs w) ∙ e)

-- The length of the input is fuel enough for the loop over fgets: main never leaves it by running out, but
-- by exit, by a fault, or in a wait that does not return.
pub main_with_ends :
    (p : Text) (os : Os) (input : List ℕ) (w v : World) → main_with p os input w ≢ done tt v
unfolding main_with
main_with_ends p os input w v h =
    loop_ends p (length input) os input (tell (printed p) w) (omega arith) h

-- A line as a user types it: short enough for the buffer, with no newline and no NUL.
pub record IsLine (line : Text) : Type 0 where
  pub fits : length line < max_line
  pub typed : All (λ c. (c ≢ 0) × (c ≢ b'\n')) line

unfoldable pub unlines : List Text → List ℕ
unlines [] = []
unlines (line ∷ lines) = line ++ (b'\n' ∷ unlines lines)

-- The session, line by line: no buffer, no fuel.
unfoldable pub run_lines : Text → Os → List Text → M (Unit {0})
run_lines p os [] w = exited 0 w
run_lines p os (line ∷ lines) w = follow (run_lines p os lines) (run_line p os line w)

pub read_line-typed :
    (n : ℕ) (line rest : List ℕ)
    → length line < n
    → All (λ c. (c ≢ 0) × (c ≢ b'\n')) line
    → read_line n (line ++ (b'\n' ∷ rest)) ≡ (line ++ b'\n' ∷ [], rest)
unfolding read_line
read_line-typed zero line rest h t = absurd (omega arith)
read_line-typed (suc n) [] rest h t = refl
read_line-typed (suc n) (c ∷ cs) rest h t = ground (arith, read_line-typed n cs rest)

c_string-typed :
    (line : List ℕ)
    → All (λ c. (c ≢ 0) × (c ≢ b'\n')) line
    → c_string (line ++ b'\n' ∷ []) ≡ line ++ b'\n' ∷ []
unfolding c_string
c_string-typed [] t = refl
c_string-typed (c ∷ cs) t = ground (arith, c_string-typed cs)

chop-concat : (line : Text) (c : ℕ) → chop (line ++ c ∷ []) ≡ line
unfolding chop
chop-concat [] c = refl
chop-concat (x ∷ []) c = refl
chop-concat (x ∷ y ∷ xs) c = ap (◌∷◌ x) (chop-concat (y ∷ xs) c)

pub run_bytes-cons :
    (p : Text) (os : Os) (bytes : List ℕ) (c : ℕ) (s : Text) (w : World)
    → c_string bytes ≡ c ∷ s
    → run_bytes p os bytes w ≡ run_line p os (chop (c ∷ s)) w
unfolding run_bytes
run_bytes-cons p os bytes c s w e = rw (e, run_bytes)

run_bytes-typed :
    (p : Text) (os : Os) (line : Text) (w : World)
    → IsLine line
    → run_bytes p os (line ++ b'\n' ∷ []) w ≡ run_line p os line w
unfolding chop
run_bytes-typed p os [] w h =
    run_bytes-cons p os (b'\n' ∷ []) b'\n' [] w (c_string-typed [] h.typed)
run_bytes-typed p os (c ∷ cs) w h =
    run_bytes-cons p os ((c ∷ cs) ++ b'\n' ∷ []) c (cs ++ b'\n' ∷ []) w
      (c_string-typed (c ∷ cs) h.typed)
    ∙ ap (λ (s : Text). run_line p os s w) (chop-concat (c ∷ cs) b'\n')

pub loop_read :
    (p : Text) (fuel : ℕ) (os : Os) (input bytes rest : List ℕ) (w : World)
    → input ≢ []
    → read_line max_line input ≡ (bytes, rest)
    → loop p (suc fuel) os input w ≡ follow (loop p fuel os rest) (run_bytes p os bytes w)
loop_read p fuel os [] bytes rest w h e = absurd (h refl)
loop_read p fuel os (c ∷ cs) bytes rest w h e = loop-cons p fuel os c cs w ∙ rw e

loop-unlines :
    (p : Text) (fuel : ℕ) (os : Os) (lines : List Text) (w : World)
    → length (unlines lines) ≤ fuel
    → All IsLine lines
    → loop p fuel os (unlines lines) w ≡ run_lines p os lines w
unfolding unlines run_lines
loop-unlines p zero os [] w h t = unfold loop in refl
loop-unlines p (suc fuel) os [] w h t = unfold loop in refl
loop-unlines p zero os (line ∷ lines) w h t =
    absurd (omega (arith, length-append line (b'\n' ∷ unlines lines)))
loop-unlines p (suc fuel) os (line ∷ lines) w h t =
    let rest = unlines lines in
    let room : length rest ≤ fuel = omega (arith, length-append line (b'\n' ∷ unlines lines)) in
    loop_read p fuel os (line ++ (b'\n' ∷ rest)) _ rest w
      (λ e.
        omega (arith, ap (λ (l : List ℕ). length l) e, length-append line (b'\n' ∷ unlines lines)))
      (read_line-typed max_line line rest t.0.fits t.0.typed)
    ∙ ap (λ (m : World → Outcome (Unit {0})). follow m (run_bytes p os (line ++ b'\n' ∷ []) w))
        (fun_ext (λ u. loop-unlines p fuel os lines u room t.1))
    ∙ ap (follow (run_lines p os lines)) (run_bytes-typed p os line w t.0)

-- On lines that fit the buffer, main prompts and then runs the lines one by one, each without its
-- newline, until one of them ends the session or the input is over.
pub main_with-unlines :
    (p : Text) (os : Os) (lines : List Text) (w : World)
    → All IsLine lines
    → main_with p os (unlines lines) w ≡ run_lines p os lines (tell (printed p) w)
unfolding main_with
main_with-unlines p os lines w t =
    loop-unlines p (length (unlines lines)) os lines (tell (printed p) w) (omega arith) t
