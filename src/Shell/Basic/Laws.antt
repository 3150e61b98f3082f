-- ===== src/Shell/Basic/Laws.antt =====
-- How the earlier shells end, and where myShell2 behaves like tryShell1.
use unix_system_programming.Prelude.{
  ℕ, zero, suc, ◌≤◌, ◌≡◌, ◌≢◌, refl, sym, ◌∙◌, fun_ext, false, List, [], ◌∷◌, ◌++◌, length, arith,
  append_assoc, append-nil,
}
use unix_system_programming.Clib.{Text, codes, has_char, read_line}
use unix_system_programming.Shell.Basic.{
  simple_shell0_line, myshell_line, tryshell1_prompt, fgets_loop, without_newline, tryshell_loop,
  simple_shell0_main, myshell_main, tryshell1_dispatch, tryshell1_line, tryshell1_main,
}
use unix_system_programming.Shell.Session.Lines.{read_line_shorter, follow, follow_ends}
use unix_system_programming.Shell.Session.{Flow, dispatch, run_by_operator, run_line}
use unix_system_programming.Shell.Execute.{expand_and_execute}
use unix_system_programming.Shell.Words.{arguments}
use unix_system_programming.Shell.World.{Os, World, Event, printed, done, M, tell}

fgets_loop-cons :
    (size : ℕ) (body : List ℕ → M Flow) (fuel c : ℕ) (cs : List ℕ) (w : World)
    → fgets_loop size body (suc fuel) (c ∷ cs) w
      ≡ follow
          (fgets_loop size body fuel (read_line size (c ∷ cs)).1)
          (body (read_line size (c ∷ cs)).0 w)
unfolding fgets_loop
fgets_loop-cons size body fuel c cs w = ground arith

fgets_loop_ends :
    (size : ℕ) (body : List ℕ → M Flow) (fuel : ℕ) (input : List ℕ) (w : World) {v : World}
    → length input ≤ fuel
    → fgets_loop (suc size) body fuel input w ≢ done tt v
fgets_loop_ends size body fuel [] w h e = unfold fgets_loop in cc
fgets_loop_ends size body zero (c ∷ cs) w h e = absurd (omega arith)
fgets_loop_ends size body (suc fuel) (c ∷ cs) w {v} h e =
    let shorter = read_line_shorter size c cs in
    let rest = (read_line (suc size) (c ∷ cs)).1 in
    follow_ends (fgets_loop (suc size) body fuel rest) (body (read_line (suc size) (c ∷ cs)).0 w)
      (λ u. fgets_loop_ends size body fuel rest u (omega arith))
      (sym (fgets_loop-cons (suc size) body fuel c cs w) ∙ e)

-- The three shells whose loop tests fgets all end.
pub basic_shells_end :
    (os : Os) (input : List ℕ) (w v : World)
    → (simple_shell0_main os input w ≢ done tt v)
      × (myshell_main os input w ≢ done tt v)
      × (tryshell1_main os input w ≢ done tt v)
unfolding simple_shell0_main myshell_main tryshell1_main
basic_shells_end os input w v = (
  fgets_loop_ends 254 (without_newline (simple_shell0_line os)) (length input) input
      (tell (printed (codes "sh1 % ")) w) (omega arith),
  fgets_loop_ends 254 (without_newline (myshell_line os)) (length input) input
      (tell (printed (codes "{myshell}$ ")) w) (omega arith),
  fgets_loop_ends 4094 (without_newline (tryshell1_line tryshell1_prompt os)) (length input) input
      (tell (printed tryshell1_prompt) w) (omega arith),
)

abbrev pub repeat : ℕ → Event → List Event
repeat zero e = []
repeat (suc n) e = e ∷ repeat n e

-- At the end of the input tryShell does not stop: it prints its prompt once in every round, for as
-- many rounds as one likes.
pub tryshell_loop_nil :
    (rounds : ℕ) (os : Os) (w : World)
    → tryshell_loop rounds os [] w
      ≡ done tt (record w { trace = w.trace ++ repeat rounds (printed (codes "Shell -> ")) })
unfolding tryshell_loop
tryshell_loop_nil zero os w = rw append-nil
tryshell_loop_nil (suc rounds) os w =
    tryshell_loop_nil rounds os (tell (printed (codes "Shell -> ")) w) ∙ rw append_assoc

run_by_operator-plain :
    (os : Os) (line : Text) (argv : List Text) (w : World)
    → has_char b'<' line ≡ false
    → has_char b'>' line ≡ false
    → has_char b';' line ≡ false
    → has_char b'|' line ≡ false
    → run_by_operator os line argv w ≡ expand_and_execute os argv w
unfolding run_by_operator
run_by_operator-plain os line argv w a b c d = rw (a, b, run_by_operator) (rw c (rw d))

dispatch-tryshell1_dispatch :
    (p : Text) (os : Os) (line : Text) (argv : List Text)
    → run_by_operator os line argv ≡ expand_and_execute os argv
    → dispatch p os line argv ≡ tryshell1_dispatch p os argv
unfolding dispatch tryshell1_dispatch
dispatch-tryshell1_dispatch p os line [] e = refl
dispatch-tryshell1_dispatch p os line (command ∷ args) e = rw e

run_line-by_dispatch :
    (p : Text) (os : Os) (line : Text) (w : World)
    → dispatch p os line (arguments line) ≡ tryshell1_dispatch p os (arguments line)
    → run_line p os line w ≡ tryshell1_line p os line w
unfolding run_line tryshell1_line
run_line-by_dispatch p os line w e = rw e

-- On a line with no operator in it myShell2 does what tryShell1 does under the same prompt.
pub run_line-tryshell1_line :
    (p : Text) (os : Os) (line : Text) (w : World)
    → has_char b'<' line ≡ false
    → has_char b'>' line ≡ false
    → has_char b';' line ≡ false
    → has_char b'|' line ≡ false
    → run_line p os line w ≡ tryshell1_line p os line w
run_line-tryshell1_line p os line w a b c d = run_line-by_dispatch p os line w (
    dispatch-tryshell1_dispatch p os line (arguments line)
      (fun_ext (λ v. run_by_operator-plain os line (arguments line) v a b c d)))
