-- ===== src/Forks/Counts.antt =====
-- How many processes the fork exercises make.
use Prim.Native.Nat.pow
use native.Mathlib.Nat.{pow-suc, mul_comm}
use unix_system_programming.Prelude.{
  ℕ, zero, suc, ◌-◌, ◌*◌, ◌^◌, ◌≡◌, refl, sym, ap, ◌∙◌, List, [], ◌∷◌, ◌++◌, length, length-append,
  arith,
}
use unix_system_programming.Forks.{
  each, fork_once, and_block, or_block, times, fork_loop, count_stages,
}

length-each_const :
    {A B : Type 0} (xs : List A) (ys : List B) → length (each xs (λ _. ys)) ≡ length xs * length ys
unfolding each
length-each_const [] ys = omega arith
length-each_const (x ∷ xs) ys =
    omega (arith, length-append ys (each xs (λ _. ys)), length-each_const xs ys)

-- Every process runs the whole block, so a block that makes k processes of one makes k ^ n of it when
-- it is run n times.
pub length-times : (n : ℕ) (block : List (Unit {0})) → length (times n block) ≡ length block ^ n
unfolding times
length-times zero block = sym (pow.zero (length block))
length-times (suc n) block =
    length-each_const block (times n block)
    ∙ ap (λ (k : ℕ). length block * k) (length-times n block)
    ∙ (mul_comm (length block) (length block ^ n) ∙ sym (pow-suc (length block) n))

-- The exercises: n - 1 forks in a loop make 2 ^ (n - 1) processes, a block with && makes 4 of one, and
-- a block with || makes 5.
pub fork_counts :
    (n : ℕ)
    → (length (fork_loop n) ≡ 2 ^ (n - 1))
      × (length (times n and_block) ≡ 4 ^ n)
      × (length (times n or_block) ≡ 5 ^ n)
unfolding fork_loop and_block or_block
fork_counts n = (length-times (n - 1) fork_once, length-times n and_block, length-times n or_block)

length-each_same :
    {A B : Type 0} (xs : List A) (f : A → List B) (k : ℕ)
    → ((a : A) → length (f a) ≡ k)
    → length (each xs f) ≡ length xs * k
unfolding each
length-each_same [] f k h = omega arith
length-each_same (x ∷ xs) f k h =
    omega (arith, length-append (f x) (each xs f), length-each_same xs f k h, h x)

-- Stages that set a count in the child make 2 ^ k processes, whatever the values, and the process that
-- is the parent at every fork prints the count that it began with.
pub count_stages_lem :
    (values : List ℕ) (start : ℕ)
    → (length (count_stages values start) ≡ 2 ^ length values)
      × ((rest : List ℕ) × (count_stages values start ≡ start ∷ rest))
unfolding count_stages each
count_stages_lem [] start = (sym (pow.zero 2), ([], refl))
count_stages_lem (v ∷ vs) start =
    let (n, (rest, e)) = count_stages_lem vs start in
    let (m, _) = count_stages_lem vs v in
    let more = count_stages vs v ++ [] in
    (
      omega (
        arith,
        length-append (count_stages vs start) more,
        length-append (count_stages vs v) [],
        n,
        m,
        pow-suc 2 (length vs),
      ),
      (rest ++ more, ap (λ (l : List ℕ). l ++ more) e),
    )
