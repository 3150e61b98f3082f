-- ===== src/Rot13/Tests.antt =====
-- A short file copied by a slow system.
use unix_system_programming.Prelude.{
  ℕ, suc, ◌≡◌, refl, Bool, true, false, List, [], ◌∷◌, map, arith,
}
use unix_system_programming.Clib.{codes}
use unix_system_programming.Rot13.{
  Aio, in_progress, copied, copy, loop, pass, step_of, start_read, read_done, write_done, translate,
  is_alpha, bsz,
}
use unix_system_programming.Rot13.Copies.{Works, Wakes}
use unix_system_programming.Rot13.Whole.{copy_lem}

abbrev first_set : List Bool → ℕ
first_set [] = 0
first_set (true ∷ ops) = 0
first_set (false ∷ ops) = suc (first_set ops)

-- Nothing completes but what aio_suspend waits for, and that is the first operation.
abbrev slow : Aio
slow = record { error = λ k i. in_progress; suspend = λ k ops. first_set ops }

slow-Wakes : Wakes slow
slow-Wakes k [] h = ground arith
slow-Wakes k (true ∷ ops) h = refl
slow-Wakes k (false ∷ ops) h = slow-Wakes k ops h

slow-Works : Works slow
slow-Works k i e = ground arith

hello : copy (codes "Uryyb!") slow 4 ≡ copied (codes "Hello!")
unfolding copy loop pass step_of start_read read_done write_done translate is_alpha bsz
hello = refl

copy_lem_example : copy (codes "Uryyb!") slow 19 ≡ copied (map translate (codes "Uryyb!"))
copy_lem_example = copy_lem (codes "Uryyb!") slow 19 slow-Works slow-Wakes (omega arith)
