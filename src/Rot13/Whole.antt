-- ===== src/Rot13/Whole.antt =====
-- What apue.3e/advio/rot13c2.c writes, and what it writes of its own output.
use unix_system_programming.Prelude.{
  ℕ, ◌+◌, ◌*◌, ◌<◌, ◌≡◌, ◌⊎◌, inl, inr, refl, ap, ◌∙◌, List, [], ◌∷◌, map, length, none, ltb,
  Bool-cases, arith,
}
use unix_system_programming.Rot13.{
  translate, Buf, Copy, Aio, copied, fresh, copy, is_alpha, polls_in,
}
use unix_system_programming.Rot13.Bytes.{length-map}
use unix_system_programming.Rot13.Passes.{total, Moves}
use unix_system_programming.Rot13.Rounds.{Holds, left}
use unix_system_programming.Rot13.Copies.{Works, Wakes, loop_lem}

eight : List Buf
eight = fresh ∷ fresh ∷ fresh ∷ fresh ∷ fresh ∷ fresh ∷ fresh ∷ fresh ∷ []

-- When no operation fails and aio_suspend returns for an operation that is pending, the program ends, within three
-- rounds for each byte and one more, and its output is the translated input, whatever the order in which the operations
-- complete.
pub copy_lem :
    (input : List ℕ) (a : Aio) (fuel : ℕ)
    → Works a
    → Wakes a
    → 3 * length input < fuel
    → copy input a fuel ≡ copied (map translate input)
unfolding copy eight
copy_lem input a fuel works wakes enough =
    let s : Copy = record { off = 0; numop = 0; out = [] } in
    let h : Holds input fresh = Holds.idle refl in
    let ready : Moves input (polls_in a 0 none) 0 eight s ⊎ (total eight + left input s ≡ 0) =
      elim (Bool-cases (ltb 0 (length input))) [
        | inl e ↦ inl (inl (inr (refl, ground arith)))
        | inr e ↦ inr (ground arith)
      ] in
    loop_lem input a works wakes fuel 0 none eight s (h, (h, (h, (h, (h, (h, (h, (h, tt))))))))
      (record { done = λ p lt lt2. ground arith; count = refl; short = omega arith }) (omega arith)
      ready (omega arith)

-- Translating twice gives the byte back.
pub translate-translate : (c : ℕ) → translate (translate c) ≡ c
unfolding translate is_alpha
translate-translate c = ground arith

translate_all : (input : List ℕ) → map translate (map translate input) ≡ input
translate_all [] = refl
translate_all (c ∷ cs) = rw (translate-translate c, translate_all cs) refl

-- Run on its own output, under the same conditions, the program gives the input back.
pub copy-copy :
    (input : List ℕ) (a a2 : Aio) (fuel : ℕ)
    → Works a
    → Wakes a
    → Works a2
    → Wakes a2
    → 3 * length input < fuel
    → (out : List ℕ) × (copy input a fuel ≡ copied out) × (copy out a2 fuel ≡ copied input)
copy-copy input a a2 fuel works wakes works2 wakes2 enough =
    let size = length-map translate input in
    (
      map translate input,
      copy_lem input a fuel works wakes enough,
      copy_lem (map translate input) a2 fuel works2 wakes2 (omega (arith, size))
          ∙ ap (λ (out : List ℕ). copied out) (translate_all input),
    )
