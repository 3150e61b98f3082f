-- ===== src/Shell/World/Laws.antt =====
-- Inversion of a sequence of steps that ends well.
use unix_system_programming.Prelude.{◌≡◌, refl, ap, ◌∙◌, List, ◌++◌, append_assoc}
use unix_system_programming.Shell.World.{World, Event, Outcome, done, exited, crashed, M, ◌>>=◌}

pub bind-eq-done :
    {A B : Type 0} (m : M A) (f : A → M B) (w : World) {b : B} {v : World}
    → (m >>= f) w ≡ done b v
    → (a : A) × (u : World) × (m w ≡ done a u) × (f a u ≡ done b v)
bind-eq-done {A} {B} m f w {b} {v} h = go (m w) h
  where
    go :
        (o : Outcome A)
        → ◌≡◌ {A = Outcome B}
            (elim o [ done a u ↦ f a u | exited n u ↦ exited n u | crashed e u ↦ crashed e u ])
            (done b v)
        → (a : A) × (u : World) × (o ≡ done a u) × (f a u ≡ done b v)
    go (done a u) e = (a, u, refl, e)
    go (exited n u) e = cc
    go (crashed x u) e = cc

pub done_world :
    {A : Type 0} {a b : A} {u v : World} → ◌≡◌ {A = Outcome A} (done a u) (done b v) → u ≡ v
done_world h = cc

-- Events are only ever added at the end.
pub trace_trans :
    (a : List Event) {b c : List Event} (x y : List Event)
    → b ≡ a ++ x
    → c ≡ b ++ y
    → c ≡ a ++ (x ++ y)
trace_trans a x y p q = q ∙ ap (λ (l : List Event). l ++ y) p ∙ append_assoc a x y
