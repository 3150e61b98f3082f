-- ===== src/Shell/World.antt =====
-- What a shell does to its surroundings, for week08Lab2/myShell2.c and its predecessors: the calls
-- whose answers come from the system are an oracle, and what the shell does is a list of events.
pub mod Laws
use unix_system_programming.Prelude.{
  ℕ, ◌+◌, Bool, List, [], ◌∷◌, ◌++◌, Option, none, some, if◌then◌else◌,
}
use unix_system_programming.Clib.{Text}
use unix_system_programming.Descriptors.{File, Table, update, Fresh}

-- The system's answers. Those that may change as time goes on also take the number of questions
-- that were asked before.
pub record Os : Type 0 where
  pub fresh : Fresh
  pub glob : ℕ → Text → Option (List Text)  -- the matches, if glob returns 0
  pub open_ok : ℕ → Text → Bool
  pub fork_ok : ℕ → Bool
  pub child_ends : ℕ → Bool  -- of the child that fork gave at that question, so that waitpid returns

pub data Event : Type 0 where
  printed : Text → Event
  complained : Text → Event  -- perror
  forked : ℕ → Option (List Text) → Table → Event  -- a child, its argv (none: it dies before exec), its descriptors
  awaited : ℕ → Event

pub record World : Type 0 where
  pub table : Table
  pub clock : ℕ
  pub pipes : ℕ
  pub trace : List Event

-- Behaviour that C leaves undefined, at the place where the program runs into it, or a waitpid for a
-- child that never ends.
pub data Fault : Type 0 where
  null_string argv_overflow argv_past_end line_underflow endless_wait : Fault

pub data Outcome {ℓ} (A : Type ℓ) : Type ℓ where
  done : A → World → Outcome A
  exited : ℕ → World → Outcome A
  crashed : Fault → World → Outcome A

abbrev pub M : Type 0 → Type 0
M A = World → Outcome A

infixl 5 ◌>>=◌ ◌>>◌
abbrev pub ◌>>=◌ : {A B : Type 0} → M A → (A → M B) → M B
◌>>=◌ m f w = elim (m w) [ done a v ↦ f a v | exited n v ↦ exited n v | crashed e v ↦ crashed e v ]

abbrev pub ◌>>◌ : {B : Type 0} → M (Unit {0}) → M B → M B
m >> k = m >>= λ _. k

abbrev pub return : {A : Type 0} → A → M A
return a w = done a w

abbrev pub crash : {A : Type 0} → Fault → M A
crash e w = crashed e w

abbrev pub tell : Event → World → World
tell e w = record w { trace = w.trace ++ e ∷ [] }

abbrev pub say : Text → M (Unit {0})
say s w = done tt (tell (printed s) w)

-- waitpid, or the loop over wait, for the child of that number.
unfoldable pub wait_for : Os → ℕ → M (Unit {0})
wait_for os id w =
    if os.child_ends id then done tt (tell (awaited id) w) else crashed endless_wait w
