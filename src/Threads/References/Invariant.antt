-- ===== src/Threads/References/Invariant.antt =====
-- What holds of the object of apue.3e/threads/mutex2.c and its threads in every state that they reach.
pub mod Moves
use unix_system_programming.Prelude.{ℕ, ◌+◌, ◌≤◌, ◌<◌, ◌≡◌, Bool, true, false, Option, none, some}
use unix_system_programming.Threads.References.{Object, Pc}
use unix_system_programming.Threads.References.System.{total}

-- The reference that an operation under way has in `f_count`.
abbrev pub claim : Pc → ℕ
claim Pc.alloc_hash = 1
claim Pc.alloc_lock = 1
claim Pc.alloc_unhash = 1
claim Pc.alloc_unlock = 1
claim Pc.hold_unlock = 1
claim Pc.find_unlock = 1
claim Pc.find_unhash = 1
claim Pc.rele_lock = 1
claim Pc.last_unlock = 1
claim Pc.last_hash = 1
claim Pc.last_lock = 1
claim Pc.gone_unhash = 1
claim Pc.gone_unlock = 1
claim Pc.gone_free = 1
claim _ = 0

abbrev pub holds_f : Pc → Bool
holds_f Pc.alloc_unhash = true
holds_f Pc.alloc_unlock = true
holds_f Pc.hold_unlock = true
holds_f Pc.find_unlock = true
holds_f Pc.rele_unlock = true
holds_f Pc.last_unlock = true
holds_f Pc.kept_unlock = true
holds_f Pc.gone_unhash = true
holds_f Pc.gone_unlock = true
holds_f _ = false

abbrev pub holds_h : Pc → Bool
holds_h Pc.other = true
holds_h Pc.alloc_lock = true
holds_h Pc.alloc_unhash = true
holds_h Pc.find_lock = true
holds_h Pc.find_unlock = true
holds_h Pc.find_unhash = true
holds_h Pc.find_missed = true
holds_h Pc.last_lock = true
holds_h Pc.kept_unlock = true
holds_h Pc.kept_unhash = true
holds_h Pc.gone_unhash = true
holds_h _ = false

-- The next step reads or writes the object or its lock.
abbrev pub touches : Pc → Bool
touches Pc.alloc_hash = true
touches Pc.alloc_lock = true
touches Pc.alloc_unlock = true
touches Pc.hold_lock = true
touches Pc.hold_unlock = true
touches Pc.find_lock = true
touches Pc.find_unlock = true
touches Pc.rele_lock = true
touches Pc.rele_unlock = true
touches Pc.last_unlock = true
touches Pc.last_lock = true
touches Pc.kept_unlock = true
touches Pc.gone_unlock = true
touches Pc.gone_free = true
touches _ = false

-- The object is not, or not any more, on its chain, and this thread has the only reference.
abbrev pub alone : Pc → Bool
alone Pc.alloc_hash = true
alone Pc.gone_unhash = true
alone Pc.gone_unlock = true
alone Pc.gone_free = true
alone _ = false

abbrev pub looking : Pc → Bool
looking Pc.find_lock = true
looking _ = false

abbrev pub holding : Pc → Bool
holding Pc.hold_lock = true
holding Pc.hold_unlock = true
holding _ = false

abbrev pub freeing : Pc → Bool
freeing Pc.gone_free = true
freeing _ = false

-- The references of a thread that `f_count` has counted.
abbrev pub weight : (ℕ → Pc) → (ℕ → ℕ) → ℕ → ℕ
weight pc refs j = refs j + claim (pc j)

pub record Inv (n : ℕ) (m : Object) (pc : ℕ → Pc) (refs : ℕ → ℕ) : Type 0 where
  pub counted : m.alive ≡ true → m.count ≡ total n (weight pc refs)
  pub unused : m.alive ≡ false → total n (weight pc refs) ≡ 0
  pub f_own : (j : ℕ) → j < n → holds_f (pc j) ≡ true → m.f_lock ≡ some j
  pub h_own : (j : ℕ) → j < n → holds_h (pc j) ≡ true → m.hashlock ≡ some j
  pub f_held : (j : ℕ) → m.f_lock ≡ some j → (j < n) × (holds_f (pc j) ≡ true)
  pub h_held : (j : ℕ) → m.hashlock ≡ some j → (j < n) × (holds_h (pc j) ≡ true)
  pub seen : (j : ℕ) → j < n → looking (pc j) ≡ true → m.listed ≡ true
  pub has_one : (j : ℕ) → j < n → holding (pc j) ≡ true → 1 ≤ refs j
  pub only :
      (j : ℕ) → j < n → alone (pc j) ≡ true → (m.listed ≡ false) × (total n (weight pc refs) ≡ 1)
  pub unlisted : m.alive ≡ true → m.listed ≡ false → (j : ℕ) × (j < n) × (alone (pc j) ≡ true)
  pub linked : m.listed ≡ true → m.alive ≡ true
  pub late : (j : ℕ) → j < n → freeing (pc j) ≡ true → m.f_lock ≡ none
  pub safe : (j : ℕ) → j < n → touches (pc j) ≡ true → m.alive ≡ true
