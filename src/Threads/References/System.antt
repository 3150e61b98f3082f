-- ===== src/Threads/References/System.antt =====
-- Threads that use one object of apue.3e/threads/mutex2.c, interleaved in any order.
use unix_system_programming.Prelude.{
  ℕ, zero, suc, ◌+◌, ◌≤◌, ◌<◌, ◌≡◌, ◌≢◌, refl, false, none, ◌==◌, if◌then◌else◌, Bool-cases, inl,
  inr, arith,
}
use unix_system_programming.Threads.References.{Object, Pc, Move, idle}

-- `hashlock` is free and the object is not there.
abbrev pub no_object : Object
no_object = record { alive = false; listed = false; count = 0; f_lock = none; hashlock = none }

-- Where each thread is, and how many references it has between operations.
pub record System : Type 0 where
  pub mem : Object
  pub pc : ℕ → Pc
  pub refs : ℕ → ℕ

abbrev pub update {ℓ} : {A : Type ℓ} → (ℕ → A) → ℕ → A → ℕ → A
update f i a j = if j == i then a else f j

-- A thread with a number below `n` makes a step.
pub data Step (n : ℕ) (s : System) : System → Type 0 where
  step :
      (i : ℕ) {m : Object} {p : Pc} {r : ℕ}
      → i < n
      → Move i s.mem (s.pc i) (s.refs i) m p r
      → Step n s (record { mem = m; pc = update s.pc i p; refs = update s.refs i r })

abbrev pub start : System
start = record { mem = no_object; pc = λ i. idle; refs = λ i. 0 }

pub data Reach (n : ℕ) : System → Type 0 where
  begin : Reach n start
  more : {s t : System} → Reach n s → Step n s t → Reach n t

-- The sum of a family of numbers over the first `n` threads.
abbrev pub total : ℕ → (ℕ → ℕ) → ℕ
total zero f = 0
total (suc n) f = total n f + f n

pub total-above : (n i a : ℕ) (f : ℕ → ℕ) → n ≤ i → total n (update f i a) ≡ total n f
total-above zero i a f h = refl
total-above (suc n) i a f h = ground (arith, total-above n i a f)

pub total-update : (n i a : ℕ) (f : ℕ → ℕ) → i < n → total n (update f i a) + f i ≡ total n f + a
total-update zero i a f h = ground arith
total-update (suc n) i a f h = elim (Bool-cases (n == i)) [
  | inl same ↦ ground (arith, total-above n i a f)
  | inr other ↦ ground (arith, total-update n i a f)
]

pub le-total : (n i : ℕ) (f : ℕ → ℕ) → i < n → f i ≤ total n f
le-total zero i f h = ground arith
le-total (suc n) i f h = elim (Bool-cases (n == i)) [
  | inl same ↦ ground arith
  | inr other ↦ ground (arith, le-total n i f)
]

pub add-le-total : (n i j : ℕ) (f : ℕ → ℕ) → i < n → j < n → i ≢ j → f i + f j ≤ total n f
add-le-total n i j f hi hj ne =
    let keep = total-update n i 0 f hi in let rest = le-total n j (update f i 0) hj in ground arith

pub total-map : (n : ℕ) (f g : ℕ → ℕ) → ((i : ℕ) → f i ≡ g i) → total n f ≡ total n g
total-map zero f g h = refl
total-map (suc n) f g h = ground (arith, total-map n f g h, h n)

pub total-zero : (n : ℕ) (f : ℕ → ℕ) → ((i : ℕ) → f i ≡ 0) → total n f ≡ 0
total-zero zero f h = refl
total-zero (suc n) f h = ground (arith, total-zero n f h, h n)
