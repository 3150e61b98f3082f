-- ===== src/Threads/References.antt =====
-- One object of apue.3e/threads/mutex2.c with its reference count, and the threads that use it. The other objects of
-- the table enter by `hashlock` alone, which a thread may take for one of them.
pub mod System
pub mod Invariant
pub mod Safety
pub mod Progress
use unix_system_programming.Prelude.{
  ℕ, suc, ◌+◌, ◌-◌, ◌≡◌, ◌≢◌, ◌≤◌, Bool, true, false, Option, none, some,
}

-- struct foo, as far as the threads share it, with the two locks' owners: `alive` is that the memory is allocated, and
-- `listed` that the object is on its chain of the table.
pub record Object : Type 0 where
  pub alive : Bool
  pub listed : Bool
  pub count : ℕ
  pub f_lock : Option ℕ
  pub hashlock : Option ℕ

-- Where a thread is: before the next call of a function on a lock, named for the operation and the call, or between
-- operations. A step goes from one such call to the next.
pub data Pc : Type 0 where
  idle : Pc
  other : Pc
  alloc_hash : Pc
  alloc_lock : Pc
  alloc_unhash : Pc
  alloc_unlock : Pc
  hold_lock : Pc
  hold_unlock : Pc
  find_hash : Pc
  find_lock : Pc
  find_unlock : Pc
  find_unhash : Pc
  find_missed : Pc
  rele_lock : Pc
  rele_unlock : Pc
  last_unlock : Pc
  last_hash : Pc
  last_lock : Pc
  kept_unlock : Pc
  kept_unhash : Pc
  gone_unhash : Pc
  gone_unlock : Pc
  gone_free : Pc

-- A step of thread `i`, with the number of references that it has between operations. An operation on a reference
-- takes it from that number or needs that there is one.
pub data Move (i : ℕ) (m : Object) : Pc → ℕ → Object → Pc → ℕ → Type 0 where
  -- the lock of the table, for another object
  take_other :
      {r : ℕ} → m.hashlock ≡ none → Move i m idle r (record m { hashlock = some i }) other r
  drop_other : {r : ℕ} → Move i m other r (record m { hashlock = none }) idle r
  -- foo_alloc
  alloc :
      {r : ℕ}
      → m.alive ≡ false
      → Move i m idle r
          (record m { alive = true; listed = false; count = 1; f_lock = none })
          alloc_hash
          r
  link :
      {r : ℕ}
      → m.hashlock ≡ none
      → Move i m alloc_hash r (record m { hashlock = some i; listed = true }) alloc_lock r
  alloc_locked :
      {r : ℕ}
      → m.f_lock ≡ none
      → Move i m alloc_lock r (record m { f_lock = some i }) alloc_unhash r
  alloc_unhashed : {r : ℕ} → Move i m alloc_unhash r (record m { hashlock = none }) alloc_unlock r
  allocated : {r : ℕ} → Move i m alloc_unlock r (record m { f_lock = none }) idle (r + 1)
  -- foo_hold
  hold : {r : ℕ} → 1 ≤ r → Move i m idle r m hold_lock r
  hold_locked :
      {r : ℕ}
      → m.f_lock ≡ none
      → Move i m hold_lock r (record m { f_lock = some i; count = m.count + 1 }) hold_unlock r
  held : {r : ℕ} → Move i m hold_unlock r (record m { f_lock = none }) idle (r + 1)
  -- foo_find, with foo_hold in it
  find : {r : ℕ} → Move i m idle r m find_hash r
  found :
      {r : ℕ}
      → m.hashlock ≡ none
      → m.listed ≡ true
      → Move i m find_hash r (record m { hashlock = some i }) find_lock r
  missed :
      {r : ℕ}
      → m.hashlock ≡ none
      → m.listed ≡ false
      → Move i m find_hash r (record m { hashlock = some i }) find_missed r
  find_locked :
      {r : ℕ}
      → m.f_lock ≡ none
      → Move i m find_lock r (record m { f_lock = some i; count = m.count + 1 }) find_unlock r
  find_unlocked : {r : ℕ} → Move i m find_unlock r (record m { f_lock = none }) find_unhash r
  find_done : {r : ℕ} → Move i m find_unhash r (record m { hashlock = none }) idle (r + 1)
  miss_done : {r : ℕ} → Move i m find_missed r (record m { hashlock = none }) idle r
  -- foo_rele
  rele : {r : ℕ} → 1 ≤ r → Move i m idle r m rele_lock (r - 1)
  not_last :
      {r : ℕ}
      → m.f_lock ≡ none
      → m.count ≢ 1
      → Move i m rele_lock r (record m { f_lock = some i; count = m.count - 1 }) rele_unlock r
  released : {r : ℕ} → Move i m rele_unlock r (record m { f_lock = none }) idle r
  last :
      {r : ℕ}
      → m.f_lock ≡ none
      → m.count ≡ 1
      → Move i m rele_lock r (record m { f_lock = some i }) last_unlock r
  last_unlocked : {r : ℕ} → Move i m last_unlock r (record m { f_lock = none }) last_hash r
  last_hashed :
      {r : ℕ}
      → m.hashlock ≡ none
      → Move i m last_hash r (record m { hashlock = some i }) last_lock r
  kept :
      {r : ℕ}
      → m.f_lock ≡ none
      → m.count ≢ 1
      → Move i m last_lock r (record m { f_lock = some i; count = m.count - 1 }) kept_unlock r
  kept_unlocked : {r : ℕ} → Move i m kept_unlock r (record m { f_lock = none }) kept_unhash r
  kept_done : {r : ℕ} → Move i m kept_unhash r (record m { hashlock = none }) idle r
  unlink :
      {r : ℕ}
      → m.f_lock ≡ none
      → m.count ≡ 1
      → Move i m last_lock r (record m { f_lock = some i; listed = false }) gone_unhash r
  gone_unhashed : {r : ℕ} → Move i m gone_unhash r (record m { hashlock = none }) gone_unlock r
  gone_unlocked : {r : ℕ} → Move i m gone_unlock r (record m { f_lock = none }) gone_free r
  free : {r : ℕ} → Move i m gone_free r (record m { alive = false }) idle r
