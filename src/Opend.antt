-- ===== src/Opend.antt =====
-- The array of clients of apue.3e/ipc2/opend/client.c.
pub mod Entries
pub mod Loop
mod Tests
use unix_system_programming.Prelude.{
  ℕ, zero, suc, ◌+◌, Bool, List, [], ◌∷◌, ◌++◌, Option, none, some, ◌==◌, if◌then◌else◌,
}

-- Client: none is the descriptor -1 of an entry that is available.
pub record Client : Type 0 where
  pub fd : Option ℕ
  pub uid : ℕ

-- NALLOC
abbrev pub nalloc : ℕ
nalloc = 10

-- The entries of malloc or realloc, whose user IDs are what the memory held.
unfoldable pub available : ℕ → List ℕ → List Client
available zero stale = []
available (suc n) [] = record { fd = none; uid = 0 } ∷ available n []
available (suc n) (u ∷ stale) = record { fd = none; uid = u } ∷ available n stale

-- `client` of `client_size` entries, the empty list for NULL; none is that there is no memory and the server ends.
unfoldable pub client_alloc : Bool → List ℕ → List Client → Option (List Client)
client_alloc memory stale client = if memory then some (client ++ available nalloc stale) else none

-- The loop behind `again`: the entry that was taken and the array, or none if it is full.
unfoldable pub take_entry : ℕ → ℕ → List Client → Option (ℕ × List Client)
take_entry fd uid [] = none
take_entry fd uid (c ∷ cs) = elim (Client.fd c) [
  | none ↦ some (0, record { fd = some fd; uid = uid } ∷ cs)
  | some _ ↦ elim (take_entry fd uid cs) [ none ↦ none | some (i, ds) ↦ some (suc i, c ∷ ds) ]
]

-- What a call leaves: the index and the array, the end of the server, or that the searches are used up.
pub data Added : Type 0 where
  added : ℕ → List Client → Added
  ended : Added
  unfinished : Added

-- The fuel bounds the searches.
unfoldable pub again : ℕ → Bool → List ℕ → ℕ → ℕ → List Client → Added
again zero memory stale fd uid client = unfinished
again (suc fuel) memory stale fd uid client =
    let more : List Client → Added = λ larger. again fuel memory stale fd uid larger in
    elim (take_entry fd uid client) [
      | some (i, cs) ↦ added i cs
      | none ↦ elim (client_alloc memory stale client) [ none ↦ ended | some larger ↦ more larger ]
    ]

unfoldable pub client_add : ℕ → Bool → List ℕ → ℕ → ℕ → List Client → Added
client_add fuel memory stale fd uid [] = elim (client_alloc memory stale []) [
  | none ↦ ended
  | some client ↦ again fuel memory stale fd uid client
]
client_add fuel memory stale fd uid (c ∷ cs) = again fuel memory stale fd uid (c ∷ cs)

-- none is that there is no such client and the server ends.
unfoldable pub client_del : ℕ → List Client → Option (List Client)
client_del fd [] = none
client_del fd (c ∷ cs) =
    let rest = client_del fd cs in
    let on : Option (List Client) = elim rest [ none ↦ none | some ds ↦ some (c ∷ ds) ] in
    elim (Client.fd c) [
      | none ↦ on
      | some used ↦ if used == fd then some (record c { fd = none } ∷ cs) else on
    ]
