-- ===== src/Opend/Loop.antt =====
-- One round of apue.3e/ipc2/opend/loop.poll.c over the clients that poll has reported.
pub mod Packed
use unix_system_programming.Prelude.{
  ℕ, zero, suc, ◌+◌, Bool, true, false, List, [], ◌∷◌, ◌++◌, length, Option, none, some,
}
use unix_system_programming.Opend.{Client, client_del}

-- What read answers on a descriptor: -1, the end of the input, or a request.
pub data Received : Type 0 where
  broken : Received
  closed : Received
  request : List ℕ → Received

-- An entry of pollfd[]: POLLHUP and POLLIN of its revents, and what a read of it answers.
pub record Polled : Type 0 where
  pub fd : ℕ
  pub hup : Bool
  pub readable : Bool
  pub received : Received

-- A call of handle_request: the bytes, the descriptor and the user ID.
pub record Handled : Type 0 where
  pub bytes : List ℕ
  pub on : ℕ
  pub uid : ℕ

-- pollfd[1], …, pollfd[numfd - 1] as those in front of the loop's index and those from it on, the array client[], and
-- the requests that were handled.
pub record Round : Type 0 where
  pub front : List Polled
  pub client : List Client
  pub handled : List Handled

abbrev pub client_at : List Client → ℕ → Option Client
client_at [] i = none
client_at (c ∷ cs) zero = some c
client_at (c ∷ cs) (suc i) = client_at cs i

-- The last of some entries and the others, for an array that is not empty.
abbrev pub pack : Polled → List Polled → Polled × List Polled
pack e [] = (e, [])
pack e (f ∷ es) = let (last, others) = pack f es in (last, e ∷ others)

-- The entries behind one that is taken out: the last of them comes in its place.
unfoldable pub packed : List Polled → List Polled
packed [] = []
packed (e ∷ es) = let (last, others) = pack e es in last ∷ others

unfoldable pub hang_up : Polled → Round → Option Round
hang_up e r = elim (client_del e.fd r.client) [
  | none ↦ none
  | some cs ↦ some (record r { client = cs })
]

-- The index is one more than the entries in front, as pollfd[0] is the one that listens.
unfoldable pub handle : Polled → List ℕ → Round → Option Round
handle e bytes r = elim (client_at r.client (suc (length r.front))) [
  | none ↦ none
  | some c ↦ some (record r {
    front = r.front ++ e ∷ [];
    handled = r.handled ++ record { bytes = bytes; on = e.fd; uid = c.uid } ∷ [];
  })
]

-- What happens to the entry at the index: the server ends, it is taken out, or the loop goes on behind it.
pub data Served : Type 0 where
  ends : Served
  removed : Round → Served
  kept : Round → Served

abbrev pub removed_or : Option Round → Served
removed_or none = ends
removed_or (some r) = removed r

abbrev pub kept_or : Option Round → Served
kept_or none = ends
kept_or (some r) = kept r

unfoldable pub receive : Received → Polled → Round → Served
receive broken e r = ends
receive closed e r = removed_or (hang_up e r)
receive (request bytes) e r = kept_or (handle e bytes r)

unfoldable pub serve_entry : Bool → Bool → Polled → Round → Served
serve_entry true readable e r = removed_or (hang_up e r)
serve_entry false true e r = receive e.received e r
serve_entry false false e r = kept (record r { front = r.front ++ e ∷ [] })

-- The loop over the entries from the index on, with a round for each; none is that the server ends.
unfoldable pub serve : ℕ → List Polled → Round → Option Round
serve zero rest r = some r
serve (suc fuel) [] r = some r
serve (suc fuel) (e ∷ es) r = elim (serve_entry e.hup e.readable e r) [
  | ends ↦ none
  | kept r2 ↦ serve fuel es r2
  | removed r2 ↦ serve fuel (packed es) r2
]
