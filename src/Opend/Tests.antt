-- ===== src/Opend/Tests.antt =====
-- The theorem on apue.3e/ipc2/opend/client.c at an array with one client.
use unix_system_programming.Prelude.{
  ℕ, true, false, refl, ◌≡◌, ◌++◌, List, [], ◌∷◌, none, some, length, arith,
}
use unix_system_programming.Opend.{Client, client_add, client_del}
use unix_system_programming.Opend.Added.{added}
use unix_system_programming.Opend.Loop.{Polled, Received, request, Round, serve}
use unix_system_programming.Opend.Loop.Packed.{serve-packed}
use unix_system_programming.Opend.Entries.{client, Searched, client_add-client_del}

abbrev array : List Client
array = client 5 100 ∷ record { fd = none; uid = 3 } ∷ []

client_add-client_del_example :
    (i : ℕ) × (ds es : List Client) × (client_add 2 true [] 6 101 array ≡ added i ds)
    × Searched [] array es
    × ((front : List Client) × (old : Client) × (behind : List Client) × (Client.fd old ≡ none)
        × (es ≡ front ++ old ∷ behind)
        × (ds ≡ front ++ client 6 101 ∷ behind)
        × (i ≡ length front)
        × (client_del 6 ds ≡ some (front ++ record { fd = none; uid = 101 } ∷ behind)))
client_add-client_del_example = client_add-client_del 0 6 101 [] array (ground arith)

-- The client with descriptor 5 hangs up while the one with descriptor 7 has sent a byte.
abbrev gone_client : Polled
gone_client = record { fd = 5; hup = true; readable = false; received = Received.closed }

abbrev last_client : Polled
last_client = record { fd = 7; hup = false; readable = true; received = request (b'x' ∷ []) }

abbrev two_clients : Round
two_clients = record {
  front = [];
  client = client 3 0 ∷ client 5 100 ∷ client 7 101 ∷ [];
  handled = [];
}

-- The request on descriptor 7 is handled with the user ID 100.
serve-packed_example :
    (r2 : Round) × (serve 2 (gone_client ∷ last_client ∷ []) two_clients ≡ some r2)
    × (r2.handled ≡ record { bytes = b'x' ∷ []; on = 7; uid = 100 } ∷ [])
unfolding client_del
serve-packed_example =
    serve-packed gone_client last_client [] (b'x' ∷ []) two_clients (client 5 100)
      (client 3 0 ∷ record { fd = none; uid = 100 } ∷ client 7 101 ∷ []) refl refl refl refl refl
      refl
