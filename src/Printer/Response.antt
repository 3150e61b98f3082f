-- ===== src/Printer/Response.antt =====
-- How apue.3e/printer/printd.c reads on in the printer's response: readmore, and the loop of printer_status that looks
-- for the end of the HTTP header.
pub mod Header
use unix_system_programming.Prelude.{
  ℕ, zero, suc, ◌+◌, ◌-◌, ◌%◌, ◌^◌, Bool, true, false, ◌&&◌, not, List, [], ◌∷◌, ◌++◌, length,
  Option, none, some, ◌==◌, ltb, leb, if◌then◌else◌,
}
use unix_system_programming.Database.{write_at}
use unix_system_programming.Linked.{◌>>=◌}
use unix_system_programming.Printer.Reads.{Input, Got, failed, got, tread}

abbrev pub iobufsz : ℕ
iobufsz = 8192

-- The buffer `bp` of `bufsz` bytes, and the number of calls of tread that were made.
pub record Buffer : Type 0 where
  pub bytes : List ℕ
  pub bufsz : ℕ
  pub calls : ℕ

-- A byte of the buffer; none is a read past its end.
unfoldable pub byte_at : List ℕ → ℕ → Option ℕ
byte_at [] i = none
byte_at (x ∷ xs) zero = some x
byte_at (x ∷ xs) (suc i) = byte_at xs i

abbrev pub follows : List ℕ → ℕ → Option Bool
follows bp i = byte_at bp (i + 1) >>= λ b.
    if b == b'\r' then (byte_at bp (i + 2) >>= λ c. some (c == b'\n')) else some false

-- "\n\r\n" at an offset.
unfoldable pub ends_at : List ℕ → ℕ → Option Bool
ends_at bp i = byte_at bp i >>= λ a. if a == b'\n' then follows bp i else some false

-- Where the inner loop ends: past the buffer, behind the end of the header, or with none.
pub data Scan : Type 0 where
  outside : Scan
  at_end : ℕ → Scan
  unfound : ℕ → Scan

-- The inner loop, on fuel.
unfoldable pub scan_header : ℕ → List ℕ → ℕ → ℕ → Scan
scan_header zero bp i datsz = unfound i
scan_header (suc fuel) bp i datsz = elim (ltb (i + 2) datsz) [
  | false ↦ unfound i
  | true ↦ elim (ends_at bp i) [
    | none ↦ outside
    | some true ↦ at_end (i + 3)
    | some false ↦ scan_header fuel bp (i + 1) datsz
  ]
]

-- What the loop leads to: a read past the buffer, the end of the function, or the header's end at an offset, with the
-- number of bytes.
pub data Search : Type 0 where
  past_buffer : Search
  given_up : Search
  found_at : ℕ → ℕ → Buffer → Search

module _ (etime : ℕ) (input : Input) where
  -- none is the -1; `grown` is what realloc puts behind the buffer. The number is the one that is returned.
  unfoldable pub readmore : List ℕ → ℕ → Buffer → Option (ℕ × Buffer)
  readmore grown off b =
      let b2 =
        if leb b.bufsz off
        then record b { bytes = b.bytes ++ grown; bufsz = b.bufsz + iobufsz }
        else b in
      elim (tread etime input b2.calls (b2.bufsz - off)) [
        | failed e ↦ none
        | got [] ↦ none
        | got (x ∷ xs) ↦ some (
          off + suc (length xs),
          record b2 { bytes = write_at off (x ∷ xs) b2.bytes; calls = b2.calls + 1 },
        )
      ]

  -- What follows the inner loop, with `continue` for the next round.
  abbrev pub next_round :
      List ℕ → Bool → ℕ → ℕ → Buffer → (ℕ → Buffer → Option Search) → Option Search
  next_round grown found i datsz b continue = elim (leb datsz i) [
    | false ↦ elim found [ true ↦ some (found_at i datsz b) | false ↦ continue datsz b ]
    | true ↦ elim (readmore grown i b) [
      | none ↦ some given_up
      | some (nr, b2) ↦ elim found [
        | true ↦ some (found_at i (datsz + nr) b2)
        | false ↦ continue (datsz + nr) b2
      ]
    ]
  ]

  -- The loop; none is that the fuel does not suffice.
  unfoldable pub header_end : ℕ → List ℕ → ℕ → ℕ → Buffer → Option Search
  header_end zero grown i datsz b = none
  header_end (suc fuel) grown i datsz b = elim (scan_header datsz b.bytes i datsz) [
    | outside ↦ some past_buffer
    | at_end j ↦ next_round grown true j datsz b (λ n c. header_end fuel grown j n c)
    | unfound j ↦ next_round grown false j datsz b (λ n c. header_end fuel grown j n c)
  ]
