-- ===== src/Rot13.antt =====
-- The asynchronous copy of apue.3e/advio/rot13c2.c.
pub mod Bytes
pub mod Rounds
pub mod Passes
pub mod Copies
pub mod Whole
mod Tests
use unix_system_programming.Prelude.{
  ℕ, zero, suc, ◌+◌, ◌-◌, Bool, true, false, ◌&&◌, ◌||◌, not, List, [], ◌∷◌, map, length, take,
  Option, none, some, ◌==◌, ltb, leb, if◌then◌else◌,
}
use unix_system_programming.Database.{read_at, write_at}

-- Not computed with, since it is large.
unfoldable pub bsz : ℕ
bsz = 4096

unfoldable pub is_alpha : ℕ → Bool
is_alpha c = leb b'A' c && leb c b'Z' || leb b'a' c && leb c b'z'

unfoldable pub translate : ℕ → ℕ
translate c =
    if is_alpha c
    then (if leb b'n' c
        then c - 13
        else if leb b'a' c
        then c + 13
        else if leb b'N' c
        then c - 13
        else c + 13)
    else c

pub data Op : Type 0 where
  unused : Op
  read_pending : Op
  write_pending : Op

-- struct buf, with aio_offset and aio_nbytes of its aiocb; `text` is the first aio_nbytes bytes of its data.
pub record Buf : Type 0 where
  pub op : Op
  pub last : Bool
  pub offset : ℕ
  pub text : List ℕ

-- The variables of main and the output file.
pub record Copy : Type 0 where
  pub off : ℕ
  pub numop : ℕ
  pub out : List ℕ

-- What aio_error answers.
pub data Poll : Type 0 where
  in_progress : Poll
  failed : Poll
  complete : Poll

abbrev pub is_pending : Op → Bool
is_pending unused = false
is_pending read_pending = true
is_pending write_pending = true

-- The input file. An operation takes effect when its completion is seen.
module _ (input : List ℕ) where
  -- A buffer that is not in use: a read is begun while the input has more.
  unfoldable pub start_read : Buf → Copy → Buf × Copy
  start_read b s =
      if ltb s.off (length input)
      then (
        record b {
          op = read_pending;
          offset = s.off;
          last = if leb (length input) (s.off + bsz) then true else b.last;
        },
        record s { off = s.off + bsz; numop = s.numop + 1 },
      )
      else (b, s)

  -- A read that is complete: the bytes are translated and a write is begun. none is "short read".
  unfoldable pub read_done : Buf → Copy → Option (Buf × Copy)
  read_done b s =
      let bytes = read_at b.offset bsz input in
      if not (length bytes == bsz) && not b.last
      then none
      else some (record b { op = write_pending; text = map translate bytes }, s)

  unfoldable pub write_done : Buf → Copy → Buf × Copy
  write_done b s = (
    record b { op = unused },
    record s { out = write_at b.offset b.text s.out; numop = s.numop - 1 },
  )

  -- The switch; none is that the process ends by an error.
  unfoldable pub step_of : Op → Poll → Buf → Copy → Option (Buf × Copy)
  step_of unused p b s = some (start_read b s)
  step_of read_pending in_progress b s = some (b, s)
  step_of read_pending failed b s = none
  step_of read_pending complete b s = read_done b s
  step_of write_pending in_progress b s = some (b, s)
  step_of write_pending failed b s = none
  step_of write_pending complete b s = some (write_done b s)

  abbrev pub step : Poll → Buf → Copy → Option (Buf × Copy)
  step p b s = step_of b.op p b s

  -- The loop over the buffers, from the `i`-th on, with what aio_error answers for each of them.
  unfoldable pub pass : (ℕ → Poll) → ℕ → List Buf → Copy → Option (List Buf × Copy)
  pass polls i [] s = some ([], s)
  pass polls i (b ∷ bs) s = elim (step (polls i) b s) [
    | none ↦ none
    | some (b2, s2) ↦ elim (pass polls (suc i) bs s2) [
      | none ↦ none
      | some (bs2, s3) ↦ some (b2 ∷ bs2, s3)
    ]
  ]

-- What the program leads to: the rounds do not suffice, it ends by an error, or it ends with this output.
pub data Outcome : Type 0 where
  unfinished : Outcome
  quit : Outcome
  copied : List ℕ → Outcome

-- The answers of aio_error in each round, and of aio_suspend behind it: the buffer whose operation has completed, of
-- those with a pending one.
pub record Aio : Type 0 where
  pub error : ℕ → ℕ → Poll
  pub suspend : ℕ → List Bool → ℕ

-- aio_error in a round, for which the buffer that aio_suspend has returned for is complete.
abbrev pub polls_in : Aio → ℕ → Option ℕ → ℕ → Poll
polls_in a k none i = Aio.error a k i
polls_in a k (some woken) i = if i == woken then complete else Aio.error a k i

abbrev pub fresh : Buf
fresh = record { op = unused; last = false; offset = 0; text = [] }

module _ (input : List ℕ) (a : Aio) where
  -- The loop of main, on fuel.
  unfoldable pub loop : ℕ → ℕ → Option ℕ → List Buf → Copy → Outcome
  loop zero k woken bs s = unfinished
  loop (suc fuel) k woken bs s = elim (pass input (polls_in a k woken) 0 bs s) [
    | none ↦ quit
    | some (bs2, s2) ↦ elim (s2.numop == 0) [
      | true ↦ elim (leb (length input) s2.off) [
        | true ↦ copied s2.out
        | false ↦ loop fuel (suc k) none bs2 s2
      ]
      | false ↦
          loop fuel (suc k) (some (Aio.suspend a k (map (λ (b : Buf). is_pending b.op) bs2))) bs2 s2
    ]
  ]

  -- main, from the buffers on.
  unfoldable pub copy : ℕ → Outcome
  copy fuel =
      loop fuel 0 none (fresh ∷ fresh ∷ fresh ∷ fresh ∷ fresh ∷ fresh ∷ fresh ∷ fresh ∷ [])
        (record { off = 0; numop = 0; out = [] })
