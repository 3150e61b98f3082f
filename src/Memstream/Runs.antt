-- ===== src/Memstream/Runs.antt =====
-- Streams of apue.3e/exercises/fmemopen.c from fmemopen through any sequence of calls.
use unix_system_programming.Prelude.{
  ℕ, zero, suc, ◌^◌, ◌≤◌, ◌<◌, ◌≡◌, inl, inr, refl, Bool, true, false, List, [], ◌∷◌, length,
  Option, none, some, if◌then◌else◌, Option-cases, arith,
}
use unix_system_programming.Clib.{Text}
use unix_system_programming.Database.{ℤ}
use unix_system_programming.Memstream.{
  Memstream, Errno, refused, answer, Flags, Calls, opened, fmemopen, open_sized, new_stream,
  find_end, mstream_read, mstream_write, mstream_seek, Whence, Answer, type_to_flags, ◌>>=◌,
}
use unix_system_programming.Memstream.Bounds.{
  IsValid, mstream_read-IsValid, mstream_write-IsValid, mstream_seek-IsValid,
}

-- A call on the stream.
pub data Call : Type 0 where
  read : ℕ → Call
  write : List ℕ → Call
  seek : ℤ → Whence → Call

-- What a call returns.
pub data Reply : Type 0 where
  minus_one : Errno → Reply
  got : List ℕ → Reply
  wrote : ℕ → Reply
  sought : ℕ → Reply

abbrev pub reply : {A : Type 0} → (A → Reply) → Answer A → Reply
reply f (refused e) = minus_one e
reply f (answer a) = f a

-- One call; none is a write past the end of the buffer.
unfoldable pub call : Call → Memstream → Option (Reply × Memstream)
call (read len) ms = let (a, ms2) = mstream_read ms len in some (reply got a, ms2)
call (write bytes) ms = mstream_write ms bytes >>= λ (a, ms2). some (reply wrote a, ms2)
call (seek p whence) ms = let (a, ms2) = mstream_seek ms p whence in some (reply sought a, ms2)

-- What some calls return, with the stream behind them.
unfoldable pub run : List Call → Memstream → Option (List Reply × Memstream)
run [] ms = some ([], ms)
run (c ∷ cs) ms = call c ms >>= λ (r, ms2). run cs ms2 >>= λ (rs, ms3). some (r ∷ rs, ms3)

call-IsValid :
    (c : Call) (ms : Memstream)
    → IsValid ms
    → (r : Reply) × (ms2 : Memstream) × (call c ms ≡ some (r, ms2)) × IsValid ms2
unfolding call
call-IsValid (read len) ms v = (_, _, refl, mstream_read-IsValid ms len v)
call-IsValid (seek p whence) ms v = (_, _, refl, mstream_seek-IsValid ms p whence v)
call-IsValid (write bytes) ms v =
    let (a, ms2, e, v2) = mstream_write-IsValid ms bytes v in (reply wrote a, ms2, rw e refl, v2)

-- The replies of a run are those of its calls, one after another.
pub run-cons :
    (c : Call) (cs : List Call) (ms : Memstream) (r : Reply) (ms2 : Memstream) (rs : List Reply)
    (ms3 : Memstream)
    → call c ms ≡ some (r, ms2)
    → run cs ms2 ≡ some (rs, ms3)
    → run (c ∷ cs) ms ≡ some (r ∷ rs, ms3)
unfolding run
run-cons c cs ms r ms2 rs ms3 e e2 = rw (e, e2) refl

run-IsValid :
    (cs : List Call) (ms : Memstream)
    → IsValid ms
    → (rs : List Reply) × (ms2 : Memstream) × (run cs ms ≡ some (rs, ms2)) × IsValid ms2
unfolding run
run-IsValid [] ms v = ([], ms, refl, v)
run-IsValid (c ∷ cs) ms v =
    let (r, ms2, e, v2) = call-IsValid c ms v in
    let (rs, ms3, e2, v3) = run-IsValid cs ms2 v2 in
    (r ∷ rs, ms3, run-cons c cs ms r ms2 rs ms3 e e2, v3)

find_end-le : (buf : List ℕ) (len : ℕ) → find_end buf len ≤ len
unfolding find_end
find_end-le buf zero = omega arith
find_end-le [] (suc len) = omega arith
find_end-le (c ∷ buf) (suc len) = ground (arith, find_end-le buf len)

-- A buffer has the size that is told.
abbrev pub Sized : Option (List ℕ) → ℕ → Type 0
Sized none size = Unit
Sized (some mem) size = length mem ≡ size

open_sized-IsValid :
    (c : Calls) (ms ms2 : Memstream)
    → open_sized c ms ≡ opened ms2
    → length ms.buf ≡ ms.rsize
    → 0 < ms.rsize
    → ms.rsize < 2 ^ 31
    → ms.curpos ≤ ms.rsize
    → ((ms.flags.appends ≡ false) → ms.curpos ≡ 0)
    → IsValid ms2
unfolding open_sized
open_sized-IsValid c ms ms2 e whole some_bytes fits inside front = record {
  whole = ground arith;
  some_bytes = ground arith;
  fits = ground arith;
  grown = ground arith;
  inside = ground arith;
}

-- What a stream that fmemopen opens was before its virtual size was set.
Started : Calls → Option (List ℕ) → ℕ → Flags → Memstream → Type 0
Started c buf size flags ms =
    (mem : List ℕ) × (curpos : ℕ) × (mybuf : Bool) × (open_sized c
        (new_stream mem size flags curpos mybuf)
      ≡ opened ms)
    × (length mem ≡ size)
    × (curpos ≤ size)
    × (flags.appends ≡ false → curpos ≡ 0)

none-unopened :
    (c : Calls) (size : ℕ) (type : Text) (ms : Memstream)
    → c.memory ≡ none
    → fmemopen c none size type ≡ opened ms
    → ⊥
unfolding fmemopen
none-unopened c size type ms no_memory e = ground arith

fmemopen-opened :
    (c : Calls) (buf : Option (List ℕ)) (size : ℕ) (type : Text) (ms : Memstream)
    → fmemopen c buf size type ≡ opened ms
    → Sized buf size
    → Sized c.memory size
    → (0 < size) × Started c buf size (type_to_flags type) ms
unfolding fmemopen Started
fmemopen-opened c (some mem) size type ms e sized sized2 = (
  ground arith,
  (
    mem,
    if (type_to_flags type).appends then find_end mem size else 0,
    false,
    ground arith,
    sized,
    ground (arith, find_end-le mem size),
    λ h. ground arith,
  ),
)
fmemopen-opened c none size type ms e sized sized2 = elim (Option-cases c.memory) [
  | inl no_memory ↦ elim (none-unopened c size type ms no_memory e) [ ]
  | inr (mem, at) ↦
      (ground arith, (mem, 0, true, ground arith, ground arith, ground arith, λ h. refl))
]

pub fmemopen-IsValid :
    (c : Calls) (buf : Option (List ℕ)) (size : ℕ) (type : Text) (ms : Memstream)
    → fmemopen c buf size type ≡ opened ms
    → Sized buf size
    → Sized c.memory size
    → size < 2 ^ 31
    → IsValid ms
unfolding Started
fmemopen-IsValid c buf size type ms e sized sized2 fits =
    let (positive, (mem, curpos, mybuf, e2, whole, inside, front)) =
      fmemopen-opened c buf size type ms e sized sized2 in
    open_sized-IsValid c (new_stream mem size (type_to_flags type) curpos mybuf) ms e2 whole
      positive fits inside front

-- The flags of an open stream are those of its type.
pub fmemopen-flags :
    (c : Calls) (buf : Option (List ℕ)) (size : ℕ) (type : Text) (ms : Memstream)
    → fmemopen c buf size type ≡ opened ms
    → ms.flags ≡ type_to_flags type
unfolding fmemopen open_sized
fmemopen-flags c none size type ms e = elim (Option-cases c.memory) [
  | inl no_memory ↦ elim (none-unopened c size type ms no_memory e) [ ]
  | inr (mem, there) ↦ ground arith
]
fmemopen-flags c (some mem) size type ms e = ground arith

-- From a stream that fmemopen opens on a buffer of the size that it is told, where that is below 2^31, no sequence
-- of calls writes past the buffer, and the position stays within the size of the contents, which stays within the buffer.
pub fmemopen-run :
    (c : Calls) (buf : Option (List ℕ)) (size : ℕ) (type : Text) (ms : Memstream) (cs : List Call)
    → fmemopen c buf size type ≡ opened ms
    → Sized buf size
    → Sized c.memory size
    → size < 2 ^ 31
    → (rs : List Reply) × (ms2 : Memstream) × (run cs ms ≡ some (rs, ms2)) × IsValid ms2
fmemopen-run c buf size type ms cs e sized sized2 fits =
    run-IsValid cs ms (fmemopen-IsValid c buf size type ms e sized sized2 fits)
