-- ===== src/Memstream.antt =====
-- A stream over memory (apue.3e/exercises/fmemopen.c).
pub mod Bounds
pub mod Contents
pub mod Runs
pub mod Slices
mod Tests
use unix_system_programming.Prelude.{
  ℕ, zero, suc, ◌+◌, ◌-◌, ◌%◌, ◌^◌, ◌≤◌, ◌<◌, ◌≡◌, Bool, true, false, not, ◌&&◌, ◌||◌, List, [],
  ◌∷◌, length, take, drop, Option, none, some, ◌==◌, ltb, leb, if◌then◌else◌,
}
use unix_system_programming.Clib.{Text}
use unix_system_programming.Database.{ℤ, pos, negsuc, write_at}

-- The bits MS_READ, MS_WRITE, MS_APPEND and MS_TRUNCATE.
pub record Flags : Type 0 where
  pub reads : Bool
  pub writes : Bool
  pub appends : Bool
  pub truncates : Bool

abbrev pub no_flags : Flags
no_flags = record { reads = false; writes = false; appends = false; truncates = false }

-- `flags != 0`
abbrev pub some_flag : Flags → Bool
some_flag f = f.reads || (f.writes || (f.appends || f.truncates))

-- One round of the loop in type_to_flags; none is its return of 0.
unfoldable pub type_step : ℕ → Flags → Option Flags
type_step c f =
    if c == b'r'
    then (if some_flag f then none else some (record f { reads = true }))
    else if c == b'w'
    then (if some_flag f then none else some (record f { writes = true; truncates = true }))
    else if c == b'a'
    then (if some_flag f then none else some (record f { appends = true }))
    else if c == b'+'
    then (if some_flag f then some (record f { reads = true; writes = true }) else none)
    else if c == b'b'
    then (if some_flag f then some f else none)
    else none

unfoldable pub flags_from : Flags → Text → Flags
flags_from f [] = f
flags_from f (c ∷ cs) = elim (type_step c f) [ none ↦ no_flags | some g ↦ flags_from g cs ]

unfoldable pub type_to_flags : Text → Flags
type_to_flags type = flags_from no_flags type

-- The offset of the first NUL, or `len`.
unfoldable pub find_end : List ℕ → ℕ → ℕ
find_end buf zero = 0
find_end [] (suc len) = 0
find_end (c ∷ buf) (suc len) = if c == 0 then 0 else suc (find_end buf len)

-- struct memstream; MS_MYBUF is `mybuf`.
pub record Memstream : Type 0 where
  pub buf : List ℕ
  pub rsize : ℕ
  pub vsize : ℕ
  pub curpos : ℕ
  pub flags : Flags
  pub mybuf : Bool

pub data Errno : Type 0 where
  einval : Errno
  enomem : Errno
  ebadf : Errno

-- NULL with errno, or NULL as funopen leaves it, or the stream.
pub data Opened : Type 0 where
  failed : Errno → Opened
  unopened : Opened
  opened : Memstream → Opened

-- Which calls succeed: malloc of the structure and funopen; and what malloc of the buffer gives.
pub record Calls : Type 0 where
  pub structure : Bool
  pub memory : Option (List ℕ)
  pub funopen : Bool

-- The end of fmemopen: the virtual size, and funopen.
unfoldable pub open_sized : Calls → Memstream → Opened
open_sized c ms =
    let vsize =
      if ms.flags.appends then ms.curpos else if ms.flags.truncates then 0 else ms.rsize in
    if c.funopen then opened (record ms { vsize = vsize }) else unopened

abbrev pub new_stream : List ℕ → ℕ → Flags → ℕ → Bool → Memstream
new_stream mem size flags curpos mybuf = record {
  buf = mem;
  rsize = size;
  vsize = 0;
  curpos = curpos;
  flags = flags;
  mybuf = mybuf;
}

unfoldable pub fmemopen : Calls → Option (List ℕ) → ℕ → Text → Opened
fmemopen c buf size type =
    let flags = type_to_flags type in
    if size == 0
    then failed Errno.einval
    else if not c.structure
    then failed Errno.enomem
    else if not (some_flag flags)
    then failed Errno.einval
    else elim buf [
      | none ↦ if not (flags.reads && flags.writes) then failed Errno.einval else elim c.memory [
        | none ↦ failed Errno.enomem
        | some mem ↦ open_sized c (new_stream mem size flags 0 true)
      ]
      | some mem ↦
          open_sized c
            (new_stream mem size flags (if flags.appends then find_end mem size else 0) false)
    ]

-- What a call on the stream returns, with the stream: -1 with errno, or the count.
pub data Answer (A : Type 0) : Type 0 where
  refused : Errno → Answer A
  answer : A → Answer A

abbrev pub min : ℕ → ℕ → ℕ
min a b = if ltb a b then a else b

-- `a - b` on a size_t
abbrev pub sub64 : ℕ → ℕ → ℕ
sub64 a b = (a + 2 ^ 64 - b) % 2 ^ 64

-- A number kept in an `int` and taken as a size_t again.
unfoldable pub as_int : ℕ → ℕ
as_int n = if ltb (n % 2 ^ 32) (2 ^ 31) then n % 2 ^ 32 else n % 2 ^ 32 + (2 ^ 64 - 2 ^ 32)

-- The bytes read, whose number is returned.
unfoldable pub mstream_read : Memstream → ℕ → Answer (List ℕ) × Memstream
mstream_read ms len =
    if not ms.flags.reads
    then (refused Errno.ebadf, ms)
    else if leb ms.vsize ms.curpos
    then (answer [], ms)
    else let nr = as_int (min len (sub64 ms.vsize ms.curpos)) in
      (answer (take nr (drop ms.curpos ms.buf)), record ms { curpos = ms.curpos + nr })

-- A copy into the buffer; none is that it goes past the end.
abbrev pub copy_in : ℕ → List ℕ → List ℕ → Option (List ℕ)
copy_in off bytes buf =
    if leb (off + length bytes) (length buf) then some (write_at off bytes buf) else none

-- The NUL behind what was written to a stream for update that has grown.
unfoldable pub terminate : Memstream → ℕ → List ℕ → Option (List ℕ)
terminate ms vsize buf =
    if ltb ms.vsize vsize && (ms.flags.reads && (ms.flags.writes && ltb vsize ms.rsize))
    then copy_in vsize (0 ∷ []) buf
    else some buf

infixl 5 ◌>>=◌
abbrev pub ◌>>=◌ : {A B : Type 0} → Option A → (A → Option B) → Option B
none >>= f = none
some a >>= f = f a

-- The NUL of a stream that is not read.
unfoldable pub terminate_write_only : Memstream → ℕ → List ℕ → Option (List ℕ)
terminate_write_only ms curpos buf =
    if (ms.flags.writes || ms.flags.appends) && not ms.flags.reads
    then (if ltb curpos ms.rsize
        then copy_in curpos (0 ∷ []) buf
        else copy_in (sub64 ms.rsize 1) (0 ∷ []) buf)
    else some buf

-- none is a write past the end of the buffer.
unfoldable pub mstream_write : Memstream → List ℕ → Option (Answer ℕ × Memstream)
mstream_write ms bytes =
    let off = as_int (if ms.flags.appends then ms.vsize else ms.curpos) in
    let nw = as_int (min (length bytes) (sub64 ms.rsize off)) in
    let curpos = as_int (off + nw) in
    let vsize = if ltb ms.vsize curpos then curpos else ms.vsize in
    if not (ms.flags.appends || ms.flags.writes)
    then some (refused Errno.ebadf, ms)
    else copy_in off (take nw bytes) ms.buf >>= λ b. terminate ms vsize b >>= λ b2.
        terminate_write_only ms curpos b2 >>= λ b3.
        some (answer nw, record ms { buf = b3; curpos = curpos; vsize = vsize })

pub data Whence : Type 0 where
  seek_set : Whence
  seek_end : Whence
  seek_cur : Whence

abbrev pub add : ℕ → ℤ → ℤ
add n (pos k) = pos (n + k)
add n (negsuc k) = if leb (suc k) n then pos (n - suc k) else negsuc (k - n)

-- A number kept in an `int`.
unfoldable pub int_of : ℤ → ℤ
int_of (pos n) =
    if ltb (n % 2 ^ 32) (2 ^ 31) then pos (n % 2 ^ 32) else negsuc (2 ^ 32 - 1 - n % 2 ^ 32)
int_of (negsuc n) =
    if ltb (n % 2 ^ 32) (2 ^ 31) then negsuc (n % 2 ^ 32) else pos (2 ^ 32 - 1 - n % 2 ^ 32)

-- `off` of mstream_seek
abbrev pub target : Memstream → ℤ → Whence → ℤ
target ms p seek_set = int_of p
target ms p seek_end = int_of (add ms.vsize p)
target ms p seek_cur = int_of (add ms.curpos p)

unfoldable pub set_position : ℤ → Memstream → Answer ℕ × Memstream
set_position (negsuc _) ms = (refused Errno.einval, ms)
set_position (pos n) ms =
    if ltb ms.vsize n then (refused Errno.einval, ms) else (answer n, record ms { curpos = n })

unfoldable pub mstream_seek : Memstream → ℤ → Whence → Answer ℕ × Memstream
mstream_seek ms p whence = set_position (target ms p whence) ms
