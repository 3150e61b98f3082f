-- ===== src/Memstream/Contents.antt =====
-- Streams for update of apue.3e/exercises/fmemopen.c against a file of bounded size.
use unix_system_programming.Prelude.{
  ℕ, ◌+◌, ◌-◌, ◌^◌, ◌≤◌, ◌<◌, ◌≡◌, inl, inr, refl, sym, ap, subst, ◌∙◌, Bool, true, ◌&&◌, List, [],
  ◌∷◌, length, take, drop, Option, some, ltb, if◌then◌else◌, Bool-cases, arith,
}
use unix_system_programming.Clib.{Text}
use unix_system_programming.Database.{ℤ, pos, negsuc, write_at}
use unix_system_programming.Memstream.{
  Memstream, Errno, Flags, Calls, opened, fmemopen, type_to_flags, Whence, seek_set, seek_cur,
  seek_end, min, terminate, terminate_write_only, Answer, target, mstream_seek, set_position,
  int_of, add,
}
use unix_system_programming.Memstream.Bounds.{
  IsValid, write_run, read_run, mstream_read-IsValid, mstream_seek-IsValid, length-write_at,
  length-take, start_of, room, larger, start_le, written-IsValid,
}
use unix_system_programming.Memstream.Slices.{take-write_at, take-write_at_end, take-drop, take-min}
use unix_system_programming.Memstream.Runs.{
  fmemopen-IsValid, fmemopen-flags, Sized, Call, read, write, seek, Reply, call, run, run-cons,
  reply, got, wrote, sought, minus_one,
}

-- A file of at most `size` bytes with a position. Writes go to its end where `appends` holds, and to the position
-- otherwise.
pub record File : Type 0 where
  pub size : ℕ
  pub appends : Bool
  pub bytes : List ℕ
  pub position : ℕ

-- Where a seek goes, as an `int`.
abbrev pub destination : File → ℤ → Whence → ℤ
destination f p seek_set = int_of p
destination f p seek_end = int_of (add (length f.bytes) p)
destination f p seek_cur = int_of (add f.position p)

abbrev pub seek_to : ℤ → File → Reply × File
seek_to (negsuc n) f = (minus_one Errno.einval, f)
seek_to (pos n) f =
    if ltb (length f.bytes) n
    then (minus_one Errno.einval, f)
    else (sought n, record f { position = n })

abbrev pub put : ℕ → List ℕ → File → Reply × File
put off kept f = (
  wrote (length kept),
  record f { bytes = write_at off kept f.bytes; position = off + length kept },
)

-- What a file does at a call.
unfoldable pub file_call : Call → File → Reply × File
file_call (read len) f =
    let bytes = take len (drop f.position f.bytes) in
    (got bytes, record f { position = f.position + length bytes })
file_call (write bytes) f =
    let off = if f.appends then length f.bytes else f.position in
    put off (take (f.size - off) bytes) f
file_call (seek p whence) f = seek_to (destination f p whence) f

unfoldable pub file_run : List Call → File → List Reply × File
file_run [] f = ([], f)
file_run (c ∷ cs) f = let (r, f2) = file_call c f in let (rs, f3) = file_run cs f2 in (r ∷ rs, f3)

-- The file that a stream for update stands for.
abbrev pub file_of : Memstream → File
file_of ms = record {
  size = ms.rsize;
  appends = ms.flags.appends;
  bytes = take ms.vsize ms.buf;
  position = ms.curpos;
}

-- The NUL behind the contents does not change them.
terminated :
    (ms : Memstream) (vsize : ℕ) (b b2 : List ℕ)
    → terminate ms vsize b ≡ some b2
    → vsize ≤ length b
    → take vsize b2 ≡ take vsize b
unfolding terminate
terminated ms vsize b b2 e h =
    elim (Bool-cases
      (ltb ms.vsize vsize && (ms.flags.reads && (ms.flags.writes && ltb vsize ms.rsize)))) [
        | inl t ↦
            let here : write_at vsize (0 ∷ []) b ≡ b2 = ground arith in
            rw (sym here) (take-write_at_end vsize vsize (0 ∷ []) b (omega arith) h)
        | inr t ↦ let here : b ≡ b2 = ground arith in rw (sym here) refl
      ]

-- What a write leaves between the beginning and the new end.
kept_contents :
    (ms : Memstream) (off n : ℕ) (kept b2 : List ℕ)
    → terminate ms n (write_at off kept ms.buf) ≡ some b2
    → n ≡ larger ms.vsize (off + length kept)
    → off ≤ ms.vsize
    → ms.vsize ≤ length ms.buf
    → off + length kept ≤ length ms.buf
    → take n b2 ≡ write_at off kept (take ms.vsize ms.buf)
kept_contents ms off n kept b2 e size first inside fits =
    let same = length-write_at off kept ms.buf fits in
    terminated ms n (write_at off kept ms.buf) b2 e (ground arith)
    ∙ take-write_at off ms.vsize n kept ms.buf first inside fits size

write_contents :
    (ms : Memstream) (bytes b2 : List ℕ)
    → IsValid ms
    → terminate ms
        (larger ms.vsize (start_of ms + room ms bytes))
        (write_at (start_of ms) (take (room ms bytes) bytes) ms.buf)
      ≡ some b2
    → take (larger ms.vsize (start_of ms + room ms bytes)) b2
      ≡ write_at (start_of ms) (take (room ms bytes) bytes) (take ms.vsize ms.buf)
write_contents ms bytes b2 v e =
    let count : length (take (room ms bytes) bytes) ≡ room ms bytes =
      length-take (room ms bytes) bytes (ground arith) in
    kept_contents ms (start_of ms) (larger ms.vsize (start_of ms + room ms bytes))
      (take (room ms bytes) bytes) b2 e
      (ap (λ (k : ℕ). larger ms.vsize (start_of ms + k)) (sym count)) (start_le ms v)
      (omega (arith, v.grown, v.whole)) (ground (arith, start_le ms v, v.grown, v.whole))

-- What stays the same at a call, with what the file does.
Follows : Call → Memstream → Type 0
Follows c ms =
    (r : Reply) × (ms2 : Memstream) × (call c ms ≡ some (r, ms2))
    × IsValid ms2
    × (ms2.flags ≡ ms.flags)
    × (file_call c (file_of ms) ≡ (r, file_of ms2))

length-contents : (ms : Memstream) → IsValid ms → length (take ms.vsize ms.buf) ≡ ms.vsize
length-contents ms v = length-take ms.vsize ms.buf (omega (arith, v.grown, v.whole))

file_start :
    (bytes : List ℕ) (ms : Memstream)
    → IsValid ms
    → file_call (write bytes) (file_of ms)
      ≡ put (start_of ms) (take (room ms bytes) bytes) (file_of ms)
unfolding file_call
file_start bytes ms v =
    let (same, count) = take-min (ms.rsize - start_of ms) bytes in
    rw (length-contents ms v, same) refl

put-file_of :
    (ms : Memstream) (off n : ℕ) (kept contents b2 : List ℕ)
    → length kept ≡ n
    → write_at off kept (take ms.vsize ms.buf) ≡ contents
    → put off kept (file_of ms) ≡ (
      wrote n,
      record { size = ms.rsize; appends = ms.flags.appends; bytes = contents; position = off + n },
    )
put-file_of ms off n kept contents b2 count same = rw (count, same) refl

write-Follows :
    (bytes : List ℕ) (ms : Memstream)
    → IsValid ms
    → ms.flags.reads ≡ true
    → ms.flags.writes ≡ true
    → Follows (write bytes) ms
unfolding Follows call terminate_write_only
write-Follows bytes ms v reads writes =
    let (b2, b3, e2, e3, whole, eq) = write_run ms bytes v (ground arith) in
    let end : b2 ≡ b3 = ground arith in
    let count : length (take (room ms bytes) bytes) ≡ room ms bytes =
      length-take (room ms bytes) bytes (ground arith) in
    let contents = write_contents ms bytes b3 v (e2 ∙ ap (λ (b : List ℕ). some b) end) in
    (
      wrote (room ms bytes),
      _,
      rw eq refl,
      written-IsValid ms bytes b3 v whole,
      refl,
      file_start bytes ms v ∙ put-file_of ms _ _ _ _ b3 count (sym contents),
    )

read-Follows :
    (len : ℕ) (ms : Memstream) → IsValid ms → ms.flags.reads ≡ true → Follows (read len) ms
unfolding Follows call file_call
read-Follows len ms v reads =
    let (eq, count) = read_run ms len v reads in
    let same = take-drop len ms.curpos ms.vsize ms.buf (omega (arith, v.grown, v.whole)) in
    (
      got (take (min len (ms.vsize - ms.curpos)) (drop ms.curpos ms.buf)),
      record ms { curpos = ms.curpos + min len (ms.vsize - ms.curpos) },
      rw eq refl,
      subst (λ (m : Answer (List ℕ) × Memstream). IsValid m.1) eq (mstream_read-IsValid ms len v),
      refl,
      rw (sym same, count) refl,
    )

set_position-seek_to :
    (to : ℤ) (ms : Memstream)
    → IsValid ms
    → (seek_to to (file_of ms)
        ≡ (reply sought (set_position to ms).0, file_of (set_position to ms).1))
      × ((set_position to ms).1.flags ≡ ms.flags)
unfolding set_position
set_position-seek_to (negsuc n) ms v = (refl, refl)
set_position-seek_to (pos n) ms v = elim (Bool-cases (ltb ms.vsize n)) [
  | inl t ↦ (rw (length-contents ms v, t) refl, rw t refl)
  | inr t ↦ (rw (length-contents ms v, t) refl, rw t refl)
]

destination-target :
    (ms : Memstream) (p : ℤ) (whence : Whence)
    → IsValid ms
    → target ms p whence ≡ destination (file_of ms) p whence
destination-target ms p seek_set v = refl
destination-target ms p seek_end v = rw (length-contents ms v) refl
destination-target ms p seek_cur v = refl

seek-Follows : (p : ℤ) (whence : Whence) (ms : Memstream) → IsValid ms → Follows (seek p whence) ms
unfolding Follows call file_call mstream_seek
seek-Follows p whence ms v =
    let (same, flags) = set_position-seek_to (target ms p whence) ms v in
    (
      _,
      _,
      refl,
      mstream_seek-IsValid ms p whence v,
      flags,
      ap (λ (to : ℤ). seek_to to (file_of ms)) (sym (destination-target ms p whence v)) ∙ same,
    )

call-Follows :
    (c : Call) (ms : Memstream)
    → IsValid ms
    → ms.flags.reads ≡ true
    → ms.flags.writes ≡ true
    → Follows c ms
call-Follows (read len) ms v reads writes = read-Follows len ms v reads
call-Follows (write bytes) ms v reads writes = write-Follows bytes ms v reads writes
call-Follows (seek p whence) ms v reads writes = seek-Follows p whence ms v

run-file_run :
    (cs : List Call) (ms : Memstream)
    → IsValid ms
    → ms.flags.reads ≡ true
    → ms.flags.writes ≡ true
    → (rs : List Reply) × (ms2 : Memstream) × (run cs ms ≡ some (rs, ms2))
      × (file_run cs (file_of ms) ≡ (rs, file_of ms2))
unfolding run file_run Follows
run-file_run [] ms v reads writes = ([], ms, refl, refl)
run-file_run (c ∷ cs) ms v reads writes =
    let (r, ms2, e, v2, flags, same) = call-Follows c ms v reads writes in
    let (rs, ms3, e2, same2) =
      run-file_run cs ms2 v2 (ap Flags.reads flags ∙ reads) (ap Flags.writes flags ∙ writes) in
    (r ∷ rs, ms3, run-cons c cs ms r ms2 rs ms3 e e2, rw (same, same2) refl)

-- A stream that fmemopen opens with a type for reading and writing, on a buffer of the size that it is told, where
-- that is below 2^31, stands for a file of its size: the calls return what they return on that file, and the contents and the position behind them are the file's.
pub fmemopen-file_run :
    (c : Calls) (buf : Option (List ℕ)) (size : ℕ) (type : Text) (ms : Memstream) (cs : List Call)
    → fmemopen c buf size type ≡ opened ms
    → Sized buf size
    → Sized c.memory size
    → size < 2 ^ 31
    → (type_to_flags type).reads ≡ true
    → (type_to_flags type).writes ≡ true
    → (rs : List Reply) × (ms2 : Memstream) × (run cs ms ≡ some (rs, ms2))
      × (file_run cs (file_of ms) ≡ (rs, file_of ms2))
fmemopen-file_run c buf size type ms cs e sized sized2 fits reads writes =
    let flags = fmemopen-flags c buf size type ms e in
    run-file_run cs ms (fmemopen-IsValid c buf size type ms e sized sized2 fits)
      (ap Flags.reads flags ∙ reads) (ap Flags.writes flags ∙ writes)
