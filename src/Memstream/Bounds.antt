-- ===== src/Memstream/Bounds.antt =====
-- The operations of apue.3e/exercises/fmemopen.c stay within the buffer.
use unix_system_programming.Prelude.{
  ℕ, zero, suc, ◌+◌, ◌-◌, ◌^◌, ◌≤◌, ◌<◌, ◌≡◌, inl, inr, refl, ap, ◌∙◌, true, not, ◌&&◌, ◌||◌, List,
  [], ◌∷◌, length, take, drop, some, ltb, leb, if◌then◌else◌, Bool-cases, arith,
}
use unix_system_programming.Database.{ℤ, pos, negsuc, write_at}
use unix_system_programming.Memstream.{
  Errno, Memstream, copy_in, min, sub64, as_int, mstream_read, mstream_write, mstream_seek,
  set_position, terminate, terminate_write_only, Whence, Answer, refused, answer, target,
}

pub record IsValid (ms : Memstream) : Type 0 where
  pub whole : length ms.buf ≡ ms.rsize
  pub some_bytes : 0 < ms.rsize
  pub fits : ms.rsize < 2 ^ 31
  pub grown : ms.vsize ≤ ms.rsize
  pub inside : ms.curpos ≤ ms.vsize

pub length-write_at :
    (off : ℕ) (bytes buf : List ℕ)
    → off + length bytes ≤ length buf
    → length (write_at off bytes buf) ≡ length buf
length-write_at zero [] buf h = refl
length-write_at zero (b ∷ bs) [] h = ground arith
length-write_at zero (b ∷ bs) (x ∷ buf) h = ground (arith, length-write_at zero bs buf)
length-write_at (suc off) [] [] h = refl
length-write_at (suc off) (b ∷ bs) [] h = ground arith
length-write_at (suc off) bs (x ∷ buf) h = ground (arith, length-write_at off bs buf)

pub length-take : (n : ℕ) (xs : List ℕ) → n ≤ length xs → length (take n xs) ≡ n
length-take zero xs h = refl
length-take (suc n) [] h = ground arith
length-take (suc n) (x ∷ xs) h = ground (arith, length-take n xs)

-- A copy that fits is made, and the buffer keeps its length.
pub copy_in_lem :
    (off : ℕ) (bytes buf : List ℕ)
    → off + length bytes ≤ length buf
    → (copy_in off bytes buf ≡ some (write_at off bytes buf))
      × (length (write_at off bytes buf) ≡ length buf)
copy_in_lem off bytes buf h = (ground arith, length-write_at off bytes buf h)

-- What the two NULs leave has the length of the buffer.
pub terminate_lem :
    (ms : Memstream) (vsize : ℕ) (buf : List ℕ)
    → IsValid ms
    → length buf ≡ ms.rsize
    → (b : List ℕ) × (terminate ms vsize buf ≡ some b) × (length b ≡ ms.rsize)
unfolding terminate
terminate_lem ms vsize buf v whole =
    elim (Bool-cases
      (ltb ms.vsize vsize && (ms.flags.reads && (ms.flags.writes && ltb vsize ms.rsize)))) [
        | inl e ↦
            let (made, kept) = copy_in_lem vsize (0 ∷ []) buf (ground arith) in
            (write_at vsize (0 ∷ []) buf, ground arith, kept ∙ whole)
        | inr e ↦ (buf, ground arith, whole)
      ]

pub terminate_write_only_lem :
    (ms : Memstream) (curpos : ℕ) (buf : List ℕ)
    → IsValid ms
    → length buf ≡ ms.rsize
    → (b : List ℕ) × (terminate_write_only ms curpos buf ≡ some b) × (length b ≡ ms.rsize)
unfolding terminate_write_only
terminate_write_only_lem ms curpos buf v whole =
    elim (Bool-cases ((ms.flags.writes || ms.flags.appends) && not ms.flags.reads)) [
      | inr e ↦ (buf, ground arith, whole)
      | inl e ↦ elim (Bool-cases (ltb curpos ms.rsize)) [
        | inl e2 ↦
            let (made, kept) = copy_in_lem curpos (0 ∷ []) buf (ground arith) in
            (write_at curpos (0 ∷ []) buf, ground arith, kept ∙ whole)
        | inr e2 ↦
            let (made, kept) =
              copy_in_lem (sub64 ms.rsize 1) (0 ∷ []) buf (ground (arith, v.some_bytes)) in
            (write_at (sub64 ms.rsize 1) (0 ∷ []) buf, ground arith, kept ∙ whole)
      ]
    ]

-- Where a write begins and how many bytes it copies.
abbrev pub start_of : Memstream → ℕ
start_of ms = if ms.flags.appends then ms.vsize else ms.curpos

abbrev pub room : Memstream → List ℕ → ℕ
room ms bytes = min (length bytes) (ms.rsize - start_of ms)

abbrev pub larger : ℕ → ℕ → ℕ
larger a b = if ltb a b then b else a

pub as_int_lem : (n : ℕ) → n < 2 ^ 31 → as_int n ≡ n
unfolding as_int
as_int_lem n h = ground arith

pub start_le : (ms : Memstream) → IsValid ms → start_of ms ≤ ms.vsize
start_le ms v = ground (arith, v.inside)

pub start_lem : (ms : Memstream) → IsValid ms → as_int (start_of ms) ≡ start_of ms
start_lem ms v = as_int_lem _ (omega (arith, start_le ms v, v.grown, v.fits))

room_lem :
    (ms : Memstream) (bytes : List ℕ)
    → IsValid ms
    → as_int (min (length bytes) (sub64 ms.rsize (start_of ms))) ≡ room ms bytes
room_lem ms bytes v =
    let same : sub64 ms.rsize (start_of ms) ≡ ms.rsize - start_of ms =
      ground (arith, v.fits, v.grown, start_le ms v) in
    ap (λ (k : ℕ). as_int (min (length bytes) k)) same
    ∙ as_int_lem (room ms bytes) (ground (arith, v.fits))

end_lem :
    (ms : Memstream) (bytes : List ℕ)
    → IsValid ms
    → as_int (start_of ms + room ms bytes) ≡ start_of ms + room ms bytes
end_lem ms bytes v = as_int_lem _ (ground (arith, start_le ms v, v.grown, v.fits))

write_parts :
    (ms : Memstream) (bytes : List ℕ) (nw : ℕ) (b1 b2 b3 : List ℕ)
    → (ms.flags.appends || ms.flags.writes) ≡ true
    → as_int (start_of ms) ≡ start_of ms
    → as_int (min (length bytes) (sub64 ms.rsize (start_of ms))) ≡ nw
    → as_int (start_of ms + nw) ≡ start_of ms + nw
    → copy_in (start_of ms) (take nw bytes) ms.buf ≡ some b1
    → terminate ms (larger ms.vsize (start_of ms + nw)) b1 ≡ some b2
    → terminate_write_only ms (start_of ms + nw) b2 ≡ some b3
    → mstream_write ms bytes
      ≡ some (
        answer nw,
        record ms {
          buf = b3;
          curpos = start_of ms + nw;
          vsize = larger ms.vsize (start_of ms + nw);
        },
      )
unfolding mstream_write
write_parts ms bytes nw b1 b2 b3 may first count past made ended closed =
    rw (first, count, past, may, made, ended, closed) refl

-- On a valid stream that may be written, mstream_write makes its copy and its NULs within the buffer.
pub write_run :
    (ms : Memstream) (bytes : List ℕ)
    → IsValid ms
    → (ms.flags.appends || ms.flags.writes) ≡ true
    → (b2 b3 : List ℕ) × (terminate ms
          (larger ms.vsize (start_of ms + room ms bytes))
          (write_at (start_of ms) (take (room ms bytes) bytes) ms.buf)
        ≡ some b2)
      × (terminate_write_only ms (start_of ms + room ms bytes) b2 ≡ some b3)
      × (length b3 ≡ ms.rsize)
      × (mstream_write ms bytes
          ≡ some (
            answer (room ms bytes),
            record ms {
              buf = b3;
              curpos = start_of ms + room ms bytes;
              vsize = larger ms.vsize (start_of ms + room ms bytes);
            },
          ))
write_run ms bytes v may =
    let nw = room ms bytes in
    let off = start_of ms in
    let count = room_lem ms bytes v in
    let copied : length (take nw bytes) ≡ nw = length-take nw bytes (ground arith) in
    let (made, kept) =
      copy_in_lem off (take nw bytes) ms.buf (ground (arith, start_le ms v, v.whole, v.grown)) in
    let (b2, e2, whole2) =
      terminate_lem ms (larger ms.vsize (off + nw)) (write_at off (take nw bytes) ms.buf) v
        (kept ∙ v.whole) in
    let (b3, e3, whole3) = terminate_write_only_lem ms (off + nw) b2 v whole2 in
    (
      b2,
      b3,
      e2,
      e3,
      whole3,
      write_parts ms bytes nw _ b2 b3 may (start_lem ms v) count (end_lem ms bytes v) made e2 e3,
    )

pub written-IsValid :
    (ms : Memstream) (bytes b : List ℕ)
    → IsValid ms
    → length b ≡ ms.rsize
    → IsValid (record ms {
      buf = b;
      curpos = start_of ms + room ms bytes;
      vsize = larger ms.vsize (start_of ms + room ms bytes);
    })
written-IsValid ms bytes b v whole = record {
  whole = whole;
  some_bytes = v.some_bytes;
  fits = v.fits;
  grown = ground (arith, v.grown, start_le ms v);
  inside = ground arith;
}

-- On a valid stream mstream_write returns without a write past the buffer, and leaves a valid stream.
pub mstream_write-IsValid :
    (ms : Memstream) (bytes : List ℕ)
    → IsValid ms
    → (a : Answer ℕ) × (ms2 : Memstream) × (mstream_write ms bytes ≡ some (a, ms2)) × IsValid ms2
unfolding mstream_write
mstream_write-IsValid ms bytes v = elim (Bool-cases (ms.flags.appends || ms.flags.writes)) [
  | inr e ↦ (refused Errno.ebadf, ms, rw e refl, v)
  | inl may ↦
      let (b2, b3, e2, e3, whole, eq) = write_run ms bytes v may in
      (_, _, eq, written-IsValid ms bytes b3 v whole)
]

-- On a valid stream the number of bytes read is not cut by its type.
pub read_count :
    (ms : Memstream) (len : ℕ)
    → IsValid ms
    → as_int (min len (sub64 ms.vsize ms.curpos)) ≡ min len (ms.vsize - ms.curpos)
read_count ms len v =
    let same : sub64 ms.vsize ms.curpos ≡ ms.vsize - ms.curpos =
      ground (arith, v.fits, v.grown, v.inside) in
    ap (λ (k : ℕ). as_int (min len k)) same
    ∙ as_int_lem (min len (ms.vsize - ms.curpos)) (ground (arith, v.fits, v.grown))

length-drop : (n : ℕ) (xs : List ℕ) → length (drop n xs) ≡ length xs - n
length-drop zero xs = omega arith
length-drop (suc n) [] = omega arith
length-drop (suc n) (x ∷ xs) = omega (arith, length-drop n xs)

-- What mstream_read returns and leaves, on a valid stream that may be read.
pub read_run :
    (ms : Memstream) (len : ℕ)
    → IsValid ms
    → ms.flags.reads ≡ true
    → (mstream_read ms len ≡ (
      answer (take (min len (ms.vsize - ms.curpos)) (drop ms.curpos ms.buf)),
      record ms { curpos = ms.curpos + min len (ms.vsize - ms.curpos) },
    ))
      × (length (take (min len (ms.vsize - ms.curpos)) (drop ms.curpos ms.buf))
          ≡ min len (ms.vsize - ms.curpos))
unfolding mstream_read
read_run ms len v reads =
    let count = read_count ms len v in
    let n = min len (ms.vsize - ms.curpos) in
    (
      elim (Bool-cases (leb ms.vsize ms.curpos)) [
        | inl e ↦
            let nothing : n ≡ 0 = ground arith in
            let still : ms.curpos ≡ ms.curpos + 0 = omega arith in ground (arith, still)
        | inr e ↦ rw (reads, e, count) refl
      ],
      length-take _ _ (ground (arith, length-drop ms.curpos ms.buf, v.whole, v.grown)),
    )

pub mstream_read-IsValid : (ms : Memstream) (len : ℕ) → IsValid ms → IsValid (mstream_read ms len).1
unfolding mstream_read
mstream_read-IsValid ms len v = record {
  whole = ground arith;
  some_bytes = ground arith;
  fits = ground arith;
  grown = ground arith;
  inside = ground (arith, read_count ms len v);
}

set_position-IsValid : (to : ℤ) (ms : Memstream) → IsValid ms → IsValid (set_position to ms).1
unfolding set_position
set_position-IsValid (negsuc n) ms v = v
set_position-IsValid (pos n) ms v = record {
  whole = ground arith;
  some_bytes = ground arith;
  fits = ground arith;
  grown = ground arith;
  inside = ground arith;
}

pub mstream_seek-IsValid :
    (ms : Memstream) (p : ℤ) (whence : Whence) → IsValid ms → IsValid (mstream_seek ms p whence).1
unfolding mstream_seek
mstream_seek-IsValid ms p whence v = set_position-IsValid (target ms p whence) ms v
