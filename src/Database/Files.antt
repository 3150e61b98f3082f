-- ===== src/Database/Files.antt =====
-- The functions of apue.3e/db/db.c that read and write one field or record of the files.
use unix_system_programming.Prelude.{
  ℕ, suc, ◌+◌, ◌-◌, ◌*◌, ◌%◌, ◌^◌, Bool, false, ◌&&◌, not, List, [], ◌∷◌, ◌++◌, length, Option,
  drop, none, some, take, ltb, leb, ◌==◌, if◌then◌else◌, get_or,
}
use unix_system_programming.Clib.{Text, has_char, c_string}
use unix_system_programming.Database.{
  ℤ, pos, negsuc, Db, D, dumped, quitted, overrun, ◌>>=◌, ◌>>◌, return, modify, get, halt, require,
  Sys, demand, lock_call, lock, LockKind, write_lock, unlocked, index, data_file, read_at, write_at,
}
use unix_system_programming.Database.Numbers.{decimal, pad, atol}

abbrev pub idxlen_sz : ℕ
idxlen_sz = 4

abbrev pub ptr_sz : ℕ
ptr_sz = 7

abbrev pub ptr_max : ℕ
ptr_max = 9999999

-- The ranges of the lengths of index and data records.
abbrev pub idxlen_ok : ℕ → Bool
idxlen_ok n = leb 6 n && leb n 1024

abbrev pub datlen_ok : ℕ → Bool
datlen_ok n = leb 2 n && leb n 1024

-- _db_hash, in an unsigned long, with char signed.
unfoldable pub hash_from : ℕ → ℕ → Text → ℕ
hash_from i hval [] = hval
hash_from i hval (c ∷ cs) =
    let product = if ltb c 128 then c * i else 2 ^ 64 - (256 - c) * i in
    hash_from (suc i) ((hval + product) % 2 ^ 64) cs

unfoldable pub db_hash : Db → Text → ℕ
unfolding hash_from
db_hash db key = hash_from 1 0 key % db.nhash

-- lseek(db->idxfd, offset, SEEK_SET) and a read or a write there.
unfoldable pub seek : ℤ → D (Unit {0})
seek (pos n) = modify (λ db. record db { at = n })
seek (negsuc n) = halt dumped

unfoldable pub read_idx : Sys → ℕ → D (List ℕ)
read_idx sys n = do
  demand sys
  bytes ← get (λ db. read_at db.at n db.idx)
  modify (λ db. record db { at = db.at + length bytes })
  return bytes

unfoldable pub write_idx : Sys → List ℕ → D (Unit {0})
write_idx sys bytes =
    demand sys
    >> modify (λ db. record db { idx = write_at db.at bytes db.idx; at = db.at + length bytes })

-- _db_readptr.
unfoldable pub readptr : Sys → ℤ → D ℤ
readptr sys offset = do
  seek offset
  asciiptr ← read_idx sys ptr_sz
  require (length asciiptr == ptr_sz)
  return (atol (c_string asciiptr))

-- _db_writeptr.
unfoldable pub writeptr : Sys → ℤ → ℤ → D (Unit {0})
writeptr sys offset (negsuc n) = halt quitted
writeptr sys offset (pos n) =
    if ltb ptr_max n then halt quitted else seek offset >> write_idx sys (pad ptr_sz n)

-- A text split at the first separator.
unfoldable pub cut_sep : Text → Option (Text × Text)
cut_sep [] = none
cut_sep (c ∷ cs) =
    let rest = cut_sep cs in
    if c == b':' then some ([], cs) else elim rest [ none ↦ none | some (a, b) ↦ some (c ∷ a, b) ]

-- The last two steps of _db_readidx, after the length has been accepted: the record's bytes, and the
-- three fields in them.
unfoldable pub set_fields : Text → Text → Text → D (Unit {0})
set_fields key off len = elim (atol off) [
  | negsuc n ↦ halt dumped
  | pos datoff ↦ elim (atol len) [
    | negsuc n ↦ halt dumped
    | pos datlen ↦ do
      modify (λ db. record db { idxbuf = key; datoff = datoff; datlen = datlen })
      require (leb 1 datlen && leb datlen 1024)
  ]
]

unfoldable pub read_fields : Sys → ℕ → D (Unit {0})
unfolding cut_sep set_fields
read_fields sys n = do
  bytes ← read_idx sys n
  require (length bytes == n)
  require (get_or bytes (n - 1) 0 == b'\n')
  elim (cut_sep (c_string (take (n - 1) bytes))) [
    | none ↦ halt dumped
    | some (key, rest) ↦ elim (cut_sep rest) [
      | none ↦ halt dumped
      | some (off, len) ↦ require (not (has_char b':' len)) >> set_fields key off len
    ]
  ]

unfoldable pub accept_length : Sys → ℤ → D (Unit {0})
unfolding read_fields
accept_length sys (negsuc n) = halt dumped
accept_length sys (pos n) = do
  modify (λ db. record db { idxlen = n })
  require (idxlen_ok n)
  read_fields sys n

-- _db_readidx from a given offset, and with offset 0 from where the descriptor is. It returns the
-- offset of the next record of the chain, or -1 at the end of the file.
unfoldable pub is_current : ℤ → Bool
is_current (pos n) = n == 0
is_current (negsuc n) = false

unfoldable pub read_rest : Sys → List ℕ → D ℤ
unfolding accept_length
read_rest sys front = do
  require (length front == ptr_sz + idxlen_sz)
  modify (λ db. record db { ptrval = atol (c_string (take ptr_sz front)) })
  accept_length sys (atol (c_string (drop ptr_sz front)))
  get (λ db. db.ptrval)

unfoldable pub readidx : Sys → ℤ → D ℤ
unfolding is_current read_rest
readidx sys offset = do
  if is_current offset then return tt else seek offset
  modify (λ db. record db { idxoff = db.at })
  front ← read_idx sys (ptr_sz + idxlen_sz)
  if length front == 0 && is_current offset then return (negsuc 0) else read_rest sys front

-- The bytes of `datbuf`, DATLEN_MAX + 2.
unfoldable pub datbuf_size : ℕ
datbuf_size = 1026

-- Bytes that are read into datbuf, or behind its end.
unfoldable pub into_datbuf : List ℕ → D (Unit {0})
into_datbuf bytes = if leb (length bytes) datbuf_size then return tt else halt overrun

-- _db_readdat.
unfoldable pub readdat : Sys → D Text
unfolding into_datbuf
readdat sys = do
  demand sys
  bytes ← get (λ db. read_at db.datoff db.datlen db.dat)
  into_datbuf bytes
  n ← get (λ db. db.datlen)
  require (length bytes == n)
  require (get_or bytes (n - 1) 0 == b'\n')
  modify (λ db. record db { datbuf = c_string (take (n - 1) bytes) })
  get (λ db. db.datbuf)

-- Where a write goes: an offset with SEEK_SET, or the end of the file with the lock that appending takes.
pub data Place : Type 0 where
  set : ℕ → Place
  append : Place

abbrev pub offset_of : Place → List ℕ → ℕ
offset_of (set n) file = n
offset_of append file = length file

unfoldable pub when_appending : Place → D (Unit {0}) → D (Unit {0})
when_appending (set n) m = return tt
when_appending append m = m

-- _db_writedat.
unfoldable pub writedat : Sys → Text → Place → D (Unit {0})
writedat sys text place = do
  when_appending place (lock_call sys (lock write_lock data_file 0 0))
  modify (λ db. record db { datoff = offset_of place db.dat; datlen = length text + 1 })
  demand sys
  modify (λ db. record db { dat = write_at db.datoff (text ++ b'\n' ∷ []) db.dat })
  when_appending place (lock_call sys (lock unlocked data_file 0 0))

-- What _db_writeidx prints into idxbuf.
unfoldable pub index_line : Text → ℕ → ℕ → Text
index_line key datoff datlen =
    key ++ b':' ∷ (decimal datoff ++ b':' ∷ (decimal datlen ++ b'\n' ∷ []))

-- _db_writeidx. The buffer holds 1026 bytes, and the length is looked at after the sprintf.
unfoldable pub print_line : Text → D Text
unfolding index_line
print_line key = do
  line ← get (λ db. index_line key db.datoff db.datlen)
  if ltb 1025 (length line) then halt overrun else return tt
  modify (λ db. record db { idxbuf = line })
  require (idxlen_ok (length line))
  return line

unfoldable pub index_lock : Sys → LockKind → D (Unit {0})
index_lock sys kind =
    get (λ db. (db.nhash + 1) * ptr_sz + 1) >>= λ start. lock_call sys (lock kind index start 0)

unfoldable pub writeidx : Sys → Text → Place → ℤ → D (Unit {0})
unfolding print_line
writeidx sys key place (negsuc n) = halt quitted
writeidx sys key place (pos n) = if ltb ptr_max n then halt quitted else do
  modify (λ db. record db { ptrval = pos n })
  line ← print_line key
  when_appending place (index_lock sys write_lock)
  modify (λ db. record db { at = offset_of place db.idx; idxoff = offset_of place db.idx })
  write_idx sys (pad ptr_sz n ++ pad idxlen_sz (length line) ++ line)
  when_appending place (index_lock sys unlocked)
