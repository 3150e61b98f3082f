-- ===== src/Memstream/Tests.antt =====
-- Streams over five bytes, for apue.3e/exercises/fmemopen.c.
use unix_system_programming.Prelude.{ℕ, ◌≡◌, refl, true, false, List, [], ◌∷◌, none, some, arith}
use unix_system_programming.Clib.{Text}
use unix_system_programming.Database.{pos, negsuc}
use unix_system_programming.Memstream.{
  Memstream, einval, Calls, opened, fmemopen, open_sized, type_to_flags, flags_from, type_step,
  find_end, int_of, seek_set, seek_end,
}
use unix_system_programming.Memstream.Bounds.{IsValid}
use unix_system_programming.Memstream.Contents.{fmemopen-file_run, file_run, file_call, file_of}
use unix_system_programming.Memstream.Runs.{
  Call, read, write, seek, Reply, got, wrote, sought, minus_one, run, fmemopen-run,
}

abbrev five : List ℕ
five = b'h' ∷ b'i' ∷ 0 ∷ 7 ∷ 7 ∷ []

abbrev calls : Calls
calls = record { structure = true; memory = none; funopen = true }

abbrev update : Text
update = b'r' ∷ b'+' ∷ []

abbrev append : Text
append = b'a' ∷ []

abbrev updated : Memstream
updated = record {
  buf = five;
  rsize = 5;
  vsize = 5;
  curpos = 0;
  flags = record { reads = true; writes = true; appends = false; truncates = false };
  mybuf = false;
}

abbrev appended : Memstream
appended = record {
  buf = five;
  rsize = 5;
  vsize = 2;
  curpos = 2;
  flags = record { reads = false; writes = false; appends = true; truncates = false };
  mybuf = false;
}

-- More than the room at the end, a read of it, a seek past it, and one that counts from it.
abbrev session : List Call
session =
    seek (pos 3) seek_set
    ∷ write (b'a' ∷ b'b' ∷ b'c' ∷ [])
    ∷ seek (negsuc 3) seek_end
    ∷ read 9
    ∷ seek (pos 1) seek_end
    ∷ []

opens : fmemopen calls (some five) 5 update ≡ opened updated
unfolding fmemopen open_sized type_to_flags flags_from type_step
opens = refl

opens_append : fmemopen calls (some five) 5 append ≡ opened appended
unfolding fmemopen open_sized type_to_flags flags_from type_step find_end
opens_append = refl

replies :
    (file_run session (file_of updated)).0
    ≡ sought 3 ∷ wrote 2 ∷ sought 1 ∷ got (b'i' ∷ 0 ∷ b'a' ∷ b'b' ∷ []) ∷ minus_one einval ∷ []
unfolding file_run file_call int_of
replies = refl

fmemopen-file_run_example :
    (rs : List Reply) × (ms2 : Memstream) × (run session updated ≡ some (rs, ms2))
    × (file_run session (file_of updated) ≡ (rs, file_of ms2))
unfolding type_to_flags flags_from type_step
fmemopen-file_run_example =
    fmemopen-file_run calls (some five) 5 update updated session opens refl tt (omega arith) refl
      refl

fmemopen-run_example :
    (rs : List Reply) × (ms2 : Memstream) × (run
        (write (b'a' ∷ b'b' ∷ b'c' ∷ b'd' ∷ []) ∷ [])
        appended
      ≡ some (rs, ms2))
    × IsValid ms2
fmemopen-run_example =
    fmemopen-run calls (some five) 5 append appended (write (b'a' ∷ b'b' ∷ b'c' ∷ b'd' ∷ []) ∷ [])
      opens_append refl tt (omega arith)
