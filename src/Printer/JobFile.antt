-- ===== src/Printer/JobFile.antt =====
-- The file that keeps the next job number (init_request and update_jobno of apue.3e/printer/printd.c).
pub mod Restart
use unix_system_programming.Prelude.{
  ℕ, zero, suc, ◌+◌, ◌-◌, ◌%◌, ◌^◌, Bool, true, false, List, [], ◌∷◌, ◌++◌, length, take, drop,
  Option, none, some, ◌==◌, ltb, if◌then◌else◌,
}
use unix_system_programming.Clib.{Text, codes}
use unix_system_programming.Database.{ℤ, pos, negsuc, read_at, write_at}
use unix_system_programming.Database.Numbers.{decimal, atol}

abbrev pub filenmsz : ℕ
filenmsz = 64

-- SPOOLDIR and JOBFILE
abbrev pub job_file : Text
job_file = codes "/var/spool/printer/jobno"

-- The 32 bits of a number that is assigned to an int32_t.
abbrev pub int32 : ℤ → ℕ
int32 (pos n) = n % 2 ^ 32
int32 (negsuc n) = 2 ^ 32 - 1 - n % 2 ^ 32

-- `nextjob`, of a file of these bytes; `stale` is what `name` holds behind the file's name. none is that the daemon
-- ends, since the record lock is another's or the read fails.
unfoldable pub init_request : Bool → Bool → Text → Text → Option ℕ
init_request locked readable stale file =
    let bytes = read_at 0 filenmsz file in
    let name = bytes ++ drop (length bytes) (job_file ++ 0 ∷ stale) in
    if locked
    then (if readable
        then (if length bytes == 0 then some 1 else some (int32 (atol name)))
        else none)
    else none

-- "%d" of an int32_t
unfoldable pub print_int32 : ℕ → Text
print_int32 n = if ltb n (2 ^ 31) then decimal n else b'-' ∷ decimal (2 ^ 32 - n)

-- The file afterwards, which keeps what stood behind the number; none is that a call fails and the daemon ends.
unfoldable pub update_jobno : Bool → Bool → ℕ → Text → Option Text
update_jobno sought written nextjob file =
    if sought
    then (if written then some (write_at 0 (print_int32 nextjob) file) else none)
    else none
