-- ===== src/Printer/Tests.antt =====
-- The theorems on apue.3e/printer/printd.c at small spools.
mod Spool
mod Submits
use unix_system_programming.Prelude.{
  ℕ, length, ◌≡◌, ◌≢◌, ◌+◌, ◌++◌, ◌⊎◌, ◌/◌, ◌%◌, refl, true, false, none, some, [], ◌∷◌, ◌==◌,
  if◌then◌else◌, arith,
}
use unix_system_programming.Clib.{Text, codes, c_string}
use unix_system_programming.Database.Numbers.{decimal, digits}
use unix_system_programming.Linked.{node, ◌>>=◌}
use unix_system_programming.Printer.Jobs.{Request, job}
use unix_system_programming.Printer.Jobs.Numbers.{Numbered, number_given, get_newjobno_distinct}
use unix_system_programming.Printer.Clients.{Server, Calls, client_thread}
use unix_system_programming.Printer.Clients.Answer.{whole}
use unix_system_programming.Printer.Clients.Spooled.{
  Refused, Accepted, received, flagged, host, client_thread_lem,
}
use unix_system_programming.Printer.Printing.{Round, printer_round}
use unix_system_programming.Printer.Printing.Rounds.{
  given_up, printed, GivenUp, Printed, Deferred, printer_round_lem,
}
use unix_system_programming.Printer.Workers.{worker, Pool, add_worker, client_cleanup}
use unix_system_programming.Printer.Workers.Second.{Works, add_worker-client_cleanup}
use unix_system_programming.Printer.Ipp.{add_option, ipp_header, is_text}
use unix_system_programming.Printer.Ipp.Options.{read_option, add_option-read_option}
use unix_system_programming.Printer.Ipp.Sizes.{length-ipp_header}
use unix_system_programming.Printer.JobFile.{print_int32, init_request, update_jobno}
use unix_system_programming.Printer.JobFile.Restart.{update_jobno-init_request}

abbrev report : Request
report = record { size = 6; flags = 0; usernm = codes "ann"; jobnm = codes "report" }

abbrev idle : Server
idle = record {
  files = λ n. none;
  nextjob = 7;
  pending = record { heap = λ a. none; head = 0; tail = 0 };
  answers = [];
}

-- A document in two buffers.
abbrev report_calls : Calls
report_calls = record {
  header = whole report;
  creat_data = none;
  buffers = (codes "one", whole tt) ∷ (codes "two", whole tt) ∷ [];
  creat_request = none;
  write_request = whole tt;
  malloced = 3;
}

abbrev same : ℕ → ℕ
same n = n

abbrev no_workers : Pool
no_workers = record { heap = λ a. none; workers = 0 }

client_thread_lem_example :
    (w2 : Pool) × (t : Server) × (client_thread same same 5 [] 2 8 100 4 report_calls no_workers
        idle
      ≡ some (w2, t, 4 ∷ []))
    × Works w2 []
    × (Refused same same 5 [] idle t
        ⊎ ((req : Request) × (Calls.header report_calls ≡ whole req)
            × Accepted same same 5 [] idle [] 7 3
                (received (Calls.buffers report_calls))
                (flagged same same 5 [] (Calls.buffers report_calls) (host same same 5 [] req))
                t))
client_thread_lem_example =
    client_thread_lem same same 5 [] 1 8 100 4 report_calls no_workers idle [] (tt, tt, refl)
      (ground arith) (tt, tt, refl, refl) (ground arith) refl (refl, refl)

-- A spool with the one job 7.
abbrev one_job : Server
one_job = record idle {
  pending = record {
    heap = λ a. if a == 3 then some (node 0 0 (job 7 report)) else none;
    head = 3;
    tail = 3;
  };
}

abbrev silent_printer : Round
silent_printer = record {
  opened = true;
  stated = true;
  connected = true;
  headed = true;
  spaced = true;
  copied = true;
  confirmed = false;
}

printer_round_lem_example :
    (s2 : Server) × (printer_round silent_printer one_job ≡ some s2)
    × (if given_up silent_printer
        then GivenUp one_job [] s2
        else if printed silent_printer report
        then Printed [] 7 s2
        else Deferred one_job ((3, job 7 report) ∷ []) s2)
printer_round_lem_example =
    printer_round_lem silent_printer one_job 3 (job 7 report) []
      ((refl, tt), (ground arith, refl, tt), refl, refl)

get_newjobno_distinct_example :
    Numbered (number_given 2 2147483646)
    × (number_given 2 2147483646 ≢ number_given (2 + 5) 2147483646)
get_newjobno_distinct_example =
    get_newjobno_distinct 2 5 2147483646 (omega arith, omega arith) (omega arith) (omega arith)

-- A pool with the one worker 100, which serves the socket 4.
abbrev one_worker : Pool
one_worker = record {
  heap = λ a. if a == 8 then some (node 0 0 (worker 100 4)) else none;
  workers = 8;
}

add_worker-client_cleanup_example :
    (w2 : Pool) × (w3 : Pool) × (add_worker one_worker 9 101 5 ≡ some (true, w2))
    × (client_cleanup 3 w2 100 ≡ some (w3, 4 ∷ []))
    × (Pool.workers w3 ≡ 8)
    × (Pool.heap w3 8 ≡ none)
add_worker-client_cleanup_example =
    add_worker-client_cleanup 2 one_worker 8 (worker 100 4) [] 9 101 5
      ((refl, tt), (ground arith, refl, tt), refl) (ground arith) refl

abbrev two_bytes : ℕ → Text
two_bytes n = n / 256 ∷ n % 256 ∷ []

abbrev four_bytes : ℕ → Text
four_bytes n = 0 ∷ 0 ∷ n / 256 ∷ n % 256 ∷ []

add_option-read_option_example :
    read_option (add_option two_bytes four_bytes 71 (codes "charset") (codes "utf-8") ++ 3 ∷ [])
    ≡ some (71, c_string (codes "charset"), c_string (codes "utf-8"), 3 ∷ [])
unfolding c_string
add_option-read_option_example =
    add_option-read_option two_bytes four_bytes 71 (codes "charset") (codes "utf-8") (3 ∷ [])
      (λ n h. refl) (omega arith) (omega arith) (omega arith)

length-ipp_header_example :
    length (ipp_header two_bytes four_bytes (codes "lp") (job 7 report))
    ≡ (if is_text report then 170 else 182)
      + length (c_string (codes "lp"))
      + length (c_string (codes "ann"))
      + length (c_string (codes "report"))
length-ipp_header_example =
    length-ipp_header two_bytes four_bytes (λ n. refl) (λ n. refl) (codes "lp") (job 7 report)

update_jobno-init_request_example :
    (update_jobno true true 42 (codes "41") >>= λ bytes. init_request true true [] bytes) ≡ some 42
unfolding decimal digits print_int32
update_jobno-init_request_example =
    update_jobno-init_request 42 [] (codes "41") (omega arith, omega arith) (ground arith)
