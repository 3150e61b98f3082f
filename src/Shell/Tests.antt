-- ===== src/Shell/Tests.antt =====
-- The shells at concrete inputs, and the theorems' instances there.
use unix_system_programming.Prelude.{
  ℕ, ◌+◌, true, false, List, [], ◌∷◌, ◌++◌, ◌≡◌, refl, Option, none, some, if◌then◌else◌, ltb, ◌==◌,
  suc, zero, arith, Option-cases, inl, inr,
}
mod Witnesses
use Prim.Native.String.{String}
use unix_system_programming.Clib.{Text, codes, str_eq}
use unix_system_programming.Descriptors.{
  File, inherited, reading, writing, read_end, write_end, Table, Fresh, IsFresh, update, dup2,
}
use unix_system_programming.Shell.World.{
  Os, World, Event, printed, forked, awaited, Outcome, done, exited, crashed, null_string,
  argv_past_end,
}
use unix_system_programming.Shell.Words.{arguments}
use unix_system_programming.Shell.Session.{main}

-- The lowest of the first eight descriptors that is not open.
abbrev lowest : ℕ → ℕ → Table → Option ℕ
lowest ℕ.zero at t = none
lowest (suc n) at t = elim (t at) [ none ↦ some at | some f ↦ lowest n (at + 1) t ]

abbrev start_table : Table
start_table fd = if ltb fd 3 then some (inherited fd) else none

abbrev os : Os
os = record {
  fresh = lowest 8 0;
  glob =
      λ now arg. if str_eq arg (codes "*.c") then some (codes "a.c" ∷ codes "b.c" ∷ []) else none;
  open_ok = λ now name. true;
  fork_ok = λ now. true;
  child_ends = λ id. true;
}

abbrev start : World
start = record { table = start_table; clock = 0; pipes = 0; trace = [] }

abbrev trace_of : Outcome (Unit {0}) → List Event
trace_of (done a w) = w.trace
trace_of (exited n w) = w.trace
trace_of (crashed e w) = w.trace

abbrev argvs : List Event → List (Option (List Text))
argvs [] = []
argvs (forked id argv t ∷ es) = argv ∷ argvs es
argvs (printed s ∷ es) = argvs es
argvs (_ ∷ es) = argvs es

abbrev files : List Event → List (Option File × Option File × Option File)
files [] = []
files (forked id argv t ∷ es) = (t 0, t 1, t 3) ∷ files es
files (printed s ∷ es) = files es
files (_ ∷ es) = files es

arguments_test : arguments (codes "ls  -l ") ≡ codes "ls" ∷ codes "-l" ∷ [] ∷ []
unfolding arguments
arguments_test = refl

lowest_free : (n at : ℕ) (t : Table) (fd : ℕ) → lowest n at t ≡ some fd → t fd ≡ none
lowest_free zero at t fd h = cc
lowest_free (suc n) at t fd h = elim (Option-cases (t at)) [
  | inl e ↦ ground arith
  | inr (f, e) ↦ lowest_free n (at + 1) t fd (rw (e, lowest) at h)
]

os_fresh : IsFresh os.fresh
os_fresh t fd h = lowest_free 8 0 t fd h

run : String → Outcome (Unit {0})
unfolding main
run s = main os (codes s) start

-- A wildcard, redirections, a sequence and a pipeline, up to `exit`: what is executed.
abbrev script : String
script = "ls *.c\nwc a < f > g\n cat ; ls *.c;\ncat f | sort | wc -l *.c\nexit\nls\n"

executed_test :
    argvs (trace_of (run script))
    ≡ some (codes "ls" ∷ codes "a.c" ∷ codes "b.c" ∷ [])
      ∷ some (codes "wc" ∷ codes "a" ∷ [])
      ∷ some (codes "cat" ∷ [])
      ∷ some (codes "ls" ∷ codes "a.c" ∷ codes "b.c" ∷ [])
      ∷ some (codes "cat" ∷ codes "f" ∷ [])
      ∷ some (codes "sort" ∷ [])
      ∷ some (codes "wc" ∷ codes "-l" ∷ codes "*.c" ∷ [])
      ∷ []
unfolding run str_eq update dup2
executed_test = refl

-- The descriptors 0, 1 and 3 of each child.
descriptors_test :
    files (trace_of (run script))
    ≡ (some (inherited 0), some (inherited 1), none)
      ∷ (some (reading (codes "f")), some (writing (codes "g")), some (inherited 0))
      ∷ (some (inherited 0), some (inherited 1), none)
      ∷ (some (inherited 0), some (inherited 1), none)
      ∷ (some (inherited 0), some (write_end 0), none)
      ∷ (some (read_end 0), some (write_end 1), none)
      ∷ (some (read_end 1), some (inherited 1), none)
      ∷ []
unfolding run str_eq update dup2
descriptors_test = refl
