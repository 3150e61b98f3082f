-- ===== src/Shell/ThreePipe/Wiring.antt =====
-- The two pipelines of the course connect their stages in the same way: what a child of 3pipe.c gets is
-- what a child of myShell2.c gets, though the calls come in another order.
use unix_system_programming.Prelude.{ℕ, ◌≡◌, sym, ◌∙◌, Option, some, arith}
use unix_system_programming.Descriptors.{File, Table, update, dup2, ◌≈◌}
use unix_system_programming.Shell.Pipeline.Tables.{
  Holds, no_pipe, one_pipe, four_distinct, child_wired, wired,
}
use unix_system_programming.Shell.Pipeline.{Pipe, child_table}
use unix_system_programming.Shell.ThreePipe.{connect_input, connect_output, connected}

connected_wired :
    (base u t : Table) (f g : File) {prev next : Option Pipe} {input output : Option ℕ}
    → base 0 ≡ some f
    → base 1 ≡ some g
    → Holds base u prev input
    → Holds u t next output
    → connected prev next t ≈ wired input output base
unfolding connect_input connect_output dup2 update
connected_wired base u t f g o0 o1 (no_pipe h) (no_pipe m) k = ground (arith, h k, m k)
connected_wired base u t f g o0 o1 (one_pipe {p} h) (no_pipe m) k =
    ground (arith, h.reads, h.writes, h.free_reader, h.free_writer, h.others k, m k, m p.reader)
connected_wired base u t f g o0 o1 (no_pipe h) (one_pipe {p = q} m) k = ground (
  arith,
  h k,
  h q.reader,
  h q.writer,
  m.reads,
  m.writes,
  m.free_reader,
  m.free_writer,
  m.others k,
)
connected_wired base u t f g o0 o1 (one_pipe {p} h) (one_pipe {p = q} m) k =
    let a = four_distinct base u t p q _ _ h m in
    ground (
      arith,
      a.rr,
      a.rw',
      a.wr,
      a.ww,
      a.base_reader,
      a.base_writer,
      a.still,
      h.free_reader,
      h.free_writer,
      h.others k,
      m.reads,
      m.writes,
      m.others k,
    )

-- With pipes at descriptors that were free, and standard input and output open, the child of 3pipe.c
-- has its input from the previous pipe, its output into the next, and no other end of a pipe: the same
-- descriptors as the child of myShell2.c.
pub connected-child_table :
    (base u t : Table) {f g : File} {prev next : Option Pipe} {input output : Option ℕ}
    → base 0 ≡ some f
    → base 1 ≡ some g
    → Holds base u prev input
    → Holds u t next output
    → (connected prev next t ≈ wired input output base)
      × (connected prev next t ≈ child_table prev next t)
connected-child_table base u t {f} {g} o0 o1 h m =
    let same = connected_wired base u t f g o0 o1 h m in
    (same, λ k. same k ∙ sym (child_wired base u t f g o0 o1 h m k))
