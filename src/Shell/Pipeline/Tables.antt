-- ===== src/Shell/Pipeline/Tables.antt =====
-- The descriptors of one stage of a pipeline: what the child gets, and what its parent keeps.
use unix_system_programming.Prelude.{
  ℕ, ◌+◌, ◌≡◌, ◌≢◌, refl, sym, ◌∙◌, Option, none, some, ◌==◌, if◌then◌else◌, arith, inl, inr, ◌⊎◌,
  Option-cases,
}
use unix_system_programming.Descriptors.{
  File, read_end, write_end, Table, update, dup2, IsFresh, ◌≈◌,
}
use unix_system_programming.Shell.Pipeline.{
  Pipe, make_pipe, take_input, give_output, child_table, close_pipe,
}
use unix_system_programming.Shell.World.{Os, World}

-- Table `t` is `base` with pipe number `n` open at the descriptors of `p`, which `base` has free.
pub record HoldsPipe (base t : Table) (p : Pipe) (n : ℕ) : Type 0 where
  pub reads : t p.reader ≡ some (read_end n)
  pub writes : t p.writer ≡ some (write_end n)
  pub free_reader : base p.reader ≡ none
  pub free_writer : base p.writer ≡ none
  pub others : (k : ℕ) → k ≢ p.reader → k ≢ p.writer → t k ≡ base k

-- The same with no pipe at all, or with one.
pub data Holds (base t : Table) : Option Pipe → Option ℕ → Type 0 where
  no_pipe : t ≈ base → Holds base t none none
  one_pipe : {p : Pipe} {n : ℕ} → HoldsPipe base t p n → Holds base t (some p) (some n)

-- The descriptors that a stage is to have: its input from the previous pipe, its output into the
-- next, and everything else as in `base`.
abbrev pub wired : Option ℕ → Option ℕ → Table → Table
wired input output base k =
    if k == 0
    then elim input [ none ↦ base 0 | some n ↦ some (read_end n) ]
    else if k == 1
    then elim output [ none ↦ base 1 | some n ↦ some (write_end n) ]
    else base k

-- A free descriptor is not an open one.
apart : (u : Table) (a b : ℕ) {x : File} → u a ≡ none → u b ≡ some x → a ≢ b
apart u a b n o e = cc

-- Two pipes on top of `base` use four different descriptors, all free in it.
pub record Apart (base t : Table) (p q : Pipe) (n : ℕ) : Type 0 where
  pub rr : q.reader ≢ p.reader
  pub rw' : q.reader ≢ p.writer
  pub wr : q.writer ≢ p.reader
  pub ww : q.writer ≢ p.writer
  pub base_reader : base q.reader ≡ none
  pub base_writer : base q.writer ≡ none
  pub still : t p.reader ≡ some (read_end n)

pub four_distinct :
    (base u t : Table) (p q : Pipe) (n m : ℕ)
    → HoldsPipe base u p n
    → HoldsPipe u t q m
    → Apart base t p q n
four_distinct base u t p q n m h k = record {
  rr = a;
  rw' = b;
  wr = c;
  ww = d;
  base_reader = sym (h.others q.reader a b) ∙ k.free_reader;
  base_writer = sym (h.others q.writer c d) ∙ k.free_writer;
  still = k.others p.reader (λ e. a (sym e)) (λ e. c (sym e)) ∙ h.reads;
}
  where
    a : q.reader ≢ p.reader
    a = apart u q.reader p.reader k.free_reader h.reads

    b : q.reader ≢ p.writer
    b = apart u q.reader p.writer k.free_reader h.writes

    c : q.writer ≢ p.reader
    c = apart u q.writer p.reader k.free_writer h.reads

    d : q.writer ≢ p.writer
    d = apart u q.writer p.writer k.free_writer h.writes

module _ (base u t : Table) (f g : File) (o0 : base 0 ≡ some f) (o1 : base 1 ≡ some g) where
  pub child_wired :
      {prev next : Option Pipe} {input output : Option ℕ}
      → Holds base u prev input
      → Holds u t next output
      → child_table prev next t ≈ wired input output base
  unfolding take_input give_output dup2 update
  child_wired (no_pipe h) (no_pipe m) k = ground (arith, h k, m k)
  child_wired (one_pipe {p} {n} h) (no_pipe m) k =
      ground (arith, h.reads, h.writes, h.free_reader, h.free_writer, h.others k, m k, m p.reader)
  child_wired (no_pipe h) (one_pipe {p = q} m) k = ground (
    arith,
    h k,
    h q.reader,
    h q.writer,
    m.reads,
    m.writes,
    m.free_reader,
    m.free_writer,
    m.others k,
  )
  child_wired (one_pipe {p} h) (one_pipe {p = q} m) k =
      let a = four_distinct base u t p q _ _ h m in
      ground (
        arith,
        a.rr,
        a.rw',
        a.wr,
        a.ww,
        a.base_reader,
        a.base_writer,
        a.still,
        h.free_reader,
        h.free_writer,
        h.others k,
        m.reads,
        m.writes,
        m.others k,
      )

  pub close_pipe-Holds :
      {prev next : Option Pipe} {input output : Option ℕ}
      → Holds base u prev input
      → Holds u t next output
      → Holds base (close_pipe prev t) next output
  unfolding close_pipe update
  close_pipe-Holds (no_pipe h) (no_pipe m) = no_pipe (λ k. m k ∙ h k)
  close_pipe-Holds (one_pipe {p} h) (no_pipe m) =
      no_pipe (λ k. ground (arith, h.free_reader, h.free_writer, h.others k, m k))
  close_pipe-Holds (no_pipe h) (one_pipe {p = q} m) = one_pipe (record {
    reads = m.reads;
    writes = m.writes;
    free_reader = sym (h q.reader) ∙ m.free_reader;
    free_writer = sym (h q.writer) ∙ m.free_writer;
    others = λ k a b. m.others k a b ∙ h k;
  })
  close_pipe-Holds (one_pipe {p} h) (one_pipe {p = q} m) =
      let a = four_distinct base u t p q _ _ h m in
      one_pipe (record {
        reads = ground (arith, m.reads, a.rr, a.rw');
        writes = ground (arith, m.writes, a.wr, a.ww);
        free_reader = a.base_reader;
        free_writer = a.base_writer;
        others = λ k x y. ground (arith, h.free_reader, h.free_writer, h.others k, m.others k x y);
      })

-- A pipe was made: what the world is like behind the call.
pub record Made (os : Os) (w : World) : Type 0 where
  pub pipe : Pipe
  pub world : World
  pub makes : make_pipe os w ≡ some (pipe, world)
  pub holds : HoldsPipe w.table world.table pipe w.pipes
  pub counted : world.pipes ≡ w.pipes + 1
  pub trace_same : world.trace ≡ w.trace

module _ (os : Os) (w : World) (law : IsFresh os.fresh) where
  made :
      (r s : ℕ)
      → os.fresh w.table ≡ some r
      → os.fresh (update w.table r (some (read_end w.pipes))) ≡ some s
      → Made os w
  unfolding make_pipe update
  made r s e e' =
      let free = law w.table r e in
      let free' = law (update w.table r (some (read_end w.pipes))) s e' in
      record {
        pipe = record { reader = r; writer = s };
        world = record w {
          table = update (update w.table r (some (read_end w.pipes))) s (some (write_end w.pipes));
          pipes = w.pipes + 1;
        };
        makes = ground arith;
        holds = record {
          reads = ground arith;
          writes = ground arith;
          free_reader = free;
          free_writer = ground arith;
          others = λ k a b. ground arith;
        };
        counted = refl;
        trace_same = refl;
      }

  -- The call fails, or makes a pipe.
  pub make_pipe-cases : (make_pipe os w ≡ none) ⊎ Made os w
  unfolding make_pipe
  make_pipe-cases = elim (Option-cases (os.fresh w.table)) [
    | inl e ↦ inl (ground arith)
    | inr (r, e) ↦ elim (Option-cases (os.fresh (update w.table r (some (read_end w.pipes))))) [
      | inl e' ↦ inl (ground arith)
      | inr (s, e') ↦ inr (made r s e e')
    ]
  ]
