-- ===== src/Shell/Pipeline/Wiring.antt =====
-- What a pipeline runs, and what it leaves.
use unix_system_programming.Prelude.{
  ℕ, ◌+◌, ◌≡◌, refl, sym, ap, ◌∙◌, subst, List, [], ◌∷◌, ◌++◌, Option, none, some, inl, inr,
  append_assoc, append-nil, Bool-cases,
}
use unix_system_programming.Clib.{Text}
use unix_system_programming.Descriptors.{File, Table, IsFresh, ◌≈◌}
use unix_system_programming.Shell.Pipeline.Tables.{
  Holds, no_pipe, one_pipe, wired, child_wired, close_pipe-Holds, Made, make_pipe-cases,
}
use unix_system_programming.Shell.Pipeline.{
  Pipe, child_argv, child_table, close_pipe, start_stage, run_stages,
}
use unix_system_programming.Shell.World.Laws.{bind-eq-done, done_world, trace_trans}
use unix_system_programming.Shell.World.{
  Os, World, Event, forked, awaited, Outcome, done, tell, wait_for,
}

-- The events of the stages from one on: each is a child with its arguments and its descriptors, and
-- it is awaited before the next is started. The first number is the pipe that it reads.
pub data Stages (os : Os) (base : Table) : Option ℕ → ℕ → List Text → List Event → Type 0 where
  none_left : {input : Option ℕ} {n : ℕ} → Stages os base input n [] []
  last_stage :
      {input : Option ℕ} {n : ℕ} {command : Text} (id : ℕ) (t : Table)
      → t ≈ wired input none base
      → Stages os base input n
          (command ∷ [])
          (forked id (child_argv os (id + 1) command) t ∷ awaited id ∷ [])
  stage :
      {input : Option ℕ} {n : ℕ} {command after : Text} {rest : List Text} {es : List Event}
      (id : ℕ) (t : Table)
      → t ≈ wired input (some n) base
      → Stages os base (some n) (n + 1) (after ∷ rest) es
      → Stages os base input n
          (command ∷ after ∷ rest)
          (forked id (child_argv os (id + 1) command) t ∷ awaited id ∷ es)

-- A run of stages that ends well.
pub record Ran (os : Os) (base : Table) (input : Option ℕ) (commands : List Text) (w v : World)
    : Type 0 where
  pub events : List Event
  pub traced : v.trace ≡ w.trace ++ events
  pub staged : Stages os base input w.pipes commands events
  pub same_table : v.table ≈ base

-- One stage, started with its pipes in place.
record Started (os : Os) (prev next : Option Pipe) (command : Text) (w v : World) : Type 0 where
  id : ℕ
  traced :
      v.trace
      ≡ w.trace
        ++ forked id (child_argv os (id + 1) command) (child_table prev next w.table)
          ∷ awaited id
          ∷ []
  closed : v.table ≡ close_pipe prev w.table
  same_pipes : v.pipes ≡ w.pipes

-- A wait that is over has added its event.
wait_for_done :
    (os : Os) (id : ℕ) (w : World) {v : World}
    → wait_for os id w ≡ done tt v
    → ◌≡◌ {A = Outcome (Unit {0})} (done tt (tell (awaited id) w)) (done tt v)
unfolding wait_for
wait_for_done os id w h = elim (Bool-cases (os.child_ends id)) [
  | inl e ↦ rw (e, wait_for) at h
  | inr e ↦ cc (rw (e, wait_for) at h)
]

start_stage_done :
    (os : Os) (prev next : Option Pipe) (command : Text) (w : World) {v : World}
    → start_stage os prev next command w ≡ done tt v
    → Started os prev next command w v
unfolding start_stage
start_stage_done os prev next command w h = elim (Bool-cases (os.fork_ok w.clock)) [
  | inr e ↦ cc (rw (e, start_stage) at h)
  | inl e ↦
      let at_end = done_world (wait_for_done os w.clock _ (rw (e, start_stage) at h)) in
      record {
        id = w.clock;
        traced = ap (λ (x : World). x.trace) (sym at_end) ∙ append_assoc w.trace _ _;
        closed = ap (λ (x : World). x.table) (sym at_end);
        same_pipes = ap (λ (x : World). x.pipes) (sym at_end);
      }
]

Holds-≈ : {base t : Table} → Holds base t none none → t ≈ base
Holds-≈ (no_pipe h) = h

module _ (os : Os) (base : Table) (f g : File) (law : IsFresh os.fresh) (o0 : base 0 ≡ some f)
    (o1 : base 1 ≡ some g) where
  last_Ran :
      (prev : Option Pipe) (input : Option ℕ) (command : Text) (w v : World)
      → Holds base w.table prev input
      → Started os prev none command w v
      → Ran os base input (command ∷ []) w v
  last_Ran prev input command w v held s =
      let same : Holds w.table w.table none none = no_pipe (λ k. refl) in
      record {
        events = _;
        traced = s.traced;
        staged = last_stage s.id _ (child_wired base w.table w.table f g o0 o1 held same);
        same_table = Holds-≈ (
            subst (λ (t : Table). Holds base t none none) (sym s.closed)
              (close_pipe-Holds base w.table w.table f g o0 o1 held same));
      }

  next_Ran :
      (prev : Option Pipe) (input : Option ℕ) (command after : Text) (rest : List Text)
      (w u v : World) (m : Made os w)
      → Holds base w.table prev input
      → Started os prev (some m.pipe) command m.world u
      → Ran os base (some w.pipes) (after ∷ rest) u v
      → Ran os base input (command ∷ after ∷ rest) w v
  next_Ran prev input command after rest w u v m held s ih = record {
    events = _ ∷ _ ∷ ih.events;
    traced =
        trace_trans w.trace (forked s.id _ _ ∷ awaited s.id ∷ []) ih.events
          (rw (← m.trace_same) s.traced) ih.traced;
    staged =
        stage s.id _ (child_wired base w.table m.world.table f g o0 o1 held (one_pipe m.holds)) (
          subst (λ (n : ℕ). Stages os base (some w.pipes) n (after ∷ rest) ih.events)
            (s.same_pipes ∙ m.counted) ih.staged);
    same_table = ih.same_table;
  }

  run_stages-Ran :
      (prev : Option Pipe) (input : Option ℕ) (command : Text) (rest : List Text) (w : World)
      {v : World}
      → Holds base w.table prev input
      → run_stages os prev (command ∷ rest) w ≡ done tt v
      → Ran os base input (command ∷ rest) w v
  unfolding run_stages
  run_stages-Ran prev input command [] w {v} held h =
      last_Ran prev input command w v held (start_stage_done os prev none command w h)
  run_stages-Ran prev input command (after ∷ rest) w {v} held h = elim (make_pipe-cases os w law) [
    | inl e ↦ cc (rw (e, run_stages) at h)
    | inr m ↦
        let (_, u, e, r) =
          bind-eq-done (start_stage os prev (some m.pipe) command)
            (λ _. run_stages os (some m.pipe) (after ∷ rest)) m.world {b = tt} {v = v}
            (rw (m.makes, run_stages) at h) in
        let s = start_stage_done os prev (some m.pipe) command m.world e in
        let held' =
          subst (λ (t : Table). Holds base t (some m.pipe) (some w.pipes)) (sym s.closed)
            (close_pipe-Holds base w.table m.world.table f g o0 o1 held (one_pipe m.holds)) in
        next_Ran prev input command after rest w u v m held s
          (run_stages-Ran (some m.pipe) (some w.pipes) after rest u held' r)
  ]

  -- With standard input and output open, the stages of a pipeline run one after another, each with
  -- the arguments of its command. A stage reads the pipe that the one before it writes; the first
  -- reads and the last writes what the shell does; no child has another descriptor of a pipe, and
  -- the shell's own table is what it was.
  pub run_stages_wired :
      (commands : List Text) (w : World) {v : World}
      → w.table ≈ base
      → run_stages os none commands w ≡ done tt v
      → Ran os base none commands w v
  unfolding run_stages
  run_stages_wired [] w same h = record {
    events = [];
    traced = ap (λ (x : World). x.trace) (sym (done_world h)) ∙ sym (append-nil w.trace);
    staged = none_left;
    same_table = λ k. ap (λ (x : World). x.table k) (sym (done_world h)) ∙ same k;
  }
  run_stages_wired (command ∷ rest) w same h =
      run_stages-Ran none none command rest w (no_pipe same) h
