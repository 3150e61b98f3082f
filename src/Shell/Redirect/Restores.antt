-- ===== src/Shell/Redirect/Restores.antt =====
-- After a redirected command the shell's descriptors are what they were before it.
use unix_system_programming.Prelude.{
  ℕ, ◌≡◌, ◌≢◌, refl, sym, ap, ◌∙◌, List, Option, none, some, arith, inl, inr, Option-cases,
}
use unix_system_programming.Clib.{Text}
use unix_system_programming.Descriptors.{
  File, reading, writing, Table, update, close, dup2, IsFresh, ◌≈◌,
}
use unix_system_programming.Descriptors.Laws.{update_ne, fresh_ne}
use unix_system_programming.Shell.Execute.Keeps.{expand_and_execute_table}
use unix_system_programming.Shell.Execute.{expand_and_execute}
use unix_system_programming.Shell.Redirect.{
  scan_argv, no_redirection, file_redir, redirect_stdin, redirect_stdout, dup, restore_both,
  run_redirected,
}
use unix_system_programming.Shell.World.Laws.{bind-eq-done, done_world}
use unix_system_programming.Shell.World.{Os, World, done}

-- The descriptor that a call opens is gone again: only the standard one may have changed.
file_redir_ne :
    (os : Os) (f g : File) (std : ℕ) (name : Text) (w : World)
    → IsFresh os.fresh
    → w.table std ≡ some g
    → (k : ℕ) → k ≢ std
    → (file_redir os f std name w).table k ≡ w.table k
unfolding file_redir dup2 update
file_redir_ne os f g std name w law o k h = elim (Option-cases (os.fresh w.table)) [
  | inl full ↦ ground arith
  | inr (fd, e) ↦ ground (arith, law w.table fd e)
]

-- With no descriptor left nothing is redirected.
file_redir_full :
    (os : Os) (f : File) (std : ℕ) (name : Text) (w : World)
    → os.fresh w.table ≡ none
    → (file_redir os f std name w).table ≡ w.table
unfolding file_redir
file_redir_full os f std name w e = ground arith

-- The two saves and the two restorations, around anything that leaves all but the standard
-- descriptors alone.
abbrev Agrees : Table → Table → Type 0
Agrees t u = (k : ℕ) → k ≢ 0 → k ≢ 1 → u k ≡ t k

module _ (t : Table) (f g : File) (o0 : t 0 ≡ some f) (o1 : t 1 ≡ some g) where
  both_saved :
      (c0 c1 : ℕ) (u : Table)
      → t c0 ≡ none
      → update t c0 (some f) c1 ≡ none
      → Agrees (update (update t c0 (some f)) c1 (some g)) u
      → close (close (dup2 (dup2 u c0 0) c1 1) c0) c1 ≈ t
  unfolding dup2 update
  both_saved c0 c1 u n0 n1 agree k = ground (arith, agree c0, agree c1, agree k)

  -- Only the first copy was made: with no descriptor left nothing was redirected.
  one_saved : (c0 : ℕ) → t c0 ≡ none → close (dup2 (update t c0 (some f)) c0 0) c0 ≈ t
  unfolding dup2 update
  one_saved c0 n0 k = ground arith

redirect_stdin_ne :
    (os : Os) (i : Option Text) (f : File) (w : World)
    → IsFresh os.fresh
    → w.table 0 ≡ some f
    → (k : ℕ) → k ≢ 0
    → (redirect_stdin os i w).table k ≡ w.table k
unfolding redirect_stdin
redirect_stdin_ne os none f w law o k h = refl
redirect_stdin_ne os (some name) f w law o k h =
    file_redir_ne os (reading name) f 0 name w law o k h

redirect_stdout_ne :
    (os : Os) (i : Option Text) (g : File) (w : World)
    → IsFresh os.fresh
    → w.table 1 ≡ some g
    → (k : ℕ) → k ≢ 1
    → (redirect_stdout os i w).table k ≡ w.table k
unfolding redirect_stdout
redirect_stdout_ne os none g w law o k h = refl
redirect_stdout_ne os (some name) g w law o k h =
    file_redir_ne os (writing name) g 1 name w law o k h

redirect_both_Agrees :
    (os : Os) (i o : Option Text) (f g : File) (w : World)
    → IsFresh os.fresh
    → w.table 0 ≡ some f
    → w.table 1 ≡ some g
    → Agrees w.table (redirect_stdout os o (redirect_stdin os i w)).table
redirect_both_Agrees os i o f g w law o0 o1 k h0 h1 =
    let v = redirect_stdin os i w in
    let still : v.table 1 ≡ some g = redirect_stdin_ne os i f w law o0 1 (omega arith) ∙ o1 in
    redirect_stdout_ne os o g v law still k h1 ∙ redirect_stdin_ne os i f w law o0 k h0

redirect_stdin_full :
    (os : Os) (i : Option Text) (w : World)
    → os.fresh w.table ≡ none
    → (redirect_stdin os i w).table ≡ w.table
unfolding redirect_stdin
redirect_stdin_full os none w e = refl
redirect_stdin_full os (some name) w e = file_redir_full os (reading name) 0 name w e

redirect_stdout_full :
    (os : Os) (o : Option Text) (w : World)
    → os.fresh w.table ≡ none
    → (redirect_stdout os o w).table ≡ w.table
unfolding redirect_stdout
redirect_stdout_full os none w e = refl
redirect_stdout_full os (some name) w e = file_redir_full os (writing name) 1 name w e

redirect_both_full :
    (os : Os) (i o : Option Text) (w : World)
    → os.fresh w.table ≡ none
    → (redirect_stdout os o (redirect_stdin os i w)).table ≡ w.table
redirect_both_full os i o w e =
    let kept = redirect_stdin_full os i w e in
    redirect_stdout_full os o (redirect_stdin os i w) (ap os.fresh kept ∙ e) ∙ kept

dup_full : (os : Os) (fd : ℕ) (w : World) → os.fresh w.table ≡ none → dup os fd w ≡ (none, w)
unfolding dup
dup_full os fd w e = ground arith

dup_copies :
    (os : Os) (fd : ℕ) (w : World) {f : File} {copy : ℕ}
    → w.table fd ≡ some f
    → os.fresh w.table ≡ some copy
    → dup os fd w ≡ (some copy, record w { table = update w.table copy (some f) })
unfolding dup
dup_copies os fd w o e = ground arith

-- What the branch does to the table, whatever the command does to the rest of the world.
abbrev KeepsTable : Os → World → Type 0
KeepsTable os w =
    (i o : Option Text) (v : World)
    → let (c0, w1) = dup os 0 w in
      let (c1, w2) = dup os 1 w1 in
      v.table ≡ (redirect_stdout os o (redirect_stdin os i w2)).table
      → (restore_both c0 c1 v).table ≈ w.table

module _ (os : Os) (w : World) (f g : File) (law : IsFresh os.fresh) (o0 : w.table 0 ≡ some f)
    (o1 : w.table 1 ≡ some g) where
  kept_none : os.fresh w.table ≡ none → KeepsTable os w
  unfolding restore_both
  kept_none e i o v =
      rw (dup_full os 0 w e) (
        rw (dup_full os 1 w e) (λ h k. ap (λ (t : Table). t k) (h ∙ redirect_both_full os i o w e)))

  kept_one :
      (c0 : ℕ)
      → os.fresh w.table ≡ some c0
      → os.fresh (update w.table c0 (some f)) ≡ none
      → KeepsTable os w
  unfolding restore_both
  kept_one c0 e0 e1 i o v =
      let w1 = record w { table = update w.table c0 (some f) } in
      rw (dup_copies os 0 w o0 e0) (
        rw (dup_full os 1 w1 e1) (λ h k.
          ap (λ (t : Table). close (dup2 t c0 0) c0 k) (h ∙ redirect_both_full os i o w1 e1)
          ∙ one_saved w.table f g o0 o1 c0 (law _ _ e0) k))

  kept_two :
      (c0 c1 : ℕ)
      → os.fresh w.table ≡ some c0
      → os.fresh (update w.table c0 (some f)) ≡ some c1
      → KeepsTable os w
  unfolding restore_both
  kept_two c0 c1 e0 e1 i o v =
      let w1 = record w { table = update w.table c0 (some f) } in
      let w2 = record w { table = update w1.table c1 (some g) } in
      let still : w1.table 1 ≡ some g =
        update_ne w.table c0 1 (some f) (fresh_ne os.fresh w.table c0 1 law e0 o1) ∙ o1 in
      let open0 : w1.table 0 ≡ some f =
        update_ne w.table c0 0 (some f) (fresh_ne os.fresh w.table c0 0 law e0 o0) ∙ o0 in
      let kept0 =
        update_ne w1.table c1 0 (some g) (fresh_ne os.fresh w1.table c1 0 law e1 open0) ∙ open0 in
      let kept1 =
        update_ne w1.table c1 1 (some g) (fresh_ne os.fresh w1.table c1 1 law e1 still) ∙ still in
      rw (dup_copies os 0 w o0 e0) (
        rw (dup_copies os 1 w1 still e1) (λ h.
          both_saved w.table f g o0 o1 c0 c1 v.table (law _ _ e0) (law _ _ e1) (λ k h0 h1.
            ap (λ (t : Table). t k) h
            ∙ redirect_both_Agrees os i o f g w2 law kept0 kept1 k h0 h1)))

  kept : KeepsTable os w
  kept = elim (Option-cases (os.fresh w.table)) [
    | inl e ↦ kept_none e
    | inr (c0, e0) ↦ elim (Option-cases (os.fresh (update w.table c0 (some f)))) [
      | inl e ↦ kept_one c0 e0 e
      | inr (c1, e1) ↦ kept_two c0 c1 e0 e1
    ]
  ]

-- When standard input and output are open, a command with redirections leaves every descriptor of
-- the shell as it was: the standard ones are restored, and no copy or opened file stays behind,
-- whichever files are named, open or fail to open.
pub run_redirected_restores :
    (os : Os) (argv : List Text) (w : World) {f g : File} {v : World}
    → IsFresh os.fresh
    → w.table 0 ≡ some f
    → w.table 1 ≡ some g
    → run_redirected os argv w ≡ done tt v
    → v.table ≈ w.table
unfolding run_redirected
run_redirected_restores os argv w {f} {g} {v} law o0 o1 h k =
    elim (Option-cases (scan_argv argv no_redirection)) [
      | inl e ↦ cc (rw (e, run_redirected) at h)
      | inr (r, e) ↦
          let (c0, w1) = dup os 0 w in
          let (c1, w2) = dup os 1 w1 in
          let v2 = redirect_stdout os r.output_file (redirect_stdin os r.input_file w2) in
          let (_, u, ran, last) =
            bind-eq-done (expand_and_execute os r.argv2) (λ _ x. done tt (restore_both c0 c1 x)) v2
              {b = tt} {v = v} (rw (e, run_redirected) at h) in
          ap (λ (x : World). x.table k) (sym (done_world last))
          ∙ kept os w f g law o0 o1 r.input_file r.output_file u
              (expand_and_execute_table os r.argv2 v2 ran) k
    ]
