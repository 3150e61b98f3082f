-- ===== src/Database/Insert.antt =====
-- db_store of apue.3e/db/db.c for a key that is not there and for which no free record fits: what the
-- files then stand for, and what db_fetch then finds.
use unix_system_programming.Prelude.{
  ℕ, suc, ◌+◌, ◌≤◌, ◌<◌, ◌≡◌, refl, sym, ap, ◌∙◌, subst, true, false, ◌&&◌, List, [], ◌∷◌, ◌++◌,
  length, All, ◌==◌, arith,
}
use unix_system_programming.Clib.{Text}
use unix_system_programming.Database.{
  pos, Db, done, return, get, Sys, write_lock, lock, index, lock_call, read_at, write_at,
}
use unix_system_programming.Database.Numbers.{pad}
use unix_system_programming.Database.Runs.{
  bind_run, then_run, return_run, modify_run, get_run, lock_call_run,
}
use unix_system_programming.Database.Files.{
  ptr_sz, ptr_max, idxlen_ok, readptr, writedat, writeidx, append,
}
use unix_system_programming.Database.Store.{
  free_loop, findfree, append_record, link_front, store_new,
}
use unix_system_programming.Database.Pointers.{readptr_run, writeptr_run}
use unix_system_programming.Database.Quiet.{Kept, kept, quiet-free_loop}
use unix_system_programming.Database.Entries.{Entry, line_of, bytes_of, Writable}
use unix_system_programming.Database.Writes.{Frame, Frame-trans, writedat_run, writeidx_run}
use unix_system_programming.Database.Chains.{Pairs, free_loop_run}
use unix_system_programming.Database.Fetch.{Leads, kept_done}
use unix_system_programming.Database.Models.{Models, slot_place, new_entry, new_dat, new_idx}

-- No record of the free list has the sizes of a pair.
abbrev pub Misfit : Text → Text → Pairs → Type 0
Misfit key text =
    All
      (λ (p : Text × Text). (length p.0 == length key && length p.1 + 1 == length text + 1) ≡ false)

module _ (sys : Sys) (ok : (n : ℕ) → sys n ≡ true) where
  findfree_run :
      (fuel : ℕ) (key text : Text) (db : Db) {floor : ℕ} {frees : Pairs}
      → 0 < floor
      → Leads db.idx db.dat floor 0 frees
      → Misfit key text frees
      → length frees ≤ fuel
      → (u : Db) × (findfree sys fuel (length key) (length text + 1) db ≡ done false u)
        × (u.idx ≡ db.idx)
        × (u.dat ≡ db.dat)
        × (u.chainoff ≡ db.chainoff)
        × (u.hashoff ≡ db.hashoff)
        × (u.nhash ≡ db.nhash)
  unfolding findfree kept
  findfree_run fuel key text db {floor} {frees} front leads misfit enough =
      let start : Db = record db {
        locks = db.locks ++ lock write_lock index 0 1 ∷ [];
        calls = suc (suc db.calls);
        at = 0 + length (pad ptr_sz leads.first);
      } in
      let (u, run) =
        free_loop_run sys ok front (length key) (length text + 1) fuel (pos 0) start refl
          leads.chain misfit enough in
      let same =
        kept_done
          (quiet-free_loop sys fuel (length key) (length text + 1) (pos 0) (pos leads.first)) run in
      (
        _,
        then_run (lock_call sys _) _ (lock_call_run sys _ db (ok _))
            ∙ bind_run (readptr sys _) _
                (readptr_run sys 0 leads.first _ (ok _) leads.small leads.pointer)
            ∙ bind_run (free_loop sys fuel _ _ _ _) _ run
            ∙ bind_run (return false) _ (return_run _ _)
            ∙ then_run (lock_call sys _) _ (lock_call_run sys _ _ (ok _))
            ∙ return_run _ _,
        ap (λ (k : Kept). k.0) same,
        ap (λ (k : Kept). k.1) same,
        ap (λ (k : Kept). k.3) same,
        ap (λ (k : Kept). k.4) same,
        ap (λ (k : Kept). k.5) same,
      )

  -- A record appended and put in front of the chain: the pieces of append_record, on any database.
  append_record_run :
      (key text : Text) (first h : ℕ) (db : Db)
      → first ≤ ptr_max
      → length db.idx ≤ ptr_max
      → db.chainoff ≡ slot_place h
      → Writable (new_entry db.dat key text)
      → (u : Db) × (append_record sys key text (pos first) db ≡ done tt u)
        × (u.idx ≡ new_idx h db.idx (new_entry db.dat key text) first)
        × (u.dat ≡ new_dat db.dat text)
        × Frame db u
  unfolding append_record link_front
  append_record_run key text first h db low small place w =
      let (a, run1, dat1, off1, len1, idx1, _, f1) = writedat_run sys ok text append db in
      let same_entry : record { key = key; datoff = a.datoff; datlen = a.datlen }
          ≡ new_entry db.dat key text =
        ap (λ (o : ℕ). record { key = key; datoff = o; datlen = a.datlen }) off1
        ∙ ap (λ (n : ℕ). record { key = key; datoff = length db.dat; datlen = n }) len1 in
      let fits = ap (λ (x : Entry). idxlen_ok (length (line_of x))) same_entry ∙ w.line_fits in
      let (b, run2, idx2, at2, dat2, _, _, f2) = writeidx_run sys ok key append first a low fits in
      let end : b.idxoff ≡ length db.idx = at2 ∙ ap (λ (l : List ℕ). length l) idx1 in
      let grown =
        idx2
        ∙ ap
            (λ (l : List ℕ).
              write_at (length l)
                (bytes_of (record { key = key; datoff = a.datoff; datlen = a.datlen }) first) l)
            idx1
        ∙ ap (λ (x : Entry). write_at (length db.idx) (bytes_of x first) db.idx) same_entry in
      (
        _,
        then_run (writedat sys text append) _ run1
            ∙ then_run (writeidx sys key append (pos first)) _ run2
            ∙ bind_run (get _) _ (get_run _ _)
            ∙ writeptr_run sys b.chainoff b.idxoff b (ok _)
                (subst (λ (n : ℕ). n ≤ ptr_max) (sym end) small),
        ap (λ (c : ℕ). write_at c (pad ptr_sz b.idxoff) b.idx) (f2.chain ∙ f1.chain ∙ place)
            ∙ ap (λ (o : ℕ). write_at (slot_place h) (pad ptr_sz o) b.idx) end
            ∙ ap (λ (l : List ℕ). write_at (slot_place h) (pad ptr_sz (length db.idx)) l) grown,
        dat2 ∙ dat1,
        Frame-trans f1 (Frame-trans f2 (record { chain = refl; hashoff = refl; nhash = refl })),
      )

  -- store_new, where the chain has been chosen and no free record fits.
  pub store_new_run :
      (fuel : ℕ) (key text : Text) (db : Db) {table : ℕ → Pairs} {frees : Pairs} {h : ℕ}
      (m : Models db.nhash db.idx db.dat table frees) (below : h < db.nhash)
      → db.chainoff ≡ slot_place h
      → Misfit key text frees
      → length frees ≤ fuel
      → length db.idx ≤ ptr_max
      → Writable (new_entry db.dat key text)
      → (u : Db) × (store_new sys fuel key text db ≡ done tt u)
        × (u.idx ≡ new_idx h db.idx (new_entry db.dat key text) (m.slots h below).first)
        × (u.dat ≡ new_dat db.dat text)
        × (u.chainoff ≡ db.chainoff)
        × (u.hashoff ≡ db.hashoff)
        × (u.nhash ≡ db.nhash)
  unfolding store_new
  store_new_run fuel key text db {table} {frees} {h} m below place misfit enough small w =
      let lead = m.slots h below in
      let seen : Db = record db {
        at = db.chainoff + length (pad ptr_sz lead.first);
        calls = suc db.calls;
      } in
      let (f, free, idxs, dats, chains, starts, sizes) =
        findfree_run fuel key text seen (omega arith) m.free_list misfit enough in
      let (u, run, idx2, dat2, frame) =
        append_record_run key text lead.first h f lead.small
          (subst (λ (l : List ℕ). length l ≤ ptr_max) (sym idxs) small) (chains ∙ place)
          (subst (λ (d : List ℕ). Writable (new_entry d key text)) (sym dats) w) in
      (
        _,
        bind_run (get _) _ (get_run _ db)
            ∙ bind_run (readptr sys _) _ (
                readptr_run sys db.chainoff lead.first db (ok _) lead.small
                  (ap (λ (c : ℕ). read_at c ptr_sz db.idx) place ∙ lead.pointer))
            ∙ bind_run (findfree sys fuel _ _) _ free
            ∙ then_run (append_record sys key text _) _ run
            ∙ modify_run _ _,
        idx2
            ∙ ap (λ (l : List ℕ). new_idx h l (new_entry f.dat key text) lead.first) idxs
            ∙ ap (λ (d : List ℕ). new_idx h db.idx (new_entry d key text) lead.first) dats,
        dat2 ∙ ap (λ (d : List ℕ). new_dat d text) dats,
        frame.chain ∙ chains,
        frame.hashoff ∙ starts,
        frame.nhash ∙ sizes,
      )
