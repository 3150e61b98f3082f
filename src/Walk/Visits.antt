-- ===== src/Walk/Visits.antt =====
-- The walk of ftw8.c over a hierarchy laid out as a tree.
use unix_system_programming.Prelude.{
  ℕ, zero, suc, ◌+◌, ◌*◌, ◌≤◌, ◌<◌, ◌≡◌, sym, subst, Bool, true, [], ◌∷◌, ◌++◌, length, Option,
  none, some, Bool-cases, inl, inr, leb, arith,
}
use unix_system_programming.Clib.{Text}
use unix_system_programming.Database.{ℤ}
use unix_system_programming.Walk.{
  Mode, s_ifdir, s_isdir, Files, ftw_f, ftw_d, ftw_dnr, ftw_ns, name_max, Walker, call_func, dopath,
  myftw,
}
use unix_system_programming.Walk.PathAlloc.{Limits, IsPosix, path_alloc, path_alloc-IsPosix}
use unix_system_programming.Walk.Trees.{
  Tree, gone, leaf, sealed, directory, Entries, end, entry, height, height_entries, slash, Laid,
  LaidEntries, visits, visits_entries, call_each, Follows,
}
use unix_system_programming.Walk.Names.{take_whole, Follows-weaken, failed_realloc, FollowsAll}
use unix_system_programming.Walk.Directory.{
  call_func-Follows, enter-Follows, sealed-Follows, directory-Follows,
}

module _ {S : Type 0} (fs : Files) (realloc : ℕ → Bool)
    (func : Text → Option Mode → ℕ → S → Option (S × ℤ)) where
  mutual
    unfolding dopath call_func s_isdir Laid visits height call_each

    dopath-Follows :
        (t : Tree) (fuel : ℕ) (w : Walker S)
        → height t < fuel
        → Laid fs w.fullpath t
        → length w.fullpath < w.pathlen
        → name_max < w.pathlen
        → Follows S realloc w.fullpath w.pathlen
            (call_each func (visits w.fullpath t) w.user)
            (dopath fs realloc func fuel w)
    dopath-Follows t zero w deep laid inside wide =
        let no_fuel : ⊥ = omega arith in elim no_fuel [ ]
    dopath-Follows gone (suc fuel) w deep laid inside wide =
        rw (dopath, laid)
          (call_func-Follows fs realloc func none ftw_ns w w.fullpath w.pathlen
            (take_whole w.fullpath) (omega arith))
    dopath-Follows (leaf m) (suc fuel) w deep (found, kind) inside wide =
        rw (dopath, found, kind)
          (call_func-Follows fs realloc func (some m) ftw_f w w.fullpath w.pathlen
            (take_whole w.fullpath) (omega arith))
    dopath-Follows sealed (suc fuel) w deep (found, refused) inside wide =
        rw (dopath, found)
          (enter-Follows fs realloc func (dopath fs realloc func fuel) w
            ((slash w.fullpath, some s_ifdir, ftw_dnr) ∷ [])
            (func w.fullpath (some s_ifdir) ftw_d w.user) inside wide
            (λ (size : ℕ) (u : S) (room : length w.fullpath + name_max + 2 ≤ size).
              sealed-Follows fs realloc func (dopath fs realloc func fuel) w.fullpath size u refused
                room))
    dopath-Follows (directory es) (suc fuel) w deep (found, names, opened, listed, below) inside
          wide =
        let each = entries-Follows es fuel (slash w.fullpath) (omega arith) below in
        rw (dopath, found)
          (enter-Follows fs realloc func (dopath fs realloc func fuel) w
            (visits_entries (slash w.fullpath) es) (func w.fullpath (some s_ifdir) ftw_d w.user)
            inside wide
            (λ (size : ℕ) (u : S) (room : length w.fullpath + name_max + 2 ≤ size).
              directory-Follows fs realloc func (dopath fs realloc func fuel) w.fullpath size u
                names es opened listed each room))

    entries-Follows :
        (es : Entries) (fuel : ℕ) (q : Text)
        → height_entries es < fuel
        → LaidEntries fs q es
        → FollowsAll fs realloc func (dopath fs realloc func fuel) q es
    entries-Follows end fuel q deep laid = tt
    entries-Follows (entry name t es) fuel q deep (short, here, below) = (
      short,
      (λ (v : Walker S) (same : v.fullpath ≡ q ++ name) (inside : length (q ++ name) < v.pathlen)
            (wide : name_max < v.pathlen).
          subst
            (λ (p : Text).
              Follows S realloc p v.pathlen (call_each func (visits p t) v.user)
                (dopath fs realloc func fuel v))
            same
            (dopath-Follows t fuel v (ground arith)
              (subst (λ (p : Text). Laid fs p t) (sym same) here) (ground arith) wide)),
      entries-Follows es fuel q (ground arith) below,
    )

  -- On a POSIX system, where path_alloc has its block of `size` bytes and the hierarchy at the path is
  -- a tree of less than `fuel` levels with names of at most NAME_MAX bytes: myftw calls its function
  -- for the files in the tree's order, each with its full path, up to the first call that does not
  -- return 0 or ends the process, and returns what the last one returned; it never writes behind the
  -- end of its buffer, and ends otherwise only where realloc fails.
  pub myftw-visits :
      (t : Tree) (fuel : ℕ) (limits : Limits) (size : ℕ) (pathname : Text) (u : S)
      → IsPosix limits
      → path_alloc limits ≡ some size
      → height t < fuel
      → Laid fs pathname t
      → Follows S realloc pathname size
          (call_each func (visits pathname t) u)
          (myftw fs realloc func fuel limits pathname u)
  unfolding myftw
  myftw-visits t fuel limits size pathname u posix block deep laid =
      let wide : name_max < size = path_alloc-IsPosix limits size posix block in
      let n = length pathname in
      let start = λ (k : ℕ) (inside : n < k) (wider : name_max < k).
        dopath-Follows t fuel (record { fullpath = pathname; pathlen = k; user = u }) deep laid
          inside wider in
      elim (Bool-cases (leb size n)) [
        | inl long ↦ elim (Bool-cases (realloc (n * 2))) [
          | inl more ↦
              let fits : leb (suc n) (n * 2) ≡ true = ground arith in
              rw (myftw, block, long, more, fits)
                (Follows-weaken fs realloc func pathname size (n * 2) _ _ (ground arith)
                  (start (n * 2) (ground arith) (ground arith)))
          | inr less ↦
              rw (myftw, block, long, less)
                (failed_realloc fs realloc func pathname _ size (n * 2, less))
        ]
        | inr short ↦ rw (myftw, block, short) (start size (ground arith) wide)
      ]
