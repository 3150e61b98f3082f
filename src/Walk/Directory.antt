-- ===== src/Walk/Directory.antt =====
-- The walk of ftw8.c at one directory: the call for it, its buffer, and its names or their lack.
use unix_system_programming.Prelude.{
  ℕ, zero, suc, ◌+◌, ◌*◌, ◌≤◌, ◌<◌, ◌≡◌, refl, ◌∙◌, subst, ◌⊎◌, Bool, true, false, List, [], ◌∷◌,
  length, take, length-append, Option, none, some, Bool-cases, inl, inr, ltb, leb, arith,
}
use unix_system_programming.Clib.{Text}
use unix_system_programming.Database.{ℤ, pos, negsuc}
use unix_system_programming.Walk.{
  Mode, s_ifdir, Files, ftw_dnr, name_max, Walker, Walked, returned, exited, overrun, unfinished,
  is_zero, call_func, expand, each_name, erase, read_directory, enter,
}
use unix_system_programming.Walk.Trees.{
  Entries, slash, names_of, undotted, Visit, visits_entries, call_each, resume, Follows,
}
use unix_system_programming.Walk.Names.{
  take_prefix, take_whole, Follows-weaken, failed_realloc, each_name-Follows, FollowsAll,
}

module _ {S : Type 0} (fs : Files) (realloc : ℕ → Bool)
    (func : Text → Option Mode → ℕ → S → Option (S × ℤ)) where
  pub last_call :
      (o : Option (S × ℤ)) (w : Walker S) (p : Text) (size : ℕ)
      → take (length p) w.fullpath ≡ p
      → size ≤ w.pathlen
      → Follows S realloc p size
          (resume (call_each func []) o)
          (elim o [ none ↦ exited | some (u, ret) ↦ returned (record w { user = u }) ret ])
  unfolding Follows call_each resume is_zero
  last_call none w p size path le = tt
  last_call (some (u, pos zero)) w p size path le = (refl, refl, path, le)
  last_call (some (u, pos (suc n))) w p size path le = (refl, refl, path, le)
  last_call (some (u, negsuc n)) w p size path le = (refl, refl, path, le)

  pub call_func-Follows :
      (m : Option Mode) (type : ℕ) (w : Walker S) (p : Text) (size : ℕ)
      → take (length p) w.fullpath ≡ p
      → size ≤ w.pathlen
      → Follows S realloc p size
          (call_each func ((w.fullpath, m, type) ∷ []) w.user)
          (call_func fs realloc func m type w)
  unfolding call_func call_each
  call_func-Follows m type w = last_call (func w.fullpath m type w.user) w

  -- The buffer as read_directory leaves it for the names: grown or not.
  expand-cases :
      (n : ℕ) (w : Walker S)
      → n < w.pathlen
      → name_max < w.pathlen
      → ((expand fs realloc func n w ≡ none) × (realloc (w.pathlen * 2) ≡ false))
        ⊎ ((size : ℕ) × (expand fs realloc func n w ≡ some (record w { pathlen = size }))
            × (w.pathlen ≤ size)
            × (n + name_max + 2 ≤ size))
  unfolding expand
  expand-cases n w inside wide = elim (Bool-cases (ltb w.pathlen (n + name_max + 2))) [
    | inl short ↦ elim (Bool-cases (realloc (w.pathlen * 2))) [
      | inl e ↦ inr (w.pathlen * 2, rw (short, e) refl, omega arith, ground arith)
      | inr e ↦ inl (rw (short, e) refl, e)
    ]
    | inr enough ↦ inr (w.pathlen, rw enough refl, omega arith, ground arith)
  ]

  erase-Follows :
      (p : Text) (size : ℕ) (c : Option (S × ℤ)) (o : Walked S)
      → Follows S realloc (slash p) size c o
      → Follows S realloc p size c (erase fs realloc func (length p) o)
  unfolding erase Follows
  erase-Follows p size none (returned w ret) h = h
  erase-Follows p size (some x) (returned w ret) (same, back, path, le) =
      (same, back, rw (take_prefix p (b'/' ∷ []) w.fullpath path) (take_whole p), le)
  erase-Follows p size none exited h = h
  erase-Follows p size (some x) exited h = h
  erase-Follows p size none overrun h = h
  erase-Follows p size (some x) overrun h = h
  erase-Follows p size none unfinished h = h
  erase-Follows p size (some x) unfinished h = h

  pub enter-Follows :
      (go : Walker S → Walked S) (w : Walker S) (rest : List Visit) (o : Option (S × ℤ))
      → length w.fullpath < w.pathlen
      → name_max < w.pathlen
      → ((size : ℕ) (u : S)
          → length w.fullpath + name_max + 2 ≤ size
          → Follows S realloc w.fullpath size (call_each func rest u) (
              read_directory fs realloc func go
                (length w.fullpath)
                (record { fullpath = w.fullpath; pathlen = size; user = u })))
      → Follows S realloc w.fullpath w.pathlen (resume (call_each func rest) o) (
          enter fs realloc func go
            (elim o [ none ↦ exited | some (u, ret) ↦ returned (record w { user = u }) ret ]))
  unfolding Follows enter resume is_zero
  enter-Follows go w rest none inside wide next = tt
  enter-Follows go w rest (some (u, pos (suc n))) inside wide next =
      (refl, refl, take_whole w.fullpath, omega arith)
  enter-Follows go w rest (some (u, negsuc n)) inside wide next =
      (refl, refl, take_whole w.fullpath, omega arith)
  enter-Follows go w rest (some (u, pos zero)) inside wide next =
      elim (expand-cases (length w.fullpath) (record w { user = u }) inside wide) [
        | inl (e, no_block) ↦
            rw (enter, e)
              (failed_realloc fs realloc func w.fullpath (call_each func rest u) w.pathlen
                (w.pathlen * 2, no_block))
        | inr (size, e, le, room) ↦
            rw (enter, e)
              (Follows-weaken fs realloc func w.fullpath w.pathlen size _ _ le (next size u room))
      ]

  pub sealed-Follows :
      (go : Walker S → Walked S) (p : Text) (size : ℕ) (u : S)
      → fs.opendir (slash p) ≡ none
      → length p + name_max + 2 ≤ size
      → Follows S realloc p size (call_each func ((slash p, some s_ifdir, ftw_dnr) ∷ []) u) (
          read_directory fs realloc func go
            (length p)
            (record { fullpath = p; pathlen = size; user = u }))
  unfolding read_directory
  sealed-Follows go p size u refused room =
      let fits : leb (length p + 2) size ≡ true = ground arith in
      rw (read_directory, fits, refused)
        (call_func-Follows (some s_ifdir) ftw_dnr
          (record { fullpath = slash p; pathlen = size; user = u }) p size
          (take_prefix p (b'/' ∷ []) (slash p) (take_whole (slash p))) (omega arith))

  pub directory-Follows :
      (go : Walker S → Walked S) (p : Text) (size : ℕ) (u : S) (names : List Text) (es : Entries)
      → fs.opendir (slash p) ≡ some names
      → undotted names ≡ names_of es
      → FollowsAll fs realloc func go (slash p) es
      → length p + name_max + 2 ≤ size
      → Follows S realloc p size (call_each func (visits_entries (slash p) es) u) (
          read_directory fs realloc func go
            (length p)
            (record { fullpath = p; pathlen = size; user = u }))
  unfolding read_directory
  directory-Follows go p size u names es opened listed all room =
      let fits : leb (length p + 2) size ≡ true = ground arith in
      let one_more : length (slash p) ≡ suc (length p) =
        length-append p (b'/' ∷ []) ∙ omega arith in
      let at_names : Walker S = record { fullpath = slash p; pathlen = size; user = u } in
      rw (read_directory, fits, opened)
        (erase-Follows p size _ _ (
          subst
            (λ (n : ℕ).
              Follows S realloc (slash p) size (call_each func (visits_entries (slash p) es) u)
                (each_name fs realloc func go n names at_names (pos 0)))
            one_more
            (each_name-Follows fs realloc func go (slash p) names es at_names all listed
              (take_whole (slash p)) (omega (arith, one_more)))))
