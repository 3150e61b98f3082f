-- ===== src/Walk/Trees.antt =====
-- File hierarchies as trees, and the calls that the walk of ftw8.c owes to one.
use Prim.Native.Nat.{max}
use unix_system_programming.Prelude.{
  ℕ, suc, ◌≤◌, ◌≡◌, Bool, true, false, List, [], ◌∷◌, ◌++◌, length, take, Option, none, some,
}
use unix_system_programming.Clib.{Text}
use unix_system_programming.Database.{ℤ, pos}
use unix_system_programming.Walk.{
  Mode, s_ifdir, s_isdir, Files, ftw_f, ftw_d, ftw_dnr, ftw_ns, name_max, Walked, returned, exited,
  overrun, unfinished, is_zero, is_dot,
}

-- `gone` has no lstat, `sealed` is a directory that opendir refuses.
mutual
  pub data Tree : Type 0 where
    gone : Tree
    leaf : Mode → Tree
    sealed : Tree
    directory : Entries → Tree

  pub data Entries : Type 0 where
    end : Entries
    entry : Text → Tree → Entries → Entries

unfoldable mutual
  pub height : Tree → ℕ
  height gone = 0
  height (leaf m) = 0
  height sealed = 0
  height (directory es) = suc (height_entries es)

  pub height_entries : Entries → ℕ
  height_entries end = 0
  height_entries (entry name t es) = max (height t) (height_entries es)

abbrev pub slash : Text → Text
slash p = p ++ (b'/' ∷ [])

unfoldable pub names_of : Entries → List Text
names_of end = []
names_of (entry name t es) = name ∷ names_of es

unfoldable pub undotted : List Text → List Text
undotted [] = []
undotted (name ∷ names) =
    let rest = undotted names in elim (is_dot name) [ true ↦ rest | false ↦ name ∷ rest ]

-- The files answer at the path, and below it, as the tree says. A name is at most NAME_MAX long.
unfoldable mutual
  pub Laid : Files → Text → Tree → Type 0
  Laid fs p gone = fs.lstat p ≡ none
  Laid fs p (leaf m) = (fs.lstat p ≡ some m) × (s_isdir m ≡ false)
  Laid fs p sealed = (fs.lstat p ≡ some s_ifdir) × (fs.opendir (slash p) ≡ none)
  Laid fs p (directory es) =
      (fs.lstat p ≡ some s_ifdir)
      × (names : List Text) × (fs.opendir (slash p) ≡ some names)
      × (undotted names ≡ names_of es)
      × LaidEntries fs (slash p) es

  pub LaidEntries : Files → Text → Entries → Type 0
  LaidEntries fs q end = Unit
  LaidEntries fs q (entry name t es) =
      (length name ≤ name_max) × Laid fs (q ++ name) t × LaidEntries fs q es

-- The arguments of a call: the path, st_mode where it is filled, and the type.
abbrev pub Visit : Type 0
Visit = Text × Option Mode × ℕ

-- Each directory before what it holds; one that cannot be read is told of again, with its slash.
unfoldable mutual
  pub visits : Text → Tree → List Visit
  visits p gone = (p, none, ftw_ns) ∷ []
  visits p (leaf m) = (p, some m, ftw_f) ∷ []
  visits p sealed = (p, some s_ifdir, ftw_d) ∷ (slash p, some s_ifdir, ftw_dnr) ∷ []
  visits p (directory es) = (p, some s_ifdir, ftw_d) ∷ visits_entries (slash p) es

  pub visits_entries : Text → Entries → List Visit
  visits_entries q end = []
  visits_entries q (entry name t es) = visits (q ++ name) t ++ visits_entries q es

-- What follows a call: its end or its value where that is not 0, and `next` otherwise.
unfoldable pub resume : {S : Type 0} → (S → Option (S × ℤ)) → Option (S × ℤ) → Option (S × ℤ)
resume next none = none
resume next (some (u, ret)) = elim (is_zero ret) [ true ↦ next u | false ↦ some (u, ret) ]

-- The calls in their order, up to the first that does not return 0.
unfoldable pub call_each :
    {S : Type 0} → (Text → Option Mode → ℕ → S → Option (S × ℤ)) → List Visit → S → Option (S × ℤ)
unfolding resume
call_each func [] u = some (u, pos 0)
call_each func ((p, m, type) ∷ vs) u = resume (call_each func vs) (func p m type u)

-- What a walk from the path p with that much memory makes of the calls: the process ends where one
-- of them ends it or where realloc fails; otherwise state and return value are theirs, the string
-- still starts with p, and the buffer has not shrunk.
unfoldable pub Follows : (S : Type 0) → (ℕ → Bool) → Text → ℕ → Option (S × ℤ) → Walked S → Type 0
Follows S realloc p size none (returned w ret) = ⊥
Follows S realloc p size (some (u, q)) (returned w ret) =
    (w.user ≡ u) × (ret ≡ q) × (take (length p) w.fullpath ≡ p) × (size ≤ w.pathlen)
Follows S realloc p size none exited = Unit
Follows S realloc p size (some x) exited = (n : ℕ) × (realloc n ≡ false)
Follows S realloc p size o overrun = ⊥
Follows S realloc p size o unfinished = ⊥
