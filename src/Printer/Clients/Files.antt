-- ===== src/Printer/Clients/Files.antt =====
-- Files that are made and removed again by the service of a client, and the cases of its calls.
use unix_system_programming.Prelude.{
  ℕ, ◌≡◌, refl, sym, ap, ◌∙◌, ◌⊎◌, inl, inr, Option, none, ◌==◌, if◌then◌else◌, ==_iff, Bool-cases,
}
use unix_system_programming.Printer.Clients.{
  FileName, same_file, Content, Answer, Server, put_file, unlink_both,
}
use unix_system_programming.Printer.Clients.FileName.{data_file, request_file}
use unix_system_programming.Printer.Clients.Answer.{failed, short, whole}

pub Answer-cases :
    {A : Type 0} (a : Answer A)
    → ((w : A) × (a ≡ whole w)) ⊎ (((e : ℕ) × (a ≡ failed e)) ⊎ (a ≡ short))
Answer-cases (failed e) = inr (inl (e, refl))
Answer-cases short = inr (inr refl)
Answer-cases (whole w) = inl (w, refl)

-- The files of two servers are the same.
abbrev pub SameFiles : Server → Server → Type 0
SameFiles s t = (n : FileName) → Server.files s n ≡ Server.files t n

-- There are no files of a job.
abbrev pub Free : Server → ℕ → Type 0
Free s j = (Server.files s (data_file j) ≡ none) × (Server.files s (request_file j) ≡ none)

remove_one :
    (files : FileName → Option Content) (f : ℕ → FileName) (i j : ℕ)
    → files (f j) ≡ none
    → (if i == j then none else files (f i)) ≡ files (f i)
remove_one files f i j free = elim (Bool-cases (i == j)) [
  | inl e ↦ rw e (sym free ∙ ap (λ k. files (f k)) (sym ((==_iff i j).0 e)))
  | inr e ↦ rw e refl
]

undo_one :
    (files : FileName → Option Content) (f : ℕ → FileName) (x : Option Content) (i j : ℕ)
    → files (f j) ≡ none
    → (if i == j then none else if i == j then x else files (f i)) ≡ files (f i)
undo_one files f x i j free = elim (Bool-cases (i == j)) [
  | inl e ↦ rw e (sym free ∙ ap (λ k. files (f k)) (sym ((==_iff i j).0 e)))
  | inr e ↦ rw e refl
]

-- The files after the data file was made and removed again.
pub undo_data :
    (s : Server) (j : ℕ) (x : Option Content)
    → Free s j
    → SameFiles (put_file (put_file s (data_file j) x) (data_file j) none) s
unfolding put_file same_file
undo_data s j x free (data_file i) = undo_one (Server.files s) data_file x i j free.0
undo_data s j x free (request_file i) = refl

pub remove_data : (s : Server) (j : ℕ) → Free s j → SameFiles (put_file s (data_file j) none) s
unfolding put_file same_file
remove_data s j free (data_file i) = remove_one (Server.files s) data_file i j free.0
remove_data s j free (request_file i) = refl

pub undo_both :
    (s : Server) (j : ℕ) (x : Option Content)
    → Free s j
    → SameFiles (unlink_both (put_file s (data_file j) x) j) s
unfolding put_file same_file unlink_both
undo_both s j x free (data_file i) = undo_one (Server.files s) data_file x i j free.0
undo_both s j x free (request_file i) = remove_one (Server.files s) request_file i j free.1
