-- ===== src/Shell/Redirect/Grammar.antt =====
-- Which redirections a command line names: the loop over argv against a grammar of its items.
use mathlib.Core.List.{append-nil, append_assoc}
use unix_system_programming.Prelude.{
  ◌≡◌, refl, sym, ap, subst, ◌∙◌, false, List, [], ◌∷◌, ◌++◌, Option, none, some, All, arith, inl,
  inr, ◌⊎◌, Bool-cases,
}
use unix_system_programming.Clib.{Text, codes, str_eq}
use unix_system_programming.Clib.Laws.{str_eq_iff}
use unix_system_programming.Shell.Redirect.{Redirection, no_redirection, add_arg, scan_argv}

-- An argument, or an operator with the file that follows it.
pub data Item : Type 0 where
  word input output : Text → Item

abbrev pub render : List Item → List Text
render [] = []
render (word a ∷ items) = a ∷ render items
render (input file ∷ items) = codes "<" ∷ file ∷ render items
render (output file ∷ items) = codes ">" ∷ file ∷ render items

-- An argument is no operator; a file may be named like one.
abbrev pub IsWord : Item → Type 0
IsWord (word a) = (str_eq a (codes "<") ≡ false) × (str_eq a (codes ">") ≡ false)
IsWord _ = Unit

abbrev pub plain_words : List Item → List Text
plain_words [] = []
plain_words (word a ∷ items) = a ∷ plain_words items
plain_words (_ ∷ items) = plain_words items

-- The last file of each kind, or what was named before.
abbrev pub last_input : List Item → Option Text → Option Text
last_input [] before = before
last_input (input file ∷ items) before = last_input items (some file)
last_input (_ ∷ items) before = last_input items before

abbrev pub last_output : List Item → Option Text → Option Text
last_output [] before = before
last_output (output file ∷ items) before = last_output items (some file)
last_output (_ ∷ items) before = last_output items before

abbrev pub after_items : List Item → Redirection → Redirection
after_items items r = record {
  input_file = last_input items r.input_file;
  output_file = last_output items r.output_file;
  argv2 = r.argv2 ++ plain_words items;
}

scan_argv-word :
    (a : Text) (rest : List Text) (r : Redirection)
    → IsWord (word a)
    → scan_argv (a ∷ rest) r ≡ scan_argv rest (add_arg a r)
unfolding scan_argv
scan_argv-word a [] r h = rw (h.0, h.1)
scan_argv-word a (b ∷ rest) r h = ground arith

-- The loop over the items, with anything behind them.
scan_argv-append :
    (items : List Item) (rest : List Text) (r : Redirection)
    → All IsWord items
    → scan_argv (render items ++ rest) r ≡ scan_argv rest (after_items items r)
unfolding scan_argv str_eq
scan_argv-append [] rest r h = rw append-nil
scan_argv-append (word a ∷ items) rest r h =
    scan_argv-word a (render items ++ rest) r h.0
    ∙ scan_argv-append items rest (add_arg a r) h.1
    ∙ rw append_assoc
scan_argv-append (input file ∷ items) rest r h =
    scan_argv-append items rest (record r { input_file = some file }) h.1
scan_argv-append (output file ∷ items) rest r h =
    scan_argv-append items rest (record r { output_file = some file }) h.1

-- A complete command line: the command keeps all its arguments in order, and the last `<` and the
-- last `>` name the files.
pub scan_argv-render :
    (items : List Item)
    → All IsWord items
    → scan_argv (render items) no_redirection
      ≡ some (record {
        input_file = last_input items none;
        output_file = last_output items none;
        argv2 = plain_words items;
      })
unfolding scan_argv
scan_argv-render items h =
    ap (λ (l : List Text). scan_argv l no_redirection) (sym (append-nil (render items)))
    ∙ scan_argv-append items [] no_redirection h

-- An operator.
abbrev pub IsOperator : Text → Type 0
IsOperator a = (a ≡ codes "<") ⊎ (a ≡ codes ">")

-- A command line that ends in an operator, whatever stands before it, sends the loop past the
-- array's terminator.
pub scan_argv-dangling :
    (items : List Item) (operator : Text)
    → All IsWord items
    → IsOperator operator
    → scan_argv (render items ++ operator ∷ []) no_redirection ≡ none
unfolding scan_argv str_eq
scan_argv-dangling items operator h (inl e) =
    rw e (scan_argv-append items (codes "<" ∷ []) no_redirection h)
scan_argv-dangling items operator h (inr e) =
    rw e (scan_argv-append items (codes ">" ∷ []) no_redirection h)

-- How an argv reads: its items, and an operator that is left over.
pub record Reads (argv : List Text) : Type 0 where
  pub items : List Item
  pub words_plain : All IsWord items
  pub spelled :
      (argv ≡ render items)
      ⊎ ((operator : Text) × IsOperator operator × (argv ≡ render items ++ operator ∷ []))

Reads-cons :
    (item : Item) (argv : List Text) → IsWord item → Reads argv → Reads (render (item ∷ []) ++ argv)
Reads-cons item argv h r = record {
  items = item ∷ r.items;
  words_plain = (h, r.words_plain);
  spelled = spelling item r.spelled;
}
  where
    spelling :
        (i : Item)
        → (argv ≡ render r.items)
          ⊎ ((operator : Text) × IsOperator operator × (argv ≡ render r.items ++ operator ∷ []))
        → (render (i ∷ []) ++ argv ≡ render (i ∷ r.items))
          ⊎ ((operator : Text) × IsOperator operator
              × (render (i ∷ []) ++ argv ≡ render (i ∷ r.items) ++ operator ∷ []))
    spelling (word a) (inl e) = inl (rw e)
    spelling (word a) (inr (op, o, e)) = inr (op, o, rw e)
    spelling (input a) (inl e) = inl (rw e)
    spelling (input a) (inr (op, o, e)) = inr (op, o, rw e)
    spelling (output a) (inl e) = inl (rw e)
    spelling (output a) (inr (op, o, e)) = inr (op, o, rw e)

data Kind (a : Text) : Type 0 where
  less : a ≡ codes "<" → Kind a
  greater : a ≡ codes ">" → Kind a
  plain : IsWord (word a) → Kind a

kind : (a : Text) → Kind a
kind a = elim (Bool-cases (str_eq a (codes "<"))) [
  | inl e ↦ less ((str_eq_iff a (codes "<")).0 e)
  | inr e ↦ elim (Bool-cases (str_eq a (codes ">"))) [
    | inl f ↦ greater ((str_eq_iff a (codes ">")).0 f)
    | inr f ↦ plain (e, f)
  ]
]

-- Every argv reads in one of the two ways.
pub reads : (argv : List Text) → Reads argv
reads [] = record { items = []; words_plain = tt; spelled = inl refl }
reads (a ∷ []) = elim (kind a) [
  | less e ↦ record { items = []; words_plain = tt; spelled = inr (a, inl e, refl) }
  | greater e ↦ record { items = []; words_plain = tt; spelled = inr (a, inr e, refl) }
  | plain h ↦ record { items = word a ∷ []; words_plain = (h, tt); spelled = inl refl }
]
reads (a ∷ b ∷ rest) = elim (kind a) [
  | less e ↦
      subst (λ (x : Text). Reads (x ∷ b ∷ rest)) (sym e) (Reads-cons (input b) rest tt (reads rest))
  | greater e ↦
      subst (λ (x : Text). Reads (x ∷ b ∷ rest)) (sym e)
        (Reads-cons (output b) rest tt (reads rest))
  | plain h ↦ Reads-cons (word a) (b ∷ rest) h (reads (b ∷ rest))
]

-- The loop over argv stays within the array exactly when the line ends in no operator without a
-- file; it then gives the command's own arguments and, of each kind, the last file named.
pub scan_argv-Reads :
    (argv : List Text)
    → ((r : Reads argv) × (argv ≡ render r.items)
        × (scan_argv argv no_redirection ≡ some (after_items r.items no_redirection)))
      ⊎ ((r : Reads argv) × (operator : Text) × IsOperator operator
          × (argv ≡ render r.items ++ operator ∷ [])
          × (scan_argv argv no_redirection ≡ none))
scan_argv-Reads argv =
    let r = reads argv in
    elim r.spelled [
      | inl e ↦ inl (
        r,
        e,
        ap (λ (l : List Text). scan_argv l no_redirection) e
            ∙ scan_argv-render r.items r.words_plain,
      )
      | inr (op, o, e) ↦ inr (
        r,
        op,
        o,
        e,
        ap (λ (l : List Text). scan_argv l no_redirection) e
            ∙ scan_argv-dangling r.items op r.words_plain o,
      )
    ]
