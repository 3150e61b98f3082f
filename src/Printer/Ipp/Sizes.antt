-- ===== src/Printer/Ipp/Sizes.antt =====
-- How much is sent to the printer.
use unix_system_programming.Prelude.{
  ℕ, ◌≡◌, refl, ap, ◌∙◌, ◌+◌, [], ◌∷◌, ◌++◌, length, if◌then◌else◌, length-append, append_assoc,
  ◌==◌, Bool-cases, inl, inr, arith,
}
use unix_system_programming.Clib.{Text, codes, c_string}
use unix_system_programming.Database.Numbers.Laws.{Full, Full-append, c_string-Full}
use unix_system_programming.Printer.Jobs.{Request, Job}
use unix_system_programming.Printer.Ipp.{
  add_option, printer_uri, format_of, is_text, ipp_header, http_header, extra, sent,
}

-- The two are as long as their types.
abbrev pub Sized : (ℕ → Text) → ℕ → Type 0
Sized f k = (n : ℕ) → length (f n) ≡ k

c_string-IsFull : (s : Text) → Full (c_string s)
unfolding c_string
c_string-IsFull [] = tt
c_string-IsFull (c ∷ cs) = elim (Bool-cases (c == 0)) [
  | inl e ↦ rw e tt
  | inr e ↦ rw e (ground arith, c_string-IsFull cs)
]

module _ (htons htonl : ℕ → Text) (short : Sized htons 2) (long : Sized htonl 4) where
  length-add_option :
      (tag : ℕ) (name val : Text)
      → length (add_option htons htonl tag name val)
        ≡ 5 + length (c_string name) + length (c_string val)
  unfolding add_option
  length-add_option tag name val =
      simp (length-append, short (length (c_string name)), short (length (c_string val)))
        (omega arith)

  length-printer_uri :
      (name : Text) → length (c_string (printer_uri htons htonl name)) ≡ 11 + length (c_string name)
  unfolding printer_uri
  length-printer_uri name =
      let full : Full (codes "http://" ++ c_string name ++ codes "/ipp") =
        Full-append (codes "http://" ++ c_string name) (codes "/ipp")
          (Full-append (codes "http://") (c_string name) (omega arith) (c_string-IsFull name))
          (omega arith) in
      let sizes : length (codes "http://" ++ c_string name ++ codes "/ipp")
          ≡ 11 + length (c_string name) =
        simp length-append (omega arith) in
      ap length (c_string-Full _ full) ∙ sizes

  -- How many bytes of `ibuf` the IPP header takes, where htons gives two bytes and htonl four.
  pub length-ipp_header :
      (name : Text) (jp : Job)
      → length (ipp_header htons htonl name jp)
        ≡ (if is_text (Job.req jp) then 170 else 182)
          + length (c_string name)
          + length (c_string (Request.usernm (Job.req jp)))
          + length (c_string (Request.jobnm (Job.req jp)))
  unfolding ipp_header format_of c_string
  length-ipp_header name jp = elim (Bool-cases (is_text (Job.req jp))) [
    | inl e ↦ rw e (
        simp
          (length-append, length-add_option, short 2, long (Job.jobid jp), length-printer_uri name)
          (omega arith))
    | inr e ↦ rw e (
        simp
          (length-append, length-add_option, short 2, long (Job.jobid jp), length-printer_uri name)
          (omega arith))
  ]

  -- The length that the HTTP header tells is that of all that follows it.
  pub sent_lem :
      (name : Text) (jp : Job) (file : Text)
      → (n : ℕ) × (body : Text) × (sent htons htonl name jp file
          ≡ http_header htons htonl name n ++ body)
        × (length body ≡ n)
  unfolding sent extra
  sent_lem name jp file =
      let ipp = ipp_header htons htonl name jp in
      let more : Text = if is_text (Job.req jp) then 8 ∷ [] else [] in
      let n = length file + length ipp + (if is_text (Job.req jp) then 1 else 0) in
      let one : length more ≡ (if is_text (Job.req jp) then 1 else 0) = ground arith in
      (n, ipp ++ more ++ file, simp append_assoc refl, simp length-append (omega arith))
