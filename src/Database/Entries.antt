-- ===== src/Database/Entries.antt =====
-- Index records: the bytes that _db_writeidx of apue.3e/db/db.c makes of a key, an offset and a length,
-- and what _db_readidx reads where they lie.
use unix_system_programming.Prelude.{
  ℕ, suc, ◌+◌, ◌-◌, ◌≤◌, ◌<◌, ◌^◌, ◌≡◌, ◌≢◌, refl, sym, ap, ◌∙◌, true, false, not, ◌&&◌, List, [],
  ◌∷◌, ◌++◌, length, length-append, append_assoc, take, drop, get_or, some, leb, ◌==◌, arith,
}
use unix_system_programming.Clib.{Text, c_string, has_char}
use unix_system_programming.Database.{pos, Db, done, modify, require, Sys, read_at}
use unix_system_programming.Database.Numbers.{decimal, is_digit, pad}
use unix_system_programming.Database.Numbers.Laws.{
  atol-pad, length-pad, atol-decimal, has_char-decimal, decimal-Full, Full, Full-append,
  c_string-Full, c_string-pad,
}
use unix_system_programming.Database.Bytes.{read_at-append, take-append, last_byte, front}
use unix_system_programming.Database.Runs.{
  bind_run, then_run, require_run, seek_run, read_idx_run, modify_run, get_run, equal_test,
}
use unix_system_programming.Database.Files.{
  ptr_sz, ptr_max, idxlen_sz, idxlen_ok, seek, read_idx, cut_sep, set_fields, read_fields,
  accept_length, is_current, read_rest, readidx, index_line,
}

-- What an index record says: a key, and where its data is.
pub record Entry : Type 0 where
  pub key : Text
  pub datoff : ℕ
  pub datlen : ℕ

abbrev pub line_of : Entry → Text
line_of e = index_line e.key e.datoff e.datlen

-- The bytes of a record whose chain goes on at `next`.
abbrev pub bytes_of : Entry → ℕ → List ℕ
bytes_of e next = pad ptr_sz next ++ pad idxlen_sz (length (line_of e)) ++ line_of e

-- The entries that can be written and read back: keys without NUL and without the separator, and lengths
-- within the limits.
pub record Writable (e : Entry) : Type 0 where
  pub full : Full e.key
  pub plain_key : has_char b':' e.key ≡ false
  pub line_fits : idxlen_ok (length (line_of e)) ≡ true
  pub data_some : 1 ≤ e.datlen
  pub data_fits : e.datlen ≤ 1024

-- A text is split where its first separator is.
cut_sep-append : (a b : Text) → has_char b':' a ≡ false → cut_sep (a ++ b':' ∷ b) ≡ some (a, b)
unfolding cut_sep has_char
cut_sep-append [] b h = refl
cut_sep-append (c ∷ cs) b h = ground (arith, cut_sep-append cs b)

-- The line without its newline.
body_of : Entry → Text
body_of e = e.key ++ b':' ∷ (decimal e.datoff ++ b':' ∷ decimal e.datlen)

line-body : (e : Entry) → line_of e ≡ body_of e ++ b'\n' ∷ []
unfolding index_line body_of
line-body e = simp append_assoc

module _ (e : Entry) (w : Writable e) where
  body-Full : Full (body_of e)
  unfolding body_of
  body-Full = Full-append e.key _ w.full (
    omega arith,
    Full-append (decimal e.datoff) _ (decimal-Full e.datoff) (omega arith, decimal-Full e.datlen),
  )

  -- The fields of a line that has been read.
  set_fields_run :
      (db : Db)
      → set_fields e.key (decimal e.datoff) (decimal e.datlen) db
        ≡ done tt (record db { idxbuf = e.key; datoff = e.datoff; datlen = e.datlen })
  unfolding set_fields
  set_fields_run db =
      rw (atol-decimal e.datoff, atol-decimal e.datlen, set_fields)
        (then_run (modify _) _ (modify_run _ db)
          ∙ require_run _ _ (range e.datlen w.data_some w.data_fits))
    where
      range : (n : ℕ) → 1 ≤ n → n ≤ 1024 → (leb 1 n && leb n 1024) ≡ true
      range n h k = ground arith

  last_of : get_or (line_of e) (length (line_of e) - 1) 0 ≡ b'\n'
  last_of = rw (line-body e) (
      ap (λ (k : ℕ). get_or (body_of e ++ b'\n' ∷ []) k 0) (less_one (body_of e))
      ∙ last_byte (body_of e) b'\n')
    where
      less_one : (s : Text) → length (s ++ b'\n' ∷ []) - 1 ≡ length s
      less_one s = omega (arith, length-append s (b'\n' ∷ []))

  body_cut :
      cut_sep (c_string (take (length (line_of e) - 1) (line_of e)))
      ≡ some (e.key, decimal e.datoff ++ b':' ∷ decimal e.datlen)
  body_cut = rw (line-body e) (
      ap (λ (k : ℕ). cut_sep (c_string (take k (body_of e ++ b'\n' ∷ [])))) (less_one (body_of e))
      ∙ ap (λ (l : Text). cut_sep (c_string l)) (front (body_of e) b'\n')
      ∙ ap cut_sep (c_string-Full (body_of e) body-Full)
      ∙ unfold body_of in cut_sep-append e.key _ w.plain_key)
    where
      less_one : (s : Text) → length (s ++ b'\n' ∷ []) - 1 ≡ length s
      less_one s = omega (arith, length-append s (b'\n' ∷ []))

  read_fields_run :
      (sys : Sys) (db : Db)
      → sys db.calls ≡ true
      → read_at db.at (length (line_of e)) db.idx ≡ line_of e
      → read_fields sys (length (line_of e)) db
        ≡ done tt (record db {
          idxbuf = e.key;
          datoff = e.datoff;
          datlen = e.datlen;
          at = db.at + length (line_of e);
          calls = suc db.calls;
        })
  unfolding read_fields is_digit
  read_fields_run sys db ok there =
      bind_run (read_idx sys _) _ (read_idx_run sys _ (line_of e) db ok there)
      ∙ then_run (require _) _ (require_run _ _ (equal_test _ _ refl))
      ∙ then_run (require _) _ (require_run _ _ (equal_test _ _ last_of))
      ∙ rw
          (
            body_cut,
            cut_sep-append (decimal e.datoff) (decimal e.datlen) (has_char-decimal _ e.datoff refl),
          )
          (then_run (require _) _ (require_run _ _ (ap not (has_char-decimal _ e.datlen refl)))
            ∙ set_fields_run _)

  -- The state once the record has been read.
  abbrev pub read_state : ℕ → ℕ → Db → Db
  read_state o next db = record db {
    idxbuf = e.key;
    datoff = e.datoff;
    datlen = e.datlen;
    idxlen = length (line_of e);
    idxoff = o;
    ptrval = pos next;
    calls = suc (suc db.calls);
    at = o + length (pad ptr_sz next ++ pad idxlen_sz (length (line_of e))) + length (line_of e);
  }

  accept_length_run :
      (sys : Sys) (db : Db)
      → sys db.calls ≡ true
      → read_at db.at (length (line_of e)) db.idx ≡ line_of e
      → accept_length sys (pos (length (line_of e))) db
        ≡ done tt (record db {
          idxbuf = e.key;
          datoff = e.datoff;
          datlen = e.datlen;
          idxlen = length (line_of e);
          at = db.at + length (line_of e);
          calls = suc db.calls;
        })
  unfolding accept_length
  accept_length_run sys db ok there =
      then_run (modify _) _ (modify_run _ _)
      ∙ then_run (require _) _ (require_run _ _ w.line_fits)
      ∙ read_fields_run sys _ ok there

  pub length-front :
      (next : ℕ)
      → next ≤ ptr_max
      → length (pad ptr_sz next ++ pad idxlen_sz (length (line_of e))) ≡ ptr_sz + idxlen_sz
  length-front next small =
      length-append (pad ptr_sz next) _
      ∙ omega (
        arith,
        length-pad 6 next (omega arith),
        length-pad 3 (length (line_of e)) (in_range (length (line_of e)) w.line_fits),
      )
    where
      in_range : (n : ℕ) → idxlen_ok n ≡ true → n < 10 ^ 4
      in_range n h = ground arith

  read_rest_run :
      (sys : Sys) (next : ℕ) (db : Db)
      → sys db.calls ≡ true
      → next ≤ ptr_max
      → read_at db.at (length (line_of e)) db.idx ≡ line_of e
      → read_rest sys (pad ptr_sz next ++ pad idxlen_sz (length (line_of e))) db
        ≡ done (pos next) (record db {
          idxbuf = e.key;
          datoff = e.datoff;
          datlen = e.datlen;
          idxlen = length (line_of e);
          ptrval = pos next;
          calls = suc db.calls;
          at = db.at + length (line_of e);
        })
  unfolding read_rest
  read_rest_run sys next db ok small there =
      then_run (require _) _ (require_run _ _ (equal_test _ _ (length-front next small)))
      ∙ then_run (modify _) _ (modify_run _ _)
      ∙ rw
          (
            halves.1,
            c_string-pad idxlen_sz (length (line_of e)),
            atol-pad idxlen_sz (length (line_of e)),
            halves.0,
            c_string-pad ptr_sz next,
            atol-pad ptr_sz next,
          )
          (then_run (accept_length sys (pos (length (line_of e)))) _
              (accept_length_run sys (record db { ptrval = pos next }) ok there)
            ∙ get_run _ _)
    where
      halves :
          (take ptr_sz (pad ptr_sz next ++ pad idxlen_sz (length (line_of e))) ≡ pad ptr_sz next)
          × (drop ptr_sz (pad ptr_sz next ++ pad idxlen_sz (length (line_of e)))
              ≡ pad idxlen_sz (length (line_of e)))
      halves = take-append ptr_sz (pad ptr_sz next) _ (length-pad 6 next (omega arith))

  -- Where its bytes lie, the record is read.
  pub readidx_run :
      (sys : Sys) (o next : ℕ) (db : Db)
      → ((n : ℕ) → sys n ≡ true)
      → o ≢ 0
      → next ≤ ptr_max
      → read_at o (length (bytes_of e next)) db.idx ≡ bytes_of e next
      → readidx sys (pos o) db ≡ done (pos next) (read_state o next db)
  unfolding readidx
  readidx_run sys o next db ok some_offset small there = rw (not_here o some_offset) (
      then_run (seek (pos o)) _ (seek_run o db)
      ∙ then_run (modify _) _ (modify_run _ _)
      ∙ bind_run (read_idx sys _) _ (read_idx_run sys _ _ _ (ok _) halves.0)
      ∙ rw (filled) (
          read_rest_run sys next _ (ok _) small (
            ap (λ (k : ℕ). read_at (o + k) (length (line_of e)) db.idx) (length-front next small)
            ∙ halves.1)))
    where
      not_here : (n : ℕ) → n ≢ 0 → is_current (pos n) ≡ false
      not_here n h = ground arith

      filled : (length (pad ptr_sz next ++ pad idxlen_sz (length (line_of e))) == 0) ≡ false
      filled = ap (λ (k : ℕ). k == 0) (length-front next small)

      halves :
          (read_at o (ptr_sz + idxlen_sz) db.idx
            ≡ pad ptr_sz next ++ pad idxlen_sz (length (line_of e)))
          × (read_at (o + (ptr_sz + idxlen_sz)) (length (line_of e)) db.idx ≡ line_of e)
      halves =
          read_at-append o (ptr_sz + idxlen_sz) (length (line_of e)) _ _ db.idx
            (length-front next small)
            (ap (λ (k : ℕ). read_at o k db.idx)
                (sym (
                  length-append _ (line_of e)
                  ∙ ap (λ (k : ℕ). k + length (line_of e)) (length-front next small)))
              ∙ there)
