-- ===== src/Database/Models.antt =====
-- What the two files of apue.3e/db/db.c stand for: a list of pairs for each chain of the hash table, and
-- one for the free list; and what a write of one record at the ends of the files makes of it.
use unix_system_programming.Prelude.{
  ℕ, ◌+◌, ◌*◌, ◌≤◌, ◌<◌, ◌≡◌, refl, sym, ap, ◌∙◌, subst, false, ◌⊎◌, inl, inr, List, [], ◌∷◌, ◌++◌,
  length, length-append, ◌==◌, ==_iff, Bool-cases, arith, if◌then◌else◌,
}
use unix_system_programming.Clib.{Text}
use unix_system_programming.Database.{Db, read_at, write_at}
use unix_system_programming.Database.Numbers.{pad}
use unix_system_programming.Database.Numbers.Laws.{Full, length-pad}
use unix_system_programming.Database.Bytes.{
  read_at-write_at, read_at-write_at_beside, le-length-write_at, length-write_at_end,
}
use unix_system_programming.Database.Files.{ptr_sz, ptr_max}
use unix_system_programming.Database.Pointers.{written_pointer}
use unix_system_programming.Database.Entries.{Entry, bytes_of, Writable}
use unix_system_programming.Database.Chains.{Pairs, Holds, Chain, nil, cons}
use unix_system_programming.Database.Fetch.{Leads}

-- Files that say at least what the old ones say: what lies behind the table, and all of the data.
pub record Extends (floor : ℕ) (idx dat idx2 dat2 : List ℕ) : Type 0 where
  pub idx_longer : length idx ≤ length idx2
  pub dat_longer : length dat ≤ length dat2
  pub idx_kept : (i n : ℕ) → floor ≤ i → i + n ≤ length idx → read_at i n idx2 ≡ read_at i n idx
  pub dat_kept : (i n : ℕ) → i + n ≤ length dat → read_at i n dat2 ≡ read_at i n dat

module _ {floor : ℕ} {idx dat idx2 dat2 : List ℕ} (x : Extends floor idx dat idx2 dat2) where
  pub Holds-Extends :
      {o next : ℕ} {e : Entry} {text : Text}
      → Holds idx dat floor o next e text
      → Holds idx2 dat2 floor o next e text
  Holds-Extends {o} {next} {e} {text} h = record {
    writable = h.writable;
    small = h.small;
    behind = h.behind;
    inside = omega (arith, h.inside, x.idx_longer);
    there = x.idx_kept o _ h.behind h.inside ∙ h.there;
    size = h.size;
    full = h.full;
    data_inside = omega (arith, h.data_inside, x.dat_longer);
    data_there = x.dat_kept e.datoff e.datlen h.data_inside ∙ h.data_there;
  }

  pub Chain-Extends :
      {o : ℕ} {pairs : Pairs} → Chain idx dat floor o pairs → Chain idx2 dat2 floor o pairs
  Chain-Extends nil = nil
  Chain-Extends (cons h c) = cons (Holds-Extends h) (Chain-Extends c)

  -- So does a pointer that was not written over.
  pub Leads-Extends :
      {place : ℕ} {pairs : Pairs}
      → read_at place ptr_sz idx2 ≡ read_at place ptr_sz idx
      → Leads idx dat floor place pairs
      → Leads idx2 dat2 floor place pairs
  Leads-Extends same l = record {
    first = l.first;
    small = l.small;
    pointer = same ∙ l.pointer;
    chain = Chain-Extends l.chain;
  }

-- Where the records begin.
abbrev pub floor_of : ℕ → ℕ
floor_of nhash = (nhash + 1) * ptr_sz + 1

abbrev pub slot_place : ℕ → ℕ
slot_place h = h * ptr_sz + ptr_sz

-- The files stand for a table of chains and a free list.
pub record Models (nhash : ℕ) (idx dat : List ℕ) (table : ℕ → Pairs) (frees : Pairs) : Type 0 where
  pub room : floor_of nhash ≤ length idx
  pub free_list : Leads idx dat (floor_of nhash) 0 frees
  pub slots : (h : ℕ) → h < nhash → Leads idx dat (floor_of nhash) (slot_place h) (table h)

-- What the files of a DB structure stand for, whose hash table lies behind the free list's pointer.
pub record Represents (db : Db) (table : ℕ → Pairs) (frees : Pairs) : Type 0 where
  pub models : Models db.nhash db.idx db.dat table frees
  pub start : db.hashoff ≡ ptr_sz
  pub some_chains : 0 < db.nhash

pub Models-subst :
    {n n2 : ℕ} {idx idx2 dat dat2 : List ℕ} {table : ℕ → Pairs} {frees : Pairs}
    → n2 ≡ n
    → idx2 ≡ idx
    → dat2 ≡ dat
    → Models n idx dat table frees
    → Models n2 idx2 dat2 table frees
Models-subst {n} {n2} {idx} {idx2} {dat} {dat2} {table} {frees} e f g m =
    subst (λ (k : ℕ). Models k idx2 dat2 table frees) (sym e)
      (subst (λ (l : List ℕ). Models n l dat2 table frees) (sym f)
        (subst (λ (d : List ℕ). Models n idx d table frees) (sym g) m))

-- A table with one chain changed.
abbrev pub put : (ℕ → Pairs) → ℕ → Pairs → ℕ → Pairs
put table h pairs i = if i == h then pairs else table i

-- The record that is appended for a key, and the files with it in front of its chain.
abbrev pub new_entry : List ℕ → Text → Text → Entry
new_entry dat key text = record { key = key; datoff = length dat; datlen = length text + 1 }

abbrev pub new_dat : List ℕ → Text → List ℕ
new_dat dat text = write_at (length dat) (text ++ b'\n' ∷ []) dat

abbrev pub long_idx : List ℕ → Entry → ℕ → List ℕ
long_idx idx e first = write_at (length idx) (bytes_of e first) idx

abbrev pub new_idx : ℕ → List ℕ → Entry → ℕ → List ℕ
new_idx h idx e first = write_at (slot_place h) (pad ptr_sz (length idx)) (long_idx idx e first)

-- A pointer written in the table leaves what lies apart from its seven bytes.
module _ (h : ℕ) (idx : List ℕ) (e : Entry) (first : ℕ) (small : length idx ≤ ptr_max) where
  same_long :
      (i n : ℕ)
      → i + n ≤ length (long_idx idx e first)
      → (i + n ≤ slot_place h) ⊎ (slot_place h + ptr_sz ≤ i)
      → read_at i n (new_idx h idx e first) ≡ read_at i n (long_idx idx e first)
  same_long i n fits apart =
      read_at-write_at_beside i n (slot_place h) (pad ptr_sz (length idx)) (long_idx idx e first)
        fits
        (subst (λ (k : ℕ). (i + n ≤ slot_place h) ⊎ (slot_place h + k ≤ i))
          (sym (length-pad 6 (length idx) (omega arith))) apart)

  same_old :
      (i n : ℕ)
      → i + n ≤ length idx
      → (i + n ≤ slot_place h) ⊎ (slot_place h + ptr_sz ≤ i)
      → read_at i n (new_idx h idx e first) ≡ read_at i n idx
  same_old i n fits apart =
      same_long i n (omega (arith, fits, le-length-write_at (length idx) (bytes_of e first) idx))
        apart
      ∙ read_at-write_at_beside i n (length idx) (bytes_of e first) idx fits (inl fits)

  module _ (dat : List ℕ) (text : Text) {nhash : ℕ} (in_table : h < nhash)
      (room : floor_of nhash ≤ length idx) where
    new-Extends : Extends (floor_of nhash) idx dat (new_idx h idx e first) (new_dat dat text)
    new-Extends = record {
      idx_longer = omega (
        arith,
        le-length-write_at (length idx) (bytes_of e first) idx,
        le-length-write_at (slot_place h) (pad ptr_sz (length idx)) (long_idx idx e first),
      );
      dat_longer = le-length-write_at (length dat) _ dat;
      idx_kept = λ i n behind fits. same_old i n fits (inr (omega arith));
      dat_kept = λ i n fits. read_at-write_at_beside i n (length dat) _ dat fits (inl fits);
    }

    -- The new record is there, with its data.
    new-Holds :
        (key : Text)
        → e ≡ new_entry dat key text
        → Writable e
        → Full text
        → first ≤ ptr_max
        → Holds
            (new_idx h idx e first)
            (new_dat dat text)
            (floor_of nhash)
            (length idx)
            first
            e
            text
    new-Holds key is w full low = record {
      writable = w;
      small = low;
      behind = room;
      inside = omega (
        arith,
        grown,
        le-length-write_at (slot_place h) (pad ptr_sz (length idx)) (long_idx idx e first),
      );
      there =
          same_long (length idx) (length (bytes_of e first)) (omega (arith, grown))
            (inr (omega arith))
          ∙ read_at-write_at (length idx) (bytes_of e first) idx;
      size = ap (λ (x : Entry). x.datlen) is;
      full = full;
      data_inside = omega (
        arith,
        ap (λ (x : Entry). x.datlen) is,
        ap (λ (x : Entry). x.datoff) is,
        length-write_at_end (text ++ b'\n' ∷ []) dat,
        length-append text (b'\n' ∷ []),
      );
      data_there =
          ap (λ (x : Entry). read_at x.datoff x.datlen (new_dat dat text)) is
          ∙ ap (λ (n : ℕ). read_at (length dat) n (new_dat dat text))
              (sym (length-append text (b'\n' ∷ [])))
          ∙ read_at-write_at (length dat) (text ++ b'\n' ∷ []) dat;
    }
      where
        grown : length (long_idx idx e first) ≡ length idx + length (bytes_of e first)
        grown = length-write_at_end (bytes_of e first) idx

-- With a record appended and put in front of a chain, the files stand for the table with the new pair in
-- front of that chain's.
pub put-Models :
    {nhash : ℕ} {idx dat : List ℕ} {table : ℕ → Pairs} {frees : Pairs}
    (m : Models nhash idx dat table frees) (h : ℕ) (key text : Text) (in_table : h < nhash)
    → length idx ≤ ptr_max
    → Writable (new_entry dat key text)
    → Full text
    → Models nhash
        (new_idx h idx (new_entry dat key text) (m.slots h in_table).first)
        (new_dat dat text)
        (put table h ((key, text) ∷ table h))
        frees
put-Models {nhash} {idx} {dat} {table} {frees} m h key text in_table small w full = record {
  room = omega (arith, m.room, x.idx_longer);
  free_list =
      Leads-Extends x
        (same_old h idx e first small 0 ptr_sz (omega (arith, m.room)) (inl (omega arith)))
        m.free_list;
  slots = λ i below. elim (Bool-cases (i == h)) [
    | inl same ↦ rw same (
        subst
          (λ (j : ℕ).
            Leads idx2 (new_dat dat text) (floor_of nhash) (slot_place j) ((key, text) ∷ table h))
          (sym ((==_iff i h).0 same)) new_leads)
    | inr other ↦ rw other (
        Leads-Extends x
          (same_old h idx e first small (slot_place i) ptr_sz (omega (arith, m.room, below))
            (apart i other))
          (m.slots i below))
  ];
}
  where
    old : Leads idx dat (floor_of nhash) (slot_place h) (table h)
    old = m.slots h in_table

    first : ℕ
    first = old.first

    e : Entry
    e = new_entry dat key text

    idx2 : List ℕ
    idx2 = new_idx h idx e first

    x : Extends (floor_of nhash) idx dat idx2 (new_dat dat text)
    x = new-Extends h idx e first small dat text in_table m.room

    new_leads :
        Leads idx2 (new_dat dat text) (floor_of nhash) (slot_place h) ((key, text) ∷ table h)
    new_leads = record {
      first = length idx;
      small = small;
      pointer = written_pointer (slot_place h) (length idx) (long_idx idx e first) small;
      chain =
          cons (new-Holds h idx e first small dat text in_table m.room key refl w full old.small)
            (Chain-Extends x old.chain);
    }

    apart :
        (i : ℕ)
        → (i == h) ≡ false
        → (slot_place i + ptr_sz ≤ slot_place h) ⊎ (slot_place h + ptr_sz ≤ slot_place i)
    apart i other = ground (arith, other)
