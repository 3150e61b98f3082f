-- ===== src/Rot13/Rounds.antt =====
-- One buffer and one round of apue.3e/advio/rot13c2.c: what is copied so far, and how much is left to do.
use unix_system_programming.Prelude.{
  ℕ, ◌+◌, ◌-◌, ◌*◌, ◌≤◌, ◌<◌, ◌≡◌, ◌≢◌, ◌⊎◌, inl, inr, refl, sym, ap, ◌∙◌, Bool, true, false, ◌&&◌,
  ◌||◌, not, List, map, length, some, ◌==◌, ltb, leb, if◌then◌else◌, Bool-cases, arith,
}
use unix_system_programming.Database.{read_at, write_at}
use unix_system_programming.Rot13.{
  bsz, translate, Op, unused, read_pending, write_pending, Buf, Copy, Poll, in_progress, failed,
  complete, is_pending, start_read, read_done, write_done, step_of, step,
}
use unix_system_programming.Rot13.Bytes.{
  byte_at, write_at-beside, write_at-inside, length-write_at-le, byte_at-read_at, length-read_at,
  length-map, each, byte_at-map, byte_at-some,
}

some_bytes : 0 < bsz
unfolding bsz
some_bytes = omega arith

-- A buffer that is in use covers the bytes from its offset on.
abbrev pub covers : Buf → ℕ → Bool
covers b p = is_pending b.op && (leb b.offset p && ltb p (b.offset + bsz))

abbrev pub pending : Buf → ℕ
pending b = if is_pending b.op then 1 else 0

-- The steps that are left for a buffer.
abbrev pub steps : Op → ℕ
steps unused = 0
steps read_pending = 2
steps write_pending = 1

module _ (input : List ℕ) where
  abbrev pub target : List ℕ
  target = map translate input

  -- A buffer holds what the input has at its offset, and its read is short only at the end.
  pub data Holds : Buf → Type 0 where
    idle : {b : Buf} → b.op ≡ unused → Holds b
    reads :
        {b : Buf}
        → b.op ≡ read_pending
        → b.offset < length input
        → (b.last ≡ true) ⊎ (b.offset + bsz ≤ length input)
        → Holds b
    writes :
        {b : Buf}
        → b.op ≡ write_pending
        → b.offset < length input
        → b.text ≡ map translate (read_at b.offset bsz input)
        → Holds b

  -- Each byte that was asked for is covered by a buffer in use or has been copied; so many buffers are in use.
  pub record Copied (c : ℕ → Bool) (n : ℕ) (s : Copy) : Type 0 where
    pub done :
        (p : ℕ) → p < s.off → p < length input → (c p ≡ true) ⊎ (byte_at s.out p ≡ byte_at target p)
    pub count : s.numop ≡ n
    pub short : length s.out ≤ length input

  -- The steps that are left.
  abbrev pub left : Copy → ℕ
  left s = 3 * (length input - s.off)

  pub Copied-same :
      (c d : ℕ → Bool) (m n : ℕ) (s : Copy)
      → ((p : ℕ) → c p ≡ true → d p ≡ true)
      → m ≡ n
      → Copied c m s
      → Copied d n s
  Copied-same c d m n s more same k = record {
    done = λ p lt lt2. elim (k.done p lt lt2) [ inl e ↦ inl (more p e) | inr e ↦ inr e ];
    count = k.count ∙ same;
    short = k.short;
  }

  -- What a step on a buffer does, beside buffers that cover `c` and of which `n` are in use.
  abbrev pub Steps : Poll → (ℕ → Bool) → ℕ → Buf → Copy → Buf → Copy → Type 0
  Steps p c n b s b2 s2 =
      Holds b2
      × Copied (λ q. c q || covers b2 q) (n + pending b2) s2
      × (steps b2.op + left s2 ≤ steps b.op + left s)
      × ((is_pending b.op ≡ true) × (p ≡ complete)
            ⊎ (is_pending b.op ≡ false) × (s.off < length input)
          → steps b2.op + left s2 < steps b.op + left s)

  start_lem :
      (p : Poll) (c : ℕ → Bool) (n : ℕ) (b : Buf) (s : Copy)
      → b.op ≡ unused
      → Copied (λ q. c q || covers b q) (n + pending b) s
      → Steps p c n b s (start_read input b s).0 (start_read input b s).1
  unfolding start_read
  start_lem p c n b s at k = elim (Bool-cases (ltb s.off (length input))) [
    | inr e ↦ rw e (Holds.idle at, k, omega arith, λ h. ground arith)
    | inl e ↦ rw e (
      Holds.reads refl (ground arith) (ground arith),
      record {
        done = λ q lt lt2. ground (arith, k.done q);
        count = ground (arith, k.count);
        short = k.short;
      },
      ground (arith, some_bytes),
      λ h. ground (arith, some_bytes),
    )
  ]

  -- The bytes of a write that is complete.
  written :
      (o : ℕ) (out : List ℕ) (q : ℕ)
      → q < length input
      → o ≤ q
      → q < o + bsz
      → byte_at (write_at o (map translate (read_at o bsz input)) out) q ≡ byte_at target q
  written o out q lt low high =
      let here : q ≡ o + (q - o) = omega arith in
      let bytes = read_at o bsz input in
      let size = length-read_at o bsz input (omega arith) in
      let inside : q - o < length (map translate bytes) =
        ground (arith, size, length-map translate bytes) in
      write_at-inside o (map translate bytes) out q (q - o) here inside
      ∙ byte_at-map translate bytes (q - o)
      ∙ ap (each translate) (byte_at-read_at o bsz input q (q - o) here (omega arith))
      ∙ sym (byte_at-map translate input q)

  target-some : (q : ℕ) → q < length input → (v : ℕ) × (byte_at target q ≡ some v)
  target-some q lt = byte_at-some target q (omega (arith, length-map translate input))

  unwritten :
      (o : ℕ) (bs out : List ℕ) (q : ℕ)
      → q < length input
      → (q < o) ⊎ (o + length bs ≤ q)
      → byte_at out q ≡ byte_at target q
      → byte_at (write_at o bs out) q ≡ byte_at target q
  unwritten o bs out q lt beside same =
      let (v, there) = target-some q lt in
      write_at-beside o bs out q v (same ∙ there) beside ∙ sym there

  text_size :
      (o : ℕ)
      → o < length input
      → (length (map translate (read_at o bsz input)) ≤ bsz)
        × (o + length (map translate (read_at o bsz input)) ≤ length input)
  text_size o lt =
      let size = length-read_at o bsz input (omega arith) in
      let same = length-map translate (read_at o bsz input) in
      (ground (arith, size, same), ground (arith, size, same))

  write_done_bytes :
      (c : ℕ → Bool) (o : ℕ) (out : List ℕ) (q : ℕ)
      → o < length input
      → q < length input
      → (c q || (leb o q && ltb q (o + bsz)) ≡ true) ⊎ (byte_at out q ≡ byte_at target q)
      → (c q || false ≡ true)
        ⊎ (byte_at (write_at o (map translate (read_at o bsz input)) out) q ≡ byte_at target q)
  write_done_bytes c o out q below lt h = elim (Bool-cases (leb o q && ltb q (o + bsz))) [
    | inl e ↦ inr (written o out q lt (ground arith) (ground arith))
    | inr e ↦ elim h [
      | inl t ↦ inl (ground arith)
      | inr same ↦
          let size = (text_size o below).0 in
          inr
            (unwritten o (map translate (read_at o bsz input)) out q lt (ground (arith, size)) same)
    ]
  ]

  write_lem :
      (p : Poll) (c : ℕ → Bool) (n : ℕ) (b : Buf) (s : Copy)
      → b.op ≡ write_pending
      → b.offset < length input
      → b.text ≡ map translate (read_at b.offset bsz input)
      → Copied (λ q. c q || covers b q) (n + pending b) s
      → Steps p c n b s (write_done input b s).0 (write_done input b s).1
  unfolding write_done
  write_lem p c n b s at lt text k = (
    Holds.idle refl,
    record {
      done = λ q before inside.
          rw text (write_done_bytes c b.offset s.out q lt inside (ground (arith, at, k.done q)));
      count = ground (arith, k.count, at);
      short =
          length-write_at-le b.offset (length input) b.text s.out k.short
            (rw text ((text_size b.offset lt).1));
    },
    ground arith,
    λ h. ground (arith, at),
  )

  waits :
      (c : ℕ → Bool) (n : ℕ) (b : Buf) (s : Copy)
      → is_pending b.op ≡ true
      → Holds b
      → Copied (λ q. c q || covers b q) (n + pending b) s
      → Steps in_progress c n b s b s
  waits c n b s busy h k = (h, k, omega arith, λ e. ground arith)

  read_lem :
      (c : ℕ → Bool) (n : ℕ) (b : Buf) (s : Copy)
      → b.op ≡ read_pending
      → b.offset < length input
      → (b.last ≡ true) ⊎ (b.offset + bsz ≤ length input)
      → Copied (λ q. c q || covers b q) (n + pending b) s
      → (b2 : Buf) × (s2 : Copy) × (read_done input b s ≡ some (b2, s2))
        × Steps complete c n b s b2 s2
  unfolding read_done
  read_lem c n b s at lt whole k =
      let size = length-read_at b.offset bsz input (omega arith) in
      let enough : (not (length (read_at b.offset bsz input) == bsz) && not b.last) ≡ false =
        ground (arith, size) in
      (
        record b { op = write_pending; text = map translate (read_at b.offset bsz input) },
        s,
        rw enough refl,
        (
          Holds.writes refl lt refl,
          record {
            done = λ q before inside. ground (arith, at, k.done q);
            count = ground (arith, k.count, at);
            short = k.short;
          },
          ground (arith, at),
          λ h. ground (arith, at),
        ),
      )

  -- A step on a buffer succeeds, and takes the copy further when the buffer's operation is complete, or when it is not in
  -- use and there is more to read.
  pub step_lem :
      (p : Poll) (c : ℕ → Bool) (n : ℕ) (b : Buf) (s : Copy)
      → p ≢ failed
      → Holds b
      → Copied (λ q. c q || covers b q) (n + pending b) s
      → (b2 : Buf) × (s2 : Copy) × (step input p b s ≡ some (b2, s2)) × Steps p c n b s b2 s2
  unfolding step_of
  step_lem p c n b s fine (Holds.idle at) k =
      (_, _, ap (λ (o : Op). step_of input o p b s) at, start_lem p c n b s at k)
  step_lem in_progress c n b s fine (Holds.reads at lt whole) k = (
    b,
    s,
    ap (λ (o : Op). step_of input o in_progress b s) at,
    waits c n b s (ground (arith, at)) (Holds.reads at lt whole) k,
  )
  step_lem in_progress c n b s fine (Holds.writes at lt text) k = (
    b,
    s,
    ap (λ (o : Op). step_of input o in_progress b s) at,
    waits c n b s (ground (arith, at)) (Holds.writes at lt text) k,
  )
  step_lem failed c n b s fine (Holds.reads at lt whole) k = elim (fine refl) [ ]
  step_lem failed c n b s fine (Holds.writes at lt text) k = elim (fine refl) [ ]
  step_lem complete c n b s fine (Holds.reads at lt whole) k =
      let (b2, s2, e, done) = read_lem c n b s at lt whole k in
      (b2, s2, ap (λ (o : Op). step_of input o complete b s) at ∙ e, done)
  step_lem complete c n b s fine (Holds.writes at lt text) k = (
    _,
    _,
    ap (λ (o : Op). step_of input o complete b s) at,
    write_lem complete c n b s at lt text k,
  )
