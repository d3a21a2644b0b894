-- ===== src/Mcp/Framing.antt =====
-- crates/mcp/src/lib.rs: a line is read the same however the stream comes in chunks.
use entheai.Base.{
  ℕ, ◌≡◌, refl, ap, ◌∙◌, subst, Bool, true, false, Option, none, some, List, [], ◌∷◌, ◌++◌, length,
  length-append, ltb, if◌then◌else◌, arith, Bool-cases, Option-cases, inl, inr,
}
use mathlib.Core.List.{append-nil, append_assoc}
use entheai.Mcp.{
  Chunk, bytes, io_error, ReadLineOutcome, line, too_long, eof, cut, consume, extend, line_of,
  at_end, read_on, read_capped_line,
}

-- The bytes of a stream without an error.
abbrev pub flat : List Chunk → List ℕ
flat [] = []
flat (io_error ∷ cs) = flat cs
flat (bytes b bs ∷ cs) = (b ∷ bs) ++ flat cs

abbrev pub sound : List Chunk → Bool
sound [] = true
sound (io_error ∷ cs) = false
sound (bytes b bs ∷ cs) = sound cs

-- A line of its own: too long, or itself.
abbrev pub capped : ℕ → List ℕ → ReadLineOutcome
capped max_bytes l = if ltb max_bytes (length l) then too_long else line l

-- The last line has no newline; an empty one is none.
abbrev pub last_line : ℕ → List ℕ → ReadLineOutcome
last_line max_bytes [] = eof
last_line max_bytes (b ∷ bs) = capped max_bytes (b ∷ bs)

-- What reading one line from all the bytes at once gives, and the bytes left.
abbrev pub first_line : ℕ → List ℕ → ReadLineOutcome × List ℕ
first_line max_bytes bs =
    let (before, after) = cut bs in
    elim after [
      | some rest ↦ (capped max_bytes before, rest)
      | none ↦ (last_line max_bytes before, [])
    ]

-- The buffer after the bytes of a line so far.
abbrev buffered : ℕ → List ℕ → Option (List ℕ)
buffered max_bytes l = if ltb max_bytes (length l) then none else some l

extend-buffered :
    (max_bytes : ℕ) (l chunk : List ℕ)
    → extend max_bytes (buffered max_bytes l) chunk ≡ buffered max_bytes (l ++ chunk)
extend-buffered max_bytes l chunk = elim (Bool-cases (ltb max_bytes (length l))) [
  | inl e ↦ ground (arith, e, length-append l chunk)
  | inr e ↦ ground (arith, e, length-append l chunk)
]

cut-append_none :
    (xs ys : List ℕ)
    → (cut xs).1 ≡ none
    → ((cut (xs ++ ys)).0 ≡ xs ++ (cut ys).0) × ((cut (xs ++ ys)).1 ≡ (cut ys).1)
cut-append_none [] ys h = (refl, refl)
cut-append_none (x ∷ xs) ys h = ground (arith, h, cut-append_none xs ys)

cut-append_some :
    (xs ys rest : List ℕ)
    → (cut xs).1 ≡ some rest
    → ((cut (xs ++ ys)).0 ≡ (cut xs).0) × ((cut (xs ++ ys)).1 ≡ some (rest ++ ys))
cut-append_some [] ys rest h = absurd (ground (arith, h))
cut-append_some (x ∷ xs) ys rest h = elim (Option-cases (cut xs).1) [
  | inl e ↦ ground (arith, h, e)
  | inr (r, e) ↦ ground (arith, h, e, cut-append_some xs ys r)
]

pub cut-none : (xs : List ℕ) → (cut xs).1 ≡ none → (cut xs).0 ≡ xs
cut-none [] h = refl
cut-none (x ∷ xs) h = ground (arith, h, cut-none xs)

flat-consume : (rest : List ℕ) (cs : List Chunk) → flat (consume rest cs) ≡ rest ++ flat cs
flat-consume [] cs = refl
flat-consume (b ∷ bs) cs = refl

sound-consume : (rest : List ℕ) (cs : List Chunk) → sound (consume rest cs) ≡ sound cs
sound-consume [] cs = refl
sound-consume (b ∷ bs) cs = refl

line_of-buffered :
    (max_bytes : ℕ) (l : List ℕ) → line_of (buffered max_bytes l) ≡ capped max_bytes l
line_of-buffered max_bytes l = elim (Bool-cases (ltb max_bytes (length l))) [
  | inl e ↦ rw e refl
  | inr e ↦ rw e refl
]

at_end-buffered :
    (max_bytes : ℕ) (l : List ℕ) → at_end (buffered max_bytes l) ≡ last_line max_bytes l
at_end-buffered max_bytes [] = elim (Bool-cases (ltb max_bytes 0)) [
  | inl e ↦ absurd (ground (arith, e))
  | inr e ↦ rw e refl
]
at_end-buffered max_bytes (b ∷ l) = elim (Bool-cases (ltb max_bytes (length (b ∷ l)))) [
  | inl e ↦ rw e refl
  | inr e ↦ rw e refl
]

-- What is read from the chunks, and the bytes that they have left.
abbrev pub Reads : Option (ReadLineOutcome × List Chunk) → ReadLineOutcome × List ℕ → Type 0
Reads got (o, rest) =
    (cs : List Chunk) × ((got ≡ some (o, cs)) × ((flat cs ≡ rest) × (sound cs ≡ true)))

first_line-end :
    (max_bytes : ℕ) (bs l : List ℕ)
    → (cut bs).1 ≡ none
    → (cut bs).0 ≡ l
    → (last_line max_bytes l, []) ≡ first_line max_bytes bs
first_line-end max_bytes bs l h k = ground (arith, h, k)

first_line-cut :
    (max_bytes : ℕ) (bs l rest : List ℕ)
    → (cut bs).1 ≡ some rest
    → (cut bs).0 ≡ l
    → (capped max_bytes l, rest) ≡ first_line max_bytes bs
first_line-cut max_bytes bs l rest h k = ground (arith, h, k)

-- A newline is found in the chunk.
newline-Reads :
    (max_bytes : ℕ) (l rest before : List ℕ) (cs : List Chunk)
    → sound cs ≡ true
    → Reads
        (some (line_of (extend max_bytes (buffered max_bytes l) before), consume rest cs))
        (capped max_bytes (l ++ before), rest ++ flat cs)
newline-Reads max_bytes l rest before cs ok =
    let text = extend-buffered max_bytes l before in
    let capped_text = line_of-buffered max_bytes (l ++ before) in
    (
      consume rest cs,
      (
        ap (λ (o : ReadLineOutcome). some (o, consume rest cs))
            (ap (λ (buf : Option (List ℕ)). line_of buf) text ∙ capped_text),
        (flat-consume rest cs, sound-consume rest cs ∙ ok),
      ),
    )

read_on-Reads :
    (max_bytes : ℕ) (l : List ℕ) (cs : List Chunk)
    → (cut l).1 ≡ none
    → sound cs ≡ true
    → Reads (read_on max_bytes (buffered max_bytes l) cs) (first_line max_bytes (l ++ flat cs))
unfolding read_on
read_on-Reads max_bytes l [] h ok =
    let (text, after) = cut-append_none l [] h in
    subst (Reads (some (at_end (buffered max_bytes l), [])))
      (first_line-end max_bytes (l ++ []) l after (text ∙ append-nil l))
      ([], (ap (λ (o : ReadLineOutcome). some (o, [])) (at_end-buffered max_bytes l), (refl, refl)))
read_on-Reads max_bytes l (io_error ∷ cs) h ok = absurd (ground (arith, ok))
read_on-Reads max_bytes l (bytes b bs ∷ cs) h ok =
    let chunk = b ∷ bs in
    let buf = buffered max_bytes l in
    let (text, after) = cut-append_none l (chunk ++ flat cs) h in
    elim (Option-cases (cut chunk).1) [
      | inl e ↦
          let whole = cut-none chunk e in
          let clean : (cut (l ++ chunk)).1 ≡ none = (cut-append_none l chunk h).1 ∙ e in
          let next : read_on max_bytes (buffered max_bytes (l ++ chunk)) cs
              ≡ read_on max_bytes buf (bytes b bs ∷ cs) =
            ground (arith, e, whole, extend-buffered max_bytes l chunk) in
          subst (λ got. Reads got (first_line max_bytes (l ++ (chunk ++ flat cs)))) next
            (subst
              (λ xs.
                Reads (read_on max_bytes (buffered max_bytes (l ++ chunk)) cs)
                  (first_line max_bytes xs))
              (append_assoc l chunk (flat cs)) (read_on-Reads max_bytes (l ++ chunk) cs clean ok))
      | inr (rest, e) ↦
          let before = (cut chunk).0 in
          let (front, back) = cut-append_some chunk (flat cs) rest e in
          let next : some (line_of (extend max_bytes buf before), consume rest cs)
              ≡ read_on max_bytes buf (bytes b bs ∷ cs) =
            ground (arith, e) in
          subst (λ got. Reads got (first_line max_bytes (l ++ (chunk ++ flat cs)))) next
            (subst (Reads (some (line_of (extend max_bytes buf before), consume rest cs)))
              (first_line-cut max_bytes (l ++ (chunk ++ flat cs)) (l ++ before) (rest ++ flat cs)
                (after ∙ back) (text ∙ ap (λ (xs : List ℕ). l ++ xs) front))
              (newline-Reads max_bytes l rest before cs ok))
    ]

-- However the stream comes in chunks, one line is read as from all of its bytes at once: the bytes
-- before the first newline, unless there are more than the cap, and the bytes behind it stay; at the
-- end of the stream a last line without a newline counts, unless it is empty.
pub read_capped_line-first_line :
    (max_bytes : ℕ) (cs : List Chunk)
    → sound cs ≡ true
    → Reads (read_capped_line max_bytes cs) (first_line max_bytes (flat cs))
unfolding read_capped_line
read_capped_line-first_line max_bytes cs ok =
    let empty : buffered max_bytes [] ≡ some [] = ground arith in
    subst (λ buf. Reads (read_on max_bytes buf cs) (first_line max_bytes (flat cs))) empty
      (read_on-Reads max_bytes [] cs refl ok)
