-- ===== src/Mcp/Loop.antt =====
-- crates/mcp/src/lib.rs: `reader_loop`, in a time in which no request comes or gives up. The reading of bytes as a
-- text and the parser of JSON are parameters: of a value it gives what the loop reads of it.
use entheai.Base.{
  ℕ, zero, suc, ◌<◌, ◌⊎◌, ◌≡◌, refl, sym, ap, ◌∙◌, subst, String, Bool, true, false, Option, none,
  some, List, [], ◌∷◌, ◌++◌, map, length, ltb, ◌==◌, if◌then◌else◌, arith, Bool-cases, Option-cases,
  inl, inr, nat_eq,
}
use entheai.Base.Sets.{member, discard}
use entheai.Base.Text.{trim}
use entheai.Mcp.{Chunk, ReadLineOutcome, line, too_long, eof, cut, read_capped_line}
use entheai.Mcp.Framing.{
  flat, sound, first_line, last_line, capped, cut-none, read_capped_line-first_line,
}

-- `id`, `error` with its message, and `result`, as far as the value has them.
pub record Message (Value : Type 0) : Type 0 where
  pub id : Option ℕ
  pub error : Option (Option String)
  pub result : Option Value

pub data Answer (Value : Type 0) : Type 0 where
  ok : Value → Answer Value
  err : String → Answer Value

-- The requests that wait, and the answers sent so far.
pub record Router (Value : Type 0) : Type 0 where
  pub pending : List ℕ
  pub sent : List (ℕ × Answer Value)

abbrev or_unknown : Option String → String
or_unknown none = "unknown mcp error"
or_unknown (some msg) = msg

module _ {Value : Type 0} where
  -- What a message answers.
  abbrev pub outcome : Option (Option String) → Option Value → Option (Answer Value)
  outcome (some message) result = some (err (or_unknown message))
  outcome none (some value) = some (ok value)
  outcome none none = none

  -- `pending.remove(&id)`, and the send.
  unfoldable pub resolve : ℕ → Answer Value → Router Value → Router Value
  resolve id answer w =
      if member id w.pending
      then record { pending = discard id w.pending; sent = w.sent ++ (id, answer) ∷ [] }
      else w

  abbrev pub answer_to : Option ℕ → Option (Answer Value) → Router Value → Router Value
  answer_to (some id) (some answer) w = resolve id answer w
  answer_to _ _ w = w

  unfoldable pub drain : Router Value → Router Value
  drain w = record { pending = []; sent = w.sent ++ map (λ (id : ℕ). (id, err "closed")) w.pending }

-- The reading of bytes as a text, and the parser.
pub record Decoder (Value : Type 0) : Type 0 where
  pub from_utf8_lossy : List ℕ → List ℕ
  pub from_str : List ℕ → Option (Message Value)

module _ {Value : Type 0} (decoder : Decoder Value) where
  open decoder use {from_utf8_lossy, from_str}

  abbrev pub parsed : Option (Message Value) → Router Value → Router Value
  parsed none w = w
  parsed (some m) w = answer_to m.id (outcome m.error m.result) w

  -- A blank line is skipped.
  abbrev pub unless_blank : List ℕ → Router Value → Router Value
  unless_blank [] w = w
  unless_blank (b ∷ bs) w = parsed (from_str (b ∷ bs)) w

  -- A line that is not too long.
  unfoldable pub handle : List ℕ → Router Value → Router Value
  handle l w = unless_blank (trim (from_utf8_lossy l)) w

  -- `none` when the fuel is used up.
  unfoldable pub reader_loop : ℕ → ℕ → List Chunk → Router Value → Option (Router Value)
  reader_loop zero max_bytes cs w = none
  reader_loop (suc fuel) max_bytes cs w = elim (read_capped_line max_bytes cs) [
    | none ↦ some (drain w)
    | some read ↦ elim read.0 [
      | line l ↦ reader_loop fuel max_bytes read.1 (handle l w)
      | too_long ↦ reader_loop fuel max_bytes read.1 w
      | eof ↦ some (drain w)
    ]
  ]

  -- The lines of a text; a last one without a newline counts, unless it is empty.
  abbrev begin : ℕ → List (List ℕ) → List (List ℕ)
  begin b [] = (b ∷ []) ∷ []
  begin b (l ∷ ls) = (b ∷ l) ∷ ls

  abbrev pub lines_of : List ℕ → List (List ℕ)
  lines_of [] = []
  lines_of (b ∷ bs) = let rest = lines_of bs in if b == 10 then [] ∷ rest else begin b rest

  -- All lines in order, those above the cap left out.
  abbrev pub handle_all : ℕ → List (List ℕ) → Router Value → Router Value
  handle_all max_bytes [] w = w
  handle_all max_bytes (l ∷ ls) w =
      handle_all max_bytes ls (if ltb max_bytes (length l) then w else handle l w)

  lines_of-cut :
      (bs rest : List ℕ)
      → (cut bs).1 ≡ some rest
      → (lines_of bs ≡ (cut bs).0 ∷ lines_of rest) × (length rest < length bs)
  lines_of-cut [] rest h = absurd (ground (arith, h))
  lines_of-cut (b ∷ bs) rest h = elim (Option-cases (cut bs).1) [
    | inl e ↦ ground (arith, h, e)
    | inr (r, e) ↦ ground (arith, h, e, lines_of-cut bs r)
  ]

  lines_of-last :
      (b : ℕ) (bs : List ℕ) → (cut (b ∷ bs)).1 ≡ none → lines_of (b ∷ bs) ≡ (b ∷ bs) ∷ []
  lines_of-last b [] h = ground (arith, h)
  lines_of-last b (c ∷ bs) h = ground (arith, h, lines_of-last c bs)

  abbrev after : ReadLineOutcome → Router Value → Router Value
  after (line l) w = handle l w
  after _ w = w

  abbrev is_eof : ReadLineOutcome → Bool
  is_eof eof = true
  is_eof _ = false

  after-capped :
      (max_bytes : ℕ) (l : List ℕ) (w : Router Value)
      → (after (capped max_bytes l) w ≡ (if ltb max_bytes (length l) then w else handle l w))
        × (is_eof (capped max_bytes l) ≡ false)
  after-capped max_bytes l w = elim (Bool-cases (ltb max_bytes (length l))) [
    | inl e ↦ rw e (refl, refl)
    | inr e ↦ rw e (refl, refl)
  ]

  -- Reading one line leaves what follows it, and makes the text shorter unless it is empty.
  abbrev Peels : ℕ → List ℕ → Router Value → ReadLineOutcome × List ℕ → Type 0
  Peels max_bytes bs w (o, rest) =
      ((is_eof o ≡ true) × (bs ≡ []))
      ⊎ ((is_eof o ≡ false)
          × ((length rest < length bs)
              × (handle_all max_bytes (lines_of rest) (after o w)
                  ≡ handle_all max_bytes (lines_of bs) w)))

  Peels-end :
      (max_bytes : ℕ) (bs : List ℕ) (w : Router Value)
      → (cut bs).1 ≡ none
      → Peels max_bytes bs w (last_line max_bytes bs, [])
  Peels-end max_bytes [] w h = inl (refl, refl)
  Peels-end max_bytes (b ∷ bs) w h =
      let (same, running) = after-capped max_bytes (b ∷ bs) w in
      inr (
        running,
        (
          omega arith,
          same
              ∙ sym (ap (λ (ls : List (List ℕ)). handle_all max_bytes ls w) (lines_of-last b bs h)),
        ),
      )

  Peels-cut :
      (max_bytes : ℕ) (bs rest : List ℕ) (w : Router Value)
      → (cut bs).1 ≡ some rest
      → Peels max_bytes bs w (capped max_bytes (cut bs).0, rest)
  Peels-cut max_bytes bs rest w h =
      let (same, running) = after-capped max_bytes (cut bs).0 w in
      let (split, shorter) = lines_of-cut bs rest h in
      inr (
        running,
        (
          shorter,
          ap (λ (v : Router Value). handle_all max_bytes (lines_of rest) v) same
              ∙ sym (ap (λ (ls : List (List ℕ)). handle_all max_bytes ls w) split),
        ),
      )

  first_line-Peels :
      (max_bytes : ℕ) (bs : List ℕ) (w : Router Value)
      → Peels max_bytes bs w (first_line max_bytes bs)
  first_line-Peels max_bytes bs w = elim (Option-cases (cut bs).1) [
    | inl e ↦
        let same : (last_line max_bytes bs, []) ≡ first_line max_bytes bs =
          ground (arith, e, cut-none bs e) in
        subst (Peels max_bytes bs w) same (Peels-end max_bytes bs w e)
    | inr (rest, e) ↦
        let same : (capped max_bytes (cut bs).0, rest) ≡ first_line max_bytes bs =
          ground (arith, e) in
        subst (Peels max_bytes bs w) same (Peels-cut max_bytes bs rest w e)
  ]

  -- One turn of the loop.
  reader_loop-after :
      (fuel max_bytes : ℕ) (cs cs' : List Chunk) (w : Router Value) (o : ReadLineOutcome)
      → read_capped_line max_bytes cs ≡ some (o, cs')
      → reader_loop (suc fuel) max_bytes cs w
        ≡ (if is_eof o then some (drain w) else reader_loop fuel max_bytes cs' (after o w))
  unfolding reader_loop
  reader_loop-after fuel max_bytes cs cs' w (line l) h = ground (arith, h)
  reader_loop-after fuel max_bytes cs cs' w too_long h = ground (arith, h)
  reader_loop-after fuel max_bytes cs cs' w eof h = ground (arith, h)

  -- On fuel above the number of its bytes the loop ends, and it has handled the lines of the stream
  -- in order, however they came in chunks.
  pub reader_loop-handle_all :
      (fuel max_bytes : ℕ) (cs : List Chunk) (w : Router Value)
      → sound cs ≡ true
      → length (flat cs) < fuel
      → reader_loop fuel max_bytes cs w ≡ some (drain (handle_all max_bytes (lines_of (flat cs)) w))
  unfolding reader_loop
  reader_loop-handle_all zero max_bytes cs w clean h = elim h [ ]
  reader_loop-handle_all (suc fuel) max_bytes cs w clean h =
      let (cs', (got, (left, clean'))) = read_capped_line-first_line max_bytes cs clean in
      let o = (first_line max_bytes (flat cs)).0 in
      let turn = reader_loop-after fuel max_bytes cs cs' w o got in
      elim (first_line-Peels max_bytes (flat cs) w) [
        | inl (ends, empty) ↦ turn ∙ rw (ends, empty) refl
        | inr (runs, (shorter, rest)) ↦
            let next =
              reader_loop-handle_all fuel max_bytes cs' (after o w) clean'
                (omega (arith, h, shorter, ap (λ (bs : List ℕ). length bs) left)) in
            turn
            ∙ ap
                (λ (b : Bool).
                  if b then some (drain w) else reader_loop fuel max_bytes cs' (after o w))
                runs
            ∙ next
            ∙ ap (λ (bs : List ℕ). some (drain (handle_all max_bytes (lines_of bs) (after o w))))
                left
            ∙ ap (λ (v : Router Value). some (drain v)) rest
      ]
