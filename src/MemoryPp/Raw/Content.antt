-- ===== src/MemoryPp/Raw/Content.antt =====
-- crates/memory-pp/src/raw_store.rs: what is read from the raw store is what was put in.
use entheai.Base.{
  ◌<◌, ◌⊎◌, drop, ℕ, ◌≡◌, refl, sym, ap, ◌∙◌, subst, Bool, true, false, not, ◌||◌, Option, none,
  some, List, [], ◌∷◌, ◌++◌, keep, All, ◌=?◌, =?_refl, nat_eq, arith, Bool-cases, inl, inr,
}
use mathlib.Core.List.{append-nil}
use entheai.Base.Paths.{list_eq, list_beq_iff}
use entheai.MemoryPp.Raw.Tables.{
  Text, RawKind, transcript, tool_output, trajectory, external, as_str, parse, Row, RawStore,
  open_memory, Fault, at_meta, at_lock, at_insert, at_mirror, has_id, row_of, RawContent,
  or_tool_output, is_old, id_of, insert, ingest, Call, add, drop_old, act, act_all, content, get,
}

-- The kind and the bytes are told from the text that is hashed.
abbrev fourth : Text → ℕ
fourth (a ∷ b ∷ c ∷ d ∷ s) = d
fourth _ = 0

apart : (m n : ℕ) → (m < n) ⊎ (n < m) → m ≡ n → ⊥
apart m n (inl h) e = omega arith
apart m n (inr h) e = omega arith

as_str-append :
    (k l : RawKind) (s t : Text) → as_str k ++ 0 ∷ s ≡ as_str l ++ 0 ∷ t → (k ≡ l) × (s ≡ t)
as_str-append transcript transcript s t h = (refl, ap (drop 11) h)
as_str-append transcript tool_output s t h =
    absurd (apart 110 108 (inr (omega arith)) (ap fourth h))
as_str-append transcript trajectory s t h = absurd (apart 110 106 (inr (omega arith)) (ap fourth h))
as_str-append transcript external s t h = absurd (apart 110 101 (inr (omega arith)) (ap fourth h))
as_str-append tool_output transcript s t h =
    absurd (apart 108 110 (inl (omega arith)) (ap fourth h))
as_str-append tool_output tool_output s t h = (refl, ap (drop 12) h)
as_str-append tool_output trajectory s t h =
    absurd (apart 108 106 (inr (omega arith)) (ap fourth h))
as_str-append tool_output external s t h = absurd (apart 108 101 (inr (omega arith)) (ap fourth h))
as_str-append trajectory transcript s t h = absurd (apart 106 110 (inl (omega arith)) (ap fourth h))
as_str-append trajectory tool_output s t h =
    absurd (apart 106 108 (inl (omega arith)) (ap fourth h))
as_str-append trajectory trajectory s t h = (refl, ap (drop 11) h)
as_str-append trajectory external s t h = absurd (apart 106 101 (inr (omega arith)) (ap fourth h))
as_str-append external transcript s t h = absurd (apart 101 110 (inl (omega arith)) (ap fourth h))
as_str-append external tool_output s t h = absurd (apart 101 108 (inl (omega arith)) (ap fourth h))
as_str-append external trajectory s t h = absurd (apart 101 106 (inl (omega arith)) (ap fourth h))
as_str-append external external s t h = (refl, ap (drop 9) h)

parse-as_str : (k : RawKind) → parse (as_str k) ≡ some k
parse-as_str transcript = refl
parse-as_str tool_output = refl
parse-as_str trajectory = refl
parse-as_str external = refl

pub has_id-append :
    (i : Text) (rows more : List Row) → has_id i (rows ++ more) ≡ (has_id i rows || has_id i more)
has_id-append i [] more = refl
has_id-append i (r ∷ rows) more = ground (arith, has_id-append i rows more)

row_of-append :
    (i : Text) (rows more : List Row) (r : Row)
    → row_of i rows ≡ some r
    → row_of i (rows ++ more) ≡ some r
row_of-append i [] more r h = absurd (ground (arith, h))
row_of-append i (x ∷ rows) more r h = ground (arith, h, row_of-append i rows more r)

All-append {ℓ} : (P : Row → Type ℓ) (xs ys : List Row) → All P xs → All P ys → All P (xs ++ ys)
All-append P [] ys h k = k
All-append P (x ∷ xs) ys h k = (h.0, All-append P xs ys h.1 k)

All-keep {ℓ} : (P : Row → Type ℓ) (p : Row → Bool) (xs : List Row) → All P xs → All P (keep p xs)
All-keep P p [] h = h
All-keep P p (x ∷ xs) h = elim (Bool-cases (p x)) [
  | inl e ↦ rw e (h.0, All-keep P p xs h.1)
  | inr e ↦ rw e (All-keep P p xs h.1)
]

found-All {ℓ} :
    (P : Row → Type ℓ) (i : Text) (rows : List Row)
    → All P rows
    → has_id i rows ≡ true
    → (r : Row) × (row_of i rows ≡ some r) × (r.id ≡ i) × P r
found-All P i [] h k = absurd (ground (arith, k))
found-All P i (x ∷ rows) h k = elim (Bool-cases (x.id =? i)) [
  | inl e ↦ (x, rw e refl, (list_beq_iff x.id i).0 e, h.0)
  | inr e ↦
      let (r, found, same, p) = found-All P i rows h.1 (ground (arith, e, k)) in
      (r, rw e found, same, p)
]

pub has_id_last : (r : Row) (rows : List Row) → has_id r.id (rows ++ r ∷ []) ≡ true
has_id_last r rows = ground (arith, has_id-append r.id rows (r ∷ []), =?_refl r.id)

named :
    (i j : Text) (rows : List Row)
    → some i ≡ some j
    → has_id i rows ≡ true
    → (j ≡ i) × (has_id j rows ≡ true)
named i j rows h k =
    let same : j ≡ i = cc in (same, subst (λ (x : Text). has_id x rows ≡ true) (sym same) k)

none-some : (i : Text) → none ≡ some i → ⊥
none-some i h = ground arith

module _ (to_hex : Text → Text) where
  -- A row stands under the digest of what it holds.
  abbrev pub Hashed : Row → Type 0
  Hashed r = (k : RawKind) × (r.kind ≡ as_str k) × (r.id ≡ id_of to_hex k r.bytes)

  abbrev row : RawKind → Text → Option Text → ℕ → Row
  row k bytes meta now = record {
    id = id_of to_hex k bytes;
    kind = as_str k;
    bytes = bytes;
    meta = meta;
    created_at = now;
  }

  -- What a call adds, if anything, stands behind the rows.
  abbrev Extends : Option Text × RawStore → RawStore → Row → Type 0
  Extends o s r =
      (more : List Row) × (o.1.rows ≡ s.rows ++ more)
      × ((more ≡ []) ⊎ (more ≡ r ∷ []))
      × ((i : Text) → o.0 ≡ some i → (i ≡ r.id) × (has_id i o.1.rows ≡ true))

  insert-Extends :
      (mirrors : Bool) (r : Row) (s : RawStore) → Extends (insert to_hex mirrors r s) s r
  unfolding insert
  insert-Extends mirrors r s = elim (Bool-cases (has_id r.id s.rows)) [
    | inl e ↦ rw (e, insert) ([], sym (append-nil s.rows), inl refl, λ i h. named r.id i s.rows h e)
    | inr e ↦ elim (Bool-cases mirrors) [
      | inl m ↦
          rw (e, m, insert)
            (
              r ∷ [],
              refl,
              inr refl,
              λ i h. named r.id i (s.rows ++ r ∷ []) h (has_id_last r s.rows),
            )
      | inr m ↦ rw (e, m, insert) (r ∷ [], refl, inr refl, λ i h. absurd (none-some i h))
    ]
  ]

  ingest-Extends :
      (fault : Option Fault) (now : ℕ) (k : RawKind) (bytes : Text) (meta : Option Text)
      (s : RawStore)
      → Extends (ingest to_hex fault now k bytes meta s) s (row k bytes meta now)
  unfolding ingest
  ingest-Extends (some at_meta) now k bytes meta s =
      ([], sym (append-nil s.rows), inl refl, λ i h. absurd (none-some i h))
  ingest-Extends (some at_lock) now k bytes meta s =
      ([], sym (append-nil s.rows), inl refl, λ i h. absurd (none-some i h))
  ingest-Extends (some at_insert) now k bytes meta s =
      ([], sym (append-nil s.rows), inl refl, λ i h. absurd (none-some i h))
  ingest-Extends (some at_mirror) now k bytes meta s = insert-Extends false (row k bytes meta now) s
  ingest-Extends none now k bytes meta s = insert-Extends true (row k bytes meta now) s

  row-Hashed :
      (k : RawKind) (bytes : Text) (meta : Option Text) (now : ℕ) (more : List Row)
      → (more ≡ []) ⊎ (more ≡ row k bytes meta now ∷ [])
      → All Hashed more
  row-Hashed k bytes meta now more (inl e) = rw e tt
  row-Hashed k bytes meta now more (inr e) = rw e ((k, refl, refl), tt)

  act-Hashed :
      (s : RawStore) (c : Call to_hex) → All Hashed s.rows → All Hashed (act to_hex s c).rows
  unfolding act
  act-Hashed s (add fault now k bytes meta) h =
      let (more, e, what, _) = ingest-Extends fault now k bytes meta s in
      subst (All Hashed) (sym e)
        (All-append Hashed s.rows more h (row-Hashed k bytes meta now more what))
  act-Hashed s (drop_old true now days) h =
      All-keep Hashed (λ (r : Row). not (is_old now days r.created_at)) s.rows h
  act-Hashed s (drop_old false now days) h = h

  pub act_all-Hashed :
      (s : RawStore) (cs : List (Call to_hex))
      → All Hashed s.rows
      → All Hashed (act_all to_hex s cs).rows
  unfolding act_all
  act_all-Hashed s [] h = h
  act_all-Hashed s (c ∷ cs) h = act_all-Hashed (act to_hex s c) cs (act-Hashed s c h)

  abbrev pub adds : List (Call to_hex) → Bool
  adds [] = true
  adds (add fault now k bytes meta ∷ cs) = adds cs
  adds (drop_old fine now days ∷ cs) = false

  -- Nothing that is added changes what is there.
  row_of-act_all :
      (s : RawStore) (cs : List (Call to_hex)) (i : Text) (r : Row)
      → adds cs ≡ true
      → row_of i s.rows ≡ some r
      → row_of i (act_all to_hex s cs).rows ≡ some r
  unfolding act_all
  row_of-act_all s [] i r h e = e
  row_of-act_all s (drop_old fine now days ∷ cs) i r h e = absurd (ground (arith, h))
  row_of-act_all s (add fault now k bytes meta ∷ cs) i r h e =
      let (more, split, _, _) = ingest-Extends fault now k bytes meta s in
      row_of-act_all (ingest to_hex fault now k bytes meta s).1 cs i r h
        (ap (row_of i) split ∙ row_of-append i s.rows more r e)

  id_of-same :
      (k l : RawKind) (b c : Text)
      → ((s t : Text) → to_hex s ≡ to_hex t → s ≡ t)
      → id_of to_hex k b ≡ id_of to_hex l c
      → (k ≡ l) × (b ≡ c)
  unfolding id_of
  id_of-same k l b c distinct h =
      as_str-append k l b c (distinct (as_str k ++ 0 ∷ b) (as_str l ++ 0 ∷ c) (ap (drop 7) h))

  module _ {Value : Type 0} (from_str : Text → Option Value) where
    -- Where no two texts have one digest: on a store after any calls, and whatever is added later while
    -- nothing is dropped, a span that was ingested with an id is read by that id with the kind and
    -- the bytes that were given.
    pub get-ingest :
        (cs ds : List (Call to_hex)) (fault : Option Fault) (now : ℕ) (k : RawKind) (bytes : Text)
        (meta : Option Text) (i : Text)
        → ((s t : Text) → to_hex s ≡ to_hex t → s ≡ t)
        → (ingest to_hex fault now k bytes meta (act_all to_hex open_memory cs)).0 ≡ some i
        → adds ds ≡ true
        → (c : RawContent Value) × (get from_str i (
              act_all to_hex
                (ingest to_hex fault now k bytes meta (act_all to_hex open_memory cs)).1
                ds)
            ≡ some c)
          × (c.id ≡ i)
          × (c.kind ≡ k)
          × (c.bytes ≡ bytes)
    unfolding get ingest act
    get-ingest cs ds fault now k bytes meta i distinct given later =
        let s = act_all to_hex open_memory cs in
        let s' = (ingest to_hex fault now k bytes meta s).1 in
        let hashed = act-Hashed s (add fault now k bytes meta) (act_all-Hashed open_memory cs tt) in
        let (_, _, _, told) = ingest-Extends fault now k bytes meta s in
        let (own, there) = told i given in
        let (r, found, same, (l, kind, digest)) = found-All Hashed i s'.rows hashed there in
        let (k≡l, b≡c) = id_of-same k l bytes r.bytes distinct (sym own ∙ sym same ∙ digest) in
        let still = row_of-act_all s' ds i r later found in
        (
          content from_str r,
          rw still refl,
          same,
          ap (λ (x : Text). or_tool_output (parse x)) kind
              ∙ ap or_tool_output (parse-as_str l)
              ∙ sym k≡l,
          sym b≡c,
        )
