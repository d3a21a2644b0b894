-- ===== src/MemoryPp/Raw/Recalled.antt =====
-- crates/memory-pp/src/raw_store.rs: what recall finds, and a span that it never does.
use entheai.Base.{
  ℕ, zero, suc, ◌≡◌, refl, sym, ap, ◌∙◌, Bool, true, false, not, ◌&&◌, ◌||◌, Option, none, some,
  List, [], ◌∷◌, ◌++◌, any, keep, take, ◌=?◌, nat_eq, arith, Bool-cases, Option-cases, inl, inr,
}
use entheai.Base.Paths.{list_eq, list_beq_iff}
use entheai.Base.Sets.{member}
use entheai.MemoryPp.Raw.Tables.{
  Text, RawKind, parse, Row, RawStore, open_memory, at_meta, at_lock, at_insert, at_mirror, has_id,
  row_of, is_old, prune, id_of, insert, ingest, Call, add, drop_old, act, act_all, RawSpan,
  sanitize_fts5_query, span_if, joined_ids, spans, found, recall,
}
use entheai.MemoryPp.Raw.Content.{has_id-append, has_id_last, adds}
use entheai.MemoryPp.Raw.Mirrored.{indexed, indexed-append}

-- Every entry of the index has a row.
abbrev Backed : RawStore → Type 0
Backed s = (i : Text) → indexed i s.fts ≡ true → has_id i s.rows ≡ true

true-false : true ≡ false → ⊥
true-false h = ground arith

apart_ids :
    (i j : Text) (rows : List Row) → has_id i rows ≡ true → has_id j rows ≡ false → (j =? i) ≡ false
apart_ids i j rows h k = elim (Bool-cases (j =? i)) [
  | inl e ↦
      absurd
        (true-false (sym h ∙ ap (λ (x : Text). has_id x rows) (sym ((list_beq_iff j i).0 e)) ∙ k))
  | inr e ↦ e
]

indexed-keep-not :
    (i : Text) (old : List Row) (fts : List (Text × Text))
    → indexed i (keep (λ (f : Text × Text). not (has_id f.0 old)) fts)
      ≡ (indexed i fts && not (has_id i old))
indexed-keep-not i old [] = refl
indexed-keep-not i old (f ∷ fts) = elim (Bool-cases (f.0 =? i)) [
  | inl e ↦
      let same : has_id f.0 old ≡ has_id i old =
        ap (λ (x : Text). has_id x old) ((list_beq_iff f.0 i).0 e) in
      ground (arith, e, same, indexed-keep-not i old fts)
  | inr e ↦ ground (arith, e, indexed-keep-not i old fts)
]

has_id-split :
    (p : Row → Bool) (i : Text) (rows : List Row)
    → has_id i rows ≡ (has_id i (keep p rows) || has_id i (keep (λ (r : Row). not (p r)) rows))
has_id-split p i [] = refl
has_id-split p i (r ∷ rows) = ground (arith, has_id-split p i rows)

nothing : Backed open_memory
nothing i h = absurd (true-false (sym h))

module _ (to_hex : Text → Text) where
  -- A row whose id the index does not have.
  abbrev Lost : Text → RawStore → Type 0
  Lost i s = (has_id i s.rows ≡ true) × (indexed i s.fts ≡ false)

  insert-Lost :
      (mirrors : Bool) (r : Row) (i : Text) (s : RawStore)
      → Lost i s
      → Lost i (insert to_hex mirrors r s).1
  unfolding insert
  insert-Lost mirrors r i s (h, k) = elim (Bool-cases (has_id r.id s.rows)) [
    | inl e ↦ rw (e, insert) (h, k)
    | inr e ↦
        let rows : has_id i (s.rows ++ r ∷ []) ≡ true =
          ground (arith, h, has_id-append i s.rows (r ∷ [])) in
        let other : (r.id =? i) ≡ false = apart_ids i r.id s.rows h e in
        elim (Bool-cases mirrors) [
          | inl m ↦
              rw (e, m, insert)
                (rows, ground (arith, k, other, indexed-append i s.fts ((r.id, r.bytes) ∷ [])))
          | inr m ↦ rw (e, m, insert) (rows, k)
        ]
  ]

  act_all-Lost :
      (i : Text) (s : RawStore) (cs : List (Call to_hex))
      → adds to_hex cs ≡ true
      → Lost i s
      → Lost i (act_all to_hex s cs)
  unfolding act_all act ingest
  act_all-Lost i s [] h l = l
  act_all-Lost i s (add (some at_meta) now k bytes meta ∷ cs) h l = act_all-Lost i s cs h l
  act_all-Lost i s (add (some at_lock) now k bytes meta ∷ cs) h l = act_all-Lost i s cs h l
  act_all-Lost i s (add (some at_insert) now k bytes meta ∷ cs) h l = act_all-Lost i s cs h l
  act_all-Lost i s (add (some at_mirror) now k bytes meta ∷ cs) h l =
      act_all-Lost i (ingest to_hex (some at_mirror) now k bytes meta s).1 cs h
        (insert-Lost false _ i s l)
  act_all-Lost i s (add none now k bytes meta ∷ cs) h l =
      act_all-Lost i (ingest to_hex none now k bytes meta s).1 cs h (insert-Lost true _ i s l)
  act_all-Lost i s (drop_old fine now days ∷ cs) h l = absurd (ground (arith, h))

  insert-Backed :
      (mirrors : Bool) (r : Row) (s : RawStore) → Backed s → Backed (insert to_hex mirrors r s).1
  unfolding insert
  insert-Backed mirrors r s h i k = ground (
    arith,
    k,
    h i,
    indexed-append i s.fts ((r.id, r.bytes) ∷ []),
    has_id-append i s.rows (r ∷ []),
  )

  prune-Backed : (now days : ℕ) (s : RawStore) → Backed s → Backed (prune true now days s).1
  unfolding prune
  prune-Backed now days s h i k =
      let p = λ (r : Row). is_old now days r.created_at in
      ground (arith, k, h i, indexed-keep-not i (keep p s.rows) s.fts, has_id-split p i s.rows)

  dropped-Backed :
      (fine : Bool) (now days : ℕ) (s : RawStore) → Backed s → Backed (prune fine now days s).1
  unfolding prune
  dropped-Backed false now days s h = h
  dropped-Backed true now days s h = prune-Backed now days s h

  act_all-Backed :
      (s : RawStore) (cs : List (Call to_hex)) → Backed s → Backed (act_all to_hex s cs)
  unfolding act_all act ingest
  act_all-Backed s [] h = h
  act_all-Backed s (add (some at_meta) now k bytes meta ∷ cs) h = act_all-Backed s cs h
  act_all-Backed s (add (some at_lock) now k bytes meta ∷ cs) h = act_all-Backed s cs h
  act_all-Backed s (add (some at_insert) now k bytes meta ∷ cs) h = act_all-Backed s cs h
  act_all-Backed s (add (some at_mirror) now k bytes meta ∷ cs) h =
      act_all-Backed (ingest to_hex (some at_mirror) now k bytes meta s).1 cs
        (insert-Backed false _ s h)
  act_all-Backed s (add none now k bytes meta ∷ cs) h =
      act_all-Backed (ingest to_hex none now k bytes meta s).1 cs (insert-Backed true _ s h)
  act_all-Backed s (drop_old fine now days ∷ cs) h =
      act_all-Backed (prune fine now days s).1 cs (dropped-Backed fine now days s h)

  -- A call that fails between its statements leaves a row without an entry.
  ingest-broken :
      (now : ℕ) (k : RawKind) (bytes : Text) (meta : Option Text) (s : RawStore)
      → has_id (id_of to_hex k bytes) s.rows ≡ false
      → Backed s
      → Lost (id_of to_hex k bytes) (ingest to_hex (some at_mirror) now k bytes meta s).1
  unfolding ingest insert
  ingest-broken now k bytes meta s new backed = rw new (
    has_id_last _ s.rows,
    elim (Bool-cases (indexed (id_of to_hex k bytes) s.fts)) [
      | inl e ↦ absurd (true-false (sym (backed (id_of to_hex k bytes) e) ∙ new))
      | inr e ↦ e
    ],
  )

  ingest-there :
      (now : ℕ) (k : RawKind) (bytes : Text) (meta : Option Text) (s : RawStore)
      → has_id (id_of to_hex k bytes) s.rows ≡ true
      → (ingest to_hex none now k bytes meta s).0 ≡ some (id_of to_hex k bytes)
  unfolding ingest insert
  ingest-there now k bytes meta s there = rw there refl

module _ (is_alphanumeric : ℕ → Bool) (find_in : Text → List (Text × Text) → List Text) where
  -- Only ids of the index are found.
  abbrev pub FindsEntries : Type 0
  FindsEntries =
      (expr : Text) (fts : List (Text × Text)) (i : Text)
      → member i (find_in expr fts) ≡ true
      → indexed i fts ≡ true

  member-take :
      (i : Text) (k : ℕ) (ids : List Text) → member i ids ≡ false → member i (take k ids) ≡ false
  member-take i zero ids h = refl
  member-take i (suc k) [] h = refl
  member-take i (suc k) (x ∷ ids) h = ground (arith, h, member-take i k ids)

  joined_ids-other :
      (i : Text) (ids : List Text) (rows : List Row)
      → member i ids ≡ false
      → member i (joined_ids is_alphanumeric find_in ids rows) ≡ false
  joined_ids-other i [] rows h = refl
  joined_ids-other i (x ∷ ids) rows h = ground (arith, h, joined_ids-other i ids rows)

  row_of-id : (i : Text) (rows : List Row) (r : Row) → row_of i rows ≡ some r → r.id ≡ i
  row_of-id i [] r h = absurd (ground (arith, h))
  row_of-id i (x ∷ rows) r h = ground (arith, h, list_beq_iff x.id i, row_of-id i rows r)

  abbrev pub named : Text → List RawSpan → Bool
  named i ss = any (λ (s : RawSpan). s.id =? i) ss

  span_if-other :
      (i : Text) (r : Row) (rest : List RawSpan)
      → (r.id =? i) ≡ false
      → named i rest ≡ false
      → named i (span_if is_alphanumeric find_in (some r) rest) ≡ false
  span_if-other i r rest h k = elim (Option-cases (parse r.kind)) [
    | inl e ↦ rw (e, span_if) k
    | inr (l, e) ↦ rw (e, span_if) (ground (arith, h, k))
  ]

  spans-other :
      (i : Text) (ids : List Text) (rows : List Row)
      → member i ids ≡ false
      → named i (spans is_alphanumeric find_in ids rows) ≡ false
  spans-other i [] rows h = refl
  spans-other i (x ∷ ids) rows h = elim (Option-cases (row_of x rows)) [
    | inl e ↦ rw e (spans-other i ids rows (ground (arith, h)))
    | inr (r, e) ↦
        let other : (r.id =? i) ≡ false =
          ap (λ (y : Text). y =? i) (row_of-id x rows r e) ∙ ground (arith, h) in
        rw e (
          span_if-other i r (spans is_alphanumeric find_in ids rows) other
            (spans-other i ids rows (ground (arith, h))))
  ]

  found-other :
      (i : Text) (expr : Option Text) (n : ℕ) (s : RawStore)
      → FindsEntries
      → indexed i s.fts ≡ false
      → named i (found is_alphanumeric find_in expr n s) ≡ false
  found-other i none n s finds h = refl
  found-other i (some expr) n s finds h =
      let missing : member i (find_in expr s.fts) ≡ false =
        elim (Bool-cases (member i (find_in expr s.fts))) [
          | inl e ↦ absurd (true-false (sym (finds expr s.fts i e) ∙ h))
          | inr e ↦ e
        ] in
      let kept = joined_ids is_alphanumeric find_in (find_in expr s.fts) s.rows in
      spans-other i (take n kept) s.rows
        (member-take i n kept (joined_ids-other i (find_in expr s.fts) s.rows missing))

  module _ (to_hex : Text → Text) where
    -- Where the index gives only what it has: a span that is new on a store after any calls, and whose
    -- adding fails between its two statements, is never recalled, however it is asked for and
    -- whatever is added later while nothing is dropped; adding it again reports its id.
    pub recall-lost :
        (cs ds : List (Call to_hex)) (now then_at : ℕ) (k : RawKind) (bytes : Text)
        (meta : Option Text) (query : Text) (n : ℕ)
        → FindsEntries
        → has_id (id_of to_hex k bytes) (act_all to_hex open_memory cs).rows ≡ false
        → adds to_hex ds ≡ true
        → ((ingest to_hex none then_at k bytes meta (
              act_all to_hex
                (ingest to_hex (some at_mirror) now k bytes meta (act_all to_hex open_memory cs)).1
                ds)).0
            ≡ some (id_of to_hex k bytes))
          × (named (id_of to_hex k bytes) (
                recall is_alphanumeric find_in query n (
                  act_all to_hex
                    (ingest to_hex
                      (some at_mirror)
                      now
                      k
                      bytes
                      meta
                      (act_all to_hex open_memory cs)).1
                    ds))
              ≡ false)
    unfolding recall
    recall-lost cs ds now then_at k bytes meta query n finds new later =
        let i = id_of to_hex k bytes in
        let s = act_all to_hex open_memory cs in
        let first =
          ingest-broken to_hex now k bytes meta s new
            (act_all-Backed to_hex open_memory cs nothing) in
        let (there, unfound) =
          act_all-Lost to_hex i (ingest to_hex (some at_mirror) now k bytes meta s).1 ds later
            first in
        (
          ingest-there to_hex then_at k bytes meta _ there,
          found-other i (sanitize_fts5_query is_alphanumeric query) n _ finds unfound,
        )
