-- ===== src/MemoryPp/Raw/Mirrored.antt =====
-- crates/memory-pp/src/raw_store.rs: the index that mirrors the rows, and what recall finds by it.
use mathlib.Core.List.{map-append}
use entheai.Base.{
  ℕ, ◌≡◌, refl, sym, ap, ◌∙◌, Bool, true, false, not, ◌||◌, none, some, List, [], ◌∷◌, ◌++◌, map,
  any, keep, if◌then◌else◌, ◌=?◌, =?_refl, nat_eq, arith, Bool-cases, inl, inr,
}
use entheai.Base.Paths.{list_eq, list_beq_iff}
use entheai.MemoryPp.Raw.Tables.{
  Text, Row, RawStore, at_meta, at_lock, at_insert, at_mirror, has_id, is_old, prune, insert,
  ingest, Call, add, drop_old, act, act_all,
}
use entheai.MemoryPp.Raw.Content.{has_id-append}

abbrev pub entries : List Row → List (Text × Text)
entries rows = map (λ (r : Row). (r.id, r.bytes)) rows

-- The id stands in the index.
abbrev pub indexed : Text → List (Text × Text) → Bool
indexed i fts = any (λ (f : Text × Text). f.0 =? i) fts

pub indexed-append :
    (i : Text) (xs ys : List (Text × Text)) → indexed i (xs ++ ys) ≡ (indexed i xs || indexed i ys)
indexed-append i [] ys = refl
indexed-append i (x ∷ xs) ys = ground (arith, indexed-append i xs ys)

indexed-keep :
    (i : Text) (p : Text × Text → Bool) (xs : List (Text × Text))
    → indexed i xs ≡ false
    → indexed i (keep p xs) ≡ false
indexed-keep i p [] h = refl
indexed-keep i p (x ∷ xs) h = ground (arith, h, indexed-keep i p xs)

-- Rows of one id are dropped together where an id stands once.
abbrev pub once : List Row → Bool
once [] = true
once (r ∷ rows) = if has_id r.id rows then false else once rows

has_id-keep :
    (p : Row → Bool) (i : Text) (rows : List Row)
    → has_id i rows ≡ false
    → has_id i (keep p rows) ≡ false
has_id-keep p i [] h = refl
has_id-keep p i (r ∷ rows) h = ground (arith, h, has_id-keep p i rows)

once-keep : (p : Row → Bool) (rows : List Row) → once rows ≡ true → once (keep p rows) ≡ true
once-keep p [] h = refl
once-keep p (r ∷ rows) h = ground (arith, h, once-keep p rows, has_id-keep p r.id rows)

once-snoc :
    (r : Row) (rows : List Row)
    → once rows ≡ true
    → has_id r.id rows ≡ false
    → once (rows ++ r ∷ []) ≡ true
once-snoc r [] h k = refl
once-snoc r (x ∷ rows) h k = ground (
  arith,
  h,
  k,
  once-snoc r rows,
  has_id-append x.id rows (r ∷ []),
  list_beq_iff r.id x.id,
  list_beq_iff x.id r.id,
)

keep-other :
    (r : Row) (old rows : List Row)
    → has_id r.id rows ≡ false
    → keep (λ (f : Text × Text). not (has_id f.0 (r ∷ old))) (entries rows)
      ≡ keep (λ (f : Text × Text). not (has_id f.0 old)) (entries rows)
keep-other r old [] h = refl
keep-other r old (x ∷ rows) h =
    ground (arith, h, keep-other r old rows, list_beq_iff r.id x.id, list_beq_iff x.id r.id)

-- The index drops exactly the entries of the rows that go.
entries-keep :
    (p : Row → Bool) (rows : List Row)
    → once rows ≡ true
    → keep (λ (f : Text × Text). not (has_id f.0 (keep p rows))) (entries rows)
      ≡ entries (keep (λ (r : Row). not (p r)) rows)
entries-keep p [] h = refl
entries-keep p (r ∷ rows) h =
    let later : once rows ≡ true = ground (arith, h) in
    let alone : has_id r.id rows ≡ false = ground (arith, h) in
    let index =
      λ (old : List Row). keep (λ (f : Text × Text). not (has_id f.0 old)) (entries (r ∷ rows)) in
    elim (Bool-cases (p r)) [
      | inl e ↦
          let old : keep p (r ∷ rows) ≡ r ∷ keep p rows = rw e refl in
          let kept : keep (λ (x : Row). not (p x)) (r ∷ rows) ≡ keep (λ (x : Row). not (p x)) rows =
            rw e refl in
          ap index old
          ∙ rw (=?_refl r.id) (keep-other r (keep p rows) rows alone)
          ∙ entries-keep p rows later
          ∙ ap entries (sym kept)
      | inr e ↦
          let old : keep p (r ∷ rows) ≡ keep p rows = rw e refl in
          let kept : keep (λ (x : Row). not (p x)) (r ∷ rows)
              ≡ r ∷ keep (λ (x : Row). not (p x)) rows =
            rw e refl in
          ap index old
          ∙ rw (has_id-keep p r.id rows alone)
              (ap (λ (fs : List (Text × Text)). (r.id, r.bytes) ∷ fs) (entries-keep p rows later))
          ∙ ap entries (sym kept)
    ]

module _ (to_hex : Text → Text) where
  -- The index mirrors the rows.
  abbrev pub Mirrors : RawStore → Type 0
  Mirrors s = (s.fts ≡ entries s.rows) × (once s.rows ≡ true)

  -- No call fails between its two statements.
  abbrev pub mirrored : List (Call to_hex) → Bool
  mirrored [] = true
  mirrored (add (some at_mirror) now k bytes meta ∷ cs) = false
  mirrored (add (some at_meta) now k bytes meta ∷ cs) = mirrored cs
  mirrored (add (some at_lock) now k bytes meta ∷ cs) = mirrored cs
  mirrored (add (some at_insert) now k bytes meta ∷ cs) = mirrored cs
  mirrored (add none now k bytes meta ∷ cs) = mirrored cs
  mirrored (drop_old fine now days ∷ cs) = mirrored cs

  insert-Mirrors : (r : Row) (s : RawStore) → Mirrors s → Mirrors (insert to_hex true r s).1
  unfolding insert
  insert-Mirrors r s (e, o) = elim (Bool-cases (has_id r.id s.rows)) [
    | inl there ↦ rw (there, insert) (e, o)
    | inr new ↦
        rw (new, insert)
          (
            ap (λ (fs : List (Text × Text)). fs ++ (r.id, r.bytes) ∷ []) e
                ∙ sym (map-append (λ (x : Row). (x.id, x.bytes)) s.rows (r ∷ [])),
            once-snoc r s.rows o new,
          )
  ]

  prune-Mirrors : (now days : ℕ) (s : RawStore) → Mirrors s → Mirrors (prune true now days s).1
  unfolding prune
  prune-Mirrors now days s (e, o) =
      let p = λ (r : Row). is_old now days r.created_at in
      (
        ap (keep (λ (f : Text × Text). not (has_id f.0 (keep p s.rows)))) e
            ∙ entries-keep p s.rows o,
        once-keep (λ (r : Row). not (p r)) s.rows o,
      )

  pub act_all-Mirrors :
      (s : RawStore) (cs : List (Call to_hex))
      → mirrored cs ≡ true
      → Mirrors s
      → Mirrors (act_all to_hex s cs)
  unfolding act_all act ingest prune
  act_all-Mirrors s [] h m = m
  act_all-Mirrors s (add (some at_mirror) now k bytes meta ∷ cs) h m = absurd (ground (arith, h))
  act_all-Mirrors s (add (some at_meta) now k bytes meta ∷ cs) h m = act_all-Mirrors s cs h m
  act_all-Mirrors s (add (some at_lock) now k bytes meta ∷ cs) h m = act_all-Mirrors s cs h m
  act_all-Mirrors s (add (some at_insert) now k bytes meta ∷ cs) h m = act_all-Mirrors s cs h m
  act_all-Mirrors s (add none now k bytes meta ∷ cs) h m =
      let s' = (ingest to_hex none now k bytes meta s).1 in
      act_all-Mirrors s' cs h (insert-Mirrors _ s m)
  act_all-Mirrors s (drop_old false now days ∷ cs) h m = act_all-Mirrors s cs h m
  act_all-Mirrors s (drop_old true now days ∷ cs) h m =
      act_all-Mirrors (prune true now days s).1 cs h (prune-Mirrors now days s m)
