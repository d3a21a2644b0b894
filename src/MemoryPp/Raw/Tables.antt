-- ===== src/MemoryPp/Raw/Tables.antt =====
-- crates/memory-pp/src/raw_store.rs: the tables `raw` and `raw_fts`, and the calls of `RawStore`.
use entheai.Base.{
  ℕ, ◌+◌, ◌-◌, ◌*◌, ◌%◌, ◌^◌, Bool, true, false, not, ◌&&◌, Option, none, some, List, [], ◌∷◌, ◌++◌,
  any, keep, length, take, ltb, ◌==◌, if◌then◌else◌, ◌=?◌, nat_eq, ◌>>=◌,
}
use entheai.Base.Text.{codes}
use entheai.Base.Paths.{list_eq}

abbrev pub Text : Type 0
Text = List ℕ

pub data RawKind : Type 0 where
  transcript tool_output trajectory external : RawKind

abbrev pub as_str : RawKind → Text
as_str transcript = codes "transcript"
as_str tool_output = codes "tool_output"
as_str trajectory = codes "trajectory"
as_str external = codes "external"

abbrev pub parse : Text → Option RawKind
parse s =
    if s =? codes "transcript"
    then some transcript
    else if s =? codes "tool_output"
    then some tool_output
    else if s =? codes "trajectory"
    then some trajectory
    else if s =? codes "external"
    then some external
    else none

-- A row of `raw`; the kind and the JSON are stored as texts.
pub record Row : Type 0 where
  pub id : Text
  pub kind : Text
  pub bytes : Text
  pub meta : Option Text
  pub created_at : ℕ

pub record RawStore : Type 0 where
  pub rows : List Row
  pub fts : List (Text × Text)

abbrev pub open_memory : RawStore
open_memory = record { rows = []; fts = [] }

-- The step at which a call that adds a span fails.
pub data Fault : Type 0 where
  at_meta at_lock at_insert at_mirror : Fault

abbrev pub has_id : Text → List Row → Bool
has_id i rows = any (λ (r : Row). r.id =? i) rows

abbrev pub row_of : Text → List Row → Option Row
row_of i [] = none
row_of i (r ∷ rows) = if r.id =? i then some r else row_of i rows

pub record RawContent (Value : Type 0) : Type 0 where
  pub id : Text
  pub kind : RawKind
  pub bytes : Text
  pub meta : Option Value
  pub created_at : ℕ

abbrev pub or_tool_output : Option RawKind → RawKind
or_tool_output none = tool_output
or_tool_output (some k) = k

-- `created_at < ?1` where the cutoff is `now_ms() - (retention_days as i64) * 86_400_000`, in
-- 64-bit two's complement.
abbrev pub day_ms : ℕ
day_ms = 86400000

abbrev pub cutoff : ℕ → ℕ → ℕ
cutoff now retention_days = (now + 2 ^ 64 - (retention_days * day_ms) % 2 ^ 64) % 2 ^ 64

unfoldable pub is_old : ℕ → ℕ → ℕ → Bool
is_old now retention_days created_at =
    let c = cutoff now retention_days in ltb c (2 ^ 63) && ltb created_at c

-- Both deletions are one transaction.
unfoldable pub prune : Bool → ℕ → ℕ → RawStore → Option ℕ × RawStore
unfolding is_old
prune false now retention_days s = (none, s)
prune true now retention_days s =
    let old = keep (λ (r : Row). is_old now retention_days r.created_at) s.rows in
    (
      some (length old),
      record {
        rows = keep (λ (r : Row). not (is_old now retention_days r.created_at)) s.rows;
        fts = keep (λ (f : Text × Text). not (has_id f.0 old)) s.fts;
      },
    )

module _ (to_hex : Text → Text) where
  -- The content id.
  unfoldable pub id_of : RawKind → Text → Text
  id_of k bytes = codes "blake3:" ++ to_hex (as_str k ++ 0 ∷ bytes)

  -- `INSERT OR IGNORE`, and the mirror in the index where a row was added; each is a statement
  -- of its own.
  unfoldable pub insert : Bool → Row → RawStore → Option Text × RawStore
  insert mirrors r s =
      if has_id r.id s.rows
      then (some r.id, s)
      else if mirrors
      then (some r.id, record { rows = s.rows ++ r ∷ []; fts = s.fts ++ (r.id, r.bytes) ∷ [] })
      else (none, record s { rows = s.rows ++ r ∷ [] })

  unfoldable pub ingest :
      Option Fault → ℕ → RawKind → Text → Option Text → RawStore → Option Text × RawStore
  unfolding id_of insert
  ingest (some at_meta) now k bytes meta s = (none, s)
  ingest (some at_lock) now k bytes meta s = (none, s)
  ingest (some at_insert) now k bytes meta s = (none, s)
  ingest (some at_mirror) now k bytes meta s =
      insert false
        (record {
          id = id_of k bytes;
          kind = as_str k;
          bytes = bytes;
          meta = meta;
          created_at = now;
        })
        s
  ingest none now k bytes meta s =
      insert true
        (record {
          id = id_of k bytes;
          kind = as_str k;
          bytes = bytes;
          meta = meta;
          created_at = now;
        })
        s

  -- The calls on one store, one after another.
  pub data Call : Type 0 where
    add : Option Fault → ℕ → RawKind → Text → Option Text → Call
    drop_old : Bool → ℕ → ℕ → Call

  unfoldable pub act : RawStore → Call → RawStore
  unfolding ingest prune
  act s (add fault now k bytes meta) = (ingest fault now k bytes meta s).1
  act s (drop_old fine now days) = (prune fine now days s).1

  unfoldable pub act_all : RawStore → List Call → RawStore
  unfolding act
  act_all s [] = s
  act_all s (c ∷ cs) = act_all (act s c) cs

module _ {Value : Type 0} (from_str : Text → Option Value) where
  abbrev pub content : Row → RawContent Value
  content r = record {
    id = r.id;
    kind = or_tool_output (parse r.kind);
    bytes = r.bytes;
    meta = r.meta >>= from_str;
    created_at = r.created_at;
  }

  -- `get`, where the database answers.
  unfoldable pub get : Text → RawStore → Option (RawContent Value)
  get i s = row_of i s.rows >>= λ r. some (content r)

-- A recall hit, without its score.
pub record RawSpan : Type 0 where
  pub id : Text
  pub kind : RawKind
  pub created_at : ℕ

module _ (is_alphanumeric : ℕ → Bool) where
  -- The runs of alphanumeric code points.
  abbrev pub grow : ℕ → List Text → List Text
  grow c [] = (c ∷ []) ∷ []
  grow c (w ∷ ws) = (c ∷ w) ∷ ws

  -- `split`, every piece, empty ones too.
  unfoldable pub pieces : Text → List Text
  pieces [] = [] ∷ []
  pieces (c ∷ s) = let rest = pieces s in if is_alphanumeric c then grow c rest else [] ∷ rest

  abbrev pub not_empty : Text → Bool
  not_empty [] = false
  not_empty (c ∷ s) = true

  abbrev pub doubled : Text → Text
  doubled [] = []
  doubled (c ∷ s) = let rest = doubled s in if c == 0x22 then 0x22 ∷ 0x22 ∷ rest else c ∷ rest

  abbrev pub quoted : Text → Text
  quoted t = 0x22 ∷ (doubled t ++ 0x22 ∷ [])

  abbrev pub join_or : List Text → Text
  join_or [] = []
  join_or (t ∷ []) = t
  join_or (t ∷ u ∷ ts) = t ++ (codes " OR " ++ join_or (u ∷ ts))

  abbrev pub all_quoted : List Text → List Text
  all_quoted [] = []
  all_quoted (t ∷ ts) = quoted t ∷ all_quoted ts

  abbrev pub joined : List Text → Option Text
  joined [] = none
  joined (t ∷ ts) = some (join_or (t ∷ ts))

  unfoldable pub sanitize_fts5_query : Text → Option Text
  unfolding pieces
  sanitize_fts5_query query = joined (all_quoted (keep not_empty (pieces query)))

  -- What the index finds for an expression, the best first: ids of it.
  module _ (find_in : Text → List (Text × Text) → List Text) where
    abbrev pub span_if : Option Row → List RawSpan → List RawSpan
    span_if none rest = rest
    span_if (some r) rest = elim (parse r.kind) [
      | none ↦ rest
      | some k ↦ record { id = r.id; kind = k; created_at = r.created_at } ∷ rest
    ]

    -- `JOIN raw`, `LIMIT`, and the kinds that are known.
    abbrev pub joined_ids : List Text → List Row → List Text
    joined_ids ids rows = keep (λ i. has_id i rows) ids

    abbrev pub spans : List Text → List Row → List RawSpan
    spans [] rows = []
    spans (i ∷ ids) rows = span_if (row_of i rows) (spans ids rows)

    abbrev pub found : Option Text → ℕ → RawStore → List RawSpan
    found none k s = []
    found (some expr) k s = spans (take k (joined_ids (find_in expr s.fts) s.rows)) s.rows

    unfoldable pub recall : Text → ℕ → RawStore → List RawSpan
    unfolding sanitize_fts5_query
    recall query k s = found (sanitize_fts5_query query) k s
