-- ===== src/MemoryPp/Processor.antt =====
-- crates/memory-pp/src/processor.rs: the prompt processor over the raw store, the mesh and the frozen nodes. Which
-- reads of the database fail, whether the deadline passes, and the compressor are arguments; the JSON that
-- goes with a span is given as a text.
pub mod Briefs
pub mod Ingested
pub mod Restored
use entheai.Base.{
  ℕ, ◌+◌, ◌/◌, ◌≡◌, String, Bool, true, false, not, ◌&&◌, ◌||◌, Option, none, some, List, [], ◌∷◌,
  ◌++◌, any, map, length, ltb, ◌==◌, if◌then◌else◌, ◌=?◌, nat_eq, ◌>>=◌,
}
use entheai.Base.Text.{codes, trim}
use entheai.Base.Paths.{list_eq}
use entheai.MemoryPp.Cap.{cap_bytes}
use entheai.MemoryPp.Raw.Tables.{
  Text, RawKind, transcript, tool_output, trajectory, external, RawStore, RawContent, get, Fault,
  ingest, recall, RawSpan,
}
use entheai.MemoryPp.Mesh.{fetch}
use entheai.MemoryPp.Frozen.{F32, Unicode, FrozenStore, reweight, set_rank}

abbrev pub is_blank : Text → Bool
is_blank s = elim (trim s) [ [] ↦ true | c ∷ t ↦ false ]

abbrev pub is_empty : {A : Type 0} → List A → Bool
is_empty [] = true
is_empty (x ∷ xs) = false

-- `Ok(Some(brief))`, `Ok(None)` and `Err`.
pub data Retrieved : Type 0 where
  brief : Text → Retrieved
  fall_back failed : Retrieved

module _ {Value : Type 0} (value_of : Text → Option Value) (fails : Text → Bool)
    (s : RawStore) where
  abbrev pub payload : Option (RawContent Value) → Text
  payload none = []
  payload (some c) = c.bytes ++ 10 ∷ []

  -- The payloads of the spans that are still there; `none` where a read fails.
  unfoldable pub findings : List RawSpan → Option Text
  findings [] = some []
  findings (x ∷ spans) = do
    found ← fetch value_of fails s x.id
    rest ← findings spans
    some (payload found ++ rest)

  module _ (compress : Text → Option Text) where
    abbrev pub distilled : Option Text → Retrieved
    distilled none = fall_back
    distilled (some b) = if is_blank b then fall_back else brief b

    abbrev pub compressed : Option Text → Retrieved
    compressed none = failed
    compressed (some found) = if is_empty found then fall_back else distilled (compress found)

    abbrev pub ranked : Option (List RawSpan) → Retrieved
    ranked none = fall_back
    ranked (some spans) = if is_empty spans then fall_back else compressed (findings spans)

    -- `rerank` is that of the mesh.
    abbrev pub recalled : (List RawSpan → Option (List RawSpan)) → Option (List RawSpan) → Retrieved
    recalled rerank none = failed
    recalled rerank (some candidates) =
        if is_empty candidates then fall_back else ranked (rerank candidates)

    module _ (is_alphanumeric : ℕ → Bool) (find_in : Text → List (Text × Text) → List Text) where
      unfoldable pub retrieve_inner :
          Bool → (List RawSpan → Option (List RawSpan)) → ℕ → Text → Retrieved
      unfolding findings
      retrieve_inner recall_fails rerank recall_k msg =
          recalled rerank
            (if recall_fails then none else some (recall is_alphanumeric find_in msg recall_k s))

      unfoldable pub retrieve :
          Bool → Bool → (List RawSpan → Option (List RawSpan)) → ℕ → Text → Retrieved
      unfolding retrieve_inner
      retrieve elapsed recall_fails rerank recall_k msg =
          if is_blank msg
          then fall_back
          else if elapsed
          then fall_back
          else retrieve_inner recall_fails rerank recall_k msg

  abbrev pub add_body : ℕ → Text → Option (RawContent Value) → Text × ℕ → Option (Text × ℕ)
  add_body max i none rest = some rest
  add_body max i (some c) (text, n) = cap_bytes c.bytes (max / 8) >>= λ body.
      some (codes "--- span " ++ (i ++ (codes " ---" ++ (10 ∷ (body ++ (10 ∷ text))))), n + 1)

  -- The brief of a checkpoint's spans, and how many of them are still there.
  unfoldable pub checkpoint_brief : ℕ → List Text → Option (Text × ℕ)
  checkpoint_brief max_ingest_bytes [] = some ([], 0)
  checkpoint_brief max_ingest_bytes (i ∷ ids) = do
    found ← fetch value_of fails s i
    rest ← checkpoint_brief max_ingest_bytes ids
    add_body max_ingest_bytes i found rest

module _ (to_hex : Text → Text) where
  -- A capped body, with the outcome of the call; a failure is only logged.
  abbrev pub store_body :
      Option Fault → ℕ → RawKind → Option Text → RawStore → Option Text → Option Text × RawStore
  store_body fault now k meta s none = (none, s)
  store_body fault now k meta s (some body) = ingest to_hex fault now k body meta s

  unfoldable pub ingest_tool : ℕ → Option Fault → ℕ → Option Text → Text → RawStore → RawStore
  ingest_tool max_ingest_bytes fault now meta result s =
      (store_body fault now tool_output meta s (cap_bytes result max_ingest_bytes)).1

  abbrev pub turn : Text × Text → Text
  turn (role, content) = role ++ (codes ": " ++ (content ++ 10 ∷ []))

  abbrev pub turns : List (Text × Text) → Text
  turns [] = []
  turns (m ∷ messages) = turn m ++ turns messages

  unfoldable pub transcript_text : List (Text × Text) → Text → Text
  transcript_text messages final_answer = turns messages ++ turn (codes "assistant", final_answer)

  unfoldable pub ingest_transcript :
      ℕ → Option Fault → ℕ → Option Text → List (Text × Text) → Text → RawStore → RawStore
  unfolding transcript_text
  ingest_transcript max_ingest_bytes fault now meta messages final_answer s =
      (store_body fault now transcript meta s
        (cap_bytes (transcript_text messages final_answer) max_ingest_bytes)).1

  -- `count`, or a default where the database gives an error.
  abbrev pub count_or : Bool → ℕ → RawStore → ℕ
  count_or true n s = length s.rows
  count_or false n s = n

  abbrev pub is_fresh : Bool → ℕ → Option Text × RawStore → Bool
  is_fresh counts before (none, s) = false
  is_fresh counts before (some i, s) = ltb before (count_or counts before s)

  -- Whether the span is new; the flags say whether the counts before and after succeed.
  unfoldable pub ingest_current :
      ℕ → Bool → Bool → Option Fault → ℕ → Option Text → Text → Text → RawStore → Bool × RawStore
  ingest_current max_ingest_bytes counts_before counts_after fault now meta title content s =
      let before = count_or counts_before 0 s in
      let stored =
        store_body fault now external meta s
          (cap_bytes (title ++ (10 ∷ content)) max_ingest_bytes) in
      (is_fresh counts_after before stored, stored.1)

module _ (u : Unicode) (f : F32) where
  open f use {Num}

  -- Each activation in turn: how many were restored, and the store.
  unfoldable pub restore : (ℕ → Bool) → List (Text × Num) → FrozenStore u f → ℕ × FrozenStore u f
  restore writes [] s = (0, s)
  restore writes (a ∷ activations) s =
      let set = set_rank u f (writes (length activations)) a.0 a.1 s in
      let rest = restore writes activations set.1 in
      ((if set.0 then rest.0 + 1 else rest.0), rest.1)

  -- The numbers of the header, and the brief.
  pub record Thawed : Type 0 where
    pub hydrated : ℕ
    pub spans : ℕ
    pub restored : ℕ
    pub activations : ℕ
    pub text : Text

  abbrev pub headed : ℕ → ℕ → ℕ → Option (Text × ℕ) → Option Thawed
  headed spans restored activations none = none
  headed spans restored activations (some (text, hydrated)) = some (record {
    hydrated = hydrated;
    spans = spans;
    restored = restored;
    activations = activations;
    text = text;
  })

  module _ {Value : Type 0} (value_of : Text → Option Value) (fails : Text → Bool) where
    unfoldable pub thaw :
        ℕ
        → (ℕ → Bool)
        → List Text
        → List (Text × Num)
        → RawStore
        → FrozenStore u f
        → Option Thawed × FrozenStore u f
    unfolding restore
    thaw max_ingest_bytes writes raw_span_ids activations raw s =
        let (restored, s') = restore writes activations s in
        (
          headed (length raw_span_ids) restored (length activations)
              (checkpoint_brief value_of fails raw max_ingest_bytes raw_span_ids),
          s',
        )

  module _ (to_hex : Text → Text) where
    -- `FAIL_RANK_DELTA` and `SUCCESS_RANK_DELTA` are the deltas.
    abbrev pub blame : Bool → Num → Text → Option Text → FrozenStore u f → FrozenStore u f
    blame writes delta task none s = s
    blame writes delta task (some body) s = (reweight u f writes (task ++ (10 ∷ body)) delta s).1

    unfoldable pub ingest_failure_trajectory :
        ℕ
        → Option Fault
        → Bool
        → ℕ
        → Option Text
        → Num
        → Text
        → Text
        → RawStore × FrozenStore u f
        → RawStore × FrozenStore u f
    ingest_failure_trajectory max_ingest_bytes fault writes now meta delta task trace (raw, s) =
        let body = cap_bytes trace max_ingest_bytes in
        ((store_body to_hex fault now trajectory meta raw body).1, blame writes delta task body s)

    unfoldable pub record_verified_success :
        Bool → Num → Text → FrozenStore u f → List Text × FrozenStore u f
    record_verified_success writes delta task_text s = reweight u f writes task_text delta s
