-- ===== src/Examples/MemoryCases.antt =====
-- The raw store, the frozen nodes and the processor at concrete inputs (crates/memory-pp/src).
use entheai.Base.{
  any, if◌then◌else◌, nat_eq, ◌≡◌, ◌⊎◌, refl, ℕ, ◌+◌, ◌/◌, Bool, true, false, Option, some, none,
  List, [], ◌∷◌, ◌++◌, keep, length, min, ltb, leb, count_if, map, arith, All,
}
use entheai.Base.Assoc
use entheai.Base.Assoc.{lookup, is_some}
use entheai.Base.Paths.{list_eq}
use entheai.MemoryPp.Cap.{cap_bytes, len_utf8}
use entheai.Base.Text.{codes, trim, starts_with, contains}
use entheai.MemoryPp.Raw.Tables.{
  pieces, act, insert, prune, row_of, Text, tool_output, transcript, RawStore, RawSpan, RawContent,
  open_memory, has_id, id_of, ingest, act_all, Call, add, drop_old, at_mirror, get, recall,
}
use entheai.MemoryPp.Raw.Content.{get-ingest}
use entheai.MemoryPp.Raw.Recalled.{FindsEntries, named, recall-lost}
use entheai.MemoryPp.Frozen.{
  lexical_score, lexical_count, trigger_hit, query_terms, Ordering, less, equal, greater, or_equal,
  is_less, is_number, F32, Unicode, FrozenNode, FrozenStore, from_nodes, is_hit, score, wake, knows,
  rank_or, effective_rank,
}
use entheai.MemoryPp.Frozen.Woken.{Perm, Descending, wake-best}
use entheai.MemoryPp.Mesh.{Response, SidecarMesh, rerank}
use entheai.MemoryPp.Processor.{brief, retrieve, findings, is_blank, thaw}
use entheai.MemoryPp.Processor.Briefs.{Reranks, lines_of, retrieve-brief}
use entheai.MemoryPp.Processor.Restored.{sections, saved, thaw-restores}

-- A digest without collisions.
abbrev to_hex : Text → Text
to_hex s = s

to_hex_injective : (s t : Text) → to_hex s ≡ to_hex t → s ≡ t
to_hex_injective s t e = e

abbrev as_value : Text → Option Text
as_value t = some t

abbrev earlier : List (Call to_hex)
earlier = add none 1 tool_output (codes "ls") none ∷ drop_old true 5 90 ∷ []

abbrev later : List (Call to_hex)
later =
    add none 7 tool_output (codes "pwd") none
    ∷ add (some at_mirror) 8 transcript (codes "hi") none
    ∷ []

abbrev hi_id : Text
hi_id = id_of to_hex transcript (codes "hi")

hi-ingested :
    (ingest to_hex none 6 transcript (codes "hi") none (act_all to_hex open_memory earlier)).0
    ≡ some hi_id
unfolding act_all act ingest insert prune
hi-ingested = refl

get-ingest_example :
    (c : RawContent Text) × (get as_value hi_id (
        act_all to_hex
          (ingest to_hex none 6 transcript (codes "hi") none (act_all to_hex open_memory earlier)).1
          later)
      ≡ some c)
    × (c.id ≡ hi_id)
    × (c.kind ≡ transcript)
    × (c.bytes ≡ codes "hi")
get-ingest_example =
    get-ingest to_hex as_value earlier later none 6 transcript (codes "hi") none hi_id
      to_hex_injective hi-ingested refl

abbrev is_word : ℕ → Bool
is_word c = ltb 32 c

-- An index that finds all that it has.
abbrev all_ids : Text → List (Text × Text) → List Text
all_ids expr fts = map (λ (f : Text × Text). f.0) fts

all_ids-FindsEntries : FindsEntries is_word all_ids
all_ids-FindsEntries expr [] i h = h
all_ids-FindsEntries expr (f ∷ fts) i h = ground (arith, h, all_ids-FindsEntries expr fts i)

hi-new : has_id hi_id (act_all to_hex open_memory earlier).rows ≡ false
unfolding act_all act ingest insert prune
hi-new = refl

recall-lost_example :
    ((ingest to_hex none 9 transcript (codes "hi") none (
        act_all to_hex
          (ingest to_hex
            (some at_mirror)
            6
            transcript
            (codes "hi")
            none
            (act_all to_hex open_memory earlier)).1
          later)).0
      ≡ some hi_id)
    × (named is_word all_ids hi_id (
          recall is_word all_ids (codes "say hi") 5 (
            act_all to_hex
              (ingest to_hex
                (some at_mirror)
                6
                transcript
                (codes "hi")
                none
                (act_all to_hex open_memory earlier)).1
              later))
        ≡ false)
recall-lost_example =
    recall-lost is_word all_ids to_hex earlier later 6 9 transcript (codes "hi") none
      (codes "say hi") 5 all_ids-FindsEntries hi-new refl

-- The order of numbers, none of which is NaN.
abbrev compared : ℕ → ℕ → Option Ordering
compared a b = if ltb a b then some less else if ltb b a then some greater else some equal

held : (a : ℕ) → is_some (compared a a) ≡ true → leb (min 8 a) 8 ≡ true
held a h = ground arith

never_nan :
    (a : ℕ) → is_some (compared a a) ≡ false → is_some (compared (min 8 a) (min 8 a)) ≡ false
never_nan a h = ground (arith, h)

one_way :
    (a b : ℕ) → is_less (or_equal (compared a b)) ≡ true → is_less (or_equal (compared b a)) ≡ false
one_way a b h = ground (arith, h)

onward :
    (a b c : ℕ)
    → is_some (compared b b) ≡ true
    → is_less (or_equal (compared a b)) ≡ false
    → is_less (or_equal (compared b c)) ≡ false
    → is_less (or_equal (compared a c)) ≡ false
onward a b c n h k = ground (arith, h, k)

-- Numbers for the ranks, in quarters.
abbrev quarters : F32
quarters = record {
  Num = ℕ;
  add = λ a b. a + b;
  quarter = λ a. a / 4;
  of_count = λ n. n + (n + (n + n));
  clamp = λ a. min 8 a;
  in_range = λ a. leb a 8;
  partial_cmp = compared;
  clamp-in_range = held;
  clamp-nan = never_nan;
  less_asym = one_way;
  not_less_trans = onward;
}

abbrev ascii : Unicode
ascii = record { is_alphanumeric = is_word; to_lowercase = λ s. s }

abbrev node : Text → Text → ℕ → Text → FrozenNode ascii quarters
node name trigger rank knowledge = record {
  name = name;
  domain = [];
  triggers = trigger ∷ [];
  mcp = none;
  rank = rank;
  knowledge = knowledge;
}

abbrev brain : FrozenStore ascii quarters
brain = from_nodes ascii quarters (
    node (codes "rust") (codes "cargo*") 4 (codes "build with cargo")
    ∷ node (codes "git") (codes "branch") 8 (codes "merge it")
    ∷ node (codes "nix") (codes "build") 4 (codes "nix build")
    ∷ [])

hit-numbers :
    All
      (λ (n : FrozenNode ascii quarters).
        is_number ascii quarters (score ascii quarters brain (codes "build with cargo") n) ≡ true)
      (keep (is_hit ascii quarters (codes "build with cargo")) brain.nodes)
unfolding is_hit score from_nodes lexical_score effective_rank pieces starts_with contains
    lexical_count trigger_hit query_terms lookup
hit-numbers = (refl, (refl, tt))

wake-best_example :
    (rest : List (FrozenNode ascii quarters)) × Perm
      (wake ascii quarters brain (codes "build with cargo") 1 ++ rest)
      (keep (is_hit ascii quarters (codes "build with cargo")) brain.nodes)
    × Descending ascii quarters
        (score ascii quarters brain (codes "build with cargo"))
        (wake ascii quarters brain (codes "build with cargo") 1 ++ rest)
    × (length (wake ascii quarters brain (codes "build with cargo") 1)
        ≡ min 1 (length (keep (is_hit ascii quarters (codes "build with cargo")) brain.nodes)))
wake-best_example = wake-best ascii quarters brain (codes "build with cargo") 1 hit-numbers

abbrev a_store : RawStore
a_store = act_all to_hex open_memory (add none 6 transcript (codes "hi") none ∷ later)

-- A sidecar that answers with the id of the first candidate, on a line of its own.
abbrev echo : Text → Text → List (Text × Text) → ℕ → Option Text
echo program query [] top_k = none
echo program query (c ∷ cs) top_k = some (10 ∷ (c.0 ++ 10 ∷ []))

abbrev as_response : Text → Option Response
as_response t = some (record { error = false; ranked_span_ids = some (some t ∷ none ∷ []) })

abbrev sidecar : SidecarMesh
sidecar = record { program = codes "rank"; preview_bytes = 4; top_k = 2 }

abbrev no_failure : Text → Bool
no_failure i = false

abbrev squeezed : Text → Option Text
squeezed t = some t

abbrev hi_line : Text
hi_line = codes "hi" ++ 10 ∷ []

hi-retrieved :
    retrieve as_value no_failure a_store squeezed is_word all_ids false false
      (rerank as_value no_failure a_store as_response echo sidecar (codes "say hi"))
      5
      (codes "say hi")
    ≡ brief hi_line
unfolding retrieve rerank recall findings act_all act ingest insert trim get cap_bytes len_utf8
    lookup Assoc.insert
hi-retrieved = refl

retrieve-brief_example :
    (spans : List RawSpan) × (text : Text) × Reranks as_value no_failure a_store as_response echo
      sidecar
      (codes "say hi")
      (recall is_word all_ids (codes "say hi") 5 a_store)
      spans
    × (text ≡ lines_of as_value no_failure a_store as_response echo sidecar spans)
    × (squeezed text ≡ some hi_line)
    × (is_blank hi_line ≡ false)
    × (is_blank (codes "say hi") ≡ false)
    × (false ≡ false)
    × (false ≡ false)
retrieve-brief_example =
    retrieve-brief as_value no_failure a_store as_response echo sidecar squeezed is_word all_ids
      false false 5 (codes "say hi") hi_line hi-retrieved

abbrev remembered : List (Text × ℕ)
remembered = (codes "git", 3) ∷ (codes "gone", 5) ∷ (codes "git", 9) ∷ []

thaw-restores_example :
    let thawed =
      thaw ascii quarters as_value no_failure 64
        (λ _. true)
        (hi_id ∷ codes "pruned" ∷ [])
        remembered
        a_store
        brain in
    ((n : FrozenNode ascii quarters)
      → knows ascii quarters n.name brain.nodes ≡ true
      → effective_rank ascii quarters thawed.1 n
        ≡ rank_or ascii quarters n.rank
            (saved ascii quarters n.name remembered (lookup n.name brain.ranks)))
    × (((any no_failure (hi_id ∷ codes "pruned" ∷ []) ≡ true) × (thawed.0 ≡ none))
        ⊎ (thawed.0
            ≡ some (record {
              hydrated =
                  count_if (λ i. is_some (row_of i a_store.rows)) (hi_id ∷ codes "pruned" ∷ []);
              spans = 2;
              restored =
                  count_if (λ (a : Text × ℕ). knows ascii quarters a.0 brain.nodes) remembered;
              activations = 3;
              text = sections 64 a_store (hi_id ∷ codes "pruned" ∷ []);
            })))
thaw-restores_example =
    thaw-restores ascii quarters as_value no_failure 64 (λ _. true) (hi_id ∷ codes "pruned" ∷ [])
      remembered a_store brain
