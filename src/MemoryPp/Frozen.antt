-- ===== src/MemoryPp/Frozen.antt =====
-- crates/memory-pp/src/frozen.rs: the frozen nodes that wake on the words of a prompt, and the ranks that they
-- gain and lose; `lexical_score` of crates/memory-pp/src/mesh.rs. A lock is never poisoned. The machine's `f32`,
-- the tables of Unicode and the writing of the overlay's file are parameters; a file
-- holds the ranks that were last written.
pub mod Woken
pub mod Ranked
use entheai.Base.{
  ℕ, ◌+◌, ◌≡◌, String, Bool, true, false, not, ◌&&◌, ◌||◌, Option, none, some, List, [], ◌∷◌, ◌++◌,
  map, any, keep, take, count_if, ◌==◌, if◌then◌else◌, ◌=?◌, nat_eq,
}
use entheai.Base.Assoc.{lookup, insert, is_some}
use entheai.Base.Sets.{member, discard}
use entheai.Base.Text.{starts_with, contains}
use entheai.Base.Paths.{list_eq}
use entheai.MemoryPp.Raw.Tables.{Text, pieces, not_empty}

pub data Ordering : Type 0 where
  less equal greater : Ordering

-- `unwrap_or(Ordering::Equal)`, and whether that is `Less`.
abbrev pub or_equal : Option Ordering → Ordering
or_equal none = equal
or_equal (some o) = o

abbrev pub is_less : Ordering → Bool
is_less less = true
is_less _ = false

-- The numbers of the ranks and scores, of which some may be NaN: `quarter` is `0.25 *`, `clamp` is
-- `clamp(0.0, RANK_MAX)` and `in_range` is `(0.0..=RANK_MAX).contains`. A number that compares with
-- itself is not NaN.
pub record F32 : Type 1 where
  pub Num : Type 0
  pub add : Num → Num → Num
  pub quarter : Num → Num
  pub of_count : ℕ → Num
  pub clamp : Num → Num
  pub in_range : Num → Bool
  pub partial_cmp : Num → Num → Option Ordering
  pub clamp-in_range : (x : Num) → is_some (partial_cmp x x) ≡ true → in_range (clamp x) ≡ true
  pub clamp-nan :
      (x : Num)
      → is_some (partial_cmp x x) ≡ false
      → is_some (partial_cmp (clamp x) (clamp x)) ≡ false
  pub less_asym :
      (a b : Num)
      → is_less (or_equal (partial_cmp a b)) ≡ true
      → is_less (or_equal (partial_cmp b a)) ≡ false
  pub not_less_trans :
      (a b c : Num)
      → is_some (partial_cmp b b) ≡ true
      → is_less (or_equal (partial_cmp a b)) ≡ false
      → is_less (or_equal (partial_cmp b c)) ≡ false
      → is_less (or_equal (partial_cmp a c)) ≡ false

pub record Unicode : Type 0 where
  pub is_alphanumeric : ℕ → Bool
  pub to_lowercase : Text → Text

-- `strip_suffix('*')`.
abbrev pub strip_star : Text → Option Text
strip_star [] = none
strip_star (c ∷ []) = if c == b'*' then some [] else none
strip_star (c ∷ d ∷ s) = elim (strip_star (d ∷ s)) [ none ↦ none | some t ↦ some (c ∷ t) ]

module _ (u : Unicode) where
  open u use {is_alphanumeric, to_lowercase}

  abbrev pub hit_by : Text → Text → Option Text → Bool
  hit_by prompt_lc trigger_lc (some prefix) =
      any (λ w. starts_with w prefix) (pieces is_alphanumeric prompt_lc)
  hit_by prompt_lc trigger_lc none = contains prompt_lc trigger_lc

  unfoldable pub trigger_hit : Text → Text → Bool
  trigger_hit prompt_lc trigger_lc = hit_by prompt_lc trigger_lc (strip_star trigger_lc)

  -- A `HashSet` of the terms.
  abbrev pub collect : List Text → List Text
  collect [] = []
  collect (t ∷ ts) = t ∷ discard t (collect ts)

  unfoldable pub query_terms : Text → List Text
  query_terms query =
      collect (map to_lowercase (keep (not_empty is_alphanumeric) (pieces is_alphanumeric query)))

  unfoldable pub lexical_count : Text → Text → ℕ
  unfolding query_terms
  lexical_count query text =
      let text_lc = to_lowercase text in
      count_if (λ (t : Text). contains text_lc t) (query_terms query)

  module _ (f : F32) where
    open f use {Num, add, quarter, of_count, clamp, in_range, partial_cmp}

    pub record FrozenNode : Type 0 where
      pub name : Text
      pub domain : Text
      pub triggers : List Text
      pub mcp : Option Text
      pub rank : Num
      pub knowledge : Text

    -- `overlay_path` is whether there is one, and what its file holds.
    pub record FrozenStore : Type 0 where
      pub nodes : List FrozenNode
      pub ranks : List (Text × Num)
      pub overlay_path : Option (List (Text × Num))

    unfoldable pub lexical_score : Text → Text → Num
    unfolding lexical_count
    lexical_score query text = of_count (lexical_count query text)

    unfoldable pub from_nodes : List FrozenNode → FrozenStore
    from_nodes nodes = record { nodes = nodes; ranks = []; overlay_path = none }

    abbrev pub knows : Text → List FrozenNode → Bool
    knows name nodes = any (λ (n : FrozenNode). n.name =? name) nodes

    abbrev pub or_else : Option (List (Text × Num)) → List (Text × Num) → List (Text × Num)
    or_else none old = old
    or_else (some new) old = new

    -- The ranks that the file holds, where it is read and is the JSON of ranks.
    unfoldable pub with_overlay : FrozenStore → Option (List (Text × Num)) → FrozenStore
    with_overlay s none = record s { overlay_path = some [] }
    with_overlay s (some file) = record s {
      ranks = keep (λ (r : Text × Num). knows r.0 s.nodes && in_range r.1) file;
      overlay_path = some file;
    }

    abbrev pub rank_or : Num → Option Num → Num
    rank_or prior none = prior
    rank_or prior (some r) = r

    unfoldable pub effective_rank : FrozenStore → FrozenNode → Num
    effective_rank s n = rank_or n.rank (lookup n.name s.ranks)

    -- The file is written where there is one and the write succeeds.
    abbrev pub persist :
        Bool → List (Text × Num) → Option (List (Text × Num)) → Option (List (Text × Num))
    persist true ranks (some file) = some ranks
    persist _ ranks path = path

    unfoldable pub is_hit : Text → FrozenNode → Bool
    unfolding trigger_hit
    is_hit text_lc n = any (λ t. trigger_hit text_lc (to_lowercase t)) n.triggers

    abbrev pub insert_all : List (Text × Num) → List (Text × Num) → List (Text × Num)
    insert_all [] ranks = ranks
    insert_all (h ∷ hits) ranks = insert_all hits (insert h.0 h.1 ranks)

    unfoldable pub hits_of : FrozenStore → Text → Num → List (Text × Num)
    unfolding effective_rank
    hits_of s text delta =
        map (λ (n : FrozenNode). (n.name, clamp (add (effective_rank s n) delta)))
          (keep (is_hit (to_lowercase text)) s.nodes)

    -- Nothing is written where no node is hit.
    unfoldable pub apply_hits : Bool → List (Text × Num) → FrozenStore → FrozenStore
    apply_hits writes [] s = s
    apply_hits writes (h ∷ hits) s =
        let ranks = insert_all (h ∷ hits) s.ranks in
        record s { ranks = ranks; overlay_path = persist writes ranks s.overlay_path }

    unfoldable pub reweight : Bool → Text → Num → FrozenStore → List Text × FrozenStore
    unfolding hits_of apply_hits
    reweight writes text delta s =
        let hits = hits_of s text delta in
        (map (λ (h : Text × Num). h.0) hits, apply_hits writes hits s)

    unfoldable pub set_rank : Bool → Text → Num → FrozenStore → Bool × FrozenStore
    set_rank writes name rank s =
        if knows name s.nodes
        then (
          true,
          record s {
            ranks = insert name (clamp rank) s.ranks;
            overlay_path = persist writes (insert name (clamp rank) s.ranks) s.overlay_path;
          },
        )
        else (false, s)

    -- Whether `sb.partial_cmp(sa).unwrap_or(Equal)` puts the second score before the first.
    abbrev pub scores_less : Num → Num → Bool
    scores_less a b = is_less (or_equal (partial_cmp a b))

    abbrev pub is_number : Num → Bool
    is_number a = is_some (partial_cmp a a)

    -- The stable sort, the highest score first; the order in which the library sorts is specified only
    -- where no score is NaN.
    unfoldable pub place : FrozenNode × Num → List (FrozenNode × Num) → List (FrozenNode × Num)
    place c [] = c ∷ []
    place c (d ∷ ds) = let rest = place c ds in if scores_less c.1 d.1 then d ∷ rest else c ∷ d ∷ ds

    unfoldable pub sorted : List (FrozenNode × Num) → List (FrozenNode × Num)
    unfolding place
    sorted [] = []
    sorted (c ∷ cs) = place c (sorted cs)

    unfoldable pub score : FrozenStore → Text → FrozenNode → Num
    unfolding lexical_score effective_rank
    score s prompt n = add (lexical_score prompt n.knowledge) (quarter (effective_rank s n))

    unfoldable pub candidates : FrozenStore → Text → List (FrozenNode × Num)
    unfolding is_hit score
    candidates s prompt =
        map (λ (n : FrozenNode). (n, score s prompt n))
          (keep (is_hit (to_lowercase prompt)) s.nodes)

    unfoldable pub wake : FrozenStore → Text → ℕ → List FrozenNode
    unfolding candidates sorted
    wake s prompt top_k =
        map (λ (c : FrozenNode × Num). c.0) (take top_k (sorted (candidates s prompt)))
