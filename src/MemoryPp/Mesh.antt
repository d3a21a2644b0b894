-- ===== src/MemoryPp/Mesh.antt =====
-- crates/memory-pp/src/mesh.rs: the mesh that asks a process to rank the candidates. The process and the parser of
-- its JSON are parameters; an error of any kind is `none`, and so were a cut that panics.
use entheai.Base.{
  keep, any, true, false, ◌||◌, ◌⊎◌, inl, inr, Bool-cases, arith, ◌∙◌, ℕ, ◌≡◌, refl, sym, subst,
  Bool, Option, none, some, List, [], ◌∷◌, map, All, ◌==◌, if◌then◌else◌, ◌=?◌, nat_eq, ◌>>=◌,
  arith, Bool-cases, Option-cases, inl, inr, ◌⊎◌,
}
use entheai.Base.Assoc.{lookup, insert, lookup-insert}
use entheai.Base.Text.{trim}
use entheai.Base.Paths.{list_eq, list_beq_iff}
use entheai.MemoryPp.Cap.{cap_bytes}
use entheai.MemoryPp.Raw.Tables.{Text, RawStore, RawContent, get, RawSpan}

-- What is read of a value: whether it has an `error`, and the array of its `ranked_span_ids`, with
-- `none` for an item that is no string.
pub record Response : Type 0 where
  pub error : Bool
  pub ranked_span_ids : Option (List (Option Text))

abbrev pub strings : List (Option Text) → List Text
strings [] = []
strings (none ∷ xs) = strings xs
strings (some s ∷ xs) = s ∷ strings xs

-- `str::lines`.
abbrev pub add_char : ℕ → List Text → List Text
add_char c [] = (c ∷ []) ∷ []
add_char c (l ∷ ls) = (c ∷ l) ∷ ls

abbrev pub without_cr : Text → Text
without_cr [] = []
without_cr (c ∷ []) = if c == 13 then [] else c ∷ []
without_cr (c ∷ d ∷ s) = c ∷ without_cr (d ∷ s)

abbrev pub split_lines : Text → List Text
split_lines [] = []
split_lines (c ∷ s) = let rest = split_lines s in if c == 10 then [] ∷ rest else add_char c rest

unfoldable pub lines : Text → List Text
lines s = map without_cr (split_lines s)

-- The spans by their ids: a later one replaces an earlier one.
abbrev pub by_id : List RawSpan → List (Text × RawSpan) → List (Text × RawSpan)
by_id [] m = m
by_id (s ∷ spans) m = by_id spans (insert s.id s m)

abbrev pub push_some : Option RawSpan → List RawSpan → List RawSpan
push_some none spans = spans
push_some (some s) spans = s ∷ spans

abbrev pub named_in : List (Text × RawSpan) → List Text → List RawSpan
named_in m [] = []
named_in m (i ∷ ids) = push_some (lookup i m) (named_in m ids)

unfoldable pub reorder_by_ids : List RawSpan → List Text → List RawSpan
reorder_by_ids spans ids = named_in (by_id spans []) ids

module _ (from_str : Text → Option Response) where
  unfoldable pub parse_lines : List Text → Option (List Text)
  parse_lines [] = none
  parse_lines (l ∷ ls) =
      let rest = parse_lines ls in
      elim (trim l) [
        | [] ↦ rest
        | c ∷ t ↦ elim (from_str (c ∷ t)) [
          | none ↦ rest
          | some v ↦
              if v.error
              then none
              else elim v.ranked_span_ids [ none ↦ rest | some xs ↦ some (strings xs) ]
        ]
      ]

  unfoldable pub parse_rerank_response : Text → Option (List Text)
  unfolding lines parse_lines
  parse_rerank_response stdout = parse_lines (lines stdout)

-- `get`, where the database answers.
abbrev pub fetch :
    {Value : Type 0}
    → (Text → Option Value)
    → (Text → Bool)
    → RawStore
    → Text
    → Option (Option (RawContent Value))
fetch from_str fails s i = if fails i then none else some (get from_str i s)

pub record SidecarMesh : Type 0 where
  pub program : Text
  pub preview_bytes : ℕ
  pub top_k : ℕ

module _ {Value : Type 0} (value_of : Text → Option Value) (fails : Text → Bool)
    (s : RawStore) where
  abbrev pub preview :
      ℕ → Text → Option (RawContent Value) → List (Text × Text) → Option (List (Text × Text))
  preview max i none rest = some rest
  preview max i (some c) rest = cap_bytes c.bytes max >>= λ t. some ((i, t) ∷ rest)

  unfoldable pub previews : ℕ → List RawSpan → Option (List (Text × Text))
  previews max [] = some []
  previews max (x ∷ spans) = do
    found ← fetch value_of fails s x.id
    rest ← previews max spans
    preview max x.id found rest

  abbrev pub some_text : List (Text × Text) → Option (List (Text × Text))
  some_text [] = none
  some_text (c ∷ cs) = some (c ∷ cs)

  -- `run` starts the process with a request for the query, the previews and `top_k`.
  unfoldable pub rerank :
      (Text → Option Response)
      → (Text → Text → List (Text × Text) → ℕ → Option Text)
      → SidecarMesh
      → Text
      → List RawSpan
      → Option (List RawSpan)
  unfolding previews parse_rerank_response reorder_by_ids
  rerank from_str run m query spans = if m.program =? [] then none else do
    all ← previews m.preview_bytes spans
    candidates ← some_text all
    stdout ← run m.program query candidates m.top_k
    ids ← parse_rerank_response from_str stdout
    some (reorder_by_ids spans ids)

-- A span of a list.
abbrev pub Among : List RawSpan → RawSpan → Type 0
Among [] x = ⊥
Among (y ∷ ys) x = (x ≡ y) ⊎ Among ys x

abbrev Holds : List RawSpan → List (Text × RawSpan) → Type 0
Holds spans m = (i : Text) (x : RawSpan) → lookup i m ≡ some x → Among spans x

insert-Holds :
    (all : List RawSpan) (y : RawSpan) (m : List (Text × RawSpan))
    → Among all y
    → Holds all m
    → Holds all (insert y.id y m)
insert-Holds all y m h k i x e = elim (Bool-cases (y.id =? i)) [
  | inl same ↦
      let own : x ≡ y = ground (arith, e, same, lookup-insert y.id i y m) in
      subst (Among all) (sym own) h
  | inr other ↦ k i x (ground (arith, e, other, lookup-insert y.id i y m))
]

by_id-Holds :
    (all spans : List RawSpan) (m : List (Text × RawSpan))
    → All (Among all) spans
    → Holds all m
    → Holds all (by_id spans m)
by_id-Holds all [] m h k = k
by_id-Holds all (y ∷ spans) m h k =
    by_id-Holds all spans (insert y.id y m) h.1 (λ i x e. insert-Holds all y m h.0 k i x e)

named_in-Among :
    (all : List RawSpan) (m : List (Text × RawSpan)) (ids : List Text)
    → Holds all m
    → All (Among all) (named_in m ids)
named_in-Among all m [] h = tt
named_in-Among all m (i ∷ ids) h = elim (Option-cases (lookup i m)) [
  | inl e ↦ rw e (named_in-Among all m ids h)
  | inr (x, e) ↦ rw e (h i x e, named_in-Among all m ids h)
]

All-weaken : (y : RawSpan) (all xs : List RawSpan) → All (Among all) xs → All (Among (y ∷ all)) xs
All-weaken y all [] h = tt
All-weaken y all (x ∷ xs) h = (inr h.0, All-weaken y all xs h.1)

Among-self : (all : List RawSpan) → All (Among all) all
Among-self [] = tt
Among-self (x ∷ all) = (inl refl, All-weaken x all all (Among-self all))

Holds-nil : (all : List RawSpan) → Holds all []
unfolding lookup
Holds-nil all i x e = absurd (ground (arith, e))

pub reorder_by_ids-Among :
    (spans : List RawSpan) (ids : List Text) → All (Among spans) (reorder_by_ids spans ids)
unfolding reorder_by_ids
reorder_by_ids-Among spans ids =
    named_in-Among spans (by_id spans []) ids
      (by_id-Holds spans spans [] (Among-self spans) (Holds-nil spans))

-- What the map has under an id is a span of that id, which it has where it had or a span of the list has.
abbrev Names : List (Text × RawSpan) → (Text → Bool) → Type 0
Names m P =
    (i : Text)
    → ((lookup i m ≡ none) × (P i ≡ false))
      ⊎ ((x : RawSpan) × (lookup i m ≡ some x) × (x.id ≡ i) × (P i ≡ true))

insert-Names :
    (y : RawSpan) (m : List (Text × RawSpan)) (P : Text → Bool)
    → Names m P
    → Names (insert y.id y m) (λ i. (y.id =? i) || P i)
insert-Names y m P h i = elim (Bool-cases (y.id =? i)) [
  | inl e ↦ inr (y, lookup-insert y.id i y m ∙ rw e refl, (list_beq_iff y.id i).0 e, rw e refl)
  | inr e ↦ elim (h i) [
    | inl (n, p) ↦ inl (lookup-insert y.id i y m ∙ rw e n, rw e p)
    | inr (x, n, same, p) ↦ inr (x, lookup-insert y.id i y m ∙ rw e n, same, rw e p)
  ]
]

by_id-Names :
    (spans : List RawSpan) (m : List (Text × RawSpan)) (P : Text → Bool)
    → Names m P
    → Names (by_id spans m) (λ i. any (λ (x : RawSpan). x.id =? i) spans || P i)
by_id-Names [] m P h i = h i
by_id-Names (y ∷ spans) m P h i =
    elim (by_id-Names spans (insert y.id y m) (λ k. (y.id =? k) || P k) (insert-Names y m P h) i) [
      | inl (n, p) ↦ inl (n, ground (arith, p))
      | inr (x, n, same, p) ↦ inr (x, n, same, ground (arith, p))
    ]

named_in-ids :
    (m : List (Text × RawSpan)) (P : Text → Bool) (ids : List Text)
    → Names m P
    → map (λ (x : RawSpan). x.id) (named_in m ids) ≡ keep P ids
named_in-ids m P [] h = refl
named_in-ids m P (i ∷ ids) h = elim (h i) [
  | inl (n, p) ↦ rw (n, p) (named_in-ids m P ids h)
  | inr (x, n, same, p) ↦ rw (n, p) (λ k. same k ∷ named_in-ids m P ids h k)
]

-- The spans that are given back have the ids of the ranking that are known, in its order.
pub reorder_by_ids-ids :
    (spans : List RawSpan) (ids : List Text)
    → map (λ (x : RawSpan). x.id) (reorder_by_ids spans ids)
      ≡ keep (λ i. any (λ (x : RawSpan). x.id =? i) spans) ids
unfolding reorder_by_ids lookup
reorder_by_ids-ids spans ids =
    named_in-ids (by_id spans []) (λ i. any (λ (x : RawSpan). x.id =? i) spans) ids
      (λ i. elim (by_id-Names spans [] (λ k. false) (λ k. inl (refl, refl)) i) [
        | inl (n, p) ↦ inl (n, ground (arith, p))
        | inr (x, n, same, p) ↦ inr (x, n, same, ground (arith, p))
      ])
