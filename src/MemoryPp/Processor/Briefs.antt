-- ===== src/MemoryPp/Processor/Briefs.antt =====
-- crates/memory-pp/src/processor.rs: what a brief for a prompt comes from, and when there is an error.
use mathlib.Core.List.{append_assoc}
use entheai.Base.{
  map, keep, any, ◌++◌, ℕ, ◌≡◌, ◌⊎◌, inl, inr, refl, sym, ap, ◌∙◌, subst, Bool, true, false, Option,
  none, some, List, [], ◌∷◌, if◌then◌else◌, arith, Bool-cases, Option-cases, ◌>>=◌, All, ◌=?◌,
  nat_eq,
}
use entheai.Base.Paths.{list_eq}
use entheai.MemoryPp.Raw.Tables.{Text, RawStore, RawSpan, recall, get, row_of}
use entheai.MemoryPp.Mesh.{
  Response, SidecarMesh, rerank, previews, some_text, parse_rerank_response, reorder_by_ids,
  reorder_by_ids-ids, Among, reorder_by_ids-Among,
}
use entheai.MemoryPp.Processor.{
  is_blank, is_empty, brief, failed, findings, distilled, compressed, ranked, recalled, retrieve,
}

-- A read that fails.
abbrev pub SomeFails : (Text → Bool) → Type 0
SomeFails fails = (i : Text) × (fails i ≡ true)

none-some {ℓ} : {A : Type ℓ} (a : A) → none ≡ some a → ⊥
none-some a h = ground (arith, h)

bind-some {ℓ κ} :
    {A : Type ℓ} {B : Type κ} (o : Option A) (g : A → Option B) (b : B)
    → (o >>= g) ≡ some b
    → (a : A) × (o ≡ some a) × (g a ≡ some b)
bind-some none g b h = absurd (none-some b h)
bind-some (some a) g b h = (a, refl, h)

if-else {ℓ} : {A : Type ℓ} (b : Bool) (x y z : A) → b ≡ false → (if b then x else y) ≡ z → y ≡ z
if-else true x y z e h = absurd (ground (arith, e))
if-else false x y z e h = h

module _ {Value : Type 0} (value_of : Text → Option Value) (fails : Text → Bool) (s : RawStore)
    (from_str : Text → Option Response) (run : Text → Text → List (Text × Text) → ℕ → Option Text)
    (m : SidecarMesh) where
  -- The ids that the sidecar gives are those of the candidates' previews, and the spans are the candidates
  -- with these ids, in the order of the sidecar.
  abbrev pub Reranks : Text → List RawSpan → List RawSpan → Type 0
  Reranks query spans out =
      (candidates : List (Text × Text)) × (stdout : Text) × (ids : List Text) × (previews value_of
          fails s m.preview_bytes spans
        ≡ some candidates)
      × (run m.program query candidates m.top_k ≡ some stdout)
      × (parse_rerank_response from_str stdout ≡ some ids)
      × (map (λ (x : RawSpan). x.id) out ≡ keep (λ i. any (λ (x : RawSpan). x.id =? i) spans) ids)
      × All (Among spans) out

  some_text-some :
      (all candidates : List (Text × Text))
      → some_text value_of fails s all ≡ some candidates
      → all ≡ candidates
  some_text-some [] candidates h = absurd (ground (arith, h))
  some_text-some (c ∷ all) candidates h = ground (arith, h)

  rerank-Reranks :
      (query : Text) (spans out : List RawSpan)
      → rerank value_of fails s from_str run m query spans ≡ some out
      → Reranks query spans out
  unfolding rerank
  rerank-Reranks query spans out h = elim (Bool-cases (m.program =? [])) [
    | inl e ↦ absurd (none-some out (ground (arith, h, e)))
    | inr e ↦
        let (all, given, h1) =
          bind-some (previews value_of fails s m.preview_bytes spans) _ out (if-else _ _ _ _ e h) in
        let (candidates, whole, h2) = bind-some (some_text value_of fails s all) _ out h1 in
        let (stdout, ran, h3) = bind-some (run m.program query candidates m.top_k) _ out h2 in
        let (ids, parsed, h4) = bind-some (parse_rerank_response from_str stdout) _ out h3 in
        let same : reorder_by_ids spans ids ≡ out = ground (arith, h4) in
        (
          candidates,
          stdout,
          ids,
          given ∙ ap some (some_text-some all candidates whole),
          ran,
          parsed,
          ap (map (λ (x : RawSpan). x.id)) (sym same) ∙ reorder_by_ids-ids spans ids,
          subst (All (Among spans)) same (reorder_by_ids-Among spans ids),
        )
  ]

  -- The stored bytes of spans, in order, a newline behind each; a span that is gone has none.
  unfoldable pub lines_of : List RawSpan → Text
  lines_of [] = []
  lines_of (x ∷ spans) =
      let rest = lines_of spans in
      elim (row_of x.id s.rows) [ none ↦ rest | some r ↦ r.bytes ++ (10 ∷ rest) ]

  findings-lines_of :
      (spans : List RawSpan) (text : Text)
      → findings value_of fails s spans ≡ some text
      → text ≡ lines_of spans
  unfolding findings lines_of get
  findings-lines_of [] text h = ground (arith, h)
  findings-lines_of (x ∷ spans) text h = elim (Bool-cases (fails x.id)) [
    | inl e ↦ absurd (none-some text (ground (arith, h, e)))
    | inr e ↦ elim (Option-cases (findings value_of fails s spans)) [
      | inl k ↦ absurd (none-some text (ground (arith, h, e, k)))
      | inr (rest, k) ↦
          let more = findings-lines_of spans rest k in
          elim (Option-cases (row_of x.id s.rows)) [
            | inl r ↦
                let here : rest ≡ text = ground (arith, h, e, k, r) in
                rw (lines_of, r) (sym here ∙ more)
            | inr (row, r) ↦
                let here : (row.bytes ++ 10 ∷ []) ++ rest ≡ text = ground (arith, h, e, k, r) in
                rw (lines_of, r)
                  (sym here
                    ∙ append_assoc row.bytes (10 ∷ []) rest
                    ∙ ap (λ (t : Text). row.bytes ++ (10 ∷ t)) more)
          ]
    ]
  ]

  module _ (compress : Text → Option Text) where
    distilled-brief :
        (o : Option Text) (b : Text)
        → distilled value_of fails s compress o ≡ brief b
        → (o ≡ some b) × (is_blank b ≡ false)
    distilled-brief none b h = absurd (ground (arith, h))
    distilled-brief (some c) b h = elim (Bool-cases (is_blank c)) [
      | inl e ↦ absurd (ground (arith, h, e))
      | inr e ↦
          let same : c ≡ b = ground (arith, h, e) in (ap some same, ap is_blank (sym same) ∙ e)
    ]

    compressed-brief :
        (o : Option Text) (b : Text)
        → compressed value_of fails s compress o ≡ brief b
        → (text : Text) × (o ≡ some text) × (compress text ≡ some b) × (is_blank b ≡ false)
    compressed-brief none b h = absurd (ground (arith, h))
    compressed-brief (some text) b h = elim (Bool-cases (is_empty text)) [
      | inl e ↦ absurd (ground (arith, h, e))
      | inr e ↦
          let step : distilled value_of fails s compress (compress text) ≡ brief b =
            ground (arith, h, e) in
          let (given, fine) = distilled-brief (compress text) b step in (text, refl, given, fine)
    ]

    ranked-brief :
        (o : Option (List RawSpan)) (b : Text)
        → ranked value_of fails s compress o ≡ brief b
        → (spans : List RawSpan) × (text : Text) × (o ≡ some spans)
          × (findings value_of fails s spans ≡ some text)
          × (compress text ≡ some b)
          × (is_blank b ≡ false)
    ranked-brief none b h = absurd (ground (arith, h))
    ranked-brief (some spans) b h = elim (Bool-cases (is_empty spans)) [
      | inl e ↦ absurd (ground (arith, h, e))
      | inr e ↦
          let step : compressed value_of fails s compress (findings value_of fails s spans)
              ≡ brief b =
            ground (arith, h, e) in
          let (text, found, given, fine) =
            compressed-brief (findings value_of fails s spans) b step in
          (spans, text, refl, found, given, fine)
    ]

    recalled-brief :
        (rank : List RawSpan → Option (List RawSpan)) (o : Option (List RawSpan)) (b : Text)
        → recalled value_of fails s compress rank o ≡ brief b
        → (candidates : List RawSpan) × (o ≡ some candidates)
          × (ranked value_of fails s compress (rank candidates) ≡ brief b)
    recalled-brief rank none b h = absurd (ground (arith, h))
    recalled-brief rank (some candidates) b h = (candidates, refl, ground (arith, h))

    findings-none :
        (spans : List RawSpan) → findings value_of fails s spans ≡ none → SomeFails fails
    unfolding findings
    findings-none [] h = absurd (ground (arith, h))
    findings-none (x ∷ spans) h = elim (Bool-cases (fails x.id)) [
      | inl e ↦ (x.id, e)
      | inr e ↦ findings-none spans (ground (arith, h, e))
    ]

    distilled-ne-failed : (o : Option Text) → distilled value_of fails s compress o ≡ failed → ⊥
    distilled-ne-failed none h = ground (arith, h)
    distilled-ne-failed (some b) h = ground (arith, h)

    ranked-failed :
        (o : Option (List RawSpan)) → ranked value_of fails s compress o ≡ failed → SomeFails fails
    ranked-failed none h = absurd (ground (arith, h))
    ranked-failed (some spans) h = elim (Option-cases (findings value_of fails s spans)) [
      | inl e ↦ findings-none spans e
      | inr (text, e) ↦ absurd (distilled-ne-failed (compress text) (ground (arith, h, e)))
    ]

    module _ (is_alphanumeric : ℕ → Bool) (find_in : Text → List (Text × Text) → List Text) where
      -- A brief for a prompt comes of a prompt that is not blank, within the deadline and with a recall that
      -- worked; it is not blank, and it is what the compressor makes of the stored bytes, a newline
      -- behind each, of the spans that the sidecar gives, in its order, each of them recalled for the
      -- prompt.
      pub retrieve-brief :
          (elapsed recall_fails : Bool) (recall_k : ℕ) (msg b : Text)
          → retrieve value_of fails s compress is_alphanumeric find_in elapsed recall_fails
              (rerank value_of fails s from_str run m msg)
              recall_k
              msg
            ≡ brief b
          → (spans : List RawSpan) × (text : Text) × Reranks msg
              (recall is_alphanumeric find_in msg recall_k s)
              spans
            × (text ≡ lines_of spans)
            × (compress text ≡ some b)
            × (is_blank b ≡ false)
            × (is_blank msg ≡ false)
            × (elapsed ≡ false)
            × (recall_fails ≡ false)
      unfolding retrieve
      retrieve-brief elapsed recall_fails recall_k msg b h =
          let asks = rerank value_of fails s from_str run m msg in
          let found = recall is_alphanumeric find_in msg recall_k s in
          let inner : (is_blank msg ≡ false)
              × (elapsed ≡ false)
              × (recalled value_of fails s compress asks (if recall_fails then none else some found)
                  ≡ brief b) =
            ground (arith, h) in
          let (candidates, whole, step) =
            recalled-brief asks (if recall_fails then none else some found) b inner.2 in
          let (spans, text, order, bytes, given, fine) = ranked-brief (asks candidates) b step in
          let worked : (recall_fails ≡ false) × (candidates ≡ found) = ground (arith, whole) in
          (
            spans,
            text,
            subst (λ (c : List RawSpan). Reranks msg c spans) worked.1
                (rerank-Reranks msg candidates spans order),
            findings-lines_of spans text bytes,
            given,
            fine,
            inner.0,
            inner.1,
            worked.0,
          )

      -- There is an error only where the recall or a read of the database fails; a sidecar or a
      -- compressor that fails, a late answer and a blank prompt are no error.
      pub retrieve-failed :
          (elapsed recall_fails : Bool) (rank : List RawSpan → Option (List RawSpan)) (recall_k : ℕ)
          (msg : Text)
          → retrieve value_of fails s compress is_alphanumeric find_in elapsed recall_fails rank
              recall_k msg
            ≡ failed
          → (recall_fails ≡ true) ⊎ SomeFails fails
      unfolding retrieve
      retrieve-failed elapsed true rank recall_k msg h = inl refl
      retrieve-failed elapsed false rank recall_k msg h =
          let found = recall is_alphanumeric find_in msg recall_k s in
          let step : ranked value_of fails s compress (rank found) ≡ failed = ground (arith, h) in
          inr (ranked-failed (rank found) step)
