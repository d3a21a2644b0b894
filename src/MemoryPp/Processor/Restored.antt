-- ===== src/MemoryPp/Processor/Restored.antt =====
-- crates/memory-pp/src/processor.rs: what a thaw restores.
use entheai.Base.{
  any, suc, ◌+◌, ◌++◌, ◌/◌, ℕ, ◌≡◌, ◌⊎◌, refl, sym, ap, ◌∙◌, Bool, true, false, Option, none, some,
  List, [], ◌∷◌, length, count_if, if◌then◌else◌, ◌=?◌, nat_eq, arith, Bool-cases, Option-cases,
  inl, inr,
}
use entheai.Base.Assoc.{lookup, insert, lookup-insert, is_some}
use entheai.Base.Text.{codes}
use entheai.MemoryPp.Cap.{fitting, cap_bytes-fitting}
use entheai.Base.Paths.{list_eq, list_beq_iff}
use entheai.MemoryPp.Raw.Tables.{Text, RawStore, get, row_of}
use entheai.MemoryPp.Frozen.{
  F32, Unicode, FrozenNode, FrozenStore, knows, rank_or, effective_rank, set_rank,
}
use entheai.MemoryPp.Processor.{restore, thaw, checkpoint_brief}

true-false : true ≡ false → ⊥
true-false h = ground arith

plus_one : (n : ℕ) → n + 1 ≡ suc n
plus_one n = omega arith

-- What a brief says of the spans that are still there, in order.
unfoldable pub sections : ℕ → RawStore → List Text → Text
sections max raw [] = []
sections max raw (i ∷ ids) =
    let rest = sections max raw ids in
    elim (row_of i raw.rows) [
      | none ↦ rest
      | some r ↦
          codes "--- span "
          ++ (i ++ (codes " ---" ++ (10 ∷ (fitting r.bytes (max / 8) ++ (10 ∷ rest)))))
    ]

module _ {Value : Type 0} (value_of : Text → Option Value) (fails : Text → Bool) (max : ℕ)
    (raw : RawStore) where
  abbrev whole : List Text → Option (Text × ℕ)
  whole ids = some (sections max raw ids, count_if (λ i. is_some (row_of i raw.rows)) ids)

  pub checkpoint_brief-sections :
      (ids : List Text)
      → ((any fails ids ≡ true) × (checkpoint_brief value_of fails raw max ids ≡ none))
        ⊎ (checkpoint_brief value_of fails raw max ids ≡ whole ids)
  unfolding checkpoint_brief sections get
  checkpoint_brief-sections [] = inr refl
  checkpoint_brief-sections (i ∷ ids) = elim (Bool-cases (fails i)) [
    | inl e ↦ inl (rw e refl, rw e refl)
    | inr e ↦ elim (checkpoint_brief-sections ids) [
      | inl (a, k) ↦ inl (rw (e, a) refl, rw (e, k) refl)
      | inr k ↦ elim (Option-cases (row_of i raw.rows)) [
        | inl r ↦ inr (rw (e, k, sections, r) refl)
        | inr (row, r) ↦
            let n = count_if (λ (j : Text). is_some (row_of j raw.rows)) ids in
            let text =
              codes "--- span "
              ++ (i
                  ++ (codes " ---"
                      ++ (10 ∷ (fitting row.bytes (max / 8) ++ (10 ∷ sections max raw ids))))) in
            inr (
              rw (e, k, sections, r, cap_bytes-fitting row.bytes (max / 8))
                (λ j. some (text, plus_one n j)))
      ]
    ]
  ]

module _ (u : Unicode) (f : F32) where
  open f use {Num, clamp}

  -- The rank that the activations give a name, the last one of it, or an older one.
  unfoldable pub saved : Text → List (Text × Num) → Option Num → Option Num
  saved name [] old = old
  saved name (a ∷ activations) old =
      saved name activations (if a.0 =? name then some (clamp a.1) else old)

  -- What an activation of a known node does, and one of an unknown node does not.
  set_rank_lem :
      (writes : Bool) (name : Text) (rank : Num) (s : FrozenStore u f)
      → ((set_rank u f writes name rank s).1.nodes ≡ s.nodes)
        × ((set_rank u f writes name rank s).0 ≡ knows u f name s.nodes)
        × ((set_rank u f writes name rank s).1.ranks
            ≡ (if knows u f name s.nodes then insert name (clamp rank) s.ranks else s.ranks))
  unfolding set_rank
  set_rank_lem writes name rank s = elim (Bool-cases (knows u f name s.nodes)) [
    | inl e ↦ rw (e, set_rank) (refl, refl, refl)
    | inr e ↦ rw (e, set_rank) (refl, refl, refl)
  ]

  looked :
      (name other : Text) (rank : Num) (s : FrozenStore u f)
      → knows u f name s.nodes ≡ true
      → lookup name (if knows u f other s.nodes then insert other (clamp rank) s.ranks else s.ranks)
        ≡ (if other =? name then some (clamp rank) else lookup name s.ranks)
  looked name other rank s h = elim (Bool-cases (knows u f other s.nodes)) [
    | inl e ↦ rw e (lookup-insert other name (clamp rank) s.ranks)
    | inr e ↦ elim (Bool-cases (other =? name)) [
      | inl same ↦ absurd (
          true-false (
            sym h
            ∙ ap (λ (x : Text). knows u f x s.nodes) (sym ((list_beq_iff other name).0 same))
            ∙ e))
      | inr apart ↦ rw (e, apart) refl
    ]
  ]

  restore_lem :
      (writes : ℕ → Bool) (activations : List (Text × Num)) (s : FrozenStore u f)
      → ((restore u f writes activations s).1.nodes ≡ s.nodes)
        × ((restore u f writes activations s).0
            ≡ count_if (λ (a : Text × Num). knows u f a.0 s.nodes) activations)
        × ((name : Text)
            → knows u f name s.nodes ≡ true
            → lookup name (restore u f writes activations s).1.ranks
              ≡ saved name activations (lookup name s.ranks))
  unfolding restore saved
  restore_lem writes [] s = (refl, refl, λ name h. refl)
  restore_lem writes (a ∷ activations) s =
      let set = set_rank u f (writes (length activations)) a.0 a.1 s in
      let (nodes, done, ranks) = set_rank_lem (writes (length activations)) a.0 a.1 s in
      let (same, many, each) = restore_lem writes activations set.1 in
      let known = λ (ns : List (FrozenNode u f)).
        count_if (λ (b : Text × Num). knows u f b.0 ns) activations in
      (
        same ∙ nodes,
        ground (arith, done, many, ap known nodes),
        λ name h.
            each name (ap (knows u f name) nodes ∙ h)
            ∙ ap (saved name activations) (ap (lookup name) ranks ∙ looked name a.0 a.1 s h),
      )

  -- A thaw counts the activations that it restores and the spans that it finds, of which its brief has the
  -- ids and the bytes, cut to an eighth of the cap, in order; it gives each node that the activations name the last
  -- rank that they have for it, clamped, and every other node no new rank; the ranks are restored
  -- also where reading the spans fails, and then there is no brief.
  pub thaw-restores :
      {Value : Type 0} (value_of : Text → Option Value) (fails : Text → Bool) (max_ingest_bytes : ℕ)
      (writes : ℕ → Bool) (ids : List Text) (activations : List (Text × Num)) (raw : RawStore)
      (s : FrozenStore u f)
      → ((n : FrozenNode u f)
          → knows u f n.name s.nodes ≡ true
          → effective_rank u f
              (thaw u f value_of fails max_ingest_bytes writes ids activations raw s).1
              n
            ≡ rank_or u f n.rank (saved n.name activations (lookup n.name s.ranks)))
        × (((any fails ids ≡ true)
              × ((thaw u f value_of fails max_ingest_bytes writes ids activations raw s).0 ≡ none))
            ⊎ ((thaw u f value_of fails max_ingest_bytes writes ids activations raw s).0
                ≡ some (record {
                  hydrated = count_if (λ i. is_some (row_of i raw.rows)) ids;
                  spans = length ids;
                  restored = count_if (λ (a : Text × Num). knows u f a.0 s.nodes) activations;
                  activations = length activations;
                  text = sections max_ingest_bytes raw ids;
                })))
  unfolding thaw effective_rank
  thaw-restores value_of fails max_ingest_bytes writes ids activations raw s =
      let (_, many, each) = restore_lem writes activations s in
      (
        λ n h. ap (rank_or u f n.rank) (each n.name h),
        elim (checkpoint_brief-sections value_of fails max_ingest_bytes raw ids) [
          | inl (a, e) ↦ inl (a, rw e refl)
          | inr e ↦ inr (rw (e, many) refl)
        ],
      )
