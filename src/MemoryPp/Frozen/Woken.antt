-- ===== src/MemoryPp/Frozen/Woken.antt =====
-- crates/memory-pp/src/frozen.rs: the nodes that wake are the best of those that are hit.
use mathlib.Core.List.{map-append}
use mathlib.Core.List as Lib
use entheai.Base.{
  ℕ, zero, suc, ◌≡◌, refl, sym, ap, ◌∙◌, subst, true, false, List, [], ◌∷◌, ◌++◌, map, keep, take,
  drop, length, All, min, arith, Bool-cases, inl, inr,
}
use entheai.MemoryPp.Raw.Tables.{Text}
use entheai.MemoryPp.Frozen.{
  F32, Unicode, scores_less, is_number, FrozenNode, FrozenStore, is_hit, place, sorted, score,
  candidates, wake,
}

abbrev pub Perm {ℓ} : {A : Type ℓ} → List A → List A → Type ℓ
Perm = Lib.Perm

take-drop {ℓ} : {A : Type ℓ} (n : ℕ) (xs : List A) → take n xs ++ drop n xs ≡ xs
take-drop zero xs = refl
take-drop (suc n) [] = refl
take-drop (suc n) (x ∷ xs) = ap (λ (ys : List _). x ∷ ys) (take-drop n xs)

length-take {ℓ} : {A : Type ℓ} (n : ℕ) (xs : List A) → length (take n xs) ≡ min n (length xs)
length-take zero xs = omega arith
length-take (suc n) [] = omega arith
length-take (suc n) (x ∷ xs) = omega (arith, length-take n xs)

length-map {ℓ κ} :
    {A : Type ℓ} {B : Type κ} (g : A → B) (xs : List A) → length (map g xs) ≡ length xs
length-map g [] = refl
length-map g (x ∷ xs) = ap suc (length-map g xs)

module _ (u : Unicode) (f : F32) where
  open f use {Num, less_asym, not_less_trans}
  open u use {to_lowercase}

  abbrev Scored : Type 0
  Scored = FrozenNode u f × Num

  -- None scores higher than one before it.
  abbrev pub Descending {ℓ} : {A : Type ℓ} → (A → Num) → List A → Type 0
  Descending g [] = Unit
  Descending g (x ∷ xs) = All (λ y. scores_less u f (g x) (g y) ≡ false) xs × Descending g xs

  All-place :
      (P : Scored → Type 0) (c : Scored) (ds : List Scored)
      → P c
      → All P ds
      → All P (place u f c ds)
  unfolding place
  All-place P c [] p ps = (p, tt)
  All-place P c (d ∷ ds) p ps = elim (Bool-cases (scores_less u f c.1 d.1)) [
    | inl e ↦ rw e (ps.0, All-place P c ds p ps.1)
    | inr e ↦ rw e (p, ps)
  ]

  All-sorted : (P : Scored → Type 0) (cs : List Scored) → All P cs → All P (sorted u f cs)
  unfolding sorted
  All-sorted P [] h = tt
  All-sorted P (c ∷ cs) h = All-place P c (sorted u f cs) h.0 (All-sorted P cs h.1)

  below_trans :
      (a b : Num) (ds : List Scored)
      → is_number u f b ≡ true
      → scores_less u f a b ≡ false
      → All (λ (y : Scored). scores_less u f b y.1 ≡ false) ds
      → All (λ (y : Scored). scores_less u f a y.1 ≡ false) ds
  below_trans a b [] n h k = tt
  below_trans a b (d ∷ ds) n h k = (not_less_trans a b d.1 n h k.0, below_trans a b ds n h k.1)

  abbrev by_score : Scored → Num
  by_score c = c.1

  abbrev Numbered : Scored → Type 0
  Numbered c = is_number u f c.1 ≡ true

  place-Descending :
      (c : Scored) (ds : List Scored)
      → All Numbered ds
      → Descending by_score ds
      → Descending by_score (place u f c ds)
  unfolding place
  place-Descending c [] n h = (tt, tt)
  place-Descending c (d ∷ ds) n h = elim (Bool-cases (scores_less u f c.1 d.1)) [
    | inl e ↦ rw e (
      All-place (λ (y : Scored). scores_less u f d.1 y.1 ≡ false) c ds (less_asym c.1 d.1 e) h.0,
      place-Descending c ds n.1 h.1,
    )
    | inr e ↦ rw e ((e, below_trans c.1 d.1 ds n.0 e h.0), h)
  ]

  sorted-Descending : (cs : List Scored) → All Numbered cs → Descending by_score (sorted u f cs)
  unfolding sorted
  sorted-Descending [] n = tt
  sorted-Descending (c ∷ cs) n =
      place-Descending c (sorted u f cs) (All-sorted Numbered cs n.1) (sorted-Descending cs n.1)

  place-Perm : (c : Scored) (ds : List Scored) → Perm (place u f c ds) (c ∷ ds)
  unfolding place
  place-Perm c [] = Lib.Perm.refl (c ∷ [])
  place-Perm c (d ∷ ds) = elim (Bool-cases (scores_less u f c.1 d.1)) [
    | inl e ↦ rw e (Lib.Perm.trans (Lib.Perm.cons d (place-Perm c ds)) (Lib.Perm.swap c d ds))
    | inr e ↦ rw e (Lib.Perm.refl (c ∷ d ∷ ds))
  ]

  sorted-Perm : (cs : List Scored) → Perm (sorted u f cs) cs
  unfolding sorted
  sorted-Perm [] = Lib.Perm.refl []
  sorted-Perm (c ∷ cs) =
      Lib.Perm.trans (place-Perm c (sorted u f cs)) (Lib.Perm.cons c (sorted-Perm cs))

  length-place : (c : Scored) (ds : List Scored) → length (place u f c ds) ≡ suc (length ds)
  unfolding place
  length-place c [] = refl
  length-place c (d ∷ ds) = ground (arith, length-place c ds)

  length-sorted : (cs : List Scored) → length (sorted u f cs) ≡ length cs
  unfolding sorted
  length-sorted [] = refl
  length-sorted (c ∷ cs) = length-place c (sorted u f cs) ∙ ap suc (length-sorted cs)

  abbrev node : Scored → FrozenNode u f
  node c = c.0

  module _ (g : FrozenNode u f → Num) where
    below-node :
        (a : Num) (b : Num) (cs : List Scored)
        → a ≡ b
        → All (λ (c : Scored). c.1 ≡ g c.0) cs
        → All (λ (y : Scored). scores_less u f a y.1 ≡ false) cs
        → All (λ (n : FrozenNode u f). scores_less u f b (g n) ≡ false) (map node cs)
    below-node a b [] e h k = tt
    below-node a b (c ∷ cs) e h k =
        ((λ i. scores_less u f (sym e i) (sym h.0 i)) ∙ k.0, below-node a b cs e h.1 k.1)

    nodes-Descending :
        (cs : List Scored)
        → All (λ (c : Scored). c.1 ≡ g c.0) cs
        → Descending by_score cs
        → Descending g (map node cs)
    nodes-Descending [] h d = tt
    nodes-Descending (c ∷ cs) h d =
        (below-node c.1 (g c.0) cs h.0 h.1 d.0, nodes-Descending cs h.1 d.1)

    map_scored :
        (ns : List (FrozenNode u f))
        → All (λ (c : Scored). c.1 ≡ g c.0) (map (λ (n : FrozenNode u f). (n, g n)) ns)
    map_scored [] = tt
    map_scored (n ∷ ns) = (refl, map_scored ns)

    map_nodes :
        (ns : List (FrozenNode u f)) → map node (map (λ (n : FrozenNode u f). (n, g n)) ns) ≡ ns
    map_nodes [] = refl
    map_nodes (n ∷ ns) = ap (λ (ms : List (FrozenNode u f)). n ∷ ms) (map_nodes ns)

    map_numbers :
        (ns : List (FrozenNode u f))
        → All (λ (n : FrozenNode u f). is_number u f (g n) ≡ true) ns
        → All Numbered (map (λ (n : FrozenNode u f). (n, g n)) ns)
    map_numbers [] h = tt
    map_numbers (n ∷ ns) h = (h.0, map_numbers ns h.1)

  -- Of the nodes that a trigger hits, where none has a score that is NaN, the best wake: with some rest the woken nodes are all that are hit,
  -- each as often, none in the woken ones or the rest scores higher than one before it, and as many
  -- wake as are hit, but no more than asked for.
  pub wake-best :
      (s : FrozenStore u f) (prompt : Text) (top_k : ℕ)
      → All
          (λ (n : FrozenNode u f). is_number u f (score u f s prompt n) ≡ true)
          (keep (is_hit u f (to_lowercase prompt)) s.nodes)
      → (rest : List (FrozenNode u f)) × Perm
          (wake u f s prompt top_k ++ rest)
          (keep (is_hit u f (to_lowercase prompt)) s.nodes)
        × Descending (score u f s prompt) (wake u f s prompt top_k ++ rest)
        × (length (wake u f s prompt top_k)
            ≡ min top_k (length (keep (is_hit u f (to_lowercase prompt)) s.nodes)))
  unfolding wake candidates
  wake-best s prompt top_k numbers =
      let hit = keep (is_hit u f (to_lowercase prompt)) s.nodes in
      let g = score u f s prompt in
      let cs = sorted u f (candidates u f s prompt) in
      let split : map node (take top_k cs) ++ map node (drop top_k cs) ≡ map node cs =
        sym (map-append node (take top_k cs) (drop top_k cs))
        ∙ ap (map node) (take-drop top_k cs) in
      let scored = map_scored g hit in
      (
        map node (drop top_k cs),
        subst (λ (ns : List (FrozenNode u f)). Perm ns hit) (sym split)
            (subst (Perm (map node cs)) (map_nodes g hit)
              (Lib.Perm.map node (sorted-Perm (candidates u f s prompt)))),
        subst (Descending g) (sym split) (
            nodes-Descending g cs
              (All-sorted (λ (c : Scored). c.1 ≡ g c.0) (candidates u f s prompt) scored)
              (sorted-Descending (candidates u f s prompt) (map_numbers g hit numbers))),
        length-map node (take top_k cs)
            ∙ length-take top_k cs
            ∙ ap (min top_k) (
                length-sorted (candidates u f s prompt)
                ∙ length-map (λ (n : FrozenNode u f). (n, g n)) hit),
      )
