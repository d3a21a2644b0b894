-- ===== src/MemoryPp/Frozen/Ranked.antt =====
-- crates/memory-pp/src/frozen.rs: the ranks that the nodes have after an outcome.
use entheai.Base.{
  ◌≡◌, refl, sym, ap, ◌∙◌, Bool, true, ◌&&◌, ◌||◌, not, Option, none, some, List, [], ◌∷◌, map,
  keep, All, if◌then◌else◌, ◌=?◌, =?_refl, nat_eq, arith, Bool-cases, inl, inr,
}
use entheai.Base.Assoc.{lookup, insert, lookup-insert}
use entheai.Base.Paths.{list_eq}
use entheai.MemoryPp.Raw.Tables.{Text}
use entheai.MemoryPp.Frozen.{
  F32, Unicode, is_number, FrozenNode, FrozenStore, knows, rank_or, effective_rank, is_hit,
  insert_all, hits_of, apply_hits, reweight, set_rank, with_overlay, from_nodes,
}

module _ (u : Unicode) (f : F32) where
  open f use {Num, add, clamp, in_range, clamp-in_range, clamp-nan}
  open u use {to_lowercase}

  -- The new rank of the last node with a name that is hit, or an older one.
  unfoldable pub last_hit :
      FrozenStore u f → Text → Num → Text → List (FrozenNode u f) → Option Num → Option Num
  last_hit s text delta name [] old = old
  last_hit s text delta name (n ∷ ns) old = last_hit s text delta name ns (
      if is_hit u f (to_lowercase text) n && n.name =? name
      then some (clamp (add (effective_rank u f s n) delta))
      else old)

  insert_all-last_hit :
      (s : FrozenStore u f) (text : Text) (delta : Num) (name : Text) (ns : List (FrozenNode u f))
      (ranks : List (Text × Num))
      → lookup name (
          insert_all u f
            (map
              (λ (n : FrozenNode u f). (n.name, clamp (add (effective_rank u f s n) delta)))
              (keep (is_hit u f (to_lowercase text)) ns))
            ranks)
        ≡ last_hit s text delta name ns (lookup name ranks)
  unfolding last_hit
  insert_all-last_hit s text delta name [] ranks = refl
  insert_all-last_hit s text delta name (n ∷ ns) ranks =
      elim (Bool-cases (is_hit u f (to_lowercase text) n)) [
        | inl e ↦
            let rank = clamp (add (effective_rank u f s n) delta) in
            rw e (
              insert_all-last_hit s text delta name ns (insert n.name rank ranks)
              ∙ ap (last_hit s text delta name ns) (lookup-insert n.name name rank ranks))
        | inr e ↦ rw e (insert_all-last_hit s text delta name ns ranks)
      ]

  ranks-apply_hits :
      (writes : Bool) (hits : List (Text × Num)) (s : FrozenStore u f)
      → ((apply_hits u f writes hits s).ranks ≡ insert_all u f hits s.ranks)
        × ((apply_hits u f writes hits s).nodes ≡ s.nodes)
  unfolding apply_hits
  ranks-apply_hits writes [] s = (refl, refl)
  ranks-apply_hits writes (h ∷ hits) s = (refl, refl)

  rank_or-last_hit :
      (s : FrozenStore u f) (text : Text) (delta prior : Num) (name : Text)
      (ns : List (FrozenNode u f)) (old : Option Num)
      → rank_or u f prior (last_hit s text delta name ns old)
        ≡ rank_or u f (rank_or u f prior old) (last_hit s text delta name ns none)
  unfolding last_hit
  rank_or-last_hit s text delta prior name [] none = refl
  rank_or-last_hit s text delta prior name [] (some r) = refl
  rank_or-last_hit s text delta prior name (n ∷ ns) old =
      elim (Bool-cases (is_hit u f (to_lowercase text) n && n.name =? name)) [
        | inl e ↦
            let rank = clamp (add (effective_rank u f s n) delta) in
            rw e (
              rank_or-last_hit s text delta prior name ns (some rank)
              ∙ sym (rank_or-last_hit s text delta (rank_or u f prior old) name ns (some rank)))
        | inr e ↦ rw e (rank_or-last_hit s text delta prior name ns old)
      ]

  -- After an outcome a node has the new rank of the last node of its name that the text hits, which is
  -- that node's rank before with the delta, clamped, and its own rank before where none is hit.
  pub effective_rank-reweight :
      (writes : Bool) (text : Text) (delta : Num) (s : FrozenStore u f) (n : FrozenNode u f)
      → effective_rank u f (reweight u f writes text delta s).1 n
        ≡ rank_or u f (effective_rank u f s n) (last_hit s text delta n.name s.nodes none)
  unfolding reweight effective_rank
  effective_rank-reweight writes text delta s n =
      let hits = hits_of u f s text delta in
      ap (λ (ranks : List (Text × Num)). rank_or u f n.rank (lookup n.name ranks))
        (ranks-apply_hits writes hits s).0
      ∙ ap (rank_or u f n.rank) (insert_all-last_hit s text delta n.name s.nodes s.ranks)
      ∙ rank_or-last_hit s text delta n.rank n.name s.nodes (lookup n.name s.ranks)

  -- The ranks of the overlay are of known nodes, and in range unless they are NaN.
  abbrev pub InRange : FrozenStore u f → Type 0
  InRange s =
      All
        (λ (r : Text × Num).
          (knows u f r.0 s.nodes && (in_range r.1 || not (is_number u f r.1))) ≡ true)
        s.ranks

  -- What happens to a store.
  pub data Outcome : Type 0 where
    weighed : Bool → Text → Num → Outcome
    restored : Bool → Text → Num → Outcome

  unfoldable pub after : FrozenStore u f → List Outcome → FrozenStore u f
  after s [] = s
  after s (weighed writes text delta ∷ os) = after (reweight u f writes text delta s).1 os
  after s (restored writes name rank ∷ os) = after (set_rank u f writes name rank s).1 os

  insert-All :
      (P : Text × Num → Type 0) (k : Text) (r : Num) (ranks : List (Text × Num))
      → P (k, r)
      → All P ranks
      → All P (insert k r ranks)
  unfolding insert
  insert-All P k r [] p h = (p, tt)
  insert-All P k r ((j, v) ∷ ranks) p h = elim (Bool-cases (j =? k)) [
    | inl e ↦ rw e (p, h.1)
    | inr e ↦ rw e (h.0, insert-All P k r ranks p h.1)
  ]

  insert_all-All :
      (P : Text × Num → Type 0) (hits ranks : List (Text × Num))
      → All P hits
      → All P ranks
      → All P (insert_all u f hits ranks)
  insert_all-All P [] ranks h k = k
  insert_all-All P (x ∷ hits) ranks h k =
      insert_all-All P hits (insert x.0 x.1 ranks) h.1 (insert-All P x.0 x.1 ranks h.0 k)

  abbrev Allowed : List (FrozenNode u f) → Text × Num → Type 0
  Allowed nodes r = (knows u f r.0 nodes && (in_range r.1 || not (is_number u f r.1))) ≡ true

  kept-Allowed :
      (nodes : List (FrozenNode u f)) (file : List (Text × Num))
      → All (Allowed nodes) (keep (λ (r : Text × Num). knows u f r.0 nodes && in_range r.1) file)
  kept-Allowed nodes [] = tt
  kept-Allowed nodes (r ∷ file) = elim (Bool-cases (knows u f r.0 nodes && in_range r.1)) [
    | inl e ↦ rw e (ground (arith, e), kept-Allowed nodes file)
    | inr e ↦ rw e (kept-Allowed nodes file)
  ]

  with_overlay-InRange :
      (nodes : List (FrozenNode u f)) (file : Option (List (Text × Num)))
      → InRange (with_overlay u f (from_nodes u f nodes) file)
  unfolding with_overlay from_nodes
  with_overlay-InRange nodes none = tt
  with_overlay-InRange nodes (some file) = kept-Allowed nodes file

  clamp-Allowed :
      (nodes : List (FrozenNode u f)) (name : Text) (r : Num)
      → knows u f name nodes ≡ true
      → Allowed nodes (name, clamp r)
  clamp-Allowed nodes name r h = elim (Bool-cases (is_number u f r)) [
    | inl e ↦ ground (arith, h, clamp-in_range r e)
    | inr e ↦ ground (arith, h, clamp-nan r e)
  ]

  -- The hits among some of the nodes, with new ranks.
  hits-Allowed :
      (s : FrozenStore u f) (text : Text) (delta : Num) (ns : List (FrozenNode u f))
      → All (λ (n : FrozenNode u f). knows u f n.name s.nodes ≡ true) ns
      → All (Allowed s.nodes) (
          map
            (λ (n : FrozenNode u f). (n.name, clamp (add (effective_rank u f s n) delta)))
            (keep (is_hit u f (to_lowercase text)) ns))
  hits-Allowed s text delta [] h = tt
  hits-Allowed s text delta (n ∷ ns) h = elim (Bool-cases (is_hit u f (to_lowercase text) n)) [
    | inl e ↦ rw e (
      clamp-Allowed s.nodes n.name (add (effective_rank u f s n) delta) h.0,
      hits-Allowed s text delta ns h.1,
    )
    | inr e ↦ rw e (hits-Allowed s text delta ns h.1)
  ]

  knows-more :
      (m : FrozenNode u f) (nodes ns : List (FrozenNode u f))
      → All (λ (n : FrozenNode u f). knows u f n.name nodes ≡ true) ns
      → All (λ (n : FrozenNode u f). knows u f n.name (m ∷ nodes) ≡ true) ns
  knows-more m nodes [] h = tt
  knows-more m nodes (n ∷ ns) h = (ground (arith, h.0), knows-more m nodes ns h.1)

  knows-All :
      (nodes : List (FrozenNode u f))
      → All (λ (n : FrozenNode u f). knows u f n.name nodes ≡ true) nodes
  knows-All [] = tt
  knows-All (n ∷ nodes) =
      (ground (arith, =?_refl n.name), knows-more n nodes nodes (knows-All nodes))

  apply_hits-InRange :
      (writes : Bool) (hits : List (Text × Num)) (s : FrozenStore u f)
      → All (Allowed s.nodes) hits
      → InRange s
      → InRange (apply_hits u f writes hits s)
  unfolding apply_hits
  apply_hits-InRange writes [] s h k = k
  apply_hits-InRange writes (x ∷ hits) s h k =
      insert_all-All (Allowed s.nodes) (x ∷ hits) s.ranks h k

  reweight-InRange :
      (writes : Bool) (text : Text) (delta : Num) (s : FrozenStore u f)
      → InRange s
      → InRange (reweight u f writes text delta s).1
  unfolding reweight
  reweight-InRange writes text delta s h =
      apply_hits-InRange writes (hits_of u f s text delta) s
        (hits-Allowed s text delta s.nodes (knows-All s.nodes)) h

  set_rank-InRange :
      (writes : Bool) (name : Text) (rank : Num) (s : FrozenStore u f)
      → InRange s
      → InRange (set_rank u f writes name rank s).1
  unfolding set_rank
  set_rank-InRange writes name rank s h = elim (Bool-cases (knows u f name s.nodes)) [
    | inl e ↦
        rw (e, set_rank)
          (insert-All (Allowed s.nodes) name (clamp rank) s.ranks
            (clamp-Allowed s.nodes name rank e) h)
    | inr e ↦ rw (e, set_rank) h
  ]

  outcomes-InRange : (s : FrozenStore u f) (os : List Outcome) → InRange s → InRange (after s os)
  unfolding after
  outcomes-InRange s [] h = h
  outcomes-InRange s (weighed writes text delta ∷ os) h =
      outcomes-InRange (reweight u f writes text delta s).1 os
        (reweight-InRange writes text delta s h)
  outcomes-InRange s (restored writes name rank ∷ os) h =
      outcomes-InRange (set_rank u f writes name rank s).1 os
        (set_rank-InRange writes name rank s h)

  -- Whatever the file of the overlay holds, and whatever outcomes and thaws follow, the overlay has only
  -- names of nodes, with ranks that are NaN or from 0 to the maximum.
  pub after-InRange :
      (nodes : List (FrozenNode u f)) (file : Option (List (Text × Num))) (os : List Outcome)
      → InRange (after (with_overlay u f (from_nodes u f nodes) file) os)
  after-InRange nodes file os =
      outcomes-InRange (with_overlay u f (from_nodes u f nodes) file) os
        (with_overlay-InRange nodes file)
