-- ===== src/Fanout/Selected.antt =====
-- crates/orchestrator/src/lib.rs: the branches of a list of outcomes, before and after the conflicts are
-- noted.
use entheai.Base.{
  ◌≡◌, refl, ap, ◌∙◌, String, true, false, List, [], ◌∷◌, map, keep, arith, string_eq, Bool-cases,
  inl, inr, ◌=?◌, =?_refl,
}
use entheai.Base.Sets.{member, distinct, unseen}
use entheai.Fanout.{CoderOutcome}
use entheai.Fanout.Sound.{branches}
use entheai.Fanout.Run.{after_merge}

-- Of the branches to be integrated, those that do not conflict are those of the outcomes that stay
-- integrated.
pub unseen-branches :
    (c : List String) (os : List CoderOutcome)
    → unseen c (branches os) ≡ branches (map (after_merge c) os)
unseen-branches c [] = refl
unseen-branches c (o ∷ os) = elim (Bool-cases o.integrated) [
  | inl e ↦ elim (Bool-cases (member o.branch c)) [
    | inl k ↦ ground (arith, e, k, unseen-branches c os)
    | inr k ↦ ground (arith, e, k, unseen-branches c os)
  ]
  | inr e ↦ elim (Bool-cases (member o.branch c)) [
    | inl k ↦ ground (arith, e, k, unseen-branches c os)
    | inr k ↦ ground (arith, e, k, unseen-branches c os)
  ]
]

abbrev pub all_branches : List CoderOutcome → List String
all_branches os = map (λ (o : CoderOutcome). o.branch) os

pub member-branches :
    (b : String) (os : List CoderOutcome)
    → member b (branches os) ≡ true
    → member b (all_branches os) ≡ true
member-branches b [] h = h
member-branches b (o ∷ os) h = ground (arith, h, member-branches b os)

pub apart :
    (o : CoderOutcome) (os : List CoderOutcome) (b : String)
    → member o.branch (all_branches os) ≡ false
    → member b (all_branches os) ≡ true
    → member b (branches (o ∷ os)) ≡ member b (branches os)
apart o os b h m =
    let different : (o.branch =? b) ≡ false = elim (Bool-cases (o.branch =? b)) [
      | inl e ↦
          let same : o.branch ≡ b = (string_eq.beq_iff o.branch b).0 e in
          absurd (ground (arith, h, m, ap (λ (x : String). member x (all_branches os)) same))
      | inr e ↦ e
    ] in
    elim (Bool-cases o.integrated) [ inl e ↦ rw e (rw different refl) | inr e ↦ rw e refl ]

-- Where the branches are different, to keep those of a list that has the integrated ones is to keep
-- these.
pub keep-branches :
    (os : List CoderOutcome) (bs : List String)
    → distinct (all_branches os) ≡ true
    → ((b : String) → member b (all_branches os) ≡ true → member b bs ≡ member b (branches os))
    → keep (λ b. member b bs) (all_branches os) ≡ branches os
keep-branches [] bs h k = refl
keep-branches (o ∷ os) bs h k =
    let fresh : member o.branch (all_branches os) ≡ false = ground (arith, h) in
    let tail =
      keep-branches os bs (ground (arith, h))
        (λ b m. k b (ground (arith, m)) ∙ apart o os b fresh m) in
    let own = k o.branch (ground (arith, =?_refl o.branch)) in
    ground (arith, fresh, tail, own, member-branches o.branch os, =?_refl o.branch)

pub all_branches-after_merge :
    (c : List String) (os : List CoderOutcome)
    → all_branches (map (after_merge c) os) ≡ all_branches os
all_branches-after_merge c [] = refl
all_branches-after_merge c (o ∷ os) = ground (arith, all_branches-after_merge c os)

pub distinct-branches :
    (os : List CoderOutcome) → distinct (all_branches os) ≡ true → distinct (branches os) ≡ true
distinct-branches [] h = refl
distinct-branches (o ∷ os) h = ground (arith, h, distinct-branches os, member-branches o.branch os)
