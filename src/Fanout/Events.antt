-- ===== src/Fanout/Events.antt =====
-- crates/orchestrator/src/lib.rs: the events that a fan-out sends from its first worktree on.
use entheai.Base.{
  ℕ, ◌+◌, ◌≡◌, refl, sym, ap, ◌∙◌, subst, String, true, Option, none, some, List, [], ◌∷◌, ◌++◌,
  map, keep, length, arith, string_eq, Bool-cases, Option-cases, inl, inr,
}
use entheai.Base.Sets.{member, distinct, unseen}
use entheai.Bus.{FanoutEvent}
use entheai.Worktree.{
  Worktree, WorktreePool, WorktreeGuard, Integration, guard, integrate, integration_branch,
}
use entheai.Worktree.Branches.{integrate-split}
use entheai.Fanout.{Host, SubTask, CoderOutcome}
use entheai.Fanout.Settle.{Setting, Progress}
use entheai.Fanout.Sound.{finished_event}
use entheai.Fanout.Numbered.{Created, create_all-Created}
use entheai.Fanout.Selected.{distinct-branches}
use entheai.Fanout.Branches.{settled-facts, settled-distinct}
use entheai.Fanout.Run.{
  create_all, after_merge, guarded, go_on, conclude_with, settled, g3, FanoutRun, Ending, merge_in,
}

-- The last events.
abbrev pub closing : Option Integration → List FanoutEvent
closing none = FanoutEvent.done none 0 0 ∷ []
closing (some i) =
    FanoutEvent.integrating (length i.merged + length i.conflicted)
    ∷ FanoutEvent.done (some i.branch) (length i.merged) (length i.conflicted)
    ∷ []

-- One event for each outcome, in order, and the last ones.
abbrev pub Told : {R : Type 0} → Ending R → FanoutRun → Type 0
Told e f = e.events ≡ map finished_event f.outcomes ++ closing f.integration

length-split :
    (c bs : List String) → length (unseen c bs) + length (keep (λ b. member b c) bs) ≡ length bs
length-split c [] = refl
length-split c (b ∷ bs) = ground (arith, length-split c bs)

-- A conflict changes no event.
finished-after_merge :
    (c : List String) (os : List CoderOutcome)
    → map finished_event os ≡ map finished_event (map (after_merge c) os)
finished-after_merge c [] = refl
finished-after_merge c (o ∷ os) = elim (Bool-cases (member o.branch c)) [
  | inl e ↦ rw e (ap (λ (xs : List FanoutEvent). finished_event o ∷ xs) (finished-after_merge c os))
  | inr e ↦ rw e (ap (λ (xs : List FanoutEvent). finished_event o ∷ xs) (finished-after_merge c os))
]

module _ (H : Host) (S : Setting) (session task : String) where
  open H use {git}

  merge_in-Told :
      (g : WorktreeGuard) (p : Progress git.Repo) (r : git.Repo) (i : Integration) (f : FanoutRun)
      → (merge_in H S session task g p r i).result ≡ some f
      → i.merged ≡ unseen i.conflicted p.eligible
      → i.conflicted ≡ keep (λ b. member b i.conflicted) p.eligible
      → p.events ≡ map finished_event p.outcomes
      → Told (merge_in H S session task g p r i) f
  merge_in-Told g p r i f e m c told =
      let count : length i.merged + length i.conflicted ≡ length p.eligible = ground (
        arith,
        length-split i.conflicted p.eligible,
        ap (λ (xs : List String). length xs) m,
        ap (λ (xs : List String). length xs) c,
      ) in
      let tail = λ (n : ℕ) (xs : List FanoutEvent).
        xs
        ++ FanoutEvent.integrating n
          ∷ FanoutEvent.done (some i.branch) (length i.merged) (length i.conflicted)
          ∷ [] in
      let outcomes : map (after_merge i.conflicted) p.outcomes ≡ f.outcomes = ground (arith, e) in
      let same : some i ≡ f.integration = ground (arith, e) in
      ap (tail (length p.eligible)) (
        told
        ∙ finished-after_merge i.conflicted p.outcomes
        ∙ ap (λ (os : List CoderOutcome). map finished_event os) outcomes)
      ∙ ap (λ (n : ℕ). tail n (map finished_event f.outcomes)) (sym count)
      ∙ ap (λ (o : Option Integration). map finished_event f.outcomes ++ closing o) same

  conclude_with-Told :
      (g : WorktreeGuard) (p : Progress git.Repo) (el : List String) (f : FanoutRun)
      → (conclude_with H S session task g p el).result ≡ some f
      → distinct p.eligible ≡ true
      → p.events ≡ map finished_event p.outcomes
      → Told (conclude_with H S session task g p el) f
  unfolding conclude_with
  conclude_with-Told g p [] f e d told =
      let outcomes : p.outcomes ≡ f.outcomes = ground (arith, e) in
      let same : none ≡ f.integration = ground (arith, e) in
      ap (λ (xs : List FanoutEvent). xs ++ FanoutEvent.done none 0 0 ∷ [])
        (told ∙ ap (λ (os : List CoderOutcome). map finished_event os) outcomes)
      ∙ ap (λ (o : Option Integration). map finished_event f.outcomes ++ closing o) same
  conclude_with-Told g p (b ∷ bs) f e d told =
      let start = g3 H S session task H.oracle p.eligible p.repo in
      let branch = integration_branch session in
      let done = integrate git S.root S.base branch p.eligible start in
      elim (Option-cases done.1) [
        | inl k ↦ absurd (ground (arith, e, k))
        | inr (i, k) ↦
            let (_, (m, c)) = integrate-split git S.root S.base branch p.eligible start i d k in
            let here : merge_in H S session task g p done.0 i
                ≡ conclude_with H S session task g p (b ∷ bs) =
              ground (arith, k) in
            subst (λ x. Told x f) here
              (merge_in-Told g p done.0 i f (ap (λ (x : Ending git.Repo). x.result) here ∙ e) m c
                told)
      ]

  go_on-Told :
      (pool : WorktreePool) (subtasks : List SubTask)
      (x : git.Repo × (WorktreeGuard × Option (List (Worktree × SubTask)))) (f : FanoutRun)
      → Created H S session task (guard pool) 0 subtasks [] x
      → (go_on H S session task x.1.0 x.1.1 x.0).result ≡ some f
      → Told (go_on H S session task x.1.0 x.1.1 x.0) f
  unfolding guard
  go_on-Told pool subtasks (r, (g, none)) f m e = absurd (ground (arith, e))
  go_on-Told pool subtasks (r, (g, some wts)) f (m, (new, _)) e =
      let p = settled H S session task wts r in
      let (_, (eligible, events)) = settled-facts H S session task wts r in
      let apart = settled-distinct H S session task pool subtasks wts r new in
      conclude_with-Told g p p.eligible f e
        (ap (λ (xs : List String). distinct xs) eligible ∙ distinct-branches p.outcomes apart)
        events

  -- Where a fan-out with a guard gives a result, it has sent one event for each of its outcomes, in
  -- order, which tells whether it was committed and how it was verified; then the end, with the
  -- numbers of the branches that were merged and of those that conflicted, and before it, where there
  -- was an integration, the number of both.
  pub guarded-Told :
      (pool : WorktreePool) (subtasks : List SubTask) (r : git.Repo) (f : FanoutRun)
      → (guarded H S session task pool subtasks r).result ≡ some f
      → Told (guarded H S session task pool subtasks r) f
  unfolding guarded
  guarded-Told pool subtasks r f e =
      go_on-Told pool subtasks (create_all H S session task (guard pool) 0 subtasks [] r) f
        (create_all-Created H S session task (guard pool) 0 subtasks [] r) e
