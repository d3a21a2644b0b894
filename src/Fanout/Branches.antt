-- ===== src/Fanout/Branches.antt =====
-- crates/orchestrator/src/lib.rs: the branches of a fan-out: which are merged, and which are deleted
-- when the guard is dropped.
use entheai.Base.{
  ℕ, ◌≡◌, refl, sym, ap, ◌∙◌, subst, String, true, Option, none, some, List, [], ◌∷◌, ◌++◌, map,
  keep, arith, string_eq, Option-cases, inl, inr,
}
use entheai.Base.Sets.{member, distinct, unseen}
use entheai.Worktree.{
  int_path, Worktree, WorktreePool, WorktreeGuard, Integration, guard, mark_merged, integrate,
  integration_branch, drop_commands,
}
use entheai.Worktree.Branches.{
  Merging, integrate-Merging, integrate-split, deleted, deleted-drop_commands,
}
use entheai.Fanout.{Host, SubTask, CoderRun, CoderOutcome, Joined}
use entheai.Fanout.Settle.{Setting, Progress}
use entheai.Fanout.Sound.{finished_event, Pairs, branches, settle_all-Adds, IsOutcome}
use entheai.Fanout.Run.{
  create_all, run_of, started, lost, after_merge, guarded, go_on, conclude_with, merge_in, settled,
  g3, Ending, FanoutRun,
}
use entheai.Fanout.Numbered.{numbered, branch_of, distinct-numbered, Created, create_all-Created}
use entheai.Fanout.Selected.{
  unseen-branches, all_branches, keep-branches, all_branches-after_merge, distinct-branches,
}

-- The outcomes of a result: none for an error.
abbrev pub reported : Option FanoutRun → List CoderOutcome
reported none = []
reported (some f) = f.outcomes

-- What the integration branch of a result has merged.
abbrev pub merged_of : Option Integration → List String
merged_of none = []
merged_of (some i) = i.merged

abbrev pub merged_in : Option FanoutRun → List String
merged_in none = []
merged_in (some f) = merged_of f.integration

keep-none : (xs : List String) → keep (λ b. member b []) xs ≡ []
keep-none [] = refl
keep-none (x ∷ xs) = keep-none xs

-- A fan-out is left with the branches merged that its outcomes report as integrated, and the guard
-- deletes these and no others.
abbrev pub Kept : {R : Type 0} → Ending R → Type 0
Kept e =
    (merged_in e.result ≡ branches (reported e.result))
    × (deleted (drop_commands e.guard) ≡ branches (reported e.result))

module _ (H : Host) (S : Setting) (session task : String) where
  open H use {git}

  deleted-unmarked : (g : WorktreeGuard) → g.merged ≡ [] → deleted (drop_commands g) ≡ []
  deleted-unmarked g m =
      (deleted-drop_commands g).0
      ∙ ap (λ (xs : List String). keep (λ b. member b xs) (map (λ w. w.branch) g.worktrees)) m
      ∙ keep-none (map (λ w. w.branch) g.worktrees)

  merge_in-Kept :
      (g : WorktreeGuard) (p : Progress git.Repo) (r : git.Repo) (i : Integration)
      → g.merged ≡ []
      → i.merged ≡ unseen i.conflicted (branches p.outcomes)
      → map (λ w. w.branch) g.worktrees ≡ all_branches p.outcomes
      → distinct (all_branches p.outcomes) ≡ true
      → Kept (merge_in H S session task g p r i)
  unfolding mark_merged
  merge_in-Kept g p r i m e ws d =
      let final = map (after_merge i.conflicted) p.outcomes in
      let merged : i.merged ≡ branches final = e ∙ unseen-branches i.conflicted p.outcomes in
      let same = all_branches-after_merge i.conflicted p.outcomes in
      let marked : g.merged ++ i.merged ≡ branches final =
        ap (λ (xs : List String). xs ++ i.merged) m ∙ merged in
      let here : map (λ w. w.branch) g.worktrees ≡ all_branches final = ws ∙ sym same in
      (
        merged,
        (deleted-drop_commands (mark_merged g i.merged)).0
            ∙ ap (λ (xs : List String). keep (λ b. member b xs) (map (λ w. w.branch) g.worktrees))
                marked
            ∙ ap (λ (xs : List String). keep (λ b. member b (branches final)) xs) here
            ∙ keep-branches final (branches final) (ap (λ (xs : List String). distinct xs) same ∙ d)
                (λ b h. refl),
      )

  conclude_with-Kept :
      (g : WorktreeGuard) (p : Progress git.Repo) (el : List String)
      → g.merged ≡ []
      → p.eligible ≡ el
      → p.eligible ≡ branches p.outcomes
      → map (λ w. w.branch) g.worktrees ≡ all_branches p.outcomes
      → distinct (all_branches p.outcomes) ≡ true
      → Kept (conclude_with H S session task g p el)
  unfolding conclude_with
  conclude_with-Kept g p [] m e el ws d = (sym e ∙ el, deleted-unmarked g m ∙ sym e ∙ el)
  conclude_with-Kept g p (b ∷ bs) m e el ws d =
      let start = g3 H S session task H.oracle p.eligible p.repo in
      let branch = integration_branch session in
      let done = integrate git S.root S.base branch p.eligible start in
      elim (Option-cases done.1) [
        | inl k ↦ rw (k, conclude_with) (refl, deleted-unmarked g m)
        | inr (i, k) ↦
            let apart =
              subst (λ (xs : List String). distinct xs ≡ true) (sym el)
                (distinct-branches p.outcomes d) in
            let (_, (split, _)) =
              integrate-split git S.root S.base branch p.eligible start i apart k in
            rw (k, conclude_with)
              (merge_in-Kept g p done.0 i m
                (split ∙ ap (λ (xs : List String). unseen i.conflicted xs) el) ws d)
      ]

-- What the integration of a result has merged, and what conflicted, is what git answered, merging the
-- branches that were to be integrated one after another in the new worktree.
abbrev pub MergedBy : (H : Host) → String → Option Integration → Type 0
MergedBy H session none = Unit
MergedBy H session (some i) =
    (r : H.git.Repo) × (bs : List String) × Merging H.git
      (int_path H.git.temp_dir (integration_branch session)) r bs i.merged i.conflicted

abbrev pub integration_of : Option FanoutRun → Option Integration
integration_of none = none
integration_of (some f) = f.integration

module _ (H : Host) (S : Setting) (session task : String) where
  open H use {git}

  conclude_with-MergedBy :
      (g : WorktreeGuard) (p : Progress git.Repo) (el : List String)
      → MergedBy H session (integration_of (conclude_with H S session task g p el).result)
  unfolding conclude_with
  conclude_with-MergedBy g p [] = tt
  conclude_with-MergedBy g p (b ∷ bs) =
      let start = g3 H S session task H.oracle p.eligible p.repo in
      let branch = integration_branch session in
      elim (Option-cases (integrate git S.root S.base branch p.eligible start).1) [
        | inl k ↦ rw (k, conclude_with) tt
        | inr (i, k) ↦
            rw (k, conclude_with)
              (_, p.eligible, integrate-Merging git S.root S.base branch p.eligible start i k)
      ]

  go_on-MergedBy :
      (g : WorktreeGuard) (made : Option (List (Worktree × SubTask))) (r : git.Repo)
      → MergedBy H session (integration_of (go_on H S session task g made r).result)
  go_on-MergedBy g none r = tt
  go_on-MergedBy g (some wts) r =
      let p = settled H S session task wts r in conclude_with-MergedBy g p p.eligible

branches-runs :
    (H : Host) (S : Setting) (lost : List ℕ) (runs : List CoderRun) (os : List CoderOutcome)
    → Pairs (IsOutcome H S lost) runs os
    → all_branches os ≡ map (λ (run : CoderRun). run.branch) runs
branches-runs H S lost [] [] h = refl
branches-runs H S lost (run ∷ runs) (o ∷ os) ((_, (_, (_, (e, _)))), h) =
    ground (arith, e, branches-runs H S lost runs os h)
branches-runs H S lost [] (o ∷ os) h = absurd h
branches-runs H S lost (run ∷ runs) [] h = absurd h

branches-run_of :
    (joins : ℕ → Joined) (wts : List (Worktree × SubTask))
    → map (λ (run : CoderRun). run.branch) (map (run_of joins) wts) ≡ map branch_of wts
branches-run_of joins [] = refl
branches-run_of joins ((wt, st) ∷ wts) =
    ap (λ (xs : List String). wt.branch ∷ xs) (branches-run_of joins wts)

branches-worktrees :
    (wts : List (Worktree × SubTask))
    → map (λ (w : Worktree). w.branch) (map (λ (w : Worktree × SubTask). w.0) wts)
      ≡ map branch_of wts
branches-worktrees [] = refl
branches-worktrees ((wt, st) ∷ wts) =
    ap (λ (xs : List String). wt.branch ∷ xs) (branches-worktrees wts)

module _ (H : Host) (S : Setting) (session task : String) where
  open H use {git}

  -- What settling the runs of all worktrees leaves in the variables of the loop.
  pub settled-facts :
      (wts : List (Worktree × SubTask)) (r : git.Repo)
      → let p = settled H S session task wts r in
        (all_branches p.outcomes ≡ map branch_of wts)
        × ((p.eligible ≡ branches p.outcomes) × (p.events ≡ map finished_event p.outcomes))
  unfolding settled
  settled-facts wts r =
      let (after, joins) = H.run_coders wts r in
      let runs = map (run_of joins) wts in
      let (os, (pairs, (outcomes, (eligible, events)))) =
        settle_all-Adds H S (lost joins wts) runs (started H S session task after) in
      (
        ap all_branches outcomes
            ∙ branches-runs H S (lost joins wts) runs os pairs
            ∙ branches-run_of joins wts,
        (
          eligible ∙ sym (ap (λ (xs : List CoderOutcome). branches xs) outcomes),
          events ∙ sym (ap (λ (xs : List CoderOutcome). map finished_event xs) outcomes),
        ),
      )

  -- The branches of the outcomes are different.
  pub settled-distinct :
      (pool : WorktreePool) (subtasks : List SubTask) (wts : List (Worktree × SubTask))
      (r : git.Repo)
      → wts ≡ numbered pool 0 subtasks
      → distinct (all_branches (settled H S session task wts r).outcomes) ≡ true
  settled-distinct pool subtasks wts r e =
      ap (λ (xs : List String). distinct xs)
        ((settled-facts wts r).0 ∙ ap (λ (xs : List (Worktree × SubTask)). map branch_of xs) e)
      ∙ distinct-numbered pool 0 subtasks

  go_on-Kept :
      (pool : WorktreePool) (subtasks : List SubTask)
      (x : git.Repo × (WorktreeGuard × Option (List (Worktree × SubTask))))
      → Created H S session task (guard pool) 0 subtasks [] x
      → Kept (go_on H S session task x.1.0 x.1.1 x.0)
  unfolding guard
  go_on-Kept pool subtasks (r, (g, none)) m = (refl, deleted-unmarked H S session task g m)
  go_on-Kept pool subtasks (r, (g, some wts)) (m, (e, ws)) =
      let p = settled H S session task wts r in
      let (here, (eligible, _)) = settled-facts wts r in
      conclude_with-Kept H S session task g p p.eligible m refl eligible
        (ap (λ (ws : List Worktree). map (λ w. w.branch) ws) ws
          ∙ branches-worktrees (numbered pool 0 subtasks)
          ∙ ap (λ (xs : List (Worktree × SubTask)). map branch_of xs) (sym e)
          ∙ sym here)
        (settled-distinct pool subtasks wts r e)

  -- However a fan-out with a guard ends, the integration branch of its result has merged exactly the
  -- branches of the outcomes that it reports as integrated, in order, which are those, of the
  -- branches to be integrated, whose merges git answered with success; and the drop of the guard
  -- deletes exactly these: none after an error.
  pub guarded-Kept :
      (pool : WorktreePool) (subtasks : List SubTask) (r : git.Repo)
      → Kept (guarded H S session task pool subtasks r)
        × MergedBy H session (integration_of (guarded H S session task pool subtasks r).result)
  unfolding guarded
  guarded-Kept pool subtasks r =
      let start = create_all H S session task (guard pool) 0 subtasks [] r in
      (
        go_on-Kept pool subtasks start
            (create_all-Created H S session task (guard pool) 0 subtasks [] r),
        go_on-MergedBy H S session task start.1.0 start.1.1 start.0,
      )
