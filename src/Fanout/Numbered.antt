-- ===== src/Fanout/Numbered.antt =====
-- crates/orchestrator/src/lib.rs: the worktrees of a fan-out, step 2: their names differ, and the
-- guard tracks them.
use entheai.Base.{
  ℕ, suc, ◌≤◌, ◌⊎◌, ◌≡◌, refl, sym, ◌∙◌, subst, String, true, false, Option, none, some, List, [],
  ◌∷◌, ◌++◌, map, arith, string_eq, Bool-cases, Option-cases, inl, inr, ◌=?◌,
}
use mathlib.Core.List.{append-nil, append_assoc}
use entheai.Base.Sets.{member, distinct}
use entheai.Worktree.{
  Worktree, WorktreePool, WorktreeGuard, guard_create, create, must, worktree_add, coder_branch,
  coder_path,
}
use entheai.Worktree.Branches.{coder_branch-injective}
use entheai.Fanout.{Host, SubTask}
use entheai.Fanout.Settle.{Setting}
use entheai.Fanout.Run.{create_all}

-- The worktrees of sub-tasks, numbered from `i` on.
abbrev pub worktree_at : WorktreePool → ℕ → Worktree
worktree_at pool i = record {
  path = coder_path pool.dir i;
  branch = coder_branch pool.session i;
  index = i;
}

abbrev pub numbered : WorktreePool → ℕ → List SubTask → List (Worktree × SubTask)
numbered pool i [] = []
numbered pool i (st ∷ sts) = (worktree_at pool i, st) ∷ numbered pool (suc i) sts

abbrev pub branch_of : Worktree × SubTask → String
branch_of (wt, st) = wt.branch

later :
    (pool : WorktreePool) (i j : ℕ) (sts : List SubTask)
    → suc i ≤ j
    → member (coder_branch pool.session i) (map branch_of (numbered pool j sts)) ≡ false
later pool i j [] h = refl
later pool i j (st ∷ sts) h =
    let rest = later pool i (suc j) sts (ground (arith, h)) in
    elim (Bool-cases (coder_branch pool.session j =? coder_branch pool.session i)) [
      | inl e ↦
          let same = coder_branch-injective pool.session j i ((string_eq.beq_iff _ _).0 e) in
          absurd (ground (arith, h, same))
      | inr e ↦ rw e rest
    ]

-- No two coders work on one branch.
pub distinct-numbered :
    (pool : WorktreePool) (i : ℕ) (sts : List SubTask)
    → distinct (map branch_of (numbered pool i sts)) ≡ true
distinct-numbered pool i [] = refl
distinct-numbered pool i (st ∷ sts) =
    rw (later pool i (suc i) sts (ground arith)) (distinct-numbered pool (suc i) sts)

module _ (H : Host) (S : Setting) (session task : String) where
  open H use {git}

  -- The worktrees that a call of `create_all` adds to a guard, and to the list that it returns.
  abbrev pub Created :
      WorktreeGuard
      → ℕ
      → List SubTask
      → List (Worktree × SubTask)
      → git.Repo × (WorktreeGuard × Option (List (Worktree × SubTask)))
      → Type 0
  Created g i sts wts (r, (g', none)) = g'.merged ≡ g.merged
  Created g i sts wts (r, (g', some new)) =
      (g'.merged ≡ g.merged)
      × ((new ≡ wts ++ numbered g.pool i sts)
          × (g'.worktrees
              ≡ g.worktrees ++ map (λ (w : Worktree × SubTask). w.0) (numbered g.pool i sts)))

  guard_create-cases :
      (g : WorktreeGuard) (i : ℕ) (r : git.Repo)
      → ((guard_create git g i r).1 ≡ none)
        ⊎ ((guard_create git g i r).1
            ≡ some (
              worktree_at g.pool i,
              record g { worktrees = g.worktrees ++ worktree_at g.pool i ∷ [] },
            ))
  unfolding guard_create create
  guard_create-cases g i r =
      let add =
        worktree_add (coder_branch g.pool.session i) (coder_path g.pool.dir i) g.pool.base in
      elim (Option-cases (must git g.pool.root add r).1) [
        | inl e ↦ inl (ground (arith, e))
        | inr (a, e) ↦ inr (ground (arith, e))
      ]

  Created-step :
      (g : WorktreeGuard) (i : ℕ) (st : SubTask) (sts : List SubTask)
      (wts : List (Worktree × SubTask))
      (x : git.Repo × (WorktreeGuard × Option (List (Worktree × SubTask))))
      → Created
          (record g { worktrees = g.worktrees ++ worktree_at g.pool i ∷ [] })
          (suc i)
          sts
          (wts ++ (worktree_at g.pool i, st) ∷ [])
          x
      → Created g i (st ∷ sts) wts x
  Created-step g i st sts wts (r, (g', none)) h = h
  Created-step g i st sts wts (r, (g', some new)) (e0, (e1, e2)) = (
    e0,
    (
      e1 ∙ append_assoc wts ((worktree_at g.pool i, st) ∷ []) _,
      e2 ∙ append_assoc g.worktrees (worktree_at g.pool i ∷ []) _,
    ),
  )

  pub create_all-Created :
      (g : WorktreeGuard) (i : ℕ) (sts : List SubTask) (wts : List (Worktree × SubTask))
      (r : git.Repo)
      → Created g i sts wts (create_all H S session task g i sts wts r)
  unfolding create_all
  create_all-Created g i [] wts r = (refl, (sym (append-nil wts), sym (append-nil g.worktrees)))
  create_all-Created g i (st ∷ sts) wts r =
      let wt = worktree_at g.pool i in
      let g' = record g { worktrees = g.worktrees ++ wt ∷ [] } in
      let after = (guard_create git g i r).0 in
      let wts' = wts ++ (wt, st) ∷ [] in
      elim (guard_create-cases g i r) [
        | inl e ↦
            let same : (after, (g, none)) ≡ create_all H S session task g i (st ∷ sts) wts r =
              ground (arith, e) in
            subst (Created g i (st ∷ sts) wts) same refl
        | inr e ↦
            let next = create_all H S session task g' (suc i) sts wts' after in
            let same : next ≡ create_all H S session task g i (st ∷ sts) wts r =
              ground (arith, e) in
            subst (Created g i (st ∷ sts) wts) same
              (Created-step g i st sts wts next (create_all-Created g' (suc i) sts wts' after))
      ]
