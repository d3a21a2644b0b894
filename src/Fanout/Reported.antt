-- ===== src/Fanout/Reported.antt =====
-- crates/orchestrator/src/lib.rs: the outcomes that a fan-out with a guard returns.
use entheai.Base.{
  ℕ, ◌≡◌, refl, sym, ap, ◌∙◌, subst, String, true, false, Option, none, some, List, [], ◌∷◌, map,
  arith, string_eq, Bool-cases, Option-cases, inl, inr,
}
use entheai.Base.Sets.{member}
use entheai.Worktree.{Worktree, WorktreePool, WorktreeGuard, guard, integrate, integration_branch}
use entheai.Fanout.{Host, SubTask, CoderOutcome, Joined}
use entheai.Fanout.Settle.{Setting, Progress}
use entheai.Fanout.Sound.{Pairs, Earned, settle_all-Adds, IsOutcome}
use entheai.Fanout.Numbered.{numbered, Created, create_all-Created}
use entheai.Fanout.Run.{
  create_all, run_of, started, lost, after_merge, guarded, go_on, conclude_with, settled, g3,
  FanoutRun,
}

module _ (H : Host) (S : Setting) where
  -- What an outcome tells of the worktree and the sub-task of its coder.
  abbrev pub IsReport : Worktree × SubTask → CoderOutcome → Type 0
  IsReport (wt, st) o =
      (o.index ≡ wt.index)
      × ((o.role ≡ st.role)
          × ((o.task ≡ st.task)
              × ((o.branch ≡ wt.branch)
                  × ((o.integrated ≡ true)
                      → (o.committed ≡ true)
                        × ((o.timed_out ≡ false)
                            × ((o.oracle_rejected ≡ false)
                                × ((o.conflicted ≡ false)
                                    × Earned H S wt.path st.role st.task o.verify)))))))

  after_merge-IsReport :
      (lost : List ℕ) (joins : ℕ → Joined) (w : Worktree × SubTask) (c : List String)
      (o : CoderOutcome)
      → IsOutcome H S lost (run_of joins w) o
      → IsReport w (after_merge c o)
  after_merge-IsReport lost joins (wt, st) c o (e0, (e1, (e2, (e3, (e4, (_, h)))))) =
      elim (Bool-cases (member o.branch c)) [
        | inl k ↦ rw k (e0, (e1, (e2, (e3, λ i. absurd (ground (arith, i))))))
        | inr k ↦
            rw k (e0, (e1, (e2, (e3, λ i. let (a, (b, (d, f))) = h i in (a, (b, (d, (e4, f))))))))
      ]

  reports :
      (lost : List ℕ) (joins : ℕ → Joined) (c : List String) (ws : List (Worktree × SubTask))
      (os : List CoderOutcome)
      → Pairs (IsOutcome H S lost) (map (run_of joins) ws) os
      → Pairs IsReport ws (map (after_merge c) os)
  reports lost joins c [] [] h = tt
  reports lost joins c (w ∷ ws) (o ∷ os) (is, h) =
      (after_merge-IsReport lost joins w c o is, reports lost joins c ws os h)
  reports lost joins c [] (o ∷ os) h = absurd h
  reports lost joins c (w ∷ ws) [] h = absurd h

after_merge-none : (os : List CoderOutcome) → os ≡ map (after_merge []) os
after_merge-none [] = refl
after_merge-none (o ∷ os) = ap (λ (xs : List CoderOutcome). o ∷ xs) (after_merge-none os)

module _ (H : Host) (S : Setting) (session task : String) where
  open H use {git}

  conclude_with-outcomes :
      (g : WorktreeGuard) (p : Progress git.Repo) (el : List String) (f : FanoutRun)
      → (conclude_with H S session task g p el).result ≡ some f
      → (c : List String) × (f.outcomes ≡ map (after_merge c) p.outcomes)
  unfolding conclude_with
  conclude_with-outcomes g p [] f e = ([], ground (arith, e, after_merge-none p.outcomes))
  conclude_with-outcomes g p (b ∷ bs) f e =
      let start = g3 H S session task H.oracle p.eligible p.repo in
      let done = integrate git S.root S.base (integration_branch session) p.eligible start in
      elim (Option-cases done.1) [
        | inl k ↦ absurd (ground (arith, e, k))
        | inr (i, k) ↦ (i.conflicted, ground (arith, e, k))
      ]

  go_on-Pairs :
      (pool : WorktreePool) (subtasks : List SubTask)
      (x : git.Repo × (WorktreeGuard × Option (List (Worktree × SubTask)))) (f : FanoutRun)
      → Created H S session task (guard pool) 0 subtasks [] x
      → (go_on H S session task x.1.0 x.1.1 x.0).result ≡ some f
      → Pairs (IsReport H S) (numbered pool 0 subtasks) f.outcomes
  unfolding guard settled
  go_on-Pairs pool subtasks (r, (g, none)) f m e = absurd (ground (arith, e))
  go_on-Pairs pool subtasks (r, (g, some ws)) f (m, (new, _)) e =
      let (after, joins) = H.run_coders ws r in
      let (os, (pairs, (outcomes, _))) =
        settle_all-Adds H S (lost joins ws) (map (run_of joins) ws)
          (started H S session task after) in
      let p = settled H S session task ws r in
      let (c, final) = conclude_with-outcomes g p p.eligible f e in
      subst (λ (ws : List (Worktree × SubTask)). Pairs (IsReport H S) ws f.outcomes) new
        (subst (λ (os : List CoderOutcome). Pairs (IsReport H S) ws os)
          (sym (final ∙ ap (λ (os : List CoderOutcome). map (after_merge c) os) outcomes))
          (reports H S (lost joins ws) joins c ws os pairs))

  pub guarded-Pairs :
      (pool : WorktreePool) (subtasks : List SubTask) (r : git.Repo) (f : FanoutRun)
      → (guarded H S session task pool subtasks r).result ≡ some f
      → Pairs (IsReport H S) (numbered pool 0 subtasks) f.outcomes
  unfolding guarded
  guarded-Pairs pool subtasks r f e =
      go_on-Pairs pool subtasks (create_all H S session task (guard pool) 0 subtasks [] r) f
        (create_all-Created H S session task (guard pool) 0 subtasks [] r) e
