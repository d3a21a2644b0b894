-- ===== src/Fanout/Sound.antt =====
-- crates/orchestrator/src/lib.rs: what settling the runs gives: one outcome for each run, in order, and
-- what an outcome that counts as integrated has earned.
use entheai.Base.{
  ℕ, ◌≡◌, ◌⊎◌, Option-cases, refl, sym, ap, ◌∙◌, String, Bool, true, false, not, ◌&&◌, Option, none,
  some, List, [], ◌∷◌, ◌++◌, map, keep, if◌then◌else◌, arith, nat_eq, Bool-cases, inl, inr,
}
use mathlib.Core.List.{append-nil, append_assoc}
use entheai.Base.Sets.{member}
use entheai.Base.Decimal.{◌+s+◌}
use entheai.Worktree.{commit_all}
use entheai.Bus.{FanoutEvent}
use entheai.Fanout.{
  Host, CoderRun, CoderOutcome, VerifyStatus, skipped, unverifiable, passed, ShellOutput, output,
  spawn_error,
}
use entheai.Fanout.Decompose.{or_else}
use entheai.Fanout.Verify.{compute, judge, verify_worktree, resolve_verify}
use entheai.Fanout.Settle.{
  Setting, Progress, settle, settle_all, status_text, acceptable, commit_run, g2, conclude,
  verify_run, outcome, timed_out_outcome,
}

-- The outcome of each run, in order.
abbrev pub Pairs : {A B : Type 0} → (A → B → Type 0) → List A → List B → Type 0
Pairs R [] [] = Unit
Pairs R (a ∷ as') (b ∷ bs) = R a b × Pairs R as' bs
Pairs R _ _ = ⊥

-- The event that reports an outcome.
abbrev pub finished_event : CoderOutcome → FanoutEvent
finished_event o =
    if o.timed_out
    then FanoutEvent.coder_finished o.index false "timed out — not integrated"
    else FanoutEvent.coder_finished o.index o.committed (status_text o.committed o.verify)

abbrev pub branches : List CoderOutcome → List String
branches os = map (λ (o : CoderOutcome). o.branch) (keep (λ (o : CoderOutcome). o.integrated) os)

module _ (H : Host) (S : Setting) where
  -- The verify command, and that there is none.
  abbrev pub IsCommand : H.git.Repo → String → Type 0
  IsCommand r cmd =
      (S.config.verify ≡ some cmd)
      ⊎ ((S.config.verify ≡ none)
          × (H.is_file (S.root +s+ "/scripts/check.sh") r ≡ true)
          × (cmd ≡ "./scripts/check.sh"))

  abbrev pub NoCommand : H.git.Repo → Type 0
  NoCommand r = (S.config.verify ≡ none) × (H.is_file (S.root +s+ "/scripts/check.sh") r ≡ false)

  -- A state in which the changes of a sub-task have just been committed in its worktree.
  abbrev pub Committed : String → String → String → H.git.Repo → Type 0
  Committed path role task r =
      (before : H.git.Repo) × (commit_all H.git path
          ("entheai fan-out [" +s+ role +s+ "]: " +s+ task) before
        ≡ (r, some true))

  -- What lets a run through, right after its commit: the verify command, run in the run's worktree, exited
  -- with success, and the seal is that of the diff at that moment, of its output and of the command;
  -- or there is no command, and none is required.
  abbrev pub Earned : String → String → String → VerifyStatus → Type 0
  Earned path role task (passed s) =
      (r : H.git.Repo) × (cmd : String) × (stderr : List ℕ) × (stdout : List ℕ) × Committed path
        role task r
      × IsCommand r cmd
      × ((H.sh path cmd r).1 ≡ output true stderr stdout)
      × (s
          ≡ compute H (or_else [] (H.raw_diff path S.base (H.sh path cmd r).0).1) (stderr ++ stdout)
              cmd)
  Earned path role task skipped =
      (r : H.git.Repo) × Committed path role task r
      × NoCommand r
      × (S.config.verify_required ≡ false)
  Earned path role task _ = ⊥

  resolve_verify-cases :
      (r : H.git.Repo)
      → ((resolve_verify H S.config S.root r ≡ none) × NoCommand r)
        ⊎ ((cmd : String) × (resolve_verify H S.config S.root r ≡ some cmd) × IsCommand r cmd)
  unfolding resolve_verify
  resolve_verify-cases r = elim (Option-cases S.config.verify) [
    | inl e ↦ elim (Bool-cases (H.is_file (S.root +s+ "/scripts/check.sh") r)) [
      | inl f ↦ inr ("./scripts/check.sh", rw (e, f) refl, inr (e, f, refl))
      | inr f ↦ inl (rw (e, f) refl, (e, f))
    ]
    | inr (cmd, e) ↦ inr (cmd, rw e refl, inl e)
  ]

  judge-Earned :
      (run : CoderRun) (cmd : String) (r : H.git.Repo) (x : H.git.Repo × ShellOutput)
      → Committed run.path run.role run.task r
      → IsCommand r cmd
      → H.sh run.path cmd r ≡ x
      → acceptable (judge H run.path S.base cmd x.1 x.0).1 ≡ true
      → Earned run.path run.role run.task (judge H run.path S.base cmd x.1 x.0).1
  judge-Earned run cmd r (after, spawn_error msg) made is e h = absurd (ground (arith, h))
  judge-Earned run cmd r (after, output false stderr stdout) made is e h =
      absurd (ground (arith, h))
  judge-Earned run cmd r (after, output true stderr stdout) made is e h = (
    r,
    cmd,
    stderr,
    stdout,
    made,
    is,
    ap (λ (x : H.git.Repo × ShellOutput). x.1) e,
    ap
        (λ (x : H.git.Repo × ShellOutput).
          compute H (or_else [] (H.raw_diff run.path S.base x.0).1) (stderr ++ stdout) cmd)
        (sym e),
  )

  skipped-Earned :
      (run : CoderRun) (required : Bool) (r : H.git.Repo)
      → S.config.verify_required ≡ required
      → Committed run.path run.role run.task r
      → NoCommand r
      → acceptable (if required then unverifiable else skipped) ≡ true
      → Earned run.path run.role run.task (if required then unverifiable else skipped)
  skipped-Earned run true r e made absent h = absurd (ground (arith, h))
  skipped-Earned run false r e made absent h = (r, made, absent, e)

  verify_worktree-Earned :
      (run : CoderRun) (r : H.git.Repo)
      → Committed run.path run.role run.task r
      → acceptable (verify_run H S run true r).1 ≡ true
      → Earned run.path run.role run.task (verify_run H S run true r).1
  unfolding verify_worktree
  verify_worktree-Earned run r made h = elim (resolve_verify-cases r) [
    | inl (e, absent) ↦
        rw (e, verify_worktree)
          (skipped-Earned run S.config.verify_required r refl made absent (
            sym (
              ap
                (λ (o : Option String).
                  acceptable (verify_worktree H run.path S.base o S.config.verify_required r).1)
                e)
            ∙ h))
    | inr (cmd, e, is) ↦
        rw (e, verify_worktree)
          (judge-Earned run cmd r (H.sh run.path cmd r) made is refl (
            sym (
              ap
                (λ (o : Option String).
                  acceptable (verify_worktree H run.path S.base o S.config.verify_required r).1)
                e)
            ∙ h))
  ]

  verify_run-Earned :
      (run : CoderRun) (committed : Bool) (r : H.git.Repo)
      → (committed ≡ true → Committed run.path run.role run.task r)
      → acceptable (verify_run H S run committed r).1 ≡ true
      → Earned run.path run.role run.task (verify_run H S run committed r).1
  verify_run-Earned run false r made h = absurd (ground (arith, h))
  verify_run-Earned run true r made h = verify_worktree-Earned run r (made refl) h

  -- What `unwrap_or(false)` makes of a commit.
  abbrev or_false : H.git.Repo × Option Bool → H.git.Repo × Bool
  or_false x = elim x.1 [ none ↦ (x.0, false) | some committed ↦ (x.0, committed) ]

  or_false-Committed :
      (run : CoderRun) (before : H.git.Repo) (x : H.git.Repo × Option Bool)
      → commit_all H.git run.path ("entheai fan-out [" +s+ run.role +s+ "]: " +s+ run.task) before
        ≡ x
      → (or_false x).1 ≡ true
      → Committed run.path run.role run.task (or_false x).0
  or_false-Committed run before (after, none) e h = absurd (ground (arith, h))
  or_false-Committed run before (after, some true) e h = (before, e)
  or_false-Committed run before (after, some false) e h = absurd (ground (arith, h))

  commit_run-Committed :
      (run : CoderRun) (before : H.git.Repo)
      → (commit_run H S run before).1 ≡ true
      → Committed run.path run.role run.task (commit_run H S run before).0
  commit_run-Committed run before =
      or_false-Committed run before
        (commit_all H.git run.path ("entheai fan-out [" +s+ run.role +s+ "]: " +s+ run.task) before)
        refl

  -- The outcome of a run: its names are the run's; a run that was lost counts as timed out; and an
  -- integrated one is committed, not lost, not rejected, and has earned it.
  abbrev pub IsOutcome : List ℕ → CoderRun → CoderOutcome → Type 0
  IsOutcome lost run o =
      (o.index ≡ run.index)
      × ((o.role ≡ run.role)
          × ((o.task ≡ run.task)
              × ((o.branch ≡ run.branch)
                  × ((o.conflicted ≡ false)
                      × ((o.timed_out ≡ member run.index lost)
                          × ((o.integrated ≡ true)
                              → (o.committed ≡ true)
                                × ((o.timed_out ≡ false)
                                    × ((o.oracle_rejected ≡ false)
                                        × Earned run.path run.role run.task o.verify))))))))

  -- What the loop adds to its variables, given by the new outcomes.
  abbrev pub Adds : Progress H.git.Repo → Progress H.git.Repo → List CoderOutcome → Type 0
  Adds p q os =
      (q.outcomes ≡ p.outcomes ++ os)
      × ((q.eligible ≡ p.eligible ++ branches os) × (q.events ≡ p.events ++ map finished_event os))

  timed_out-IsOutcome :
      (lost : List ℕ) (run : CoderRun)
      → member run.index lost ≡ true
      → IsOutcome lost run (timed_out_outcome run)
  timed_out-IsOutcome lost run h =
      (refl, (refl, (refl, (refl, (refl, (sym h, λ k. absurd (ground (arith, k))))))))

  outcome-IsOutcome :
      (lost : List ℕ) (run : CoderRun) (committed rejected : Bool) (verify : VerifyStatus)
      → member run.index lost ≡ false
      → (acceptable verify ≡ true → Earned run.path run.role run.task verify)
      → IsOutcome lost run (outcome run committed verify rejected)
  outcome-IsOutcome lost run committed rejected verify h earned = (
    refl,
    (
      refl,
      (
        refl,
        (
          refl,
          (
            refl,
            (
              sym h,
              λ k. (ground (arith, k), (refl, (ground (arith, k), earned (ground (arith, k))))),
            ),
          ),
        ),
      ),
    ),
  )

  conclude-Adds :
      (run : CoderRun) (committed rejected : Bool) (verify : VerifyStatus) (r : H.git.Repo)
      (p : Progress H.git.Repo)
      → Adds p
          (conclude H S run committed verify rejected r p)
          (outcome run committed verify rejected ∷ [])
  unfolding status_text
  conclude-Adds run committed rejected verify r p =
      elim (Bool-cases (not rejected && committed && acceptable verify)) [
        | inl e ↦ rw e (refl, (refl, refl))
        | inr e ↦ rw e (refl, (sym (append-nil p.eligible), refl))
      ]

  settle-Adds :
      (lost : List ℕ) (run : CoderRun) (p : Progress H.git.Repo)
      → (o : CoderOutcome) × (IsOutcome lost run o × Adds p (settle H S lost run p) (o ∷ []))
  unfolding settle
  settle-Adds lost run p = elim (Bool-cases (member run.index lost)) [
    | inl e ↦ (
      timed_out_outcome run,
      (timed_out-IsOutcome lost run e, rw e (refl, (sym (append-nil p.eligible), refl))),
    )
    | inr e ↦
        let (r1, committed) = commit_run H S run p.repo in
        let (r2, verify) = verify_run H S run committed r1 in
        let (r3, rejected) = g2 H S H.oracle run r2 in
        (
          outcome run committed verify rejected,
          (
            outcome-IsOutcome lost run committed rejected verify e
                (verify_run-Earned run committed r1 (commit_run-Committed run p.repo)),
            rw e (conclude-Adds run committed rejected verify r3 p),
          ),
        )
  ]

  branches-append :
      (o : CoderOutcome) (os : List CoderOutcome)
      → branches (o ∷ os) ≡ branches (o ∷ []) ++ branches os
  branches-append o os = ground arith

  Adds-trans :
      (p q t : Progress H.git.Repo) (o : CoderOutcome) (os : List CoderOutcome)
      → Adds p q (o ∷ [])
      → Adds q t os
      → Adds p t (o ∷ os)
  Adds-trans p q t o os (a0, (a1, a2)) (b0, (b1, b2)) = (
    b0 ∙ ap (λ (xs : List CoderOutcome). xs ++ os) a0 ∙ append_assoc p.outcomes (o ∷ []) os,
    (
      b1
          ∙ ap (λ (xs : List String). xs ++ branches os) a1
          ∙ append_assoc p.eligible (branches (o ∷ [])) (branches os)
          ∙ ap (λ (xs : List String). p.eligible ++ xs) (sym (branches-append o os)),
      b2
          ∙ ap (λ (xs : List FanoutEvent). xs ++ map finished_event os) a2
          ∙ append_assoc p.events (finished_event o ∷ []) (map finished_event os),
    ),
  )

  pub settle_all-Adds :
      (lost : List ℕ) (runs : List CoderRun) (p : Progress H.git.Repo)
      → (os : List CoderOutcome) × (Pairs (IsOutcome lost) runs os
          × Adds p (settle_all H S lost runs p) os)
  unfolding settle_all
  settle_all-Adds lost [] p = (
    [],
    (tt, (sym (append-nil p.outcomes), (sym (append-nil p.eligible), sym (append-nil p.events)))),
  )
  settle_all-Adds lost (run ∷ runs) p =
      let (o, (is, adds)) = settle-Adds lost run p in
      let q = settle H S lost run p in
      let (os, (rest, more)) = settle_all-Adds lost runs q in
      (o ∷ os, ((is, rest), Adds-trans p q (settle_all H S lost runs q) o os adds more))
