-- ===== src/Fanout/Report.antt =====
-- crates/orchestrator/src/lib.rs: the status that `format_v2_report` gives an outcome.
use entheai.Base.{
  ℕ, zero, suc, ◌≡◌, refl, String, Bool, true, false, some, List, [], ◌∷◌, All, Bool-cases, inl,
  inr,
}
use entheai.Base.Decimal.{◌+s+◌}
use entheai.Base.Text.{codes, starts_with}
use entheai.Worktree.{Worktree, WorktreePool}
use entheai.Fanout.{
  Host, SubTask, CoderOutcome, VerifyStatus, no_changes, skipped, unverifiable, passed, failed,
}
use entheai.Fanout.Settle.{Setting}
use entheai.Fanout.Sound.{Pairs}
use entheai.Fanout.Numbered.{numbered}
use entheai.Fanout.Reported.{IsReport, guarded-Pairs}
use entheai.Fanout.Run.{guarded, FanoutRun}
use entheai.Fanout.Verify.{tail_chars}

-- The first characters of a text, as a slice of a text of ASCII.
abbrev head_chars : ℕ → String → String
head_chars zero s = String.[]
head_chars (suc n) String.[] = String.[]
head_chars (suc n) (String.◌∷◌ c s) = String.◌∷◌ c (head_chars n s)

abbrev integrated_text : VerifyStatus → String
integrated_text (passed seal) =
    "integrated ✓ — seal " +s+ head_chars 12 seal.seal +s+ " (verify: " +s+ seal.verify_cmd +s+ ")"
integrated_text _ = "integrated ✓ (UNVERIFIED — [fanout].verify_required = false)"

abbrev left_text : VerifyStatus → String → String
left_text (failed msg) branch =
    "changes not integrated (verify failed: "
    +s+ tail_chars msg 500
    +s+ ") — left on branch "
    +s+ branch
left_text unverifiable branch =
    "changes not integrated (no verify command — set [fanout].verify or add scripts/check.sh) — left on branch "
    +s+ branch
left_text _ branch = "changes on branch " +s+ branch +s+ " (unverified)"

-- By `timed_out`, `oracle_rejected`, `conflicted`, `committed` and `integrated`.
abbrev status_for : Bool → Bool → Bool → Bool → Bool → VerifyStatus → String → String
status_for true _ _ _ _ verify branch = "timed out — not integrated"
status_for false true _ _ _ verify branch = "oracle rejected — left on branch " +s+ branch
status_for false false true _ _ verify branch = "merge conflict — left on branch " +s+ branch
status_for false false false false _ verify branch = "no changes"
status_for false false false true true verify branch = integrated_text verify
status_for false false false true false verify branch = left_text verify branch

unfoldable pub report_status : CoderOutcome → String
unfolding tail_chars
report_status o =
    status_for o.timed_out o.oracle_rejected o.conflicted o.committed o.integrated o.verify o.branch

-- Whether the report calls an outcome integrated.
abbrev pub says_integrated : CoderOutcome → Bool
says_integrated o = starts_with (codes (report_status o)) (codes "integrated ")

integrated_text-says :
    (v : VerifyStatus) → starts_with (codes (integrated_text v)) (codes "integrated ") ≡ true
unfolding starts_with
integrated_text-says (passed seal) = refl
integrated_text-says (failed _) = refl
integrated_text-says no_changes = refl
integrated_text-says skipped = refl
integrated_text-says unverifiable = refl

left_text-says :
    (v : VerifyStatus) (b : String)
    → starts_with (codes (left_text v b)) (codes "integrated ") ≡ false
unfolding starts_with
left_text-says (passed seal) b = refl
left_text-says (failed _) b = refl
left_text-says no_changes b = refl
left_text-says skipped b = refl
left_text-says unverifiable b = refl

status_for-says :
    (t r c k : Bool) (v : VerifyStatus) (b : String)
    → starts_with (codes (status_for t r c k false v b)) (codes "integrated ") ≡ false
unfolding starts_with
status_for-says true r c k v b = refl
status_for-says false true c k v b = refl
status_for-says false false true k v b = refl
status_for-says false false false false v b = refl
status_for-says false false false true v b = left_text-says v b

says_integrated-IsReport :
    (H : Host) (S : Setting) (w : Worktree × SubTask) (o : CoderOutcome)
    → IsReport H S w o
    → says_integrated o ≡ o.integrated
unfolding report_status
says_integrated-IsReport H S (wt, st) o (_, (_, (_, (_, h)))) = elim (Bool-cases o.integrated) [
  | inl e ↦
      let (committed, (kept, (accepted, (clean, _)))) = h e in
      rw (kept, accepted, clean, committed, e) (integrated_text-says o.verify)
  | inr e ↦
      rw e
        (status_for-says o.timed_out o.oracle_rejected o.conflicted o.committed o.verify o.branch)
]

says_integrated-All :
    (H : Host) (S : Setting) (ws : List (Worktree × SubTask)) (os : List CoderOutcome)
    → Pairs (IsReport H S) ws os
    → All (λ (o : CoderOutcome). says_integrated o ≡ o.integrated) os
says_integrated-All H S [] [] h = tt
says_integrated-All H S (w ∷ ws) (o ∷ os) (is, h) =
    (says_integrated-IsReport H S w o is, says_integrated-All H S ws os h)
says_integrated-All H S [] (o ∷ os) h = absurd h
says_integrated-All H S (w ∷ ws) [] h = absurd h

-- The report of a fan-out calls exactly those outcomes integrated that are.
pub report_status-guarded :
    (H : Host) (S : Setting) (session task : String) (pool : WorktreePool) (subtasks : List SubTask)
    (r : H.git.Repo) (f : FanoutRun)
    → (guarded H S session task pool subtasks r).result ≡ some f
    → All (λ (o : CoderOutcome). says_integrated o ≡ o.integrated) f.outcomes
report_status-guarded H S session task pool subtasks r f e =
    says_integrated-All H S (numbered pool 0 subtasks) f.outcomes
      (guarded-Pairs H S session task pool subtasks r f e)
