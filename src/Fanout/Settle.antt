-- ===== src/Fanout/Settle.antt =====
-- crates/orchestrator/src/lib.rs: step 4 of `run_fanout_detailed`, which commits, verifies and judges the
-- finished runs one after another. What is sent to the events' channel and to the trajectory sink
-- is kept in order; without a receiver nothing reads it.
use entheai.Base.{
  ℕ, String, Bool, true, false, not, ◌&&◌, Option, none, some, List, [], ◌∷◌, ◌++◌, if◌then◌else◌,
  nat_eq,
}
use entheai.Base.Decimal.{◌+s+◌}
use entheai.Base.Sets.{member}
use entheai.Bus.{FanoutEvent}
use entheai.Worktree.{commit_all}
use entheai.Oracle.{Oracle, OracleContext, coder_diff}
use entheai.Fanout.{
  Host, Config, CoderRun, CoderOutcome, VerifyStatus, no_changes, skipped, unverifiable, passed,
  failed,
}
use entheai.Fanout.Verify.{verify_worktree, resolve_verify}

pub data TrajectoryCall : Type 0 where
  ingest_failure ingest_sealed_success : String → TrajectoryCall

abbrev pub trajectory : VerifyStatus → List TrajectoryCall
trajectory (failed trace) = ingest_failure trace ∷ []
trajectory (passed seal) = ingest_sealed_success seal.seal ∷ []
trajectory _ = []

-- The text of the event that a coder has finished.
abbrev verified_text : VerifyStatus → String
verified_text (failed _) = "verify failed"
verified_text (passed _) = "verified + sealed"
verified_text skipped = "changes committed (unverified)"
verified_text unverifiable = "unverifiable — not integrated"
verified_text no_changes = "no changes"

unfoldable pub status_text : Bool → VerifyStatus → String
status_text committed verify = if committed then verified_text verify else "no changes"

-- `matches!(verify, Skipped | Passed(_))`.
abbrev pub acceptable : VerifyStatus → Bool
acceptable skipped = true
acceptable (passed _) = true
acceptable _ = false

-- The variables of the loop.
pub record Progress (Repo : Type 0) : Type 0 where
  pub repo : Repo
  pub outcomes : List CoderOutcome
  pub eligible : List String
  pub events : List FanoutEvent
  pub trajectories : List TrajectoryCall

-- What the fan-out has fixed before the loop.
pub record Setting : Type 0 where
  pub config : Config
  pub root : String
  pub base : String

abbrev pub timed_out_outcome : CoderRun → CoderOutcome
timed_out_outcome run = record {
  index = run.index;
  role = run.role;
  task = run.task;
  branch = run.branch;
  output = run.output;
  committed = false;
  verify = no_changes;
  integrated = false;
  conflicted = false;
  timed_out = true;
  oracle_rejected = false;
}

abbrev pub outcome : CoderRun → Bool → VerifyStatus → Bool → CoderOutcome
outcome run committed verify rejected = record {
  index = run.index;
  role = run.role;
  task = run.task;
  branch = run.branch;
  output = run.output;
  committed = committed;
  verify = verify;
  integrated = not rejected && committed && acceptable verify;
  conflicted = false;
  timed_out = false;
  oracle_rejected = rejected;
}

module _ (H : Host) (S : Setting) where
  open H use {git, Num}

  abbrev g2_context : CoderRun → git.Repo → OracleContext Num
  g2_context run r = record {
    task = run.task;
    mapped_files = [];
    diffs = (run.branch, run.output) ∷ [];
    attestations = H.sphere_attestations r;
    prior = [];
  }

  -- Whether the oracle, where there is one, excludes the run: its failure does not.
  unfoldable pub g2 : Option (Oracle Num git.Repo) → CoderRun → git.Repo → git.Repo × Bool
  g2 none run r = (r, false)
  g2 (some o) run r =
      let (after, answer) = o.adjudicate coder_diff (g2_context run r) r in
      elim answer [ none ↦ (after, false) | some adj ↦ (after, o.would_block adj) ]

  -- `commit_all(...).unwrap_or(false)`.
  abbrev pub commit_run : CoderRun → git.Repo → git.Repo × Bool
  commit_run run r =
      let (after, made) =
        commit_all git run.path ("entheai fan-out [" +s+ run.role +s+ "]: " +s+ run.task) r in
      elim made [ none ↦ (after, false) | some committed ↦ (after, committed) ]

  abbrev pub verify_run : CoderRun → Bool → git.Repo → git.Repo × VerifyStatus
  verify_run run false r = (r, no_changes)
  verify_run run true r =
      verify_worktree H run.path S.base (resolve_verify H S.config S.root r)
        S.config.verify_required r

  abbrev skip : CoderRun → Progress git.Repo → Progress git.Repo
  skip run p = record p {
    outcomes = p.outcomes ++ timed_out_outcome run ∷ [];
    events =
        p.events ++ FanoutEvent.coder_finished run.index false "timed out — not integrated" ∷ [];
  }

  abbrev pub conclude :
      CoderRun → Bool → VerifyStatus → Bool → git.Repo → Progress git.Repo → Progress git.Repo
  conclude run committed verify rejected r p =
      let o = outcome run committed verify rejected in
      record {
        repo = r;
        outcomes = p.outcomes ++ o ∷ [];
        eligible = if o.integrated then p.eligible ++ run.branch ∷ [] else p.eligible;
        events =
            p.events
            ++ FanoutEvent.coder_finished run.index committed (status_text committed verify) ∷ [];
        trajectories = p.trajectories ++ trajectory verify;
      }

  abbrev finish : CoderRun → Progress git.Repo → Progress git.Repo
  finish run p =
      let (r1, committed) = commit_run run p.repo in
      let (r2, verify) = verify_run run committed r1 in
      let (r3, rejected) = g2 H.oracle run r2 in conclude run committed verify rejected r3 p

  -- One turn of the loop.
  unfoldable pub settle : List ℕ → CoderRun → Progress git.Repo → Progress git.Repo
  unfolding g2 status_text
  settle timed_out run p = if member run.index timed_out then skip run p else finish run p

  unfoldable pub settle_all : List ℕ → List CoderRun → Progress git.Repo → Progress git.Repo
  unfolding settle
  settle_all timed_out [] p = p
  settle_all timed_out (run ∷ runs) p = settle_all timed_out runs (settle timed_out run p)
