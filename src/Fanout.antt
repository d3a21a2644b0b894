-- ===== src/Fanout.antt =====
-- crates/orchestrator/src/lib.rs: the fan-out with one worktree for each coder. This file has its data, the
-- host that it calls (git, the shell, SHA-256, the coders) and the reading of a decomposition; the
-- children verify one worktree, settle the runs, and compose the whole.
pub mod Decompose
pub mod Policy
pub mod Verify
pub mod Settle
pub mod Run
pub mod Sound
pub mod Numbered
pub mod Selected
pub mod Branches
pub mod Reported
pub mod Events
pub mod Report
use entheai.Base.{ℕ, String, Bool, true, false, Option, none, some, List, [], ◌∷◌, ◌++◌}
use entheai.Worktree.{Git, Worktree, Attempt}
use entheai.Oracle.{Oracle, Attestation}

pub record SubTask : Type 0 where
  pub role : String
  pub task : String

pub record CoderRun : Type 0 where
  pub index : ℕ
  pub role : String
  pub task : String
  pub branch : String
  pub path : String
  pub output : String

pub record MergeSeal : Type 0 where
  pub diff_sha256 : String
  pub log_sha256 : String
  pub seal : String
  pub verify_cmd : String

pub data VerifyStatus : Type 0 where
  no_changes skipped unverifiable : VerifyStatus
  passed : MergeSeal → VerifyStatus
  failed : String → VerifyStatus

pub record CoderOutcome : Type 0 where
  pub index : ℕ
  pub role : String
  pub task : String
  pub branch : String
  pub output : String
  pub committed : Bool
  pub verify : VerifyStatus
  pub integrated : Bool
  pub conflicted : Bool
  pub timed_out : Bool
  pub oracle_rejected : Bool

-- The fields of the configuration that the fan-out reads.
pub record Config : Type 0 where
  pub verify : Option String
  pub verify_required : Bool

-- How `pool.join` ends for one coder: with its text, or with no run.
pub data Joined : Type 0 where
  ran : String → Joined
  killed timed_out : Joined

-- What `sh -c` gives: the exit status, the standard error and the standard output, or the text of
-- the error where it cannot be started.
pub data ShellOutput : Type 0 where
  output : Bool → List ℕ → List ℕ → ShellOutput
  spawn_error : String → ShellOutput

-- The calls that leave the crate. The coders run together: `run_coders` is what all of them do to
-- the machine until the last is joined, and how each ends.
pub record Host : Type 1 where
  pub git : Git
  pub is_file : String → git.Repo → Bool
  pub sh : String → String → git.Repo → git.Repo × ShellOutput
  pub raw_diff : String → String → git.Repo → git.Repo × Option (List ℕ)
  pub from_utf8_lossy : List ℕ → String
  pub sha256 : List ℕ → List ℕ
  pub sphere_attestations : git.Repo → List Attestation
  pub run_coders : List (Worktree × SubTask) → git.Repo → git.Repo × (ℕ → Joined)
  pub Num : Type 0
  pub oracle : Option (Oracle Num git.Repo)
