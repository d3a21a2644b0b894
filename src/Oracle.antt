-- ===== src/Oracle.antt =====
-- crates/orchestrator/src/oracle.rs: the verdicts on a phase of a fan-out, the gate that may block, and the
-- reading of the adjudicator's reply. `f32` is a type with the order that the program tests.
pub mod Reply
use entheai.Base.{ℕ, suc, String, Bool, true, false, ◌&&◌, Option, none, some, List, [], ◌∷◌}

pub data Phase : Type 0 where
  decompose coder_diff integration : Phase

pub data OracleBackend : Type 0 where
  hermes : String → String → OracleBackend
  open_claw agent_field : String → OracleBackend
  open_ai_compatible : String → String → String → OracleBackend
  native : String → OracleBackend

pub data Verdict : Type 0 where
  approve : Verdict
  rework : String → Option OracleBackend → Verdict
  reject : String → Verdict

pub data AttestationKind : Type 0 where
  file_op egress merge : AttestationKind

pub record Attestation : Type 0 where
  pub ts : ℕ
  pub pid : ℕ
  pub proc : String
  pub kind : AttestationKind
  pub path : Option String
  pub hash : List ℕ

pub record OracleAdjudication (Num : Type 0) : Type 0 where
  pub phase : Phase
  pub verdict : Verdict
  pub confidence : Num
  pub attestations : List Attestation

pub record OracleContext (Num : Type 0) : Type 0 where
  pub task : String
  pub mapped_files : List String
  pub diffs : List (String × String)
  pub attestations : List Attestation
  pub prior : List (OracleAdjudication Num)

-- The trait: an adjudication is a call on the machine's state that may fail.
pub record Oracle (Num State : Type 0) : Type 0 where
  pub adjudicate : Phase → OracleContext Num → State → State × Option (OracleAdjudication Num)
  pub would_block : OracleAdjudication Num → Bool

pub data GateMode : Type 0 where
  advisory block : GateMode

-- The gate of a `FusionOracle`, which is all that its `would_block` reads.
pub record Gate (Num : Type 0) : Type 0 where
  pub gate : GateMode
  pub block_confidence : Num

abbrev blocks : GateMode → Bool
blocks block = true
blocks advisory = false

-- Whether a verdict asks for another pass, or rejects.
abbrev pub objects : Verdict → Bool
objects approve = false
objects (rework _ _) = true
objects (reject _) = true

unfoldable pub gate_would_block :
    {Num : Type 0} → (Num → Num → Bool) → Gate Num → OracleAdjudication Num → Bool
gate_would_block geb g a =
    blocks g.gate && (objects a.verdict && geb a.confidence g.block_confidence)

-- `NoOpOracle`.
unfoldable pub no_op_oracle : {Num : Type 0} (State : Type 0) → Num → Oracle Num State
no_op_oracle State zero = record {
  adjudicate = λ phase ctx s.
      (s, some (record { phase = phase; verdict = approve; confidence = zero; attestations = [] }));
  would_block = λ a. false;
}
