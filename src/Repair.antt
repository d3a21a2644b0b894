-- ===== src/Repair.antt =====
-- crates/orchestrator/src/repair_stop.rs: the ledger that governs a verify and repair loop.
-- Scores are `f64`, taken as a parameter. An index into `attempts` out of range panics: `none`.
-- `attempts.len() as u32` keeps the low 32 bits.
pub mod Incumbent
pub mod Stopping
pub mod Runs
use entheai.Base.{
  ℕ, ◌%◌, ◌^◌, String, Bool, true, false, not, ◌&&◌, Option, none, some, List, [], ◌∷◌, ◌++◌,
  length, get_elem?, all, ltb, ◌==◌, if◌then◌else◌, ◌>>=◌,
}
use entheai.Base.Float.{F64}

pub data StopReason : Type 0 where
  passed max_attempts no_marginal_value weak_verifier : StopReason

pub record RepairDecision : Type 0 where
  pub keep_repairing : Bool
  pub incumbent : Option String
  pub stop_reason : Option StopReason

abbrev pub as_u32 : ℕ → ℕ
as_u32 n = n % 2 ^ 32

module _ (F : F64) where
  open F use {Num, add, geb}

  pub record Attempt : Type 0 where
    pub passed : Bool
    pub score : Option Num
    pub candidate : String

  pub record RepairLedger : Type 0 where
    pub max_attempts : ℕ
    pub margin : Num
    pub attempts : List Attempt
    pub incumbent : Option ℕ

  unfoldable pub new : ℕ → Num → RepairLedger
  new n m = record { max_attempts = n; margin = F.max m F.zero; attempts = []; incumbent = none }

  -- The comparison of the two scores; with no gradient the earlier incumbent stays.
  abbrev pub clears : Num → Option Num → Option Num → Bool
  clears m (some c) (some i) = geb c (add i m)
  clears m (some c) none = false
  clears m none i = false

  -- The condition under which `cand` takes the place of the incumbent `inc`.
  unfoldable pub replaces : Num → Attempt → Attempt → Bool
  replaces m cand inc =
      if cand.passed && not inc.passed
      then true
      else if inc.passed
      then false
      else clears m cand.score inc.score

  abbrev pub replaces_current : Num → List Attempt → Attempt → Option ℕ → Option Bool
  replaces_current m attempts cand none = some true
  replaces_current m attempts cand (some cur) = do
    inc ← get_elem? attempts cur
    some (replaces m cand inc)

  unfoldable pub update_incumbent : RepairLedger → ℕ → Option RepairLedger
  update_incumbent l idx = do
    cand ← get_elem? l.attempts idx
    replace ← replaces_current l.margin l.attempts cand l.incumbent
    some (if replace then record l { incumbent = some idx } else l)

  abbrev pub owned : List Attempt → Option ℕ → Option (Option String)
  owned attempts none = some none
  owned attempts (some i) = do a ← get_elem? attempts i; some (some a.candidate)

  unfoldable pub incumbent_owned : RepairLedger → Option (Option String)
  incumbent_owned l = owned l.attempts l.incumbent

  unfoldable pub stop : RepairLedger → StopReason → Option RepairDecision
  unfolding incumbent_owned
  stop l r = do
    kept ← incumbent_owned l
    some (record { keep_repairing = false; incumbent = kept; stop_reason = some r })

  unfoldable pub continue : RepairLedger → Option RepairDecision
  unfolding incumbent_owned
  continue l = do
    kept ← incumbent_owned l
    some (record { keep_repairing = true; incumbent = kept; stop_reason = none })

  abbrev pub is_none : Option Num → Bool
  is_none none = true
  is_none (some _) = false

  abbrev pub is_at : Option ℕ → ℕ → Bool
  is_at none idx = false
  is_at (some i) idx = i == idx

  -- The rulings of `record` on the ledger that holds the attempt, in their order.
  unfoldable pub ruling : RepairLedger → Bool → ℕ → Option RepairDecision
  unfolding stop continue
  ruling l attempt_passed idx =
      if attempt_passed
      then stop l passed
      else if ltb l.max_attempts (as_u32 (length l.attempts))
      then stop l max_attempts
      else if all (λ a. is_none a.score) l.attempts
      then stop l weak_verifier
      else if not (is_at l.incumbent idx)
      then stop l no_marginal_value
      else continue l

  -- `RepairLedger::record`.
  unfoldable pub record_attempt : RepairLedger → Attempt → Option (RepairLedger × RepairDecision)
  unfolding update_incumbent ruling
  record_attempt l a = do
    let idx = length l.attempts
    l' ← update_incumbent (record l { attempts = l.attempts ++ a ∷ [] }) idx
    d ← ruling l' a.passed idx
    some (l', d)
