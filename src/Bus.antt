-- ===== src/Bus.antt =====
-- The fan-out events of crates/orchestrator/src/lib.rs and their wire form in crates/bus/src/event.rs.
-- The JSON text is serde's and is not modelled.
pub mod Wire
use entheai.Base.{ℕ, String, Bool, Option, List}

pub data FanoutEvent : Type 0 where
  fallback : FanoutEvent
  decomposed : List (String × String) → FanoutEvent
  coder_started : ℕ → String → String → FanoutEvent
  coder_finished : ℕ → Bool → String → FanoutEvent
  integrating : ℕ → FanoutEvent
  done : Option String → ℕ → ℕ → FanoutEvent

pub data BusEvent : Type 0 where
  fallback : BusEvent
  decomposed : List (String × String) → BusEvent
  coder_started : ℕ → String → String → BusEvent
  coder_finished : ℕ → Bool → String → BusEvent
  integrating : ℕ → BusEvent
  done : Option String → ℕ → ℕ → BusEvent

unfoldable pub subject_suffix : BusEvent → String
subject_suffix BusEvent.fallback = "fallback"
subject_suffix (BusEvent.decomposed _) = "decomposed"
subject_suffix (BusEvent.coder_started _ _ _) = "coder.started"
subject_suffix (BusEvent.coder_finished _ _ _) = "coder.finished"
subject_suffix (BusEvent.integrating _) = "integrating"
subject_suffix (BusEvent.done _ _ _) = "done"

-- `impl From<&FanoutEvent> for BusEvent`.
unfoldable pub from_fanout : FanoutEvent → BusEvent
from_fanout FanoutEvent.fallback = BusEvent.fallback
from_fanout (FanoutEvent.decomposed tasks) = BusEvent.decomposed tasks
from_fanout (FanoutEvent.coder_started index role task) = BusEvent.coder_started index role task
from_fanout (FanoutEvent.coder_finished index committed status) =
    BusEvent.coder_finished index committed status
from_fanout (FanoutEvent.integrating branches) = BusEvent.integrating branches
from_fanout (FanoutEvent.done branch merged conflicted) = BusEvent.done branch merged conflicted
