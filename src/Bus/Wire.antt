-- ===== src/Bus/Wire.antt =====
-- The wire form loses nothing, and a subject names its kind (crates/bus/src/event.rs).
use entheai.Base.{String, ◌≡◌, ◌↔◌, refl, sym, ap, ◌∙◌, if◌then◌else◌, arith, ◌=?◌, string_eq, ℕ}
use entheai.Bus.{FanoutEvent, BusEvent, subject_suffix, from_fanout}

-- The kind of an event, without its fields.
abbrev pub kind : BusEvent → ℕ
kind BusEvent.fallback = 0
kind (BusEvent.decomposed _) = 1
kind (BusEvent.coder_started _ _ _) = 2
kind (BusEvent.coder_finished _ _ _) = 3
kind (BusEvent.integrating _) = 4
kind (BusEvent.done _ _ _) = 5

-- A subscriber's reading of a suffix.
abbrev pub kind_of : String → ℕ
kind_of s =
    if s =? "fallback"
    then 0
    else if s =? "decomposed"
    then 1
    else if s =? "coder.started"
    then 2
    else if s =? "coder.finished"
    then 3
    else if s =? "integrating"
    then 4
    else 5

kind_of-subject_suffix : (e : BusEvent) → kind_of (subject_suffix e) ≡ kind e
unfolding subject_suffix
kind_of-subject_suffix BusEvent.fallback = refl
kind_of-subject_suffix _ = refl

subject_suffix-kind : (e f : BusEvent) → kind e ≡ kind f → subject_suffix e ≡ subject_suffix f
unfolding subject_suffix
subject_suffix-kind e f h = ground arith

abbrev to_fanout : BusEvent → FanoutEvent
to_fanout BusEvent.fallback = FanoutEvent.fallback
to_fanout (BusEvent.decomposed tasks) = FanoutEvent.decomposed tasks
to_fanout (BusEvent.coder_started index role task) = FanoutEvent.coder_started index role task
to_fanout (BusEvent.coder_finished index committed status) =
    FanoutEvent.coder_finished index committed status
to_fanout (BusEvent.integrating branches) = FanoutEvent.integrating branches
to_fanout (BusEvent.done branch merged conflicted) = FanoutEvent.done branch merged conflicted

to_fanout-from_fanout : (e : FanoutEvent) → to_fanout (from_fanout e) ≡ e
unfolding from_fanout
to_fanout-from_fanout FanoutEvent.fallback = refl
to_fanout-from_fanout _ = refl

-- The wire form loses nothing: two fan-out events with one wire event are equal. Two events are
-- published under one subject suffix exactly when they are of one kind.
pub from_fanout-injective :
    (e f : FanoutEvent)
    → (from_fanout e ≡ from_fanout f → e ≡ f)
      × ((subject_suffix (from_fanout e) ≡ subject_suffix (from_fanout f))
          ↔ (kind (from_fanout e) ≡ kind (from_fanout f)))
from_fanout-injective e f = (
  λ h. sym (to_fanout-from_fanout e) ∙ ap to_fanout h ∙ to_fanout-from_fanout f,
  (
    λ h.
        sym (kind_of-subject_suffix (from_fanout e))
        ∙ ap kind_of h
        ∙ kind_of-subject_suffix (from_fanout f),
    subject_suffix-kind (from_fanout e) (from_fanout f),
  ),
)
