-- ===== src/Agent/Told.antt =====
-- crates/core/src/event_bridge.rs: what a run tells the interface.
use mathlib.Core.List.{append_assoc, append-nil}
use entheai.Base.{
  ℕ, ◌≡◌, refl, sym, ap, ◌∙◌, String, Bool, true, false, Option, none, some, List, [], ◌∷◌, ◌++◌,
  arith,
}
use entheai.Agent.{
  Json, Text, AgentEvent, thinking, tool_started, tool_finished, token, Run, Part, PartKind,
  function_call, function_response, other, Next, idle_timeout, failed, empty, event, on_delta,
  on_partial, on_turn, on_part, on_parts, on_event, drive, fallback, begin, run_of, concluded,
  run_with_events,
}

module _ (j : Json) where
  open j use {to_string}

  abbrev pub delta_events : Option Text → List AgentEvent
  delta_events none = []
  delta_events (some t) = token t ∷ []

  unfoldable pub tokens : List (Part j) → List AgentEvent
  tokens [] = []
  tokens (p ∷ ps) = delta_events p.text ++ tokens ps

  abbrev pub part_events : PartKind j → List AgentEvent
  part_events (function_call name v i) = tool_started name (to_string v) ∷ []
  part_events (function_response name v i) = tool_finished name (to_string v) ∷ thinking ∷ []
  part_events other = []

  unfoldable pub turn_events : List (Part j) → List AgentEvent
  turn_events [] = []
  turn_events (p ∷ ps) = part_events p.kind ++ turn_events ps

  -- A token for each delta, the start of each call, and the end of each response, behind which the
  -- model is asked again; until the stream ends or breaks.
  unfoldable pub told : List (Next j) → List AgentEvent
  unfolding tokens turn_events
  told [] = []
  told (event true ps ∷ es) = tokens ps ++ told es
  told (event false ps ∷ es) = turn_events ps ++ told es
  told (empty ∷ es) = told es
  told (idle_timeout ∷ es) = []
  told (failed ∷ es) = []

  sent-on_turn : (r : Run) (ps : List (Part j)) → (on_turn j r ps).sent ≡ r.sent
  unfolding on_turn
  sent-on_turn r ps = ground arith

  sent-on_delta : (r : Run) (t : Option Text) → (on_delta j r t).sent ≡ r.sent ++ delta_events t
  unfolding on_delta
  sent-on_delta r none = sym (append-nil r.sent)
  sent-on_delta r (some t) = refl

  sent-on_partial : (r : Run) (ps : List (Part j)) → (on_partial j r ps).sent ≡ r.sent ++ tokens ps
  unfolding on_partial tokens
  sent-on_partial r [] = sym (append-nil r.sent)
  sent-on_partial r (p ∷ ps) =
      sent-on_partial (on_delta j r p.text) ps
      ∙ ap (λ (s : List AgentEvent). s ++ tokens ps) (sent-on_delta r p.text)
      ∙ append_assoc r.sent (delta_events p.text) (tokens ps)

  module _ (new_v4 : ℕ → String) where
    sent-on_part :
        (r : Run) (k : PartKind j) → (on_part j new_v4 r k).sent ≡ r.sent ++ part_events k
    unfolding on_part
    sent-on_part r (function_call name v none) = refl
    sent-on_part r (function_call name v (some i)) = refl
    sent-on_part r (function_response name v i) = refl
    sent-on_part r other = sym (append-nil r.sent)

    sent-on_parts :
        (r : Run) (ps : List (Part j)) → (on_parts j new_v4 r ps).sent ≡ r.sent ++ turn_events ps
    unfolding on_parts turn_events
    sent-on_parts r [] = sym (append-nil r.sent)
    sent-on_parts r (p ∷ ps) =
        sent-on_parts (on_part j new_v4 r p.kind) ps
        ∙ ap (λ (s : List AgentEvent). s ++ turn_events ps) (sent-on_part r p.kind)
        ∙ append_assoc r.sent (part_events p.kind) (turn_events ps)

    sent-drive : (r : Run) (es : List (Next j)) → (drive j new_v4 r es).0.sent ≡ r.sent ++ told es
    unfolding drive on_event told
    sent-drive r [] = sym (append-nil r.sent)
    sent-drive r (idle_timeout ∷ es) = sym (append-nil r.sent)
    sent-drive r (failed ∷ es) = sym (append-nil r.sent)
    sent-drive r (empty ∷ es) = sent-drive r es
    sent-drive r (event true ps ∷ es) =
        sent-drive (on_partial j r ps) es
        ∙ ap (λ (s : List AgentEvent). s ++ told es) (sent-on_partial r ps)
        ∙ append_assoc r.sent (tokens ps) (told es)
    sent-drive r (event false ps ∷ es) =
        sent-drive (on_parts j new_v4 (on_turn j r ps) ps) es
        ∙ ap (λ (s : List AgentEvent). s ++ told es)
            (sent-on_parts (on_turn j r ps) ps
              ∙ ap (λ (s : List AgentEvent). s ++ turn_events ps) (sent-on_turn r ps))
        ∙ append_assoc r.sent (turn_events ps) (told es)

    sent-fallback : (r : Run) → (fallback r).sent ≡ r.sent
    unfolding fallback
    sent-fallback r = ground arith

    concluded-events :
        (session : String) (memory pp : Bool) (r : Run) (ended : Bool)
        → (concluded session memory pp r ended).events ≡ r.sent
    concluded-events session memory pp r true = refl
    concluded-events session memory pp r false = refl

    -- What a run with a session tells, whether its stream ends or breaks: that the model is asked, then
    -- each delta, call and response in the order of the stream, and that the model is asked again
    -- behind each response; what the answer is changes nothing of it.
    pub run_with_events-told :
        (session : String) (memory pp : Bool) (prior_turns : List (String × Text))
        (user_message : Text) (es : List (Next j))
        → (run_with_events j new_v4 (some session) memory pp prior_turns user_message es).events
          ≡ thinking ∷ told es
    unfolding run_with_events
    run_with_events-told session memory pp prior_turns user_message es =
        let (r, ended) = run_of j new_v4 prior_turns user_message es in
        let start = begin prior_turns user_message in
        concluded-events session memory pp r ended
        ∙ sent-fallback (drive j new_v4 start es).0
        ∙ sent-drive start es
