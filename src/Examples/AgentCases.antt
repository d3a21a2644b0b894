-- ===== src/Examples/AgentCases.antt =====
-- Runs of the agent at concrete inputs (crates/core/src/event_bridge.rs and
-- crates/core/src/adk_tool_adapter.rs).
use entheai.Base.{
  string_eq, ◌≡◌, ◌⊎◌, refl, ℕ, ◌+◌, String, true, false, not, Option, some, none, List, [], ◌∷◌,
  keep, if◌then◌else◌, ◌=?◌,
}
use entheai.Base.Assoc.{lookup, insert}
use entheai.Base.Text.{codes}
use entheai.Permission.{never, new, pin, exec, Grant}
use entheai.Agent.{
  Json, Text, is_empty, thinking, Part, function_call, function_response, other, Next, event, empty,
  text_of, has_calls, has_results, run_of, cleaned, run_with_events,
}
use entheai.Agent.Answer.{clean, reply, run_with_events-reply}
use entheai.Agent.Evidence.{whole_parts, evidence_of, run_of-evidence_of}
use entheai.Agent.Grown.{Entry, Settled}
use entheai.Agent.Transcript.{transcript_of}
use entheai.Agent.Kept.{kept, run_with_events-kept}
use entheai.Agent.Ingested.{Twice, run_with_events-Twice}
use entheai.Agent.Adapter.{Call, Session, execute_all}
use entheai.Agent.Told.{told, run_with_events-told}
use entheai.Agent.Allowed.{execute_all-never}

abbrev json : Json
json = record { Value = Text × Option (List String); to_string = λ v. v.0; keys = λ v. v.1 }

abbrev new_id : ℕ → String
new_id n = "fresh"

abbrev said : String → Part json
said s = record { text = some (codes s); kind = other }

abbrev asks : Part json
asks = record { text = none; kind = function_call "run_shell" (codes "ls", none) (some "c1") }

abbrev denied : Part json
denied = record {
  text = none;
  kind = function_response "run_shell" (codes "no", some ("error" ∷ [])) (some "c1");
}

-- A preamble with a call, its response, and a reply that comes in deltas only.
abbrev a_stream : List (Next json)
a_stream =
    event false (said "let me look" ∷ [])
    ∷ event false (asks ∷ [])
    ∷ event false (denied ∷ [])
    ∷ empty
    ∷ event true (said "it is " ∷ [])
    ∷ event true (said "denied" ∷ [])
    ∷ []

abbrev before : List (String × Text)
before = ("user", codes "hello") ∷ ("assistant", codes "hi") ∷ []

run_with_events-reply_example :
    (run_with_events json new_id
      (some "s")
      true
      true
      before
      (codes "what is here?")
      a_stream).result
    ≡ (if clean json a_stream then some (reply json a_stream) else none)
run_with_events-reply_example =
    run_with_events-reply json new_id "s" true true before (codes "what is here?") a_stream

-- The reply of that run.
a_stream-reply : reply json a_stream ≡ codes "it is denied"
unfolding reply text_of has_calls has_results
a_stream-reply = refl

run_of-evidence_of_example :
    (run_of json new_id before (codes "what is here?") a_stream).0.tool_evidence
    ≡ evidence_of json new_id [] 0 (whole_parts json a_stream)
run_of-evidence_of_example = run_of-evidence_of json new_id before (codes "what is here?") a_stream

run_with_events-kept_example :
    let effects =
      (run_with_events json new_id
        (some "s")
        true
        true
        before
        (codes "what is here?")
        a_stream).effects in
    ((clean json a_stream ≡ false) × (effects ≡ cleaned "s" ∷ []))
    ⊎ ((clean json a_stream ≡ true)
        × (effects
            ≡ kept json new_id "s" true true
                (reply json a_stream)
                (evidence_of json new_id [] 0 (whole_parts json a_stream))
                (transcript_of json new_id before (codes "what is here?") a_stream))
        × Settled
            (reply json a_stream)
            (transcript_of json new_id before (codes "what is here?") a_stream))
run_with_events-kept_example =
    run_with_events-kept json new_id "s" true true before (codes "what is here?") a_stream

abbrev same_text : Text → Text
same_text t = t

a_stream-ends : clean json a_stream ≡ true
a_stream-ends = refl

a_stream-said : is_empty (reply json a_stream) ≡ false
unfolding reply text_of has_calls has_results
a_stream-said = refl

run_with_events-Twice_example :
    (transcript : List Entry) × ((run_with_events json new_id
        (some "s")
        true
        true
        before
        (codes "what is here?")
        a_stream).effects
      ≡ kept json new_id "s" true true
          (reply json a_stream)
          (evidence_of json new_id [] 0 (whole_parts json a_stream))
          transcript)
    × Twice same_text (reply json a_stream) transcript
run_with_events-Twice_example =
    run_with_events-Twice same_text json new_id "s" true before (codes "what is here?") a_stream
      a_stream-ends a_stream-said

-- A tool that counts its runs.
abbrev tick : String → Call ℕ
tick name = record {
  name = name;
  tier = exec;
  answer = Grant.allow_session;
  run = λ n. ((true, codes "done"), n + 1);
}

abbrev a_session : Session ℕ
a_session = record { policy = pin (new false []) "run_shell" never; world = 0; asked = [] }

abbrev some_calls : List (Call ℕ)
some_calls = tick "run_shell" ∷ tick "write_file" ∷ tick "run_shell" ∷ tick "write_file" ∷ []

a_session-pinned : lookup "run_shell" a_session.policy.pins ≡ some never
unfolding pin new lookup insert
a_session-pinned = refl

execute_all-never_example :
    execute_all some_calls a_session
    ≡ execute_all (keep (λ (c : Call ℕ). not (c.name =? "run_shell")) some_calls) a_session
execute_all-never_example = execute_all-never "run_shell" some_calls a_session a_session-pinned

run_with_events-told_example :
    (run_with_events json new_id
      (some "s")
      true
      true
      before
      (codes "what is here?")
      a_stream).events
    ≡ thinking ∷ told json a_stream
run_with_events-told_example =
    run_with_events-told json new_id "s" true true before (codes "what is here?") a_stream
