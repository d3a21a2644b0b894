-- ===== src/Agent.antt =====
-- crates/core/src/event_bridge.rs: a run of the agent against one message, with `AgentEvent` and
-- `truncate_preview` of crates/core/src/lib.rs. Of what adk-rust streams there is what the loop reads: an
-- item of the stream, an event's content, a part's text and its kind. The values of JSON are a parameter.
pub mod Answer
pub mod Told
pub mod Evidence
pub mod Grown
pub mod Transcript
pub mod Kept
pub mod Ingested
pub mod Adapter
pub mod Allowed
use entheai.Base.{
  ℕ, zero, suc, ◌+◌, ◌-◌, String, Bool, true, false, not, ◌&&◌, ◌||◌, Option, none, some, List, [],
  ◌∷◌, ◌++◌, any, length, take, leb, ◌==◌, if◌then◌else◌, ◌=?◌, string_eq,
}
use entheai.Base.Assoc.{lookup, insert, remove}
use entheai.Base.Text.{codes}
use entheai.Base.Sets.{member}

abbrev pub Text : Type 0
Text = List ℕ

-- `String::is_empty`.
abbrev pub is_empty : Text → Bool
is_empty [] = true
is_empty (c ∷ s) = false

pub record Json : Type 1 where
  pub Value : Type 0
  pub to_string : Value → Text
  -- The keys, where the value is an object.
  pub keys : Value → Option (List String)

pub data AgentEvent : Type 0 where
  thinking : AgentEvent
  tool_started : String → Text → AgentEvent
  tool_finished : String → Text → AgentEvent
  token : Text → AgentEvent
  frozen_woke : String → Text → AgentEvent

-- `…` is 0x2026.
unfoldable pub truncate_preview : Text → ℕ → Text
truncate_preview s max = if leb (length s) max then s else take (max - 1) s ++ 0x2026 ∷ []

pub record ToolEvidence : Type 0 where
  pub call_id : String
  pub name : String
  pub args : Text
  pub result : Text
  pub allowed : Bool

-- The variables of the loop that the caller or the memory gets to see, and what was sent to the
-- interface.
pub record Run : Type 0 where
  pub answer : Text
  pub streamed_text : Text
  pub transcript : List (String × Text)
  pub tool_evidence : List ToolEvidence
  pub pending_calls : List (String × (String × Text))
  pub sent : List AgentEvent

-- What the run asks of the agent, the memory and the processor.
pub data Effect : Type 0 where
  cleaned : String → Effect
  recorded : Text → List ToolEvidence → Effect
  ingested : List (String × Text) → Text → Effect

-- `none` is an error.
pub record Outcome : Type 0 where
  pub result : Option Text
  pub events : List AgentEvent
  pub effects : List Effect

-- A reply that came in deltas only.
unfoldable pub fallback : Run → Run
fallback r =
    if is_empty r.answer && not (is_empty r.streamed_text)
    then record r {
      answer = r.streamed_text;
      transcript = r.transcript ++ ("assistant", r.streamed_text) ∷ [];
    }
    else r

abbrev pub begin : List (String × Text) → Text → Run
begin prior_turns user_message = record {
  answer = [];
  streamed_text = [];
  transcript = prior_turns ++ ("user", user_message) ∷ [];
  tool_evidence = [];
  pending_calls = [];
  sent = thinking ∷ [];
}

abbrev pub record_final_answer : Bool → Run → List Effect
record_final_answer false r = []
record_final_answer true r = recorded (truncate_preview r.answer 500) r.tool_evidence ∷ []

abbrev pub ingest : Bool → Run → List Effect
ingest false r = []
ingest true r = ingested r.transcript r.answer ∷ []

-- What a run with a session gives, by whether its stream came to its end.
abbrev pub concluded : String → Bool → Bool → Run → Bool → Outcome
concluded session memory pp r true = record {
  result = some r.answer;
  events = r.sent;
  effects = cleaned session ∷ (record_final_answer memory r ++ ingest pp r);
}
concluded session memory pp r false = record {
  result = none;
  events = r.sent;
  effects = cleaned session ∷ [];
}

abbrev pub has_field : String → Option (List String) → Bool
has_field k none = false
has_field k (some ks) = (length ks == 1) && member k ks

abbrev pub args_of : Option (String × Text) → Text
args_of none = []
args_of (some call) = call.1

unfoldable pub keep_call : String → Text → Option String → Run → Run
keep_call name args none r = r
keep_call name args (some i) r = record r { pending_calls = insert i (name, args) r.pending_calls }

abbrev pub taken : Option String → List (String × (String × Text)) → Text
taken none m = []
taken (some i) m = args_of (lookup i m)

abbrev pub without :
    Option String → List (String × (String × Text)) → List (String × (String × Text))
without none m = m
without (some i) m = remove i m

abbrev pub or_fresh : String → Option String → String
or_fresh fresh none = fresh
or_fresh fresh (some i) = i

abbrev pub or_no_text : Option Text → Text
or_no_text none = []
or_no_text (some t) = t

module _ (j : Json) where
  open j use {Value, to_string, keys}

  pub data PartKind : Type 0 where
    function_call : String → Value → Option String → PartKind
    function_response : String → Value → Option String → PartKind
    other : PartKind

  pub record Part : Type 0 where
    pub text : Option Text
    pub kind : PartKind

  -- What `timeout(idle, stream.next())` gives, until the stream ends.
  pub data Next : Type 0 where
    idle_timeout failed empty : Next
    event : Bool → List Part → Next

  unfoldable pub is_denial_shape : Value → Bool
  is_denial_shape v = has_field "error" (keys v)

  -- The delta of a part of a partial event.
  unfoldable pub on_delta : Run → Option Text → Run
  on_delta r none = r
  on_delta r (some t) = record r {
    streamed_text = r.streamed_text ++ t;
    sent = r.sent ++ token t ∷ [];
  }

  unfoldable pub on_partial : Run → List Part → Run
  unfolding on_delta
  on_partial r [] = r
  on_partial r (p ∷ ps) = on_partial (on_delta r p.text) ps

  unfoldable pub text_of : List Part → Text
  text_of [] = []
  text_of (p ∷ ps) = or_no_text p.text ++ text_of ps

  abbrev pub is_call : PartKind → Bool
  is_call (function_call n v i) = true
  is_call _ = false

  abbrev pub is_response : PartKind → Bool
  is_response (function_response n v i) = true
  is_response _ = false

  unfoldable pub has_calls : List Part → Bool
  has_calls ps = any (λ (p : Part). is_call p.kind) ps

  unfoldable pub has_results : List Part → Bool
  has_results ps = any (λ (p : Part). is_response p.kind) ps

  -- What a whole turn does to the answer.
  unfoldable pub on_turn : Run → List Part → Run
  unfolding text_of has_calls has_results
  on_turn r ps =
      let text = text_of ps in
      if not (is_empty text) && not (has_calls ps) && not (has_results ps)
      then record r {
        answer = text;
        streamed_text = [];
        transcript = r.transcript ++ ("assistant", text) ∷ [];
      }
      else if has_calls ps || has_results ps
      then record r { streamed_text = []; answer = [] }
      else r

  -- `new_v4` gives the identifier for a response that has none, of the number of those before it.
  module _ (new_v4 : ℕ → String) where
    unfoldable pub on_part : Run → PartKind → Run
    unfolding keep_call is_denial_shape
    on_part r (function_call name v i) =
        let args = to_string v in
        let kept = keep_call name args i r in
        record kept { sent = kept.sent ++ tool_started name args ∷ [] }
    on_part r (function_response name v i) =
        let result = to_string v in
        let evidence : ToolEvidence = record {
          call_id = or_fresh (new_v4 (length r.tool_evidence)) i;
          name = name;
          args = taken i r.pending_calls;
          result = result;
          allowed = not (is_denial_shape v);
        } in
        record r {
          tool_evidence = r.tool_evidence ++ evidence ∷ [];
          pending_calls = without i r.pending_calls;
          transcript = r.transcript ++ ("function", result) ∷ [];
          sent = r.sent ++ tool_finished name result ∷ thinking ∷ [];
        }
    on_part r other = r

    unfoldable pub on_parts : Run → List Part → Run
    unfolding on_part
    on_parts r [] = r
    on_parts r (p ∷ ps) = on_parts (on_part r p.kind) ps

    unfoldable pub on_event : Run → Bool → List Part → Run
    unfolding on_partial on_turn on_parts
    on_event r partial ps = if partial then on_partial r ps else on_parts (on_turn r ps) ps

    -- The loop: the variables, and whether it ended by the end of the stream.
    unfoldable pub drive : Run → List Next → Run × Bool
    unfolding on_event
    drive r [] = (r, true)
    drive r (idle_timeout ∷ es) = (r, false)
    drive r (failed ∷ es) = (r, false)
    drive r (empty ∷ es) = drive r es
    drive r (event partial ps ∷ es) = drive (on_event r partial ps) es

    -- What the loop and the fallback leave, and whether the stream came to its end.
    unfoldable pub run_of : List (String × Text) → Text → List Next → Run × Bool
    unfolding drive fallback
    run_of prior_turns user_message es =
        let (r, ended) = drive (begin prior_turns user_message) es in (fallback r, ended)

    -- The session of the run, or `none` where the agent gives an error; then whether there is a memory
    -- and a processor.
    unfoldable pub run_with_events :
        Option String → Bool → Bool → List (String × Text) → Text → List Next → Outcome
    unfolding run_of
    run_with_events none memory pp prior_turns user_message es = record {
      result = none;
      events = thinking ∷ [];
      effects = [];
    }
    run_with_events (some session) memory pp prior_turns user_message es =
        let (r, ended) = run_of prior_turns user_message es in concluded session memory pp r ended
