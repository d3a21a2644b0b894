-- ===== src/Agent/Transcript.antt =====
-- crates/core/src/event_bridge.rs: the transcript of a run.
use mathlib.Core.List.{append_assoc, append-nil}
use entheai.Base.{
  arith, ℕ, ◌≡◌, inl, inr, refl, sym, ap, ◌∙◌, String, true, false, not, ◌&&◌, ◌||◌, Option, none,
  some, List, [], ◌∷◌, ◌++◌, if◌then◌else◌, Bool-cases,
}
use entheai.Agent.{
  Json, Text, is_empty, Run, Part, PartKind, function_call, function_response, other, Next,
  idle_timeout, failed, empty, event, on_delta, on_partial, text_of, has_calls, has_results,
  on_turn, on_part, on_parts, on_event, drive, fallback, begin, run_of,
}
use entheai.Agent.Answer.{is_final, reply}
use entheai.Agent.Grown.{Entry, Carries-on_partial, Carries-on_parts}

-- A reply that came in deltas only, behind the answer that stands at the end.
abbrev pub closing : Text → Text → List Entry
closing a x = if is_empty a && not (is_empty x) then ("assistant", x) ∷ [] else []

closing-same : (a : Text) → closing a a ≡ []
closing-same [] = refl
closing-same (c ∷ a) = refl

fallback-closing :
    (r : Run) → (fallback r).transcript ≡ r.transcript ++ closing r.answer (fallback r).answer
unfolding fallback
fallback-closing r = elim (Bool-cases (is_empty r.answer && not (is_empty r.streamed_text))) [
  | inl e ↦ rw (e, fallback) (rw e refl)
  | inr e ↦
      rw (e, fallback)
        (sym (append-nil r.transcript)
          ∙ ap (λ (xs : List Entry). r.transcript ++ xs) (sym (closing-same r.answer)))
]

module _ (j : Json) where
  open j use {to_string}

  -- What a whole turn adds to the transcript: its text, where it is text alone, and then each response
  -- of a tool.
  abbrev pub spoken : List (Part j) → List Entry
  spoken ps = if is_final j false ps then ("assistant", text_of j ps) ∷ [] else []

  abbrev pub result_of : PartKind j → List Entry
  result_of (function_response name v i) = ("function", to_string v) ∷ []
  result_of (function_call name v i) = []
  result_of other = []

  unfoldable pub results : List (Part j) → List Entry
  results [] = []
  results (p ∷ ps) = result_of p.kind ++ results ps

  -- What the whole turns add, until the stream ends or breaks.
  unfoldable pub said : List (Next j) → List Entry
  unfolding results
  said [] = []
  said (event true ps ∷ es) = said es
  said (event false ps ∷ es) = spoken ps ++ (results ps ++ said es)
  said (empty ∷ es) = said es
  said (idle_timeout ∷ es) = []
  said (failed ∷ es) = []

  -- The text of the last whole turn of text alone, none where a tool was used behind it.
  abbrev pub turned : Text → List (Part j) → Text
  turned a ps =
      if has_calls j ps || has_results j ps
      then []
      else if is_final j false ps
      then text_of j ps
      else a

  unfoldable pub standing : Text → List (Next j) → Text
  standing a [] = a
  standing a (event true ps ∷ es) = standing a es
  standing a (event false ps ∷ es) = standing (turned a ps) es
  standing a (empty ∷ es) = standing a es
  standing a (idle_timeout ∷ es) = a
  standing a (failed ∷ es) = a

module _ (j : Json) where
  module _ (new_v4 : ℕ → String) where
    transcript-on_delta : (r : Run) (t : Option Text) → (on_delta j r t).transcript ≡ r.transcript
    unfolding on_delta
    transcript-on_delta r none = refl
    transcript-on_delta r (some t) = refl

    transcript-on_partial :
        (r : Run) (ps : List (Part j)) → (on_partial j r ps).transcript ≡ r.transcript
    unfolding on_partial
    transcript-on_partial r [] = refl
    transcript-on_partial r (p ∷ ps) =
        transcript-on_partial (on_delta j r p.text) ps ∙ transcript-on_delta r p.text

    on_turn_lem :
        (r : Run) (ps : List (Part j))
        → ((on_turn j r ps).transcript ≡ r.transcript ++ spoken j ps)
          × ((on_turn j r ps).answer ≡ turned j r.answer ps)
    unfolding on_turn
    on_turn_lem r ps = elim (Bool-cases (has_calls j ps || has_results j ps)) [
      | inl f ↦
          let quiet : not (is_empty (text_of j ps))
                && (not (has_calls j ps) && not (has_results j ps))
              ≡ false =
            ground (arith, f) in
          let quiet' : not (is_empty (text_of j ps))
                && not (has_calls j ps)
                && not (has_results j ps)
              ≡ false =
            ground (arith, f) in
          rw (quiet', f, quiet, on_turn) (sym (append-nil r.transcript), refl)
      | inr f ↦ elim (Bool-cases (is_empty (text_of j ps))) [
        | inl e ↦ rw (e, f, on_turn) (sym (append-nil r.transcript), refl)
        | inr e ↦
            let both : (not (has_calls j ps) && not (has_results j ps)) ≡ true =
              ground (arith, f) in
            let all : not (is_empty (text_of j ps))
                  && not (has_calls j ps)
                  && not (has_results j ps)
                ≡ true =
              ground (arith, e, f) in
            rw (all, e, f, both, on_turn) (refl, refl)
      ]
    ]

    transcript-on_part :
        (r : Run) (k : PartKind j)
        → (on_part j new_v4 r k).transcript ≡ r.transcript ++ result_of j k
    unfolding on_part
    transcript-on_part r (function_call name v none) = sym (append-nil r.transcript)
    transcript-on_part r (function_call name v (some i)) = sym (append-nil r.transcript)
    transcript-on_part r (function_response name v i) = refl
    transcript-on_part r other = sym (append-nil r.transcript)

    transcript-on_parts :
        (r : Run) (ps : List (Part j))
        → (on_parts j new_v4 r ps).transcript ≡ r.transcript ++ results j ps
    unfolding on_parts results
    transcript-on_parts r [] = sym (append-nil r.transcript)
    transcript-on_parts r (p ∷ ps) =
        transcript-on_parts (on_part j new_v4 r p.kind) ps
        ∙ ap (λ (t : List Entry). t ++ results j ps) (transcript-on_part r p.kind)
        ∙ append_assoc r.transcript (result_of j p.kind) (results j ps)

    drive_lem :
        (r : Run) (es : List (Next j))
        → ((drive j new_v4 r es).0.transcript ≡ r.transcript ++ said j es)
          × ((drive j new_v4 r es).0.answer ≡ standing j r.answer es)
    unfolding drive on_event said standing
    drive_lem r [] = (sym (append-nil r.transcript), refl)
    drive_lem r (idle_timeout ∷ es) = (sym (append-nil r.transcript), refl)
    drive_lem r (failed ∷ es) = (sym (append-nil r.transcript), refl)
    drive_lem r (empty ∷ es) = drive_lem r es
    drive_lem r (event true ps ∷ es) =
        let (t, a) = drive_lem (on_partial j r ps) es in
        (
          t ∙ ap (λ (xs : List Entry). xs ++ said j es) (transcript-on_partial r ps),
          a ∙ ap (λ (x : Text). standing j x es) (Carries-on_partial j r ps).0,
        )
    drive_lem r (event false ps ∷ es) =
        let turn = on_turn j r ps in
        let (t, a) = drive_lem (on_parts j new_v4 turn ps) es in
        let (spoke, stands) = on_turn_lem r ps in
        (
          t
              ∙ ap (λ (xs : List Entry). xs ++ said j es)
                  (transcript-on_parts turn ps ∙ ap (λ (xs : List Entry). xs ++ results j ps) spoke)
              ∙ append_assoc (r.transcript ++ spoken j ps) (results j ps) (said j es)
              ∙ append_assoc r.transcript (spoken j ps) (results j ps ++ said j es),
          a ∙ ap (λ (x : Text). standing j x es) ((Carries-on_parts j new_v4 turn ps).0 ∙ stands),
        )

    -- The whole transcript of a run.
    pub run_of-transcript :
        (prior_turns : List Entry) (user_message : Text) (es : List (Next j))
        → (run_of j new_v4 prior_turns user_message es).0.transcript
          ≡ (prior_turns ++ ("user", user_message) ∷ [])
            ++ (said j es
                ++ closing
                    (standing j [] es)
                    (run_of j new_v4 prior_turns user_message es).0.answer)
    unfolding run_of
    run_of-transcript prior_turns user_message es =
        let r = begin prior_turns user_message in
        let whole = (drive j new_v4 r es).0 in
        let (t, a) = drive_lem r es in
        fallback-closing whole
        ∙ (λ i. t i ++ closing (a i) (fallback whole).answer)
        ∙ append_assoc r.transcript (said j es) (closing (standing j [] es) (fallback whole).answer)

    -- The transcript that the processor is given: the earlier turns, the message, what each whole turn adds,
    -- and the reply where it came in deltas only.
    abbrev pub transcript_of : List Entry → Text → List (Next j) → List Entry
    transcript_of prior_turns user_message es =
        (prior_turns ++ ("user", user_message) ∷ [])
        ++ (said j es ++ closing (standing j [] es) (reply j es))
