-- ===== src/Agent/Kept.antt =====
-- crates/core/src/event_bridge.rs: what a run leaves behind in the memory.
use entheai.Base.{
  ℕ, ◌≡◌, ◌⊎◌, inl, inr, refl, ap, ◌∙◌, subst, String, Bool, true, false, some, List, [], ◌∷◌, ◌++◌,
  if◌then◌else◌, Bool-cases,
}
use entheai.Agent.{
  ToolEvidence, Json, Text, Run, Next, begin, run_of, concluded, run_with_events, Effect, cleaned,
  recorded, ingested, truncate_preview,
}
use entheai.Agent.Answer.{clean, reply, run_of-reply, drive-broken}
use entheai.Agent.Evidence.{whole_parts, evidence_of, run_of-evidence_of}
use entheai.Agent.Grown.{Entry, Settled, run_of-Fine}
use entheai.Agent.Transcript.{said, standing, closing, transcript_of, run_of-transcript}

module _ (j : Json) where
  module _ (new_v4 : ℕ → String) where
    -- The effects of a run that ends, with the texts that are kept.
    abbrev pub kept : String → Bool → Bool → Text → List ToolEvidence → List Entry → List Effect
    kept session memory pp answer evidence transcript =
        cleaned session
        ∷ ((if memory then recorded (truncate_preview answer 500) evidence ∷ [] else [])
            ++ (if pp then ingested transcript answer ∷ [] else []))

    concluded-kept :
        (session : String) (memory pp : Bool) (r : Run)
        → (concluded session memory pp r true).effects
          ≡ kept session memory pp r.answer r.tool_evidence r.transcript
    concluded-kept session true true r = refl
    concluded-kept session true false r = refl
    concluded-kept session false true r = refl
    concluded-kept session false false r = refl

    -- A run with a session releases it, and does no more where its stream breaks. Where the stream comes
    -- to its end, the memory then keeps the start of the reply with the evidence, and the processor
    -- the reply with the whole transcript: the earlier turns, the message, the text of each whole turn
    -- of text alone and each response of a tool, in order, and then the reply where it came in deltas
    -- only. A reply that is not empty stands in it already.
    pub run_with_events-kept :
        (session : String) (memory pp : Bool) (prior_turns : List Entry) (user_message : Text)
        (es : List (Next j))
        → ((clean j es ≡ false)
            × ((run_with_events j new_v4
                  (some session)
                  memory
                  pp
                  prior_turns
                  user_message
                  es).effects
                ≡ cleaned session ∷ []))
          ⊎ ((clean j es ≡ true)
              × ((run_with_events j new_v4
                    (some session)
                    memory
                    pp
                    prior_turns
                    user_message
                    es).effects
                  ≡ kept session memory pp
                      (reply j es)
                      (evidence_of j new_v4 [] 0 (whole_parts j es))
                      (transcript_of j new_v4 prior_turns user_message es))
              × Settled (reply j es) (transcript_of j new_v4 prior_turns user_message es))
    unfolding run_with_events
    run_with_events-kept session memory pp prior_turns user_message es =
        let (r, ended) = run_of j new_v4 prior_turns user_message es in
        let s = (run_of-Fine j new_v4 prior_turns user_message es).1 in
        let evidence = run_of-evidence_of j new_v4 prior_turns user_message es in
        elim (Bool-cases (clean j es)) [
          | inl h ↦
              let (same, whole) = run_of-reply j new_v4 prior_turns user_message es h in
              let all : r.transcript ≡ transcript_of j new_v4 prior_turns user_message es =
                run_of-transcript j new_v4 prior_turns user_message es
                ∙ ap
                    (λ (x : Text).
                      (prior_turns ++ ("user", user_message) ∷ [])
                      ++ (said j es ++ closing (standing j [] es) x))
                    same in
              inr (
                h,
                ap (λ (b : Bool). (concluded session memory pp r b).effects) whole
                    ∙ concluded-kept session memory pp r
                    ∙ (λ i. kept session memory pp (same i) (evidence i) (all i)),
                subst (λ (x : Text). Settled x (transcript_of j new_v4 prior_turns user_message es))
                    same (subst (Settled r.answer) all s),
              )
          | inr h ↦ inl (
            h,
            ap (λ (b : Bool). (concluded session memory pp r b).effects)
                (drive-broken j new_v4 (begin prior_turns user_message) es h),
          )
        ]
