-- ===== src/Agent/Ingested.antt =====
-- crates/core/src/event_bridge.rs with `ingest_transcript` of crates/memory-pp/src/processor.rs: the text that a
-- run gives the raw store.
use mathlib.Core.List.{map-append}
use entheai.Base.{
  ℕ, ◌≡◌, inl, inr, sym, ap, ◌∙◌, String, Bool, true, false, some, List, [], ◌∷◌, ◌++◌, map, arith,
}
use entheai.Base.Text.{codes}
use entheai.MemoryPp.Processor.{turn, turns, transcript_text}
use entheai.MemoryPp.Processor.Ingested.{transcript_text-twice}
use entheai.Agent.{Json, Text, is_empty, Next, run_with_events}
use entheai.Agent.Answer.{clean, reply}
use entheai.Agent.Evidence.{whole_parts, evidence_of}
use entheai.Agent.Grown.{Entry, Has}
use entheai.Agent.Transcript.{transcript_of}
use entheai.Agent.Kept.{kept, run_with_events-kept}

abbrev pub coded : Entry → Text × Text
coded e = (codes e.0, e.1)

true-false : true ≡ false → ⊥
true-false h = ground arith

module _ (to_hex : Text → Text) where
  -- The text has the turn of an answer, and has it again at its end.
  abbrev pub Twice : Text → List Entry → Type 0
  Twice answer transcript =
      (before : Text) × (between : Text) × (transcript_text to_hex (map coded transcript) answer
        ≡ (before ++ turn to_hex (codes "assistant", answer))
          ++ (between ++ turn to_hex (codes "assistant", answer)))

  Has-Twice :
      (answer : Text) (transcript : List Entry)
      → Has ("assistant", answer) transcript
      → Twice answer transcript
  Has-Twice answer transcript (before, after, e) = (
    turns to_hex (map coded before),
    turns to_hex (map coded after),
    ap (λ (t : List Entry). transcript_text to_hex (map coded t) answer) e
        ∙ ap (λ (t : List (Text × Text)). transcript_text to_hex t answer)
            (map-append coded before (("assistant", answer) ∷ after))
        ∙ transcript_text-twice to_hex (map coded before) (map coded after) answer,
  )

  -- Where the stream of a run comes to its end with a reply that is not empty, the transcript that the processor
  -- is given makes a text with the reply twice.
  pub run_with_events-Twice :
      (j : Json) (new_v4 : ℕ → String) (session : String) (memory : Bool) (prior_turns : List Entry)
      (user_message : Text) (es : List (Next j))
      → clean j es ≡ true
      → is_empty (reply j es) ≡ false
      → (transcript : List Entry) × ((run_with_events j new_v4
            (some session)
            memory
            true
            prior_turns
            user_message
            es).effects
          ≡ kept j new_v4 session memory true
              (reply j es)
              (evidence_of j new_v4 [] 0 (whole_parts j es))
              transcript)
        × Twice (reply j es) transcript
  run_with_events-Twice j new_v4 session memory prior_turns user_message es ended said =
      let all = transcript_of j new_v4 prior_turns user_message es in
      elim (run_with_events-kept j new_v4 session memory true prior_turns user_message es) [
        | inl (broken, _) ↦ absurd (true-false (sym ended ∙ broken))
        | inr (_, effects, settled) ↦ elim settled [
          | inl empty ↦ absurd (true-false (sym empty ∙ said))
          | inr has ↦ (all, effects, Has-Twice (reply j es) all has)
        ]
      ]
