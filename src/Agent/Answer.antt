-- ===== src/Agent/Answer.antt =====
-- crates/core/src/event_bridge.rs: what a run answers.
use mathlib.Core.List.{append_assoc, append-nil}
use entheai.Base.{
  ℕ, ◌≡◌, refl, sym, ap, ◌∙◌, String, Bool, true, false, not, ◌&&◌, ◌||◌, Option, none, some, List,
  [], ◌∷◌, ◌++◌, if◌then◌else◌, arith, Bool-cases, inl, inr,
}
use entheai.Agent.{
  Json, Text, is_empty, Run, Part, PartKind, function_call, function_response, other, or_no_text,
  Next, idle_timeout, failed, empty, event, on_delta, on_partial, text_of, has_calls, has_results,
  on_turn, on_part, on_parts, on_event, drive, fallback, begin, run_of, run_with_events, concluded,
}

-- A first text, or a second one where the first is empty.
abbrev pub pick : Text → Text → Text
pick [] s = s
pick (c ∷ a) s = c ∷ a

fallback-texts : (a s : Text) → (if is_empty a && not (is_empty s) then s else a) ≡ pick a s
fallback-texts [] [] = refl
fallback-texts [] (c ∷ s) = refl
fallback-texts (c ∷ a) s = refl

concluded-result :
    (session : String) (memory pp : Bool) (r : Run) (ended : Bool)
    → (concluded session memory pp r ended).result ≡ (if ended then some r.answer else none)
concluded-result session memory pp r true = refl
concluded-result session memory pp r false = refl

pick-nonempty : (a s t : Text) → is_empty a ≡ false → pick a s ≡ pick a t
pick-nonempty [] s t h = absurd (ground (arith, h))
pick-nonempty (c ∷ a) s t h = refl

module _ (j : Json) where
  abbrev pub calls_tools : Bool → List (Part j) → Bool
  calls_tools partial ps = not partial && (has_calls j ps || has_results j ps)

  -- A whole turn of text alone.
  abbrev pub is_final : Bool → List (Part j) → Bool
  is_final partial ps =
      not partial
      && (not (is_empty (text_of j ps)) && (not (has_calls j ps) && not (has_results j ps)))

  -- Whether the stream comes to its end.
  abbrev pub clean : List (Next j) → Bool
  clean [] = true
  clean (idle_timeout ∷ es) = false
  clean (failed ∷ es) = false
  clean (empty ∷ es) = clean es
  clean (event partial ps ∷ es) = clean es

  abbrev pub is_tool : Next j → Bool
  is_tool (event partial ps) = calls_tools partial ps
  is_tool _ = false

  unfoldable pub any_tool : List (Next j) → Bool
  any_tool [] = false
  any_tool (e ∷ es) = is_tool e || any_tool es

  -- What follows the last turn with a call or a result of a tool.
  unfoldable pub after_tools : List (Next j) → List (Next j)
  unfolding any_tool
  after_tools [] = []
  after_tools (e ∷ es) =
      let rest = after_tools es in if any_tool es then rest else if is_tool e then es else e ∷ es

  -- The text of the last whole turn of text alone.
  unfoldable pub last_text : Text → List (Next j) → Text
  last_text a [] = a
  last_text a (event partial ps ∷ es) =
      last_text (if is_final partial ps then text_of j ps else a) es
  last_text a (empty ∷ es) = last_text a es
  last_text a (idle_timeout ∷ es) = last_text a es
  last_text a (failed ∷ es) = last_text a es

  -- The texts of all deltas.
  unfoldable pub deltas : List (Next j) → Text
  deltas [] = []
  deltas (event true ps ∷ es) = text_of j ps ++ deltas es
  deltas (event false ps ∷ es) = deltas es
  deltas (empty ∷ es) = deltas es
  deltas (idle_timeout ∷ es) = deltas es
  deltas (failed ∷ es) = deltas es

  -- The reply of the model: what it says behind the last use of a tool, in the last whole turn, or in
  -- deltas where there is none.
  unfoldable pub reply : List (Next j) → Text
  unfolding after_tools last_text deltas
  reply es = pick (last_text [] (after_tools es)) (deltas (after_tools es))

  -- The same from the texts that a run has so far.
  abbrev reply_from : Text → Text → List (Next j) → Text
  reply_from a s es = if any_tool es then reply es else pick (last_text a es) (s ++ deltas es)

  last_text-nonempty :
      (a : Text) (es : List (Next j)) → is_empty a ≡ false → is_empty (last_text a es) ≡ false
  unfolding last_text
  last_text-nonempty a [] h = h
  last_text-nonempty a (event partial ps ∷ es) h =
      last_text-nonempty (if is_final partial ps then text_of j ps else a) es (ground (arith, h))
  last_text-nonempty a (empty ∷ es) h = last_text-nonempty a es h
  last_text-nonempty a (idle_timeout ∷ es) h = last_text-nonempty a es h
  last_text-nonempty a (failed ∷ es) h = last_text-nonempty a es h

  after_tools-none : (es : List (Next j)) → any_tool es ≡ false → after_tools es ≡ es
  unfolding any_tool after_tools
  after_tools-none [] h = refl
  after_tools-none (e ∷ es) h = ground (arith, h)

  -- What one event does to the texts.
  abbrev Texts : Run → Text → Text → Type 0
  Texts r a s = (r.answer ≡ a) × (r.streamed_text ≡ s)

  on_delta-Texts :
      (r : Run) (t : Option Text)
      → Texts (on_delta j r t) r.answer (r.streamed_text ++ or_no_text t)
  unfolding on_delta
  on_delta-Texts r none = (refl, sym (append-nil r.streamed_text))
  on_delta-Texts r (some t) = (refl, refl)

  on_partial-Texts :
      (r : Run) (ps : List (Part j))
      → Texts (on_partial j r ps) r.answer (r.streamed_text ++ text_of j ps)
  unfolding on_partial text_of
  on_partial-Texts r [] = (refl, sym (append-nil r.streamed_text))
  on_partial-Texts r (p ∷ ps) =
      let (a, s) = on_partial-Texts (on_delta j r p.text) ps in
      let (b, t) = on_delta-Texts r p.text in
      (
        a ∙ b,
        s
            ∙ ap (λ (x : Text). x ++ text_of j ps) t
            ∙ append_assoc r.streamed_text (or_no_text p.text) (text_of j ps),
      )

  module _ (new_v4 : ℕ → String) where
    on_part-Texts :
        (r : Run) (k : PartKind j) → Texts (on_part j new_v4 r k) r.answer r.streamed_text
    unfolding on_part
    on_part-Texts r (function_call name v none) = (refl, refl)
    on_part-Texts r (function_call name v (some i)) = (refl, refl)
    on_part-Texts r (function_response name v i) = (refl, refl)
    on_part-Texts r other = (refl, refl)

    on_parts-Texts :
        (r : Run) (ps : List (Part j)) → Texts (on_parts j new_v4 r ps) r.answer r.streamed_text
    unfolding on_parts
    on_parts-Texts r [] = (refl, refl)
    on_parts-Texts r (p ∷ ps) =
        let (a, s) = on_parts-Texts (on_part j new_v4 r p.kind) ps in
        let (b, t) = on_part-Texts r p.kind in (a ∙ b, s ∙ t)

    turn_answer : Text → List (Part j) → Text
    turn_answer a ps =
        if is_final false ps then text_of j ps else if calls_tools false ps then [] else a

    turn_streamed : Text → List (Part j) → Text
    turn_streamed s ps = if is_final false ps || calls_tools false ps then [] else s

    on_turn-Texts :
        (r : Run) (ps : List (Part j))
        → Texts (on_turn j r ps) (turn_answer r.answer ps) (turn_streamed r.streamed_text ps)
    unfolding on_turn turn_answer turn_streamed
    on_turn-Texts r ps = ground arith

    -- The reply of what is still to come, at the texts that an event leaves.
    reply_from-whole :
        (a s : Text) (ps : List (Part j)) (es : List (Next j))
        → reply_from (turn_answer a ps) (turn_streamed s ps) es
          ≡ reply_from a s (event false ps ∷ es)
    unfolding reply any_tool after_tools turn_answer turn_streamed
    reply_from-whole a s ps es = ground (
      arith,
      last_text-nonempty (text_of j ps) es,
      pick-nonempty (last_text (text_of j ps) es) (deltas es) (s ++ deltas es),
    )

    reply_from-delta :
        (a s : Text) (ps : List (Part j)) (es : List (Next j))
        → reply_from a (s ++ text_of j ps) es ≡ reply_from a s (event true ps ∷ es)
    unfolding reply any_tool after_tools
    reply_from-delta a s ps es = ground (arith, append_assoc s (text_of j ps) (deltas es))

    reply_from-empty :
        (a s : Text) (es : List (Next j)) → reply_from a s es ≡ reply_from a s (empty ∷ es)
    unfolding reply any_tool after_tools
    reply_from-empty a s es = ground arith

    reply_from-nil : (a s : Text) → pick a s ≡ reply_from a s []
    unfolding any_tool last_text deltas
    reply_from-nil a s = rw append-nil refl

    drive-reply :
        (r : Run) (es : List (Next j))
        → clean es ≡ true
        → (pick (drive j new_v4 r es).0.answer (drive j new_v4 r es).0.streamed_text
            ≡ reply_from r.answer r.streamed_text es)
          × ((drive j new_v4 r es).1 ≡ true)
    unfolding drive on_event
    drive-reply r [] h = (reply_from-nil r.answer r.streamed_text, refl)
    drive-reply r (empty ∷ es) h =
        let (same, ended) = drive-reply r es h in
        (same ∙ reply_from-empty r.answer r.streamed_text es, ended)
    drive-reply r (event true ps ∷ es) h =
        let (same, ended) = drive-reply (on_partial j r ps) es h in
        let (a, s) = on_partial-Texts r ps in
        (same ∙ rw (a, s) (reply_from-delta r.answer r.streamed_text ps es), ended)
    drive-reply r (event false ps ∷ es) h =
        let (same, ended) = drive-reply (on_parts j new_v4 (on_turn j r ps) ps) es h in
        let (a, s) = on_parts-Texts (on_turn j r ps) ps in
        let (b, t) = on_turn-Texts r ps in
        (same ∙ rw (a ∙ b, s ∙ t) (reply_from-whole r.answer r.streamed_text ps es), ended)
    drive-reply r (idle_timeout ∷ es) h = absurd (ground (arith, h))
    drive-reply r (failed ∷ es) h = absurd (ground (arith, h))

    pub drive-broken :
        (r : Run) (es : List (Next j)) → clean es ≡ false → (drive j new_v4 r es).1 ≡ false
    unfolding drive
    drive-broken r [] h = absurd (ground (arith, h))
    drive-broken r (empty ∷ es) h = drive-broken r es h
    drive-broken r (event partial ps ∷ es) h = drive-broken (on_event j new_v4 r partial ps) es h
    drive-broken r (idle_timeout ∷ es) h = refl
    drive-broken r (failed ∷ es) h = refl

    fallback-pick : (r : Run) → (fallback r).answer ≡ pick r.answer r.streamed_text
    unfolding fallback
    fallback-pick r = ground (arith, fallback-texts r.answer r.streamed_text)

    reply_from-begin : (es : List (Next j)) → reply_from [] [] es ≡ reply es
    unfolding reply any_tool after_tools
    reply_from-begin es = ground (arith, after_tools-none es)

    pub run_of-reply :
        (prior_turns : List (String × Text)) (user_message : Text) (es : List (Next j))
        → clean es ≡ true
        → ((run_of j new_v4 prior_turns user_message es).0.answer ≡ reply es)
          × ((run_of j new_v4 prior_turns user_message es).1 ≡ true)
    unfolding run_of
    run_of-reply prior_turns user_message es h =
        let r = begin prior_turns user_message in
        let (same, ended) = drive-reply r es h in
        (fallback-pick (drive j new_v4 r es).0 ∙ same ∙ reply_from-begin es, ended)

    -- With a session, a run whose stream comes to its end gives the reply: what the model says behind
    -- its last use of a tool, in the last whole turn of text alone, or in all deltas where there is
    -- none; any other run gives an error.
    pub run_with_events-reply :
        (session : String) (memory pp : Bool) (prior_turns : List (String × Text))
        (user_message : Text) (es : List (Next j))
        → (run_with_events j new_v4 (some session) memory pp prior_turns user_message es).result
          ≡ (if clean es then some (reply es) else none)
    unfolding run_with_events
    run_with_events-reply session memory pp prior_turns user_message es =
        let (r, ended) = run_of j new_v4 prior_turns user_message es in
        let result = concluded-result session memory pp r ended in
        elim (Bool-cases (clean es)) [
          | inl h ↦
              let (same, whole) = run_of-reply prior_turns user_message es h in
              result ∙ ground (arith, h, same, whole)
          | inr h ↦
              let broken = drive-broken (begin prior_turns user_message) es h in
              result ∙ ground (arith, h, broken)
        ]
