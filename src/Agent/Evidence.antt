-- ===== src/Agent/Evidence.antt =====
-- crates/core/src/event_bridge.rs: the evidence of tool calls that a run keeps.
use mathlib.Core.List.{append_assoc, append-nil}
use entheai.Base.{
  ℕ, suc, ◌≡◌, refl, sym, ap, ◌∙◌, String, true, false, not, Option, none, some, List, [], ◌∷◌,
  ◌++◌, map, length, length-append, if◌then◌else◌, arith, ◌=?◌, string_eq,
}
use entheai.Base.Assoc.{lookup, insert, lookup-insert, lookup-remove}
use entheai.Agent.{
  Json, Text, Run, ToolEvidence, Part, PartKind, function_call, function_response, other, Next,
  idle_timeout, failed, empty, event, on_delta, on_partial, on_turn, on_part, on_parts, on_event,
  drive, fallback, begin, run_of, args_of, taken, without, or_fresh, is_denial_shape,
}

length-snoc {ℓ} : {A : Type ℓ} (xs : List A) (x : A) → length (xs ++ x ∷ []) ≡ suc (length xs)
length-snoc xs x = omega (arith, length-append xs (x ∷ []))

module _ (j : Json) where
  open j use {to_string}

  -- The parts of the whole turns, in order, until the stream ends or breaks.
  unfoldable pub whole_parts : List (Next j) → List (PartKind j)
  whole_parts [] = []
  whole_parts (event true ps ∷ es) = whole_parts es
  whole_parts (event false ps ∷ es) = map (λ (p : Part j). p.kind) ps ++ whole_parts es
  whole_parts (empty ∷ es) = whole_parts es
  whole_parts (idle_timeout ∷ es) = []
  whole_parts (failed ∷ es) = []

  -- The arguments of the last call with an identifier that has no response yet, the last part first.
  unfoldable pub asked : String → List (PartKind j) → Text
  asked i [] = []
  asked i (function_call name v (some k) ∷ ks) = if k =? i then to_string v else asked i ks
  asked i (function_response name v (some k) ∷ ks) = if k =? i then [] else asked i ks
  asked i (function_call name v none ∷ ks) = asked i ks
  asked i (function_response name v none ∷ ks) = asked i ks
  asked i (other ∷ ks) = asked i ks

  abbrev pub asked_of : Option String → List (PartKind j) → Text
  asked_of none ks = []
  asked_of (some i) ks = asked i ks

  module _ (new_v4 : ℕ → String) where
    -- One piece of evidence for each response, in order, with the arguments of the call it answers;
    -- the first list has the parts before, the last one first.
    unfoldable pub evidence_of : List (PartKind j) → ℕ → List (PartKind j) → List ToolEvidence
    evidence_of before n [] = []
    evidence_of before n (function_response name v i ∷ ks) =
        record {
          call_id = or_fresh (new_v4 n) i;
          name = name;
          args = asked_of i before;
          result = to_string v;
          allowed = not (is_denial_shape j v);
        }
        ∷ evidence_of (function_response name v i ∷ before) (suc n) ks
    evidence_of before n (function_call name v i ∷ ks) =
        evidence_of (function_call name v i ∷ before) n ks
    evidence_of before n (other ∷ ks) = evidence_of (other ∷ before) n ks

    abbrev Calls : Type 0
    Calls = List ToolEvidence × List (String × (String × Text))

    abbrev calls : Run → Calls
    calls r = (r.tool_evidence, r.pending_calls)

    kept_call : String → Text → Option String → Calls → Calls
    kept_call name args none c = c
    kept_call name args (some i) c = (c.0, insert i (name, args) c.1)

    note : Calls → PartKind j → Calls
    unfolding kept_call
    note c (function_call name v i) = kept_call name (to_string v) i c
    note c (function_response name v i) =
        let evidence : ToolEvidence = record {
          call_id = or_fresh (new_v4 (length c.0)) i;
          name = name;
          args = taken i c.1;
          result = to_string v;
          allowed = not (is_denial_shape j v);
        } in
        (c.0 ++ evidence ∷ [], without i c.1)
    note c other = c

    note_all : Calls → List (PartKind j) → Calls
    note_all c [] = c
    note_all c (k ∷ ks) = note_all (note c k) ks

    note_all-nil : (c : Calls) → c ≡ note_all c []
    unfolding note_all
    note_all-nil c = refl

    note_all-append :
        (c : Calls) (ks ls : List (PartKind j))
        → note_all c (ks ++ ls) ≡ note_all (note_all c ks) ls
    unfolding note_all
    note_all-append c [] ls = refl
    note_all-append c (k ∷ ks) ls = note_all-append (note c k) ks ls

    calls-on_part : (r : Run) (k : PartKind j) → calls (on_part j new_v4 r k) ≡ note (calls r) k
    unfolding on_part note
    calls-on_part r (function_call name v none) = refl
    calls-on_part r (function_call name v (some i)) = refl
    calls-on_part r (function_response name v i) = refl
    calls-on_part r other = refl

    calls-on_parts :
        (r : Run) (ps : List (Part j))
        → calls (on_parts j new_v4 r ps) ≡ note_all (calls r) (map (λ (p : Part j). p.kind) ps)
    unfolding on_parts note_all
    calls-on_parts r [] = refl
    calls-on_parts r (p ∷ ps) =
        calls-on_parts (on_part j new_v4 r p.kind) ps
        ∙ ap (λ (c : Calls). note_all c (map (λ (q : Part j). q.kind) ps)) (calls-on_part r p.kind)

    calls-on_turn : (r : Run) (ps : List (Part j)) → calls (on_turn j r ps) ≡ calls r
    unfolding on_turn
    calls-on_turn r ps = ground arith

    calls-on_delta : (r : Run) (t : Option Text) → calls (on_delta j r t) ≡ calls r
    unfolding on_delta
    calls-on_delta r none = refl
    calls-on_delta r (some t) = refl

    calls-on_partial : (r : Run) (ps : List (Part j)) → calls (on_partial j r ps) ≡ calls r
    unfolding on_partial
    calls-on_partial r [] = refl
    calls-on_partial r (p ∷ ps) =
        calls-on_partial (on_delta j r p.text) ps ∙ calls-on_delta r p.text

    calls-drive :
        (r : Run) (es : List (Next j))
        → calls (drive j new_v4 r es).0 ≡ note_all (calls r) (whole_parts es)
    unfolding drive on_event whole_parts
    calls-drive r [] = note_all-nil (calls r)
    calls-drive r (idle_timeout ∷ es) = note_all-nil (calls r)
    calls-drive r (failed ∷ es) = note_all-nil (calls r)
    calls-drive r (empty ∷ es) = calls-drive r es
    calls-drive r (event true ps ∷ es) =
        calls-drive (on_partial j r ps) es
        ∙ ap (λ (c : Calls). note_all c (whole_parts es)) (calls-on_partial r ps)
    calls-drive r (event false ps ∷ es) =
        calls-drive (on_parts j new_v4 (on_turn j r ps) ps) es
        ∙ ap (λ (c : Calls). note_all c (whole_parts es))
            (calls-on_parts (on_turn j r ps) ps
              ∙ ap (λ (c : Calls). note_all c (map (λ (p : Part j). p.kind) ps))
                  (calls-on_turn r ps))
        ∙ sym (note_all-append (calls r) (map (λ (p : Part j). p.kind) ps) (whole_parts es))

    -- The calls that wait are those of the parts before.
    abbrev Fits : Calls → List (PartKind j) → Type 0
    Fits c before = (i : String) → args_of (lookup i c.1) ≡ asked i before

    note-Fits :
        (c : Calls) (before : List (PartKind j)) (k : PartKind j)
        → Fits c before
        → Fits (note c k) (k ∷ before)
    unfolding note asked
    note-Fits c before (function_call name v none) h = h
    note-Fits c before (function_call name v (some k)) h =
        λ i. rw lookup-insert (ground (arith, h i))
    note-Fits c before (function_response name v none) h = h
    note-Fits c before (function_response name v (some k)) h =
        λ i. rw lookup-remove (ground (arith, h i))
    note-Fits c before other h = h

    taken-asked :
        (c : Calls) (before : List (PartKind j)) (i : Option String)
        → Fits c before
        → taken i c.1 ≡ asked_of i before
    taken-asked c before none h = refl
    taken-asked c before (some i) h = h i

    note_all-evidence :
        (c : Calls) (before ks : List (PartKind j))
        → Fits c before
        → (note_all c ks).0 ≡ c.0 ++ evidence_of before (length c.0) ks
    unfolding note_all evidence_of note
    note_all-evidence c before [] h = sym (append-nil c.0)
    note_all-evidence c before (function_call name v none ∷ ks) h =
        note_all-evidence (note c (function_call name v none)) (function_call name v none ∷ before)
          ks (note-Fits c before (function_call name v none) h)
    note_all-evidence c before (function_call name v (some i) ∷ ks) h =
        note_all-evidence (note c (function_call name v (some i)))
          (function_call name v (some i) ∷ before) ks
          (note-Fits c before (function_call name v (some i)) h)
    note_all-evidence c before (function_response name v i ∷ ks) h =
        let k : PartKind j = function_response name v i in
        let next = note_all-evidence (note c k) (k ∷ before) ks (note-Fits c before k h) in
        next ∙ append_assoc c.0 _ _ ∙ rw (taken-asked c before i h, length-snoc c.0 _) refl
    note_all-evidence c before (other ∷ ks) h =
        note_all-evidence c (other ∷ before) ks (note-Fits c before other h)

    waits_none : (i : String) → args_of (lookup {V = String × Text} i []) ≡ asked i []
    unfolding lookup asked
    waits_none i = refl

    fallback-evidence : (r : Run) → (fallback r).tool_evidence ≡ r.tool_evidence
    unfolding fallback
    fallback-evidence r = ground arith

    -- The evidence of a run, whether its stream ends or breaks, is one piece for each response of a tool
    -- in a whole turn, in order, with the arguments of the last call of the same identifier that
    -- had no response before, and denied exactly when the response is an object whose one key is
    -- `error`.
    pub run_of-evidence_of :
        (prior_turns : List (String × Text)) (user_message : Text) (es : List (Next j))
        → (run_of j new_v4 prior_turns user_message es).0.tool_evidence
          ≡ evidence_of [] 0 (whole_parts es)
    unfolding run_of
    run_of-evidence_of prior_turns user_message es =
        let r = begin prior_turns user_message in
        fallback-evidence (drive j new_v4 r es).0
        ∙ ap (λ (c : Calls). c.0) (calls-drive r es)
        ∙ note_all-evidence (calls r) [] (whole_parts es) (λ i. waits_none i)
