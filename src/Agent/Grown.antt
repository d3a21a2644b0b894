-- ===== src/Agent/Grown.antt =====
-- crates/core/src/event_bridge.rs: the transcript of a run grows, and the answer stays in it.
use mathlib.Core.List.{append_assoc, append-nil}
use entheai.Base.{
  ℕ, ◌≡◌, ◌⊎◌, inl, inr, refl, sym, ap, ◌∙◌, subst, String, Bool, true, false, not, ◌&&◌, ◌||◌,
  Option, none, some, List, [], ◌∷◌, ◌++◌, Bool-cases,
}
use entheai.Agent.{
  Json, Text, is_empty, Run, Part, PartKind, function_call, function_response, other, Next,
  idle_timeout, failed, empty, event, on_delta, on_partial, text_of, has_calls, has_results,
  on_turn, on_part, on_parts, on_event, drive, fallback, begin, run_of,
}

abbrev pub Entry : Type 0
Entry = String × Text

abbrev pub Has : Entry → List Entry → Type 0
Has x t = (before : List Entry) × (after : List Entry) × (t ≡ before ++ x ∷ after)

Has-append : (x : Entry) (t more : List Entry) → Has x t → Has x (t ++ more)
Has-append x t more (before, after, e) = (
  before,
  after ++ more,
  ap (λ (s : List Entry). s ++ more) e ∙ append_assoc before (x ∷ after) more,
)

Has-last : (x : Entry) (t : List Entry) → Has x (t ++ x ∷ [])
Has-last x t = (t, [], refl)

-- The transcript grows, and the answer stays in it.
abbrev pub Grows : Run → Run → Type 0
Grows r r' = (more : List Entry) × (r'.transcript ≡ r.transcript ++ more)

Grows-same : (r r' : Run) → r'.transcript ≡ r.transcript → Grows r r'
Grows-same r r' e = ([], e ∙ sym (append-nil r.transcript))

Grows-trans : (r s t : Run) → Grows r s → Grows s t → Grows r t
Grows-trans r s t (m, e) (n, f) =
    (m ++ n, f ∙ ap (λ (u : List Entry). u ++ n) e ∙ append_assoc r.transcript m n)

abbrev pub Settled : Text → List Entry → Type 0
Settled a t = (is_empty a ≡ true) ⊎ Has ("assistant", a) t

abbrev pub Says : Run → Type 0
Says r = Settled r.answer r.transcript

Says-Grows : (r r' : Run) → r'.answer ≡ r.answer → Grows r r' → Says r → Says r'
Says-Grows r r' a (more, e) (inl h) = inl (ap is_empty a ∙ h)
Says-Grows r r' a (more, e) (inr h) = inr (
    subst (λ (x : Text). Has ("assistant", x) r'.transcript) (sym a)
      (subst (Has ("assistant", r.answer)) (sym e)
        (Has-append ("assistant", r.answer) r.transcript more h)))

-- The answer is kept, and the transcript grows.
abbrev pub Carries : Run → Run → Type 0
Carries r r' = (r'.answer ≡ r.answer) × Grows r r'

abbrev Fine : Run → Run → Type 0
Fine r r' = Grows r r' × (Says r → Says r')

Carries-Fine : (r r' : Run) → Carries r r' → Fine r r'
Carries-Fine r r' (a, g) = (g, Says-Grows r r' a g)

Fine-trans : (r s t : Run) → Fine r s → Fine s t → Fine r t
Fine-trans r s t (g, f) (h, k) = (Grows-trans r s t g h, λ x. k (f x))

Carries-trans : (r s t : Run) → Carries r s → Carries s t → Carries r t
Carries-trans r s t (a, g) (b, h) = (b ∙ a, Grows-trans r s t g h)

Fine-fallback : (r : Run) → Fine r (fallback r)
unfolding fallback
Fine-fallback r = elim (Bool-cases (is_empty r.answer && not (is_empty r.streamed_text))) [
  | inl e ↦
      rw (e, fallback)
        (
          (("assistant", r.streamed_text) ∷ [], refl),
          λ s. inr (Has-last ("assistant", r.streamed_text) r.transcript),
        )
  | inr e ↦ rw (e, fallback) (Grows-same r r refl, λ s. s)
]

module _ (j : Json) where
  Carries-on_delta : (r : Run) (t : Option Text) → Carries r (on_delta j r t)
  unfolding on_delta
  Carries-on_delta r none = (refl, Grows-same r r refl)
  Carries-on_delta r (some t) = (refl, ([], sym (append-nil r.transcript)))

  pub Carries-on_partial : (r : Run) (ps : List (Part j)) → Carries r (on_partial j r ps)
  unfolding on_partial
  Carries-on_partial r [] = (refl, Grows-same r r refl)
  Carries-on_partial r (p ∷ ps) =
      let next = on_delta j r p.text in
      Carries-trans r next (on_partial j next ps) (Carries-on_delta r p.text)
        (Carries-on_partial next ps)

  Fine-on_turn : (r : Run) (ps : List (Part j)) → Fine r (on_turn j r ps)
  unfolding on_turn
  Fine-on_turn r ps =
      elim (Bool-cases
        (not (is_empty (text_of j ps)) && not (has_calls j ps) && not (has_results j ps))) [
          | inl e ↦
              rw (e, on_turn)
                (
                  (("assistant", text_of j ps) ∷ [], refl),
                  λ s. inr (Has-last ("assistant", text_of j ps) r.transcript),
                )
          | inr e ↦ elim (Bool-cases (has_calls j ps || has_results j ps)) [
            | inl f ↦ rw (e, f, on_turn) (([], sym (append-nil r.transcript)), λ s. inl refl)
            | inr f ↦ rw (e, f, on_turn) (Grows-same r r refl, λ s. s)
          ]
        ]

  module _ (new_v4 : ℕ → String) where
    Carries-on_part : (r : Run) (k : PartKind j) → Carries r (on_part j new_v4 r k)
    unfolding on_part
    Carries-on_part r (function_call name v none) = (refl, ([], sym (append-nil r.transcript)))
    Carries-on_part r (function_call name v (some i)) = (refl, ([], sym (append-nil r.transcript)))
    Carries-on_part r (function_response name v i) = (refl, (_, refl))
    Carries-on_part r other = (refl, Grows-same r r refl)

    pub Carries-on_parts : (r : Run) (ps : List (Part j)) → Carries r (on_parts j new_v4 r ps)
    unfolding on_parts
    Carries-on_parts r [] = (refl, Grows-same r r refl)
    Carries-on_parts r (p ∷ ps) =
        let next = on_part j new_v4 r p.kind in
        Carries-trans r next (on_parts j new_v4 next ps) (Carries-on_part r p.kind)
          (Carries-on_parts next ps)

    Fine-on_event :
        (r : Run) (partial : Bool) (ps : List (Part j)) → Fine r (on_event j new_v4 r partial ps)
    unfolding on_event
    Fine-on_event r true ps = Carries-Fine r (on_partial j r ps) (Carries-on_partial r ps)
    Fine-on_event r false ps =
        let turn = on_turn j r ps in
        let done = on_parts j new_v4 turn ps in
        Fine-trans r turn done (Fine-on_turn r ps)
          (Carries-Fine turn done (Carries-on_parts turn ps))

    Fine-drive : (r : Run) (es : List (Next j)) → Fine r (drive j new_v4 r es).0
    unfolding drive
    Fine-drive r [] = (Grows-same r r refl, λ s. s)
    Fine-drive r (idle_timeout ∷ es) = (Grows-same r r refl, λ s. s)
    Fine-drive r (failed ∷ es) = (Grows-same r r refl, λ s. s)
    Fine-drive r (empty ∷ es) = Fine-drive r es
    Fine-drive r (event partial ps ∷ es) =
        let next = on_event j new_v4 r partial ps in
        Fine-trans r next (drive j new_v4 next es).0 (Fine-on_event r partial ps)
          (Fine-drive next es)

    pub run_of-Fine :
        (prior_turns : List Entry) (user_message : Text) (es : List (Next j))
        → Grows (begin prior_turns user_message) (run_of j new_v4 prior_turns user_message es).0
          × Says (run_of j new_v4 prior_turns user_message es).0
    unfolding run_of
    run_of-Fine prior_turns user_message es =
        let r = begin prior_turns user_message in
        let whole = (drive j new_v4 r es).0 in
        let (g, s) = Fine-trans r whole (fallback whole) (Fine-drive r es) (Fine-fallback whole) in
        (g, s (inl refl))
