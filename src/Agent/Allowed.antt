-- ===== src/Agent/Allowed.antt =====
-- crates/core/src/adk_tool_adapter.rs: what the calls of a model come to under a policy.
use entheai.Base.{
  ℕ, ◌+◌, ◌≡◌, refl, sym, ap, ◌∙◌, subst, String, Bool, true, false, not, none, some, List, [], ◌∷◌,
  ◌++◌, if◌then◌else◌, ◌=?◌, =?_refl, string_eq, arith, Bool-cases, inl, inr, keep, count_if,
}
use entheai.Base.Assoc.{lookup}
use entheai.Permission.{
  Decision, allow, deny, ask, Tier, Policy, Grant, decide_tiered, grant_session, contains, never,
}
use entheai.Agent.Adapter.{
  Call, Session, is_allowed, after_grant, dispatch, decided, execute, execute_all,
}

pins-after_grant : (g : Grant) (name : String) (p : Policy) → (after_grant g name p).pins ≡ p.pins
unfolding grant_session
pins-after_grant Grant.deny name p = refl
pins-after_grant Grant.allow name p = refl
pins-after_grant Grant.allow_session name p = refl

decide_tiered-never :
    (p : Policy) (tool : String) (t : Tier)
    → lookup tool p.pins ≡ some never
    → decide_tiered p tool t ≡ deny
unfolding decide_tiered
decide_tiered-never p tool t h = rw h refl

-- A tool that is granted for the session and not pinned.
abbrev Granted : String → Policy → Type 0
Granted tool p = (contains p.session tool ≡ true) × (lookup tool p.pins ≡ none)

decide_tiered-Granted :
    (p : Policy) (tool : String) (t : Tier) → Granted tool p → decide_tiered p tool t ≡ allow
unfolding decide_tiered
decide_tiered-Granted p tool t (h, k) = rw k (ground (arith, h))

Granted-after_grant :
    (g : Grant) (name tool : String) (p : Policy)
    → Granted tool p
    → Granted tool (after_grant g name p)
unfolding grant_session contains
Granted-after_grant Grant.deny name tool p h = h
Granted-after_grant Grant.allow name tool p h = h
Granted-after_grant Grant.allow_session name tool p (h, k) = (ground (arith, h), k)

Granted-grant_session :
    (tool : String) (p : Policy) → lookup tool p.pins ≡ none → Granted tool (grant_session p tool)
unfolding grant_session contains
Granted-grant_session tool p k = (ground (arith, =?_refl tool), k)

abbrev times : String → List String → ℕ
times tool ts = count_if (λ (t : String). t =? tool) ts

times-snoc :
    (tool name : String) (ts : List String)
    → times tool (ts ++ name ∷ []) ≡ times tool ts + (if name =? tool then 1 else 0)
times-snoc tool name [] = ground arith
times-snoc tool name (t ∷ ts) = ground (arith, times-snoc tool name ts)

module _ {World : Type 0} where
  policy-dispatch :
      (c : Call World) (b : Bool) (s : Session World) → (dispatch c b s).1.policy ≡ s.policy
  policy-dispatch c true s = refl
  policy-dispatch c false s = refl

  asked-dispatch :
      (c : Call World) (b : Bool) (s : Session World) → (dispatch c b s).1.asked ≡ s.asked
  asked-dispatch c true s = refl
  asked-dispatch c false s = refl

  pins-decided :
      (c : Call World) (d : Decision) (s : Session World)
      → (decided c d s).1.policy.pins ≡ s.policy.pins
  pins-decided c allow s = refl
  pins-decided c deny s = refl
  pins-decided c ask s =
      ap (λ (p : Policy). p.pins) (policy-dispatch c (is_allowed c.answer) _)
      ∙ pins-after_grant c.answer c.name s.policy

  pins-execute : (c : Call World) (s : Session World) → (execute c s).1.policy.pins ≡ s.policy.pins
  unfolding execute
  pins-execute c s = pins-decided c (decide_tiered s.policy c.name c.tier) s

  execute-denied :
      (c : Call World) (s : Session World)
      → decide_tiered s.policy c.name c.tier ≡ deny
      → (execute c s).1 ≡ s
  unfolding execute
  execute-denied c s h = ap (λ (d : Decision). (decided c d s).1) h

  -- Calls of a tool that is pinned to `never` are as if they were not made: whatever the model calls and
  -- the user answers, the session is that of the other calls.
  pub execute_all-never :
      (tool : String) (cs : List (Call World)) (s : Session World)
      → lookup tool s.policy.pins ≡ some never
      → execute_all cs s ≡ execute_all (keep (λ (c : Call World). not (c.name =? tool)) cs) s
  unfolding execute_all
  execute_all-never tool [] s h = refl
  execute_all-never tool (c ∷ cs) s h = elim (Bool-cases (c.name =? tool)) [
    | inl e ↦
        let same : c.name ≡ tool = (string_eq.beq_iff c.name tool).0 e in
        let denied : decide_tiered s.policy c.name c.tier ≡ deny =
          decide_tiered-never s.policy c.name c.tier
            (subst (λ (t : String). lookup t s.policy.pins ≡ some never) (sym same) h) in
        ap (λ (r : Session World). execute_all cs r) (execute-denied c s denied)
        ∙ execute_all-never tool cs s h
        ∙ rw e refl
    | inr e ↦
        execute_all-never tool cs (execute c s).1 (ap (lookup tool) (pins-execute c s) ∙ h)
        ∙ rw e refl
  ]

  -- How often the user was asked about a tool.
  abbrev pub times_asked : String → Session World → ℕ
  times_asked tool s = count_if (λ (t : String). t =? tool) s.asked

  Granted-decided :
      (c : Call World) (d : Decision) (tool : String) (s : Session World)
      → Granted tool s.policy
      → Granted tool (decided c d s).1.policy
  Granted-decided c allow tool s h = h
  Granted-decided c deny tool s h = h
  Granted-decided c ask tool s h =
      subst (Granted tool) (sym (policy-dispatch c (is_allowed c.answer) _))
        (Granted-after_grant c.answer c.name tool s.policy h)

  asked-other :
      (tool : String) (c : Call World) (d : Decision) (s : Session World)
      → (c.name =? tool) ≡ false
      → times_asked tool (decided c d s).1 ≡ times_asked tool s
  asked-other tool c allow s h = refl
  asked-other tool c deny s h = refl
  asked-other tool c ask s h =
      ap (λ (ts : List String). count_if (λ (t : String). t =? tool) ts)
        (asked-dispatch c (is_allowed c.answer) _)
      ∙ times-snoc tool c.name s.asked
      ∙ ground (arith, h)

  execute_all-Granted :
      (tool : String) (cs : List (Call World)) (s : Session World)
      → Granted tool s.policy
      → times_asked tool (execute_all cs s) ≡ times_asked tool s
  unfolding execute_all execute
  execute_all-Granted tool [] s h = refl
  execute_all-Granted tool (c ∷ cs) s h =
      execute_all-Granted tool cs (execute c s).1
        (Granted-decided c (decide_tiered s.policy c.name c.tier) tool s h)
      ∙ elim (Bool-cases (c.name =? tool)) [
        | inl e ↦
            let same : c.name ≡ tool = (string_eq.beq_iff c.name tool).0 e in
            let open_to : decide_tiered s.policy c.name c.tier ≡ allow =
              decide_tiered-Granted s.policy c.name c.tier
                (subst (λ (t : String). Granted t s.policy) (sym same) h) in
            ap (λ (d : Decision). times_asked tool (decided c d s).1) open_to
        | inr e ↦ asked-other tool c (decide_tiered s.policy c.name c.tier) s e
      ]

  -- Where the policy asks about a tool that is not pinned and the user grants it for the session, the user
  -- is asked about that tool this once, whatever the model calls from there on.
  pub execute_all-asked_once :
      (c : Call World) (cs : List (Call World)) (s : Session World)
      → decide_tiered s.policy c.name c.tier ≡ ask
      → c.answer ≡ Grant.allow_session
      → lookup c.name s.policy.pins ≡ none
      → times_asked c.name (execute_all (c ∷ cs) s) ≡ times_asked c.name s + 1
  unfolding execute_all execute
  execute_all-asked_once c cs s asks grants unpinned =
      let r = (decided c ask s).1 in
      let granted : r.policy ≡ grant_session s.policy c.name =
        policy-dispatch c (is_allowed c.answer) _
        ∙ ap (λ (g : Grant). after_grant g c.name s.policy) grants in
      ap (λ (d : Decision). times_asked c.name (execute_all cs (decided c d s).1)) asks
      ∙ execute_all-Granted c.name cs r
          (subst (Granted c.name) (sym granted) (Granted-grant_session c.name s.policy unpinned))
      ∙ ap (times c.name) (asked-dispatch c (is_allowed c.answer) _)
      ∙ times-snoc c.name c.name s.asked
      ∙ ground (arith, =?_refl c.name)
