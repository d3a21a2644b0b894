-- ===== src/Router/Chain.antt =====
-- crates/router/src/lib.rs: the model of a role is the first of its chain that is available.
use entheai.Base.{
  ◌≡◌, refl, sym, ap, subst, ◌⊎◌, inl, inr, String, Bool, true, false, not, Option, none, some,
  List, [], ◌∷◌, if◌then◌else◌, ◌||◌, ◌++◌, all, string_eq, arith, Bool-cases,
}
use entheai.Base.Assoc.{lookup}
use entheai.Base.Text.{codes, text_eq, to_ascii_lowercase}
use entheai.Router.{
  Config, provider_available, find_available, first_available, chain_for_role, model_for_role,
  available_or_free, default_free_model, or_nothing, builtin_chain_for_role,
  configured_orchestrator_chain,
}

-- What a role prefers, in order.
abbrev listed : Option (List String) → List String
listed none = []
listed (some models) = models

abbrev listed_one : Option String → List String
listed_one none = []
listed_one (some model) = model ∷ []

abbrev pro_tier : List String
pro_tier =
    "deepseek/deepseek-v4-pro" ∷ "gemini/gemini-3.1-pro-preview"
    ∷ "openrouter/deepseek/deepseek-v4-pro" ∷ []

abbrev flash_tier : List String
flash_tier =
    "deepseek/deepseek-v4-flash" ∷ "gemini/gemini-3.6-flash"
    ∷ "openrouter/deepseek/deepseek-v4-flash" ∷ []

abbrev names : String → String → Bool
names role r = text_eq (to_ascii_lowercase (codes role)) (codes r)

-- The pro tier for coders and reviewers, in any case of letters.
abbrev pub tier : String → List String
tier role =
    if names role "coder" || (names role "reviewer" || names role "review")
    then pro_tier
    else flash_tier

abbrev pub preferences : Config → String → List String
preferences c role =
    (listed (lookup role c.agents) ++ (listed_one c.orchestrator ++ listed_one c.default_model))
    ++ tier role

tier-cases : (role : String) → (tier role ≡ pro_tier) ⊎ (tier role ≡ flash_tier)
tier-cases role = ground arith

builtin_chain_for_role-tier : (role : String) → builtin_chain_for_role role ≡ tier role
unfolding builtin_chain_for_role
builtin_chain_for_role-tier role = ground arith

configured_orchestrator_chain-listed :
    (c : Config)
    → configured_orchestrator_chain c ≡ listed_one c.orchestrator ++ listed_one c.default_model
unfolding configured_orchestrator_chain
configured_orchestrator_chain-listed c = ground arith

or_nothing-listed : (o : Option (List String)) → or_nothing o ≡ listed o
or_nothing-listed none = refl
or_nothing-listed (some models) = refl

chain_for_role-preferences :
    (c : Config) (role : String) → chain_for_role c role ≡ preferences c role
unfolding chain_for_role
chain_for_role-preferences c role i =
    (or_nothing-listed (lookup role c.agents) i ++ configured_orchestrator_chain-listed c i)
    ++ builtin_chain_for_role-tier role i

module _ (env : String → Bool) (c : Config) where
  abbrev unavailable : List String → Bool
  unavailable ms = all (λ m. not (provider_available env c m)) ms

  -- The first available model of a chain.
  abbrev pub IsFirst : List String → String → Type 0
  IsFirst ms m =
      (before : List String) × ((after : List String) × ((ms ≡ before ++ m ∷ after)
          × ((unavailable before ≡ true) × (provider_available env c m ≡ true))))

  -- What a chain gives, and what it is degraded to.
  abbrev pub Serves : List String → Option String → Type 0
  Serves ms none = ⊥
  Serves ms (some m) =
      (IsFirst ms m × (available_or_free env c m ≡ m))
      ⊎ ((unavailable ms ≡ true) × (available_or_free env c m ≡ default_free_model))

  find_available-IsFirst :
      (ms : List String)
      → ((find_available env c ms ≡ none) × (unavailable ms ≡ true))
        ⊎ ((m : String) × ((find_available env c ms ≡ some m) × IsFirst ms m))
  find_available-IsFirst [] = inl (refl, refl)
  find_available-IsFirst (m ∷ ms) = elim (Bool-cases (provider_available env c m)) [
    | inl e ↦ inr (m, (ground (arith, e), ([], (ms, (refl, (refl, e))))))
    | inr e ↦ elim (find_available-IsFirst ms) [
      | inl (none_found, rest) ↦ inl (ground (arith, e, none_found), ground (arith, e, rest))
      | inr (n, (found, (before, (after, (split, (skipped, ok)))))) ↦ inr (
        n,
        (
          ground (arith, e, found),
          (
            m ∷ before,
            (after, (ap (λ (xs : List String). m ∷ xs) split, (ground (arith, e, skipped), ok))),
          ),
        ),
      )
    ]
  ]

  first_available-Serves :
      (m : String) (ms : List String) → Serves (m ∷ ms) (first_available env c (m ∷ ms))
  unfolding first_available available_or_free
  first_available-Serves m ms = elim (find_available-IsFirst (m ∷ ms)) [
    | inl (none_found, rest) ↦
        let same : some m ≡ first_available env c (m ∷ ms) = ground (arith, none_found) in
        let head : provider_available env c m ≡ false = ground (arith, rest) in
        subst (Serves (m ∷ ms)) same (inr (rest, rw (head, available_or_free) refl))
    | inr (n, (found, (before, (after, (split, (skipped, ok)))))) ↦
        let same : some n ≡ first_available env c (m ∷ ms) = ground (arith, found) in
        subst (Serves (m ∷ ms)) same
          (inl ((before, (after, (split, (skipped, ok)))), rw (ok, available_or_free) refl))
  ]

  append-Serves :
      (xs : List String) (m : String) (ms : List String)
      → Serves (xs ++ m ∷ ms) (first_available env c (xs ++ m ∷ ms))
  append-Serves [] m ms = first_available-Serves m ms
  append-Serves (x ∷ xs) m ms = first_available-Serves x (xs ++ m ∷ ms)

  -- A role always has a model: the first of its preferences that is available, which the fan-out keeps; or,
  -- only where none of them is, one that it replaces by the free tier. The preferences are the role's
  -- own models, the configured orchestrator, the default model, and the built-in tier of the role.
  pub model_for_role-Serves :
      (role : String) → Serves (preferences c role) (model_for_role env c role)
  unfolding model_for_role
  model_for_role-Serves role =
      let own = listed (lookup role c.agents) in
      let configured = listed_one c.orchestrator ++ listed_one c.default_model in
      subst (λ (ms : List String). Serves ms (first_available env c (chain_for_role c role)))
        (chain_for_role-preferences c role)
        (subst (λ (ms : List String). Serves ms (first_available env c ms))
          (sym (chain_for_role-preferences c role))
          (elim (tier-cases role) [
            | inl e ↦
                subst
                  (λ (ms : List String).
                    Serves ((own ++ configured) ++ ms)
                      (first_available env c ((own ++ configured) ++ ms)))
                  (sym e) (append-Serves (own ++ configured) _ _)
            | inr e ↦
                subst
                  (λ (ms : List String).
                    Serves ((own ++ configured) ++ ms)
                      (first_available env c ((own ++ configured) ++ ms)))
                  (sym e) (append-Serves (own ++ configured) _ _)
          ]))
