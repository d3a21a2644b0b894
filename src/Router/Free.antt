-- ===== src/Router/Free.antt =====
-- crates/router/src/lib.rs and crates/config/src/lib.rs: the model that the fan-out falls back to can be
-- used, unless the configuration redeclares its provider with a key that is not set.
use entheai.Base.{
  ◌≡◌, refl, sym, ap, ◌∙◌, inl, inr, String, Bool, ◌||◌, Option, none, some, List, [], ◌∷◌, ◌++◌,
  if◌then◌else◌, arith, Bool-cases, Option-cases, string_eq, ◌=?◌,
}
use entheai.Base.Assoc.{lookup}
use entheai.Router.{
  Config, ProviderConfig, or_insert, inject, vaked, builtin_keyed_providers,
  inject_builtin_providers, usable, provider_available, available_or_free, default_free_model,
}

lookup-append :
    (k n : String) (p : ProviderConfig) (ps : List (String × ProviderConfig))
    → lookup k (ps ++ (n, p) ∷ [])
      ≡ elim (lookup k ps) [ some q ↦ some q | none ↦ if n =? k then some p else none ]
unfolding lookup
lookup-append k n p [] = refl
lookup-append k n p ((j, q) ∷ ps) = ground (arith, lookup-append k n p ps)

-- An insertion does not override what is declared.
lookup-or_insert :
    (k n : String) (p q : ProviderConfig) (ps : List (String × ProviderConfig))
    → lookup k ps ≡ some q
    → lookup k (or_insert n p ps) ≡ some q
lookup-or_insert k n p q ps h = ground (arith, h, lookup-append k n p ps)

lookup-inject :
    (k : String) (q : ProviderConfig) (new ps : List (String × ProviderConfig))
    → lookup k ps ≡ some q
    → lookup k (inject new ps) ≡ some q
lookup-inject k q [] ps h = h
lookup-inject k q ((n, p) ∷ new) ps h =
    lookup-inject k q new (or_insert n p ps) (lookup-or_insert k n p q ps h)

lookup-or_insert_new :
    (k : String) (p : ProviderConfig) (ps : List (String × ProviderConfig))
    → lookup k ps ≡ none
    → lookup k (or_insert k p ps) ≡ some p
lookup-or_insert_new k p ps h = ground (arith, h, lookup-append k k p ps, string_eq.beq_iff k k)

-- The declared provider of the free tier, or the built-in one.
abbrev pub free_provider : Option ProviderConfig → ProviderConfig
free_provider none = vaked
free_provider (some p) = p

injected :
    (c : Config)
    → lookup "vaked" (inject_builtin_providers c).providers
      ≡ some (free_provider (lookup "vaked" c.providers))
unfolding inject_builtin_providers
injected c = elim (Option-cases (lookup "vaked" c.providers)) [
  | inl e ↦
      lookup-inject "vaked" vaked builtin_keyed_providers (or_insert "vaked" vaked c.providers)
        (lookup-or_insert_new "vaked" vaked c.providers e)
      ∙ ap (λ (o : Option ProviderConfig). some (free_provider o)) (sym e)
  | inr (p, e) ↦
      lookup-inject "vaked" p builtin_keyed_providers (or_insert "vaked" vaked c.providers)
        (lookup-or_insert "vaked" "vaked" vaked p c.providers e)
      ∙ ap (λ (o : Option ProviderConfig). some (free_provider o)) (sym e)
]

free-available :
    (env : String → Bool) (c : Config)
    → provider_available env (inject_builtin_providers c) default_free_model
      ≡ usable env (some (free_provider (lookup "vaked" c.providers)))
unfolding provider_available
free-available env c = ap (usable env) (injected c)

chosen : (A : String → Bool) (m f : String) → A (if A m then m else f) ≡ (A m || A f)
chosen A m f = elim (Bool-cases (A m)) [ inl e ↦ rw e e | inr e ↦ rw e refl ]

-- With the built-in providers, what `available_or_free` gives is available exactly when the asked
-- model is, or the free tier's provider is not declared, or is declared without a key or with one
-- that is set.
pub available_or_free-available :
    (env : String → Bool) (c : Config) (model : String)
    → provider_available env
        (inject_builtin_providers c)
        (available_or_free env (inject_builtin_providers c) model)
      ≡ (provider_available env (inject_builtin_providers c) model
          || usable env (some (free_provider (lookup "vaked" c.providers))))
unfolding available_or_free
available_or_free-available env c model =
    let full = inject_builtin_providers c in
    chosen (provider_available env full) model default_free_model
    ∙ ap (λ (b : Bool). provider_available env full model || b) (free-available env c)
