-- ===== src/Router.antt =====
-- crates/router/src/lib.rs: which model serves a role, and the providers that crates/config/src/lib.rs adds to
-- every configuration. The environment is a test of its variables. The warning that names the reason of a
-- fallback is output only.
pub mod Chain
pub mod Free
use entheai.Base.{
  ℕ, String, Bool, true, false, ◌||◌, Option, none, some, List, [], ◌∷◌, ◌++◌, ◌==◌, if◌then◌else◌,
  string_eq, ◌=?◌,
}
use entheai.Base.Assoc.{lookup, is_some}
use entheai.Base.Text.{codes, to_ascii_lowercase, text_eq}
use Prim.Native.Char.{code}
use Prim.Native.String

abbrev pub default_free_model : String
default_free_model = "vaked/qwen3-coder:30b"

abbrev pub default_pro_chain : List String
default_pro_chain =
    "deepseek/deepseek-v4-pro" ∷ "gemini/gemini-3.1-pro-preview"
    ∷ "openrouter/deepseek/deepseek-v4-pro" ∷ []

abbrev pub default_flash_chain : List String
default_flash_chain =
    "deepseek/deepseek-v4-flash" ∷ "gemini/gemini-3.6-flash"
    ∷ "openrouter/deepseek/deepseek-v4-flash" ∷ []

pub record ProviderConfig : Type 0 where
  pub base_url : String
  pub model_dir : Option String
  pub kind : Option String
  pub api_key_env : Option String

pub record Config : Type 0 where
  pub providers : List (String × ProviderConfig)
  pub orchestrator : Option String
  pub default_model : Option String
  pub agents : List (String × List String)
  pub oracle_model : String

-- `entry(...).or_insert_with(...)`.
abbrev pub or_insert :
    String → ProviderConfig → List (String × ProviderConfig) → List (String × ProviderConfig)
or_insert name p providers =
    if is_some (lookup name providers) then providers else providers ++ (name, p) ∷ []

abbrev pub builtin : String → Option String → Option String → ProviderConfig
builtin base_url api_key_env kind = record {
  base_url = base_url;
  model_dir = none;
  kind = kind;
  api_key_env = api_key_env;
}

abbrev pub vaked : ProviderConfig
vaked = builtin "https://coder.vaked.dev/v1" none none

-- `BUILTIN_KEYED_PROVIDERS`.
abbrev pub builtin_keyed_providers : List (String × ProviderConfig)
builtin_keyed_providers =
    ("deepseek", builtin "https://api.deepseek.com/v1" (some "DEEPSEEK_API_KEY") none)
    ∷ (
      "gemini",
      builtin "https://generativelanguage.googleapis.com/v1beta/openai" (some "GEMINI_API_KEY")
          (some "gemini"),
    )
    ∷ ("openrouter", builtin "https://openrouter.ai/api/v1" (some "OPENROUTER_API_KEY") none)
    ∷ []

abbrev pub inject :
    List (String × ProviderConfig) → List (String × ProviderConfig) → List (String × ProviderConfig)
inject [] providers = providers
inject ((name, p) ∷ ps) providers = inject ps (or_insert name p providers)

unfoldable pub inject_builtin_providers : Config → Config
inject_builtin_providers c = record c {
  providers = inject builtin_keyed_providers (or_insert "vaked" vaked c.providers);
}

abbrev one_of : String → List String → Bool
one_of role [] = false
one_of role (r ∷ rs) = text_eq (to_ascii_lowercase (codes role)) (codes r) || one_of role rs

unfoldable pub builtin_chain_for_role : String → List String
builtin_chain_for_role role =
    if one_of role ("coder" ∷ "reviewer" ∷ "review" ∷ [])
    then default_pro_chain
    else default_flash_chain

-- `split_once('/')`, and what is before it.
abbrev pub provider_of : String → Option String
provider_of String.[] = none
provider_of (String.◌∷◌ c s) =
    if code c == b'/'
    then some String.[]
    else elim (provider_of s) [ none ↦ none | some p ↦ some (String.◌∷◌ c p) ]

abbrev to_list : Option String → List String
to_list none = []
to_list (some s) = s ∷ []

unfoldable pub configured_orchestrator_chain : Config → List String
configured_orchestrator_chain c = to_list c.orchestrator ++ to_list c.default_model

-- The chain of a role, from the most preferred model on.
abbrev pub or_nothing : Option (List String) → List String
or_nothing none = []
or_nothing (some models) = models

unfoldable pub chain_for_role : Config → String → List String
unfolding configured_orchestrator_chain builtin_chain_for_role
chain_for_role c role =
    (or_nothing (lookup role c.agents) ++ configured_orchestrator_chain c)
    ++ builtin_chain_for_role role

module _ (env : String → Bool) where
  -- Whether a declared provider can be used.
  abbrev pub usable : Option ProviderConfig → Bool
  usable none = false
  usable (some p) = elim p.api_key_env [ none ↦ true | some var ↦ env var ]

  unfoldable pub provider_available : Config → String → Bool
  provider_available c model = elim (provider_of model) [
    | none ↦ false
    | some provider ↦ usable (lookup provider c.providers)
  ]

  -- `iter().find(...)`.
  abbrev pub find_available : Config → List String → Option String
  find_available c [] = none
  find_available c (m ∷ ms) =
      let rest = find_available c ms in if provider_available c m then some m else rest

  abbrev first : List String → Option String
  first [] = none
  first (m ∷ _) = some m

  unfoldable pub first_available : Config → List String → Option String
  first_available c ms = elim (find_available c ms) [ some m ↦ some m | none ↦ first ms ]

  -- `none` is the panic of an empty chain.
  unfoldable pub model_for_role : Config → String → Option String
  unfolding first_available chain_for_role
  model_for_role c role = first_available c (chain_for_role c role)

  unfoldable pub orchestrator_model : Config → Option String
  unfolding first_available configured_orchestrator_chain
  orchestrator_model c = first_available c (configured_orchestrator_chain c ++ default_pro_chain)

  unfoldable pub oracle_model : Config → Option String
  unfolding first_available
  oracle_model c = first_available c (c.oracle_model ∷ default_pro_chain)

  unfoldable pub available_or_free : Config → String → String
  unfolding provider_available
  available_or_free c preferred =
      if provider_available c preferred then preferred else default_free_model
