-- ===== src/Examples/RouterCases.antt =====
-- The router and the launcher at concrete inputs (crates/router/src/lib.rs, crates/launcher/src/lib.rs).
use entheai.Base.{String, Bool, none, some, [], ◌∷◌, string_eq, ◌=?◌}
use entheai.Base.Text.{codes}
use entheai.Router.{Config, model_for_role, inject_builtin_providers}
use entheai.Router.Chain.{Serves, preferences, model_for_role-Serves}
use entheai.Launcher.{block, merge_shader_block}
use entheai.Launcher.Blocks.{MergesOr, merge_shader_block-MergesOr}

abbrev bare : Config
bare = record {
  providers = [];
  orchestrator = none;
  default_model = some "zen/model";
  agents = ("coder", "deepseek/deepseek-v4-pro" ∷ []) ∷ [];
  oracle_model = "gemini/gemini-3.1-pro-preview";
}

abbrev gemini_only : String → Bool
gemini_only var = var =? "GEMINI_API_KEY"

model_for_role-Serves_example :
    Serves gemini_only
      (inject_builtin_providers bare)
      (preferences (inject_builtin_providers bare) "coder")
      (model_for_role gemini_only (inject_builtin_providers bare) "coder")
model_for_role-Serves_example =
    model_for_role-Serves gemini_only (inject_builtin_providers bare) "coder"

merge_shader_block-MergesOr_example :
    MergesOr
      (codes "font = mono\n")
      (block (codes "/s/rain.glsl"))
      (merge_shader_block (codes "font = mono\n") (codes "/s/rain.glsl"))
merge_shader_block-MergesOr_example =
    merge_shader_block-MergesOr (codes "font = mono\n") (codes "/s/rain.glsl")
