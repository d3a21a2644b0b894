-- ===== src/Fanout/Policy.antt =====
-- crates/orchestrator/src/lib.rs: the permission policy of the unattended coders.
use entheai.Base.{
  ◌≡◌, refl, String, Bool, true, false, not, Option, none, some, [], ◌∷◌, if◌then◌else◌, string_eq,
}
use entheai.Base.Assoc.{lookup}
use entheai.Base.Text.{codes}
use entheai.Permission.{
  Policy, Mode, Tier, allow, deny, with_ceiling, ceiling, parse, decide_tiered, contains, tier_le,
}

unfoldable pub ceiling_policy : Mode → Policy
ceiling_policy parent = with_ceiling (ceiling parent)

-- `[fanout].mode`, `[permission].yolo` and `[permission].fanout_auto_approve`.
pub record PolicyConfig : Type 0 where
  pub fanout_mode : String
  pub yolo : Bool
  pub fanout_auto_approve : Bool

abbrev is_empty : String → Bool
is_empty s = elim (codes s) [ [] ↦ true | _ ∷ _ ↦ false ]

-- The environment's mode is asked for where the configuration gives none.
abbrev mode_of : Option String → PolicyConfig → Mode
mode_of (some s) config = parse (codes s)
mode_of none config =
    if config.yolo
    then Mode.yolo
    else if not config.fanout_auto_approve
    then Mode.plan
    else Mode.auto

unfoldable pub fanout_mode : PolicyConfig → Option String → Mode
fanout_mode config entheai_mode =
    if not (is_empty config.fanout_mode)
    then parse (codes config.fanout_mode)
    else mode_of entheai_mode config

unfoldable pub fanout_policy : PolicyConfig → Option String → Policy
unfolding ceiling_policy fanout_mode
fanout_policy config entheai_mode = ceiling_policy (fanout_mode config entheai_mode)

-- A coder of the fan-out is never asked about: each call is allowed where its tier is at or below
-- the ceiling of the mode, and denied above.
pub fanout_policy-decides :
    (config : PolicyConfig) (entheai_mode : Option String) (tool : String) (t : Tier)
    → decide_tiered (fanout_policy config entheai_mode) tool t
      ≡ (if tier_le t (ceiling (fanout_mode config entheai_mode)) then allow else deny)
unfolding decide_tiered fanout_policy ceiling_policy with_ceiling contains lookup
fanout_policy-decides config entheai_mode tool t = refl
