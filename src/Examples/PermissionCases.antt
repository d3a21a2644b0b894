-- ===== src/Examples/PermissionCases.antt =====
-- Tool policies at concrete inputs (crates/permission/src/lib.rs).
use entheai.Base.{◌≤◌, ◌≡◌, string_eq, refl, false, [], ◌∷◌, ◌=?◌, if◌then◌else◌, String}
use entheai.Permission.{Policy, read, exec, always_allow, new, pin, decide_tiered, pin_decision}
use entheai.Permission.Tiers.{leniency, decide_tiered_antitone}
use entheai.Permission.Overrides.{decide_tiered-pin}

abbrev rm : String
rm = "rm"

abbrev careful : Policy
careful = pin (new false ("cargo" ∷ [])) "push" always_allow

decide_tiered_antitone_example :
    leniency (decide_tiered careful rm exec) ≤ leniency (decide_tiered careful rm read)
decide_tiered_antitone_example = decide_tiered_antitone careful rm read exec refl

decide_tiered-pin_example :
    decide_tiered (pin careful rm always_allow) rm exec
    ≡ (if rm =? rm then pin_decision always_allow else decide_tiered careful rm exec)
decide_tiered-pin_example = decide_tiered-pin careful rm rm always_allow exec
