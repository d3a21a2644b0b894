-- ===== src/Permission/Tiers.antt =====
-- How decisions depend on the tier and on the mode (crates/permission/src/lib.rs).
use entheai.Base.{ℕ, ◌≤◌, String, ◌≡◌, ◌≢◌, true, false, List, string_eq, arith}
use entheai.Base.Assoc.{lookup}
use entheai.Permission.{
  Decision, allow, deny, ask, Tier, read, tier_le, Mode, ceiling, Policy, set_mode, with_mode,
  with_ceiling, contains, decide_tiered, is_yolo, new,
}

-- How much a decision lets through.
abbrev pub leniency : Decision → ℕ
leniency deny = 0
leniency Decision.ask = 1
leniency allow = 2

-- A call of a higher tier never gets a more lenient decision: for every policy, with its pins,
-- grants, ceiling and mode, and every tool, if `t` is at most `u`, then the decision at `u` lets
-- through at most what the decision at `t` does.
pub decide_tiered_antitone :
    (p : Policy) (tool : String) (t u : Tier)
    → tier_le t u ≡ true
    → leniency (decide_tiered p tool u) ≤ leniency (decide_tiered p tool t)
unfolding decide_tiered
decide_tiered_antitone p tool t u h = ground arith

-- The ceiling that a mode gives an unattended subagent agrees with the mode: under
-- `with_ceiling (ceiling m)` no call is asked about, what `with_mode m` allows is allowed, and what
-- `with_mode m` denies is denied.
pub ceiling-with_mode :
    (m : Mode) (tool : String) (t : Tier)
    → (decide_tiered (with_ceiling (ceiling m)) tool t ≢ ask)
      × (decide_tiered (with_mode m) tool t ≡ allow
          → decide_tiered (with_ceiling (ceiling m)) tool t ≡ allow)
      × (decide_tiered (with_mode m) tool t ≡ deny
          → decide_tiered (with_ceiling (ceiling m)) tool t ≡ deny)
unfolding decide_tiered with_ceiling with_mode ceiling contains lookup
ceiling-with_mode m tool t = ground arith

-- A policy made with the yolo flag still answers `is_yolo` after the mode has been set to plan,
-- and denies every call above the read tier of a tool that is not on its allow list.
pub is_yolo-set_mode :
    (xs : List String) (tool : String) (t : Tier)
    → contains xs tool ≡ false
    → t ≢ read
    → (is_yolo (set_mode (new true xs) Mode.plan) ≡ true)
      × (decide_tiered (set_mode (new true xs) Mode.plan) tool t ≡ deny)
unfolding decide_tiered set_mode new contains lookup is_yolo
is_yolo-set_mode xs tool t h k = ground arith
