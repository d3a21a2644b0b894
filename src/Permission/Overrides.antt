-- ===== src/Permission/Overrides.antt =====
-- Pins, grants and the allow list: what overrides the tiers (crates/permission/src/lib.rs).
use entheai.Base.{◌≡◌, String, List, ◌∷◌, ◌||◌, ◌=?◌, string_eq, if◌then◌else◌, arith, refl}
use entheai.Base.Assoc.{lookup, lookup-insert}
use entheai.Permission.{
  allow, Tier, Pin, Policy, pin, contains, grant_session, unless_pinned, pin_decision,
  decide_tiered,
}

contains-cons : (t u : String) (xs : List String) → contains (t ∷ xs) u ≡ (t =? u || contains xs u)
unfolding contains
contains-cons t u xs = refl

-- After `grant_session tool`, a call of `tool` is allowed at every tier unless `tool` is pinned,
-- when the pin decides as before; the decision on every other tool is what it was.
pub decide_tiered-grant_session :
    (p : Policy) (tool u : String) (t : Tier)
    → decide_tiered (grant_session p tool) u t
      ≡ (if tool =? u then unless_pinned (lookup u p.pins) allow else decide_tiered p u t)
unfolding decide_tiered grant_session
decide_tiered-grant_session p tool u t =
    ground (arith, string_eq.beq_iff tool u, contains-cons tool u p.session)

-- A pin wins over the allow list, the grants, the ceiling and the mode: after `pin tool x` the
-- decision on `tool` is the pin's at every tier, and the decision on every other tool is what it
-- was.
pub decide_tiered-pin :
    (p : Policy) (tool u : String) (x : Pin) (t : Tier)
    → decide_tiered (pin p tool x) u t ≡ (if tool =? u then pin_decision x else decide_tiered p u t)
unfolding decide_tiered pin
decide_tiered-pin p tool u x t = ground (arith, lookup-insert tool u x p.pins)
