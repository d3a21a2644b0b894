-- ===== src/Agent/Adapter.antt =====
-- crates/core/src/adk_tool_adapter.rs: a tool call of the model, with the policy of crates/permission/src/lib.rs that decides
-- it. What the user answers and what the tool does to the world are arguments.
use entheai.Base.{String, Bool, true, false, List, [], ◌∷◌, ◌++◌, string_eq}
use entheai.Permission.{
  Decision, allow, deny, ask, Tier, Policy, Grant, decide_tiered, grant_session,
}
use entheai.Agent.{Text}

-- The JSON objects that a call answers with.
pub data Response : Type 0 where
  result error : Text → Response
  permission_denied : Response

-- A call by its tool, with the answer of the user, which is read only where the policy asks.
pub record Call (World : Type 0) : Type 0 where
  pub name : String
  pub tier : Tier
  pub answer : Grant
  pub run : World → (Bool × Text) × World

abbrev pub is_allowed : Grant → Bool
is_allowed Grant.deny = false
is_allowed Grant.allow = true
is_allowed Grant.allow_session = true

abbrev pub after_grant : Grant → String → Policy → Policy
after_grant Grant.allow_session name p = grant_session p name
after_grant _ name p = p

abbrev pub answered : Bool × Text → Response
answered (true, text) = result text
answered (false, text) = error text

-- The policy, the world, and the tools that the user was asked about.
pub record Session (World : Type 0) : Type 0 where
  pub policy : Policy
  pub world : World
  pub asked : List String

module _ {World : Type 0} where
  abbrev pub dispatch : Call World → Bool → Session World → Response × Session World
  dispatch c true s = let (r, w) = c.run s.world in (answered r, record s { world = w })
  dispatch c false s = (permission_denied, s)

  abbrev pub decided : Call World → Decision → Session World → Response × Session World
  decided c allow s = dispatch c true s
  decided c deny s = dispatch c false s
  decided c ask s =
      dispatch c (is_allowed c.answer)
        (record s { policy = after_grant c.answer c.name s.policy; asked = s.asked ++ c.name ∷ [] })

  unfoldable pub execute : Call World → Session World → Response × Session World
  execute c s = decided c (decide_tiered s.policy c.name c.tier) s

  unfoldable pub execute_all : List (Call World) → Session World → Session World
  unfolding execute
  execute_all [] s = s
  execute_all (c ∷ cs) s = execute_all cs (execute c s).1
