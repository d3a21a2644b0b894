-- ===== src/Permission.antt =====
-- crates/permission/src/lib.rs: decisions, tiers, modes, pins and the policy that combines them.
-- The policy's `Mutex`-protected fields are plain fields of the record, and a method that writes
-- through them returns the new policy; a clone's sharing of these fields is not modelled.
-- `StdinPrompter` reads a terminal; the classification of the line that it read is `classify_answer`.
pub mod Tiers
pub mod Overrides
use entheai.Base.{
  ℕ, String, Bool, true, false, ◌||◌, Option, none, some, List, [], ◌∷◌, any, leb, if◌then◌else◌,
  ◌=?◌, string_eq,
}
use entheai.Base.Assoc.{lookup, insert}
use entheai.Base.Text.{codes, trim, to_ascii_lowercase, text_eq}

pub data Decision : Type 0 where
  allow deny ask : Decision

pub data Tier : Type 0 where
  read write exec network spawn : Tier

-- The derived order of `Tier`: the position of the variant.
abbrev pub tier_rank : Tier → ℕ
tier_rank read = 0
tier_rank write = 1
tier_rank exec = 2
tier_rank network = 3
tier_rank spawn = 4

abbrev pub tier_le : Tier → Tier → Bool
tier_le t u = leb (tier_rank t) (tier_rank u)

pub data Mode : Type 0 where
  plan auto yolo ask : Mode

unfoldable pub next : Mode → Mode
next Mode.plan = Mode.auto
next Mode.auto = Mode.yolo
next Mode.yolo = Mode.ask
next Mode.ask = Mode.plan

unfoldable pub ceiling : Mode → Tier
ceiling Mode.plan = read
ceiling Mode.auto = exec
ceiling Mode.ask = exec
ceiling Mode.yolo = spawn

-- The match on the trimmed, lowercased text. The warning that is logged for an unknown value is
-- output only.
unfoldable pub parse : List ℕ → Mode
unfolding trim to_ascii_lowercase
parse s =
    let key = to_ascii_lowercase (trim s) in
    if text_eq key (codes "plan")
    then Mode.plan
    else if text_eq key (codes "auto")
    then Mode.auto
    else if text_eq key (codes "yolo")
    then Mode.yolo
    else Mode.ask

pub data Pin : Type 0 where
  always_allow always_ask never : Pin

pub record Policy : Type 0 where
  pub yolo : Bool
  pub allowlist : List String
  pub session : List String
  pub mode : Mode
  pub pins : List (String × Pin)
  pub ceiling : Option Tier

unfoldable pub new : Bool → List String → Policy
new y allowlist = record {
  yolo = y;
  allowlist = allowlist;
  session = [];
  mode = if y then Mode.yolo else Mode.ask;
  pins = [];
  ceiling = none;
}

unfoldable pub set_mode : Policy → Mode → Policy
set_mode p m = record p { mode = m }

unfoldable pub with_mode : Mode → Policy
unfolding new set_mode
with_mode m = set_mode (new false []) m

unfoldable pub with_ceiling : Tier → Policy
with_ceiling c = record {
  yolo = false;
  allowlist = [];
  session = [];
  mode = Mode.ask;
  pins = [];
  ceiling = some c;
}

unfoldable pub pin : Policy → String → Pin → Policy
pin p tool x = record p { pins = insert tool x p.pins }

abbrev is_yolo_mode : Mode → Bool
is_yolo_mode Mode.yolo = true
is_yolo_mode _ = false

unfoldable pub is_yolo : Policy → Bool
is_yolo p = is_yolo_mode p.mode || p.yolo

-- Membership of a tool name in the allow list or in the session's set.
unfoldable pub contains : List String → String → Bool
contains xs tool = any (λ t. t =? tool) xs

-- `HashSet::insert`.
unfoldable pub grant_session : Policy → String → Policy
grant_session p tool = record p {
  session = if contains p.session tool then p.session else tool ∷ p.session;
}

abbrev pub pin_decision : Pin → Decision
pin_decision always_allow = allow
pin_decision always_ask = Decision.ask
pin_decision never = deny

-- The match on the mode and the tier that ends `decide_tiered`.
abbrev pub matrix : Mode → Tier → Decision
matrix Mode.yolo t = allow
matrix m read = allow
matrix Mode.plan t = deny
matrix Mode.auto write = allow
matrix Mode.auto t = Decision.ask
matrix Mode.ask t = Decision.ask

-- The two branches below the overrides: a ceiling if there is one, else the matrix.
abbrev pub by_tier : Option Tier → Mode → Tier → Decision
by_tier (some c) m t = if tier_le t c then allow else deny
by_tier none m t = matrix m t

abbrev pub unless_pinned : Option Pin → Decision → Decision
unless_pinned (some x) d = pin_decision x
unless_pinned none d = d

unfoldable pub decide_tiered : Policy → String → Tier → Decision
decide_tiered p tool t = unless_pinned (lookup tool p.pins) (
    if contains p.allowlist tool || contains p.session tool
    then allow
    else by_tier p.ceiling p.mode t)

unfoldable pub decide : Policy → String → Decision
unfolding decide_tiered
decide p tool = decide_tiered p tool exec

pub data Grant : Type 0 where
  deny allow allow_session : Grant

-- The match of `StdinPrompter::confirm` on the trimmed, lowercased line (for ASCII text).
unfoldable pub classify_answer : List ℕ → Grant
unfolding trim to_ascii_lowercase
classify_answer line =
    let key = to_ascii_lowercase (trim line) in
    if text_eq key (codes "y") || text_eq key (codes "yes")
    then Grant.allow
    else if text_eq key (codes "a")
        || text_eq key (codes "allow")
        || text_eq key (codes "s")
        || text_eq key (codes "session")
    then Grant.allow_session
    else Grant.deny
