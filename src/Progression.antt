-- ===== src/Progression.antt =====
-- crates/tui/src/progression.rs: experience points, levels and badges. Counters are `u64` and `u32`
-- and wrap, as in a release build. Reading and writing the file (`save`, `load`) is not modelled.
pub mod Ladder
pub mod Badges
use entheai.Base.{
  ℕ, suc, ◌+◌, ◌-◌, ◌*◌, ◌%◌, ◌^◌, String, Bool, true, false, not, Option, none, some, List, [],
  ◌∷◌, ◌++◌, min, max, count_if, keep, get_elem?, length, leb, ltb, ◌==◌, Eq, if◌then◌else◌, ◌≡◌,
  ◌↔◌, arith,
}
use entheai.Base.Text.{codes}
use entheai.Base.Sets.{member, unseen}

abbrev pub u64 : ℕ → ℕ
u64 n = n % 2 ^ 64

abbrev pub u32 : ℕ → ℕ
u32 n = n % 2 ^ 32

pub data BadgeId : Type 0 where
  first_prompt first_fanout first_seal quintet ghost_whisperer zen_bath seal_hoarder century :
      BadgeId

abbrev badge_rank : BadgeId → ℕ
badge_rank first_prompt = 0
badge_rank first_fanout = 1
badge_rank first_seal = 2
badge_rank quintet = 3
badge_rank ghost_whisperer = 4
badge_rank zen_bath = 5
badge_rank seal_hoarder = 6
badge_rank century = 7

abbrev pub badge_beq : BadgeId → BadgeId → Bool
badge_beq a b = badge_rank a == badge_rank b

pub badge_beq_iff : (a b : BadgeId) → (badge_beq a b ≡ true) ↔ (a ≡ b)
badge_beq_iff a b = ground arith

instance abbrev pub badge_eq : Eq BadgeId
badge_eq = record { beq = badge_beq; beq_iff = badge_beq_iff }

abbrev pub levels : List (ℕ × String)
levels =
    (0, "Spark")
    ∷ (100, "Quant")
    ∷ (250, "Ternary")
    ∷ (450, "Weaver")
    ∷ (750, "Orchestrator")
    ∷ (1150, "Seal-Shaper")
    ∷ (1650, "Field-Archon")
    ∷ (2300, "Entheist")
    ∷ []

-- Badge, glyph and name.
abbrev pub badges : List (BadgeId × (String × String))
badges =
    (first_prompt, ("🜂", "First Flame"))
    ∷ (first_fanout, ("🕊", "First Flight"))
    ∷ (first_seal, ("🧿", "First Seal"))
    ∷ (quintet, ("⧉", "Quintet"))
    ∷ (ghost_whisperer, ("⚠", "Ghost Whisperer"))
    ∷ (zen_bath, ("🌊", "Zen Bath"))
    ∷ (seal_hoarder, ("🏛", "Seal Hoarder"))
    ∷ (century, ("⚡", "Century"))
    ∷ []

pub data ProgressionEvent : Type 0 where
  prompt_submitted : ProgressionEvent
  fanout_decomposed : ℕ → ProgressionEvent
  coder_finished integrating : ProgressionEvent
  fanout_done : ℕ → ProgressionEvent
  worker_killed zen_tick pomodoro_completed : ProgressionEvent

unfoldable pub xp_for : ProgressionEvent → ℕ
xp_for prompt_submitted = 10
xp_for (fanout_decomposed n) = min (u32 (5 * n)) 40
xp_for coder_finished = 20
xp_for integrating = 10
xp_for (fanout_done merged) = if leb 1 merged then 40 else 10
xp_for worker_killed = 5
xp_for zen_tick = 2
xp_for pomodoro_completed = 15

pub record Award : Type 0 where
  pub xp : ℕ
  pub level_up : Option (ℕ × String)
  pub unlocked : List BadgeId

pub record Progression : Type 0 where
  pub version : ℕ
  pub xp : ℕ
  pub level : ℕ
  pub badges : List BadgeId
  pub prompts : ℕ
  pub fanouts_done : ℕ
  pub seals : ℕ
  pub max_workers : ℕ
  pub timed_out_seen : ℕ
  pub zen_seconds : ℕ
  pub pomodoros : ℕ

-- The derived `Default`.
abbrev pub default : Progression
default = record {
  version = 0;
  xp = 0;
  level = 0;
  badges = [];
  prompts = 0;
  fanouts_done = 0;
  seals = 0;
  max_workers = 0;
  timed_out_seen = 0;
  zen_seconds = 0;
  pomodoros = 0;
}

unfoldable pub level_of : ℕ → ℕ
level_of xp = count_if (λ (l : ℕ × String). leb l.0 xp) levels

-- The ladder's row of a level, clamped at both ends; the row is always there.
abbrev pub rung : ℕ → Option (ℕ × String)
rung level = get_elem? levels (min (level - 1) (length levels - 1))

abbrev title_of : Option (ℕ × String) → String
title_of none = ""
title_of (some l) = l.1

abbrev threshold_of : Option (ℕ × String) → ℕ
threshold_of none = 0
threshold_of (some l) = l.0

unfoldable pub level_title : ℕ → String
level_title level = title_of (rung level)

unfoldable pub level_threshold : ℕ → ℕ
level_threshold level = threshold_of (rung level)

abbrev first_of_row : Option (ℕ × String) → Option ℕ
first_of_row none = none
first_of_row (some l) = some l.0

unfoldable pub next_level_threshold : ℕ → Option ℕ
next_level_threshold level = first_of_row (get_elem? levels level)

-- The text `"{glyph} {name}"`, as code points.
abbrev pub badge_label : String → String → List ℕ
badge_label glyph name = codes glyph ++ b' ' ∷ codes name

abbrev pub next_label_in : List (BadgeId × (String × String)) → List BadgeId → List ℕ
next_label_in [] have = codes "max"
next_label_in ((id, (glyph, name)) ∷ bs) have =
    let rest = next_label_in bs have in if member id have then rest else badge_label glyph name

unfoldable pub next_badge_label : Progression → List ℕ
next_badge_label p = next_label_in badges p.badges

abbrev push_if : Bool → BadgeId → List BadgeId → List BadgeId
push_if true b rest = b ∷ rest
push_if false b rest = rest

unfoldable pub badges_for : Progression → List BadgeId
badges_for p = push_if (leb 1 p.prompts) first_prompt (
    push_if (leb 1 p.fanouts_done) first_fanout (
      push_if (leb 1 p.seals) first_seal (
        push_if (leb 5 p.max_workers) quintet (
          push_if (leb 1 p.timed_out_seen) ghost_whisperer (
            push_if (leb 300 p.zen_seconds) zen_bath
              (push_if (leb 10 p.seals) seal_hoarder (push_if (leb 100 p.prompts) century [])))))))

-- The counters' part of `award`.
unfoldable pub bump : Progression → ProgressionEvent → Progression
bump p prompt_submitted = record p { prompts = u64 (p.prompts + 1) }
bump p (fanout_decomposed n) = record p { max_workers = max p.max_workers n }
bump p coder_finished = p
bump p integrating = p
bump p (fanout_done merged) = record p {
  fanouts_done = u64 (p.fanouts_done + 1);
  seals = u64 (p.seals + merged);
}
bump p worker_killed = record p { timed_out_seen = u64 (p.timed_out_seen + 1) }
bump p zen_tick = record p { zen_seconds = u64 (p.zen_seconds + 60) }
bump p pomodoro_completed = record p { pomodoros = u64 (p.pomodoros + 1) }

-- The level's part: the new level and what `level_up` reports.
unfoldable pub climb : Progression → Progression × Option (ℕ × String)
climb p =
    let new_level = level_of p.xp in
    if ltb p.level new_level
    then (record p { level = new_level }, some (new_level, level_title new_level))
    else (p, none)

-- The badges' part.
unfoldable pub unlock : Progression → Progression × List BadgeId
unlock p =
    let unlocked = unseen p.badges (badges_for p) in
    (record p { badges = p.badges ++ unlocked }, unlocked)

unfoldable pub award : Progression → ProgressionEvent → Progression × Award
award p ev =
    let gained = xp_for ev in
    let (climbed, level_up) = climb (bump (record p { xp = u64 (p.xp + gained) }) ev) in
    let (unlocked, news) = unlock climbed in
    (unlocked, record { xp = gained; level_up = level_up; unlocked = news })

abbrev pub name_in : List (BadgeId × (String × String)) → BadgeId → String
name_in [] id = ""
name_in ((b, (glyph, name)) ∷ bs) id = if badge_beq b id then name else name_in bs id

unfoldable pub badge_name : BadgeId → String
badge_name id = name_in badges id
