-- ===== src/Progression/Ladder.antt =====
-- The level ladder (crates/tui/src/progression.rs): a level's thresholds enclose the points that give
-- it, and an award never lowers the level.
use entheai.Base.{ℕ, ◌+◌, ◌≤◌, ◌<◌, ◌≡◌, Option, none, some, arith, ltb, max, if◌then◌else◌}
use entheai.Progression.{
  Progression, ProgressionEvent, level_of, level_threshold, next_level_threshold, level_title,
  xp_for, bump, climb, unlock, award, u64,
}

-- The points lie below the next threshold, if there is one.
abbrev pub Below : ℕ → Option ℕ → Type 0
Below xp none = 2300 ≤ xp
Below xp (some t) = xp < t

-- For every number of points, the level is between 1 and 8, the points have reached the threshold of
-- the level and not that of the next one; at the top of the ladder there is no next one.
pub level_of-thresholds :
    (xp : ℕ)
    → (1 ≤ level_of xp)
      × (level_of xp ≤ 8)
      × (level_threshold (level_of xp) ≤ xp)
      × Below xp (next_level_threshold (level_of xp))
unfolding level_of level_threshold next_level_threshold
level_of-thresholds xp = ground arith

level_of_mono : (a b : ℕ) → a ≤ b → level_of a ≤ level_of b
unfolding level_of
level_of_mono a b h = ground arith

climb-level :
    (p : Progression)
    → ((climb p).0.level ≡ max p.level (level_of p.xp))
      × ((climb p).1 ≡ (
          if ltb p.level (level_of p.xp)
          then some (level_of p.xp, level_title (level_of p.xp))
          else none))
      × ((climb p).0.xp ≡ p.xp)
unfolding climb
climb-level p = ground arith

bump-level :
    (p : Progression) (ev : ProgressionEvent)
    → ((bump p ev).level ≡ p.level) × ((bump p ev).xp ≡ p.xp)
unfolding bump
bump-level p ev = ground arith

xp_for-bound : (ev : ProgressionEvent) → xp_for ev ≤ 40
unfolding xp_for
xp_for-bound ev = ground arith

-- An award adds the event's points, at most 40 of them, raises the level to the one of the new points
-- if that is higher and never lowers it, and reports the new level with its title exactly when it
-- rose.
pub award-level :
    (p : Progression) (ev : ProgressionEvent)
    → let (q, a) = award p ev in
      (a.xp ≤ 40)
      × (q.xp ≡ u64 (p.xp + a.xp))
      × (q.level ≡ max p.level (level_of q.xp))
      × (a.level_up ≡ (if ltb p.level q.level then some (q.level, level_title q.level) else none))
unfolding award unlock
award-level p ev =
    let r = bump (record p { xp = u64 (p.xp + xp_for ev) }) ev in
    ground (
      arith,
      climb-level r,
      bump-level (record p { xp = u64 (p.xp + xp_for ev) }) ev,
      xp_for-bound ev,
    )
