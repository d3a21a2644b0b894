-- ===== src/Progression/Badges.antt =====
-- Badges (crates/tui/src/progression.rs): none is lost, none is given twice, and each that the
-- counters earn is there after an award.
use entheai.Base.{◌+◌, ◌≡◌, refl, List, ◌++◌, true, not, ◌&&◌, arith, subst, ◌∙◌, Eq}
use entheai.Base.Sets.{
  member, distinct, member-append, unseen, member-unseen, distinct-append_unseen,
}
use entheai.Progression.{
  BadgeId, badge_eq, Progression, ProgressionEvent, badges_for, bump, climb, unlock, award, u64,
  xp_for,
}

distinct-badges_for : (p : Progression) → distinct (badges_for p) ≡ true
unfolding badges_for
distinct-badges_for p = ground arith

-- What unlocking does to a progression whose badges are `old`.
abbrev Unlocks : List BadgeId → Progression → List BadgeId → BadgeId → Type 0
Unlocks old q news b =
    (q.badges ≡ old ++ news)
    × (member b (badges_for q) ≡ true → member b q.badges ≡ true)
    × (member b news ≡ (member b (badges_for q) && not (member b old)))
    × (distinct old ≡ true → distinct q.badges ≡ true)

badges_for-unlock : (q : Progression) → badges_for (unlock q).0 ≡ badges_for q
unfolding unlock badges_for
badges_for-unlock q = refl

module _ {A : Type 0} ⦃e : Eq A⦄ where
  member_all :
      (b : A) (old xs : List A) → member b xs ≡ true → member b (old ++ unseen old xs) ≡ true
  member_all b old xs h =
      ground (arith, member-append b old (unseen old xs), member-unseen b old xs, h)

unlock-Unlocks : (q : Progression) (b : BadgeId) → Unlocks q.badges (unlock q).0 (unlock q).1 b
unlock-Unlocks q b = rw (badges_for-unlock q) (
    unfold unlock in
    (
      refl,
      member_all b q.badges (badges_for q),
      member-unseen b q.badges (badges_for q),
      λ h. distinct-append_unseen q.badges (badges_for q) h (distinct-badges_for q),
    ))

climb-badges : (p : Progression) → (climb p).0.badges ≡ p.badges
unfolding climb
climb-badges p = ground arith

bump-badges : (p : Progression) (ev : ProgressionEvent) → (bump p ev).badges ≡ p.badges
unfolding bump
bump-badges p ev = ground arith

-- An award keeps every badge, in place, and adds the unlocked ones behind them: each badge that the
-- new counters earn is there afterwards, each unlocked badge is one that they earn and that was not
-- there, and if no badge stood twice before, none does afterwards.
pub award-badges :
    (p : Progression) (ev : ProgressionEvent) (b : BadgeId)
    → let (q, a) = award p ev in
      (q.badges ≡ p.badges ++ a.unlocked)
      × (member b (badges_for q) ≡ true → member b q.badges ≡ true)
      × (member b a.unlocked ≡ (member b (badges_for q) && not (member b p.badges)))
      × (distinct p.badges ≡ true → distinct q.badges ≡ true)
unfolding award
award-badges p ev b =
    let r = bump (record p { xp = u64 (p.xp + xp_for ev) }) ev in
    let c = (climb r).0 in
    let e : c.badges ≡ p.badges =
      climb-badges r ∙ bump-badges (record p { xp = u64 (p.xp + xp_for ev) }) ev in
    subst (λ (old : List BadgeId). Unlocks old (unlock c).0 (unlock c).1 b) e (unlock-Unlocks c b)
