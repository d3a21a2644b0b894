-- ===== src/BaseCache/Lru.antt =====
-- The order of the base cache (crates/federation/src/base_cache.rs): what `touch` does to it, and
-- that eviction ends within the capacity or at a base in use.
use entheai.Base.{
  ℕ, zero, suc, ◌+◌, ◌≤◌, String, ◌≡◌, refl, ap, ◌⊎◌, inl, inr, true, false, ◌||◌, none, some, List,
  [], ◌∷◌, ◌++◌, length, arith, ◌=?◌, string_eq, length-append, Bool-cases,
}
use entheai.Base.Sets.{
  member, discard, distinct, member-append, member-discard, distinct-discard, distinct-snoc,
  length-discard,
}
use entheai.BaseCache.{
  BaseCache, touch, over_cap, front, rest_of, pinned, next_eviction, evict_over_cap,
}

-- `touch` makes the base the most recent one: the order keeps every other base in place and no
-- base twice, and ends with the touched one.
pub touch-order :
    (c : BaseCache) (sha t : String)
    → distinct c.order ≡ true
    → ((touch c sha).order ≡ discard sha c.order ++ sha ∷ [])
      × (distinct (touch c sha).order ≡ true)
      × (member t (touch c sha).order ≡ (sha =? t || member t c.order))
      × (length (touch c sha).order ≤ length c.order + 1)
unfolding touch
touch-order c sha t h =
    let gone = member-discard sha sha c.order in
    (
      refl,
      distinct-snoc sha (discard sha c.order) (distinct-discard sha c.order h)
          (ground (arith, gone, string_eq.beq_iff sha sha)),
      ground
          (arith, member-append t (discard sha c.order) (sha ∷ []), member-discard sha t c.order),
      omega (arith, length-append (discard sha c.order) (sha ∷ []), length-discard sha c.order),
    )

-- What one eviction does: either nothing, when the cache is within its capacity or its oldest base is
-- in use, or the oldest base, which is not in use, leaves the order.
abbrev pub Stays : BaseCache → Type 0
Stays c = (over_cap c ≡ false) ⊎ ((sha : String) × (front c ≡ some sha) × (pinned c sha ≡ true))

abbrev pub Evicts : BaseCache → Type 0
Evicts c =
    (sha : String) × (next_eviction c ≡ (record c { order = rest_of c.order }, some sha))
    × (c.order ≡ sha ∷ rest_of c.order)
    × (over_cap c ≡ true)
    × (pinned c sha ≡ false)

eviction_at :
    (c : BaseCache) (xs : List String)
    → c.order ≡ xs
    → ((next_eviction c ≡ (c, none)) × Stays c) ⊎ Evicts c
unfolding next_eviction
eviction_at c [] e = inl (ground (arith, e), inl (ground (arith, e)))
eviction_at c (sha ∷ r) e = elim (Bool-cases (over_cap c)) [
  | inl o ↦ (elim (Bool-cases (pinned c sha)) [
    | inl p ↦ inl (ground (arith, e, o, p), inr (sha, ground (arith, e), p))
    | inr p ↦ inr (sha, ground (arith, e, o, p), ground (arith, e), o, p)
  ])
  | inr o ↦ inl (ground (arith, e, o), inl o)
]

pub next_eviction-cases : (c : BaseCache) → ((next_eviction c ≡ (c, none)) × Stays c) ⊎ Evicts c
next_eviction-cases c = eviction_at c c.order refl

pub evict_stop :
    (fuel : ℕ) (c : BaseCache) → next_eviction c ≡ (c, none) → evict_over_cap (suc fuel) c ≡ c
unfolding evict_over_cap
evict_stop fuel c e = ground (arith, e)

pub evict_next :
    (fuel : ℕ) (c c' : BaseCache) (sha : String)
    → next_eviction c ≡ (c', some sha)
    → evict_over_cap (suc fuel) c ≡ evict_over_cap fuel (record c' { disk = discard sha c'.disk })
unfolding evict_over_cap
evict_next fuel c c' sha e = ground (arith, e)

-- Eviction ends: with a round for each entry of the order it leaves the cache within its capacity, or
-- the oldest base left is in use. It changes no hold and not the capacity.
pub evict_over_cap-ends :
    (fuel : ℕ) (c : BaseCache)
    → length c.order ≤ fuel
    → Stays (evict_over_cap fuel c)
      × ((evict_over_cap fuel c).in_use ≡ c.in_use)
      × ((evict_over_cap fuel c).cap ≡ c.cap)
unfolding evict_over_cap
evict_over_cap-ends zero c h = (inl (unfold over_cap in ground arith), refl, refl)
evict_over_cap-ends (suc fuel) c h = elim (next_eviction-cases c) [
  | inl (e, stays) ↦ rw (evict_stop fuel c e) (stays, refl, refl)
  | inr (sha, e, o, over, free) ↦
      rw (evict_next fuel c (record c { order = rest_of c.order }) sha e) (
        evict_over_cap-ends fuel (record c { order = rest_of c.order; disk = discard sha c.disk })
          (ground (arith, ap length o)))
]
