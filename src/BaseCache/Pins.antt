-- ===== src/BaseCache/Pins.antt =====
-- The holds on bases (crates/federation/src/base_cache.rs): each successful `get_or_materialize` takes
-- one, each `release` gives one back, and a base that is held stays on disk.
use entheai.Base.{
  ℕ, zero, suc, ◌+◌, ◌-◌, String, ◌≡◌, ◌≢◌, refl, ap, ◌⊎◌, inl, inr, Bool, true, false, ◌&&◌,
  Option, none, some, List, [], ◌∷◌, length, arith, ◌=?◌, if◌then◌else◌, string_eq,
}
use entheai.Base.Assoc.{lookup, lookup-insert, lookup-remove}
use entheai.Base.Sets.{member, discard, member-discard}
use entheai.BaseCache
use entheai.BaseCache.{
  BaseCache, touch, over_cap, front, rest_of, pinned, next_eviction, evict_over_cap, mark_in_use,
  release, take_hit, take_fresh, valid_hit, get_or_materialize,
}
use entheai.BaseCache.Lru.{evict_over_cap-ends, next_eviction-cases, evict_stop, evict_next}

-- How many holds a base has.
abbrev pub holds_of : Option ℕ → ℕ
holds_of none = 0
holds_of (some n) = n

unfoldable pub holds : BaseCache → String → ℕ
holds c sha = holds_of (lookup sha c.in_use)

pub record IsSafe (c : BaseCache) : Type 0 where
  pub positive : (sha : String) → lookup sha c.in_use ≢ some 0
  pub on_disk : (sha : String) → pinned c sha ≡ true → member sha c.disk ≡ true

holds-mark_in_use :
    (c : BaseCache) (sha t : String)
    → holds (mark_in_use c sha) t ≡ (if sha =? t then holds c t + 1 else holds c t)
unfolding holds mark_in_use
holds-mark_in_use c sha t = ground (
  arith,
  string_eq.beq_iff sha t,
  lookup-insert sha t (holds_of (lookup sha c.in_use) + 1) c.in_use,
)

pub holds-release :
    (c : BaseCache) (sha t : String)
    → holds (release c sha) t ≡ (if sha =? t then holds c t - 1 else holds c t)
unfolding holds release
holds-release c sha t = ground (
  arith,
  string_eq.beq_iff sha t,
  lookup-remove sha t c.in_use,
  lookup-insert sha t (holds_of (lookup sha c.in_use) - 1) c.in_use,
)

mark_in_use-IsSafe :
    {c : BaseCache} (sha : String)
    → member sha c.disk ≡ true
    → IsSafe c
    → IsSafe (mark_in_use c sha)
unfolding mark_in_use
mark_in_use-IsSafe {c} sha m v = record {
  positive = λ t.
      ground
        (arith, v.positive t, lookup-insert sha t (holds_of (lookup sha c.in_use) + 1) c.in_use);
  on_disk = λ t. ground (
    arith,
    v.on_disk t,
    string_eq.beq_iff sha t,
    lookup-insert sha t (holds_of (lookup sha c.in_use) + 1) c.in_use,
  );
}

release-IsSafe : {c : BaseCache} (sha : String) → IsSafe c → IsSafe (release c sha)
unfolding release
release-IsSafe {c} sha v = record {
  positive = λ t. ground (
    arith,
    v.positive t,
    v.positive sha,
    lookup-remove sha t c.in_use,
    lookup-insert sha t (holds_of (lookup sha c.in_use) - 1) c.in_use,
  );
  on_disk = λ t. ground (
    arith,
    v.on_disk t,
    string_eq.beq_iff sha t,
    lookup-remove sha t c.in_use,
    lookup-insert sha t (holds_of (lookup sha c.in_use) - 1) c.in_use,
  );
}

evict-IsSafe : (fuel : ℕ) (c : BaseCache) → IsSafe c → IsSafe (evict_over_cap fuel c)
unfolding evict_over_cap
evict-IsSafe zero c v = v
evict-IsSafe (suc fuel) c v = elim (next_eviction-cases c) [
  | inl (e, stays) ↦ rw (evict_stop fuel c e) v
  | inr (sha, e, o, over, free) ↦
      rw (evict_next fuel c (record c { order = rest_of c.order }) sha e) (
        evict-IsSafe fuel (record c { order = rest_of c.order; disk = discard sha c.disk })
          (record {
            positive = v.positive;
            on_disk = λ t h.
                ground (
                  arith,
                  v.on_disk t,
                  member-discard sha t c.disk,
                  string_eq.beq_iff sha t,
                  free,
                  h,
                );
          }))
]

take_hit-IsSafe :
    {c : BaseCache} (sha : String) → valid_hit c sha ≡ true → IsSafe c → IsSafe (take_hit c sha)
unfolding take_hit touch valid_hit
take_hit-IsSafe {c} sha m v =
    mark_in_use-IsSafe {c = touch c sha} sha m
      (record { positive = v.positive; on_disk = v.on_disk })

abbrev placed : BaseCache → String → BaseCache
placed c sha = touch (record c { disk = sha ∷ discard sha c.disk }) sha

placed-IsSafe : {c : BaseCache} (sha : String) → IsSafe c → IsSafe (placed c sha)
unfolding touch
placed-IsSafe {c} sha v = record {
  positive = v.positive;
  on_disk =
      λ t h. ground (arith, v.on_disk t, member-discard sha t c.disk, string_eq.beq_iff sha t, h);
}

member-placed : (c : BaseCache) (sha : String) → member sha (placed c sha).disk ≡ true
unfolding touch
member-placed c sha = ground (arith, string_eq.beq_iff sha sha)

take_fresh-IsSafe : {c : BaseCache} (sha : String) → IsSafe c → IsSafe (take_fresh c sha)
unfolding take_fresh
take_fresh-IsSafe {c} sha v =
    evict-IsSafe (length (mark_in_use (placed c sha) sha).order) (mark_in_use (placed c sha) sha)
      (mark_in_use-IsSafe {c = placed c sha} sha (member-placed c sha) (placed-IsSafe sha v))

failed-IsSafe :
    {c : BaseCache} (sha : String)
    → valid_hit c sha ≡ false
    → IsSafe c
    → IsSafe (record c { disk = discard sha c.disk })
unfolding valid_hit
failed-IsSafe {c} sha miss v = record {
  positive = v.positive;
  on_disk = λ t h.
      ground (arith, v.on_disk t, member-discard sha t c.disk, string_eq.beq_iff sha t, h, miss);
}

-- The four ways in which `get_or_materialize` ends.
abbrev Outcome : BaseCache → String → BaseCache × Bool → Type 0
Outcome c sha r =
    (r ≡ (c, false))
    ⊎ ((valid_hit c sha ≡ true) × (r ≡ (take_hit c sha, true)))
    ⊎ ((valid_hit c sha ≡ false)
        × ((r ≡ (take_fresh c sha, true)) ⊎ (r ≡ (record c { disk = discard sha c.disk }, false))))

get_or_materialize-cases :
    (dir_ok fetch_ok : Bool) (c : BaseCache) (sha : String)
    → Outcome c sha (get_or_materialize dir_ok fetch_ok c sha)
unfolding get_or_materialize
get_or_materialize-cases dir_ok fetch_ok c sha = ground arith

get_or_materialize-IsSafe :
    (dir_ok fetch_ok : Bool) (c : BaseCache) (sha : String)
    → IsSafe c
    → IsSafe (get_or_materialize dir_ok fetch_ok c sha).0
get_or_materialize-IsSafe dir_ok fetch_ok c sha v =
    elim (get_or_materialize-cases dir_ok fetch_ok c sha) [
      | inl e ↦ rw e v
      | inr (inl (hit, e)) ↦ rw e (take_hit-IsSafe sha hit v)
      | inr (inr (miss, inl e)) ↦ rw e (take_fresh-IsSafe sha v)
      | inr (inr (miss, inr e)) ↦ rw e (failed-IsSafe sha miss v)
    ]

holds-failed :
    (c : BaseCache) (sha t : String) → holds (record c { disk = discard sha c.disk }) t ≡ holds c t
unfolding holds
holds-failed c sha t = refl

holds-touch : (c : BaseCache) (sha t : String) → holds (touch c sha) t ≡ holds c t
unfolding holds touch
holds-touch c sha t = refl

holds-take_hit :
    (c : BaseCache) (sha t : String)
    → holds (take_hit c sha) t ≡ (if sha =? t then holds c t + 1 else holds c t)
unfolding take_hit
holds-take_hit c sha t = ground (arith, holds-mark_in_use (touch c sha) sha t, holds-touch c sha t)

holds-evict : (c : BaseCache) (t : String) → holds (evict_over_cap (length c.order) c) t ≡ holds c t
unfolding holds
holds-evict c t =
    ap (λ (m : List (String × ℕ)). holds_of (lookup t m))
      (evict_over_cap-ends (length c.order) c (omega arith)).1

holds-placed : (c : BaseCache) (sha t : String) → holds (placed c sha) t ≡ holds c t
unfolding holds touch
holds-placed c sha t = refl

holds-take_fresh :
    (c : BaseCache) (sha t : String)
    → holds (take_fresh c sha) t ≡ (if sha =? t then holds c t + 1 else holds c t)
unfolding take_fresh
holds-take_fresh c sha t = ground (
  arith,
  holds-evict (mark_in_use (placed c sha) sha) t,
  holds-mark_in_use (placed c sha) sha t,
  holds-placed c sha t,
)

-- The calls that reach the cache.
pub data Call : Type 0 where
  get : Bool → Bool → String → Call
  give_back : String → Call

abbrev pub perform : BaseCache → Call → BaseCache
perform c (get dir_ok fetch_ok sha) = (get_or_materialize dir_ok fetch_ok c sha).0
perform c (give_back sha) = release c sha

abbrev pub perform_all : BaseCache → List Call → BaseCache
perform_all c [] = c
perform_all c (x ∷ xs) = perform_all (perform c x) xs

perform-IsSafe : (c : BaseCache) (x : Call) → IsSafe c → IsSafe (perform c x)
perform-IsSafe c (get dir_ok fetch_ok sha) v = get_or_materialize-IsSafe dir_ok fetch_ok c sha v
perform-IsSafe c (give_back sha) v = release-IsSafe sha v

perform_all-IsSafe : (c : BaseCache) (xs : List Call) → IsSafe c → IsSafe (perform_all c xs)
perform_all-IsSafe c [] v = v
perform_all-IsSafe c (x ∷ xs) v = perform_all-IsSafe (perform c x) xs (perform-IsSafe c x v)

new-IsSafe : (cap : ℕ) (disk : List String) → IsSafe (BaseCache.new cap disk)
unfolding BaseCache.new lookup
new-IsSafe cap disk = record { positive = λ t h. cc; on_disk = λ t h. cc }

-- A repository that a coder holds is never deleted: after any calls of `get_or_materialize`, with any
-- failures, and of `release`, from a new cache, every base that is in use is on disk, with a count of
-- holds above 0.
pub in_use-on_disk :
    (cap : ℕ) (disk : List String) (calls : List Call) (sha : String)
    → let c = perform_all (BaseCache.new cap disk) calls in
      (pinned c sha ≡ true → member sha c.disk ≡ true) × (lookup sha c.in_use ≢ some 0)
in_use-on_disk cap disk calls sha =
    let v = perform_all-IsSafe (BaseCache.new cap disk) calls (new-IsSafe cap disk) in
    (v.on_disk sha, v.positive sha)

-- Holds are counted exactly: a `get_or_materialize` that succeeds adds one hold on its base and none
-- on another, one that fails adds none, and a `release` takes one hold off its base, if it has any,
-- and none off another.
pub holds-counted :
    (dir_ok fetch_ok : Bool) (c : BaseCache) (sha t : String)
    → (holds (get_or_materialize dir_ok fetch_ok c sha).0 t ≡ (
        if (get_or_materialize dir_ok fetch_ok c sha).1 && (sha =? t)
        then holds c t + 1
        else holds c t))
      × (holds (release c sha) t ≡ (if sha =? t then holds c t - 1 else holds c t))
holds-counted dir_ok fetch_ok c sha t = (
  ground (
    arith,
    get_or_materialize-cases dir_ok fetch_ok c sha,
    holds-take_hit c sha t,
    holds-take_fresh c sha t,
    holds-failed c sha t,
  ),
  holds-release c sha t,
)
