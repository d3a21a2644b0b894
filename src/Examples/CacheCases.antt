-- ===== src/Examples/CacheCases.antt =====
-- The base cache at concrete inputs (crates/federation/src/base_cache.rs).
use entheai.Base.{◌≡◌, ◌≢◌, refl, true, false, some, String, List, [], ◌∷◌, string_eq, arith}
use entheai.Base.Assoc.{lookup}
use entheai.Base.Sets.{member}
use entheai.BaseCache
use entheai.BaseCache.{
  BaseCache, touch, release, pinned, next_eviction, evict_over_cap, get_or_materialize,
}
use entheai.BaseCache.{valid_hit}
use entheai.BaseCache.Races.{Moment, Steps, next_eviction-race}
use entheai.BaseCache.Lru.{Stays, evict_over_cap-ends}
use entheai.BaseCache.Pins.{Call, get, give_back, perform_all, in_use-on_disk}

abbrev three_bases : BaseCache
three_bases = record {
  cap = 1;
  order = "a" ∷ "b" ∷ "c" ∷ [];
  in_use = ("b", 2) ∷ [];
  disk = "a" ∷ "b" ∷ "c" ∷ [];
}

abbrev base_a : String
base_a = "a"

abbrev base_b : String
base_b = "b"

evict_over_cap-ends_example :
    Stays (evict_over_cap 3 three_bases)
    × ((evict_over_cap 3 three_bases).in_use ≡ three_bases.in_use)
    × ((evict_over_cap 3 three_bases).cap ≡ three_bases.cap)
evict_over_cap-ends_example = evict_over_cap-ends 3 three_bases (ground arith)

abbrev some_calls : List Call
some_calls =
    get true true "a"
    ∷ get true true "b"
    ∷ get true false "d"
    ∷ give_back "a"
    ∷ get true true "c"
    ∷ []

in_use-on_disk_example :
    let c = perform_all (BaseCache.new 1 ("z" ∷ [])) some_calls in
    (pinned c "b" ≡ true → member "b" c.disk ≡ true) × (lookup "b" c.in_use ≢ some 0)
in_use-on_disk_example = in_use-on_disk 1 ("z" ∷ []) some_calls "b"

-- Over its capacity of one, the cache takes the base `a` next.
abbrev over_one : BaseCache
over_one = record { cap = 1; order = "a" ∷ "b" ∷ []; in_use = ("b", 1) ∷ []; disk = "a" ∷ "b" ∷ [] }

abbrev without_a : BaseCache
without_a = record over_one { order = "b" ∷ [] }

takes_a : next_eviction over_one ≡ (without_a, some "a")
unfolding next_eviction lookup
takes_a = refl

has_a : valid_hit over_one "a" ≡ true
unfolding valid_hit
has_a = refl

next_eviction-race_example :
    (m : Moment) × (Steps (record { cache = over_one; seen = []; touched = []; victims = [] }) m
      × ((pinned m.cache "a" ≡ true) × (valid_hit m.cache "a" ≡ false)))
next_eviction-race_example = next_eviction-race over_one without_a "a" has_a takes_a
