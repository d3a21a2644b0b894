-- ===== src/BaseCache.antt =====
-- crates/federation/src/base_cache.rs: the cache of base repositories.
-- The state holds the index (`cap`, `order`), the holds on bases (`in_use`), and the bases whose bare
-- repository is valid on disk (`disk`, where an earlier process may have left some), which `valid_hit` tests. Each method runs without another in
-- between. Creating the directory, fetching the bundle and materializing it may fail: parameters.
pub mod Lru
pub mod Pins
pub mod Races
use entheai.Base.{
  ℕ, zero, suc, ◌+◌, ◌-◌, String, Bool, true, false, not, Option, none, some, List, [], ◌∷◌, ◌++◌,
  length, ltb, ◌==◌, max, if◌then◌else◌, ◌>>=◌, string_eq,
}
use entheai.Base.Assoc.{lookup, insert, remove, contains_key}
use entheai.Base.Sets.{member, discard}

pub record BaseCache : Type 0 where
  pub cap : ℕ
  pub order : List String
  pub in_use : List (String × ℕ)
  pub disk : List String

unfoldable pub new : ℕ → List String → BaseCache
new cap disk = record { cap = max cap 1; order = []; in_use = []; disk = disk }

unfoldable pub touch : BaseCache → String → BaseCache
touch c sha = record c { order = discard sha c.order ++ sha ∷ [] }

unfoldable pub over_cap : BaseCache → Bool
over_cap c = ltb c.cap (length c.order)

abbrev pub front_of : List String → Option String
front_of [] = none
front_of (s ∷ _) = some s

abbrev pub rest_of : List String → List String
rest_of [] = []
rest_of (_ ∷ r) = r

unfoldable pub front : BaseCache → Option String
front c = front_of c.order

unfoldable pub pop_front_sha : BaseCache → BaseCache × Option String
pop_front_sha c = (record c { order = rest_of c.order }, front_of c.order)

unfoldable pub evict_if_over : BaseCache → BaseCache × Option String
unfolding over_cap pop_front_sha
evict_if_over c = if over_cap c then pop_front_sha c else (c, none)

-- `entry(sha).or_insert(0) += 1`.
unfoldable pub mark_in_use : BaseCache → String → BaseCache
mark_in_use c sha =
    let n : ℕ = elim (lookup sha c.in_use) [ none ↦ 0 | some n ↦ n ] in
    record c { in_use = insert sha (n + 1) c.in_use }

-- An entry is never 0 (Pins), so the subtraction does not underflow.
unfoldable pub release : BaseCache → String → BaseCache
release c sha = elim (lookup sha c.in_use) [
  | none ↦ c
  | some n ↦
      (if n - 1 == 0
        then record c { in_use = remove sha c.in_use }
        else record c { in_use = insert sha (n - 1) c.in_use })
]

abbrev pub pinned : BaseCache → String → Bool
pinned c sha = contains_key sha c.in_use

abbrev pub pop_unless_pinned : BaseCache → Option String → BaseCache × Option String
pop_unless_pinned c none = (c, none)
pop_unless_pinned c (some sha) =
    if pinned c sha then (c, none) else (record c { order = rest_of c.order }, some sha)

unfoldable pub next_eviction : BaseCache → BaseCache × Option String
unfolding over_cap front
next_eviction c = if over_cap c then pop_unless_pinned c (front c) else (c, none)

-- The loop of `evict_over_cap`, on fuel; `remove_dir_all` takes the repository off the disk. One
-- round for each entry of the index is enough (Lru).
unfoldable pub evict_over_cap : ℕ → BaseCache → BaseCache
evict_over_cap zero c = c
evict_over_cap (suc fuel) c =
    let (c', victim) = next_eviction c in
    elim victim [
      | none ↦ c'
      | some old ↦ evict_over_cap fuel (record c' { disk = discard old c'.disk })
    ]

unfoldable pub valid_hit : BaseCache → String → Bool
valid_hit c sha = member sha c.disk

-- The two ways in which a base is handed out: it is on disk, or it is put there.
unfoldable pub take_hit : BaseCache → String → BaseCache
take_hit c sha = mark_in_use (touch c sha) sha

unfoldable pub take_fresh : BaseCache → String → BaseCache
take_fresh c sha =
    let held = mark_in_use (touch (record c { disk = sha ∷ discard sha c.disk }) sha) sha in
    evict_over_cap (length held.order) held

-- `get_or_materialize`; the result is false where the source returns an error. `dir_ok` and
-- `fetch_ok` say whether the directory could be made and the base materialized.
unfoldable pub get_or_materialize : Bool → Bool → BaseCache → String → BaseCache × Bool
get_or_materialize dir_ok fetch_ok c sha =
    if not dir_ok
    then (c, false)
    else if valid_hit c sha
    then (take_hit c sha, true)
    else if fetch_ok
    then (take_fresh c sha, true)
    else (record c { disk = discard sha c.disk }, false)
