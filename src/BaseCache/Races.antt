-- ===== src/BaseCache/Races.antt =====
-- crates/federation/src/base_cache.rs: the steps of two calls of `get_or_materialize` between the locks that
-- they take one after another: a caller that has seen its base on disk, and one that evicts.
use entheai.Base.{
  ℕ, ◌+◌, ◌≡◌, refl, String, true, false, none, some, List, [], ◌∷◌, arith, string_eq, =?_refl,
}
use entheai.Base.Sets.{member, discard, member-discard}
use entheai.Base.Assoc.{lookup, lookup-insert}
use entheai.BaseCache.{BaseCache, touch, mark_in_use, next_eviction, valid_hit, pinned}

-- The cache, the bases that callers have seen on disk and not yet taken, those that are touched and
-- not yet marked, and those that are popped from the index and not yet deleted.
pub record Moment : Type 0 where
  pub cache : BaseCache
  pub seen : List String
  pub touched : List String
  pub victims : List String

pub data Step : Moment → Moment → Type 0 where
  see :
      (m : Moment) (sha : String)
      → valid_hit m.cache sha ≡ true
      → Step m (record m { seen = sha ∷ m.seen })
  touches :
      (m : Moment) (sha : String)
      → member sha m.seen ≡ true
      → Step m (record m {
        cache = touch m.cache sha;
        seen = discard sha m.seen;
        touched = sha ∷ m.touched;
      })
  marks :
      (m : Moment) (sha : String)
      → member sha m.touched ≡ true
      → Step m (record m { cache = mark_in_use m.cache sha; touched = discard sha m.touched })
  pops :
      (m : Moment) (c : BaseCache) (sha : String)
      → next_eviction m.cache ≡ (c, some sha)
      → Step m (record m { cache = c; victims = sha ∷ m.victims })
  deletes :
      (m : Moment) (sha : String)
      → member sha m.victims ≡ true
      → Step m (record m {
        cache = record m.cache { disk = discard sha m.cache.disk };
        victims = discard sha m.victims;
      })

pub data Steps : Moment → Moment → Type 0 where
  stay : (m : Moment) → Steps m m
  andthen : (m n k : Moment) → Step m n → Steps n k → Steps m k

abbrev alone : BaseCache → Moment
alone c = record { cache = c; seen = []; touched = []; victims = [] }

mark_in_use-pinned : (c : BaseCache) (sha : String) → pinned (mark_in_use c sha) sha ≡ true
unfolding mark_in_use
mark_in_use-pinned c sha =
    let n : ℕ = elim (lookup sha c.in_use) [ none ↦ 0 | some n ↦ n ] in
    rw (lookup-insert sha sha (n + 1) c.in_use) (rw (=?_refl sha) refl)

-- When the base that eviction takes next is on disk, a caller that asks for it meanwhile can be left
-- with a base that is in use and no longer on disk.
pub next_eviction-race :
    (c c' : BaseCache) (sha : String)
    → valid_hit c sha ≡ true
    → next_eviction c ≡ (c', some sha)
    → (m : Moment) × (Steps (alone c) m
        × ((pinned m.cache sha ≡ true) × (valid_hit m.cache sha ≡ false)))
unfolding valid_hit
next_eviction-race c c' sha h e =
    let m1 : Moment = record { cache = c; seen = sha ∷ []; touched = []; victims = [] } in
    let m2 : Moment = record { cache = c'; seen = sha ∷ []; touched = []; victims = sha ∷ [] } in
    let m3 : Moment = record {
      cache = touch c' sha;
      seen = discard sha (sha ∷ []);
      touched = sha ∷ [];
      victims = sha ∷ [];
    } in
    let m4 : Moment = record m3 {
      cache = mark_in_use m3.cache sha;
      touched = discard sha (sha ∷ []);
    } in
    let m5 : Moment = record m4 {
      cache = record m4.cache { disk = discard sha m4.cache.disk };
      victims = discard sha (sha ∷ []);
    } in
    let own : member sha (sha ∷ []) ≡ true = ground (arith, =?_refl sha) in
    (
      m5,
      (
        andthen (alone c) m1 m5 (see (alone c) sha h) (
            andthen m1 m2 m5 (pops m1 c' sha e) (
              andthen m2 m3 m5 (touches m2 sha own) (
                andthen m3 m4 m5 (marks m3 sha own)
                  (andthen m4 m5 m5 (deletes m4 sha own) (stay m5))))),
        (
          mark_in_use-pinned m3.cache sha,
          ground (arith, member-discard sha sha m4.cache.disk, =?_refl sha),
        ),
      ),
    )
