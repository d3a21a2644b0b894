-- ===== src/MemoryPp/Raw/Retention.antt =====
-- crates/memory-pp/src/raw_store.rs: what is dropped for its age.
use entheai.Base.{
  All, ◌⊎◌, ℕ, ◌+◌, ◌-◌, ◌*◌, ◌^◌, ◌≤◌, ◌<◌, ◌≡◌, refl, ap, Bool, true, false, not, none, some,
  List, [], ◌∷◌, keep, length, ltb, arith, inl, inr,
}
use entheai.MemoryPp.Raw.Tables.{Row, RawStore, day_ms, is_old, prune}

-- A span is older than a number of days exactly by the clock, where the days reach neither before the
-- time 0 nor out of the 64-bit integers.
is_old-within :
    (now days created : ℕ)
    → now < 2 ^ 63
    → days * day_ms ≤ now
    → is_old now days created ≡ ltb (created + days * day_ms) now
unfolding is_old
is_old-within now days created h k = ground arith

is_old-long :
    (now days created : ℕ)
    → now < 2 ^ 63
    → now < days * day_ms
    → days * day_ms ≤ 2 ^ 63
    → is_old now days created ≡ false
unfolding is_old
is_old-long now days created h k l = ground arith

is_old-days :
    (now days created : ℕ)
    → now < 2 ^ 63
    → days * day_ms ≤ 2 ^ 63
    → is_old now days created ≡ ltb (created + days * day_ms) now
is_old-days now days created h k =
    ground (arith, is_old-within now days created, is_old-long now days created)

keep-same {ℓ} :
    {A : Type ℓ} (p q : A → Bool) (xs : List A) → ((x : A) → p x ≡ q x) → keep p xs ≡ keep q xs
keep-same p q [] h = refl
keep-same p q (x ∷ xs) h = ground (arith, h x, keep-same p q xs h)

length-keep-not {ℓ} :
    {A : Type ℓ} (p : A → Bool) (xs : List A)
    → length (keep p xs) + length (keep (λ (x : A). not (p x)) xs) ≡ length xs
length-keep-not p [] = omega arith
length-keep-not p (x ∷ xs) = ground (arith, length-keep-not p xs)

-- While the days are at most 2^63 milliseconds: a prune that the database carries out leaves exactly the rows
-- that are not older than so many days, and reports how many it has dropped; one that it does not
-- leaves the store as it was.
pub prune-days :
    (fine : Bool) (now days : ℕ) (s : RawStore)
    → now < 2 ^ 63
    → days * day_ms ≤ 2 ^ 63
    → ((fine ≡ true)
        × ((prune fine now days s).1.rows
            ≡ keep (λ (r : Row). not (ltb (r.created_at + days * day_ms) now)) s.rows)
        × ((n : ℕ) × ((prune fine now days s).0 ≡ some n)
            × (n + length (prune fine now days s).1.rows ≡ length s.rows)))
      ⊎ ((fine ≡ false) × (prune fine now days s ≡ (none, s)))
unfolding prune
prune-days true now days s h k =
    let old = λ (r : Row). is_old now days r.created_at in
    inl (
      refl,
      keep-same (λ (r : Row). not (old r))
          (λ (r : Row). not (ltb (r.created_at + days * day_ms) now)) s.rows
          (λ r. ap not (is_old-days now days r.created_at h k)),
      (length (keep old s.rows), refl, length-keep-not old s.rows),
    )
prune-days false now days s h k = inr (refl, refl)

is_old-forever :
    (now created : ℕ)
    → now + day_ms < 2 ^ 63
    → created ≤ now
    → is_old now (2 ^ 63 - 1) created ≡ true
unfolding is_old
is_old-forever now created h k = ground arith

-- A retention of 2^63 - 1 days drops every row that is not of a later day.
pub prune-forever :
    (now : ℕ) (s : RawStore)
    → now + day_ms < 2 ^ 63
    → All (λ (r : Row). r.created_at ≤ now) s.rows
    → (prune true now (2 ^ 63 - 1) s).1.rows ≡ []
unfolding prune
prune-forever now s h k = none_left s.rows k
  where
    none_left :
        (rows : List Row)
        → All (λ (r : Row). r.created_at ≤ now) rows
        → keep (λ (r : Row). not (is_old now (2 ^ 63 - 1) r.created_at)) rows ≡ []
    none_left [] a = refl
    none_left (r ∷ rows) a = rw (is_old-forever now r.created_at h a.0) (none_left rows a.1)
