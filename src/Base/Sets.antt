-- ===== src/Base/Sets.antt =====
-- Sets and queues of keys as lists: membership, removal of a key, and what they do to one another.
use Prim.Native.Nat.{◌≤◌}
use mathlib.Core.Path.{◌≡◌, refl}
use mathlib.Core.Bool.{Bool, true, false, not, ◌&&◌, ◌||◌}
use mathlib.Core.List.{List, [], ◌∷◌, ◌++◌}
use native.Mathlib.Omega.{arith}
use entheai.Base.Tests.{if◌then◌else◌}
use entheai.Base.Lists.{any, keep, length}
use entheai.Base.Keys.{Eq, ◌=?◌}

module _ {A : Type 0} ⦃e : Eq A⦄ where
  abbrev pub member : A → List A → Bool
  member a xs = any (λ x. x =? a) xs

  -- `retain(|x| x != a)`.
  abbrev pub discard : A → List A → List A
  discard a xs = keep (λ x. not (x =? a)) xs

  pub member-append : (a : A) (xs ys : List A) → member a (xs ++ ys) ≡ (member a xs || member a ys)
  member-append a [] ys = refl
  member-append a (x ∷ xs) ys = ground (arith, member-append a xs ys)

  pub member-discard :
      (a b : A) (xs : List A) → member b (discard a xs) ≡ (if a =? b then false else member b xs)
  member-discard a b [] = ground arith
  member-discard a b (x ∷ xs) =
      ground (arith, member-discard a b xs, e.beq_iff x a, e.beq_iff x b, e.beq_iff a b)

  -- No key stands twice.
  abbrev pub distinct : List A → Bool
  distinct [] = true
  distinct (x ∷ xs) = if member x xs then false else distinct xs

  pub distinct-discard : (a : A) (xs : List A) → distinct xs ≡ true → distinct (discard a xs) ≡ true
  distinct-discard a [] h = refl
  distinct-discard a (x ∷ xs) h =
      ground (arith, distinct-discard a xs, member-discard a x xs, e.beq_iff x a, e.beq_iff a x)

  pub distinct-snoc :
      (a : A) (xs : List A)
      → distinct xs ≡ true
      → member a xs ≡ false
      → distinct (xs ++ a ∷ []) ≡ true
  distinct-snoc a [] h k = refl
  distinct-snoc a (x ∷ xs) h k =
      ground (arith, distinct-snoc a xs, member-append x xs (a ∷ []), e.beq_iff x a, e.beq_iff a x)

  pub length-discard : (a : A) (xs : List A) → length (discard a xs) ≤ length xs
  length-discard a [] = omega arith
  length-discard a (x ∷ xs) = ground (arith, length-discard a xs)

  -- The elements of a list that an older one does not have.
  abbrev pub unseen : List A → List A → List A
  unseen old xs = keep (λ x. not (member x old)) xs

  pub member-unseen :
      (a : A) (old xs : List A) → member a (unseen old xs) ≡ (member a xs && not (member a old))
  member-unseen a old [] = refl
  member-unseen a old (x ∷ xs) = ground (arith, member-unseen a old xs, e.beq_iff x a)

  distinct-unseen : (old xs : List A) → distinct xs ≡ true → distinct (unseen old xs) ≡ true
  distinct-unseen old [] h = refl
  distinct-unseen old (x ∷ xs) h = ground (arith, distinct-unseen old xs, member-unseen x old xs)

  distinct-append :
      (xs ys : List A)
      → distinct xs ≡ true
      → distinct ys ≡ true
      → ((a : A) → member a xs ≡ true → member a ys ≡ false)
      → distinct (xs ++ ys) ≡ true
  distinct-append [] ys h k apart = k
  distinct-append (x ∷ xs) ys h k apart =
      let rest : distinct (xs ++ ys) ≡ true =
        distinct-append xs ys (ground (arith, h)) k (λ a m. apart a (ground (arith, m))) in
      ground (arith, rest, member-append x xs ys, apart x, e.beq_iff x x)

  pub distinct-append_unseen :
      (old xs : List A)
      → distinct old ≡ true
      → distinct xs ≡ true
      → distinct (old ++ unseen old xs) ≡ true
  distinct-append_unseen old xs h k =
      distinct-append old (unseen old xs) h (distinct-unseen old xs k)
        (λ a m. ground (arith, member-unseen a old xs, m))
