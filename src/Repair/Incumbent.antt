-- ===== src/Repair/Incumbent.antt =====
-- The incumbent of the repair ledger (crates/orchestrator/src/repair_stop.rs): it is there from the
-- first attempt on, it is never worse than before, and it has passed as soon as any attempt has.
use entheai.Base.{
  ℕ, ◌<◌, String, ◌≡◌, refl, sym, ◌∙◌, ap, inl, inr, Bool, true, false, ◌||◌, Option, none, some,
  List, [], ◌∷◌, ◌++◌, length, get_elem?, any, arith, if◌then◌else◌, ◌>>=◌, length-append,
  get_elem?-append, get_elem?-append_length, get_elem?-lt, Bool-cases,
}
use entheai.Base.Float.{F64}
use entheai.Repair.{
  Attempt, RepairLedger, replaces, replaces_current, update_incumbent, incumbent_owned, owned,
}

module _ (F : F64) where
  -- The ledger's incumbent, as an attempt.
  abbrev pub kept : RepairLedger F → Option (Attempt F)
  kept l = l.incumbent >>= get_elem? l.attempts

  abbrev pub passes : Option (Attempt F) → Bool
  passes none = false
  passes (some a) = a.passed

  -- What a run of the loop keeps: an incumbent is in range, there is one once an attempt is
  -- recorded, and it has passed exactly when some attempt has.
  pub record IsValid (l : RepairLedger F) : Type 0 where
    pub in_range : (i : ℕ) → l.incumbent ≡ some i → i < length l.attempts
    pub present : l.incumbent ≡ none → l.attempts ≡ []
    pub best : passes (kept l) ≡ any (λ a. a.passed) l.attempts

  any-append :
      (xs : List (Attempt F)) (a : Attempt F)
      → any (λ a. a.passed) (xs ++ a ∷ []) ≡ (any (λ a. a.passed) xs || a.passed)
  any-append [] a = ground arith
  any-append (x ∷ xs) a = ground (arith, any-append xs a)

  -- One update of the incumbent, in closed form.
  abbrev pub outdone : F.Num → Attempt F → Option (Attempt F) → Bool
  outdone m a none = true
  outdone m a (some inc) = replaces F m a inc

  abbrev pub after : RepairLedger F → Attempt F → RepairLedger F
  after l a = record l {
    attempts = l.attempts ++ a ∷ [];
    incumbent = if outdone l.margin a (kept l) then some (length l.attempts) else l.incumbent;
  }

  replaces_current-append :
      (m : F.Num) (xs : List (Attempt F)) (a : Attempt F) (o : Option ℕ)
      → ((i : ℕ) → o ≡ some i → i < length xs)
      → replaces_current F m (xs ++ a ∷ []) a o ≡ some (outdone m a (o >>= get_elem? xs))
  replaces_current-append m xs a none h = refl
  replaces_current-append m xs a (some i) h =
      let (x, e) = get_elem?-lt xs i (h i refl) in
      rw (get_elem?-append xs (a ∷ []) i (h i refl)) (rw e refl)

  kept-append :
      (xs : List (Attempt F)) (a : Attempt F) (o : Option ℕ)
      → ((i : ℕ) → o ≡ some i → i < length xs)
      → (o >>= get_elem? (xs ++ a ∷ [])) ≡ (o >>= get_elem? xs)
  kept-append xs a none h = refl
  kept-append xs a (some i) h = get_elem?-append xs (a ∷ []) i (h i refl)

  pub update_incumbent-after :
      (l : RepairLedger F) (a : Attempt F)
      → IsValid l
      → update_incumbent F (record l { attempts = l.attempts ++ a ∷ [] }) (length l.attempts)
        ≡ some (after l a)
  unfolding update_incumbent
  update_incumbent-after l a v =
      rw (get_elem?-append_length l.attempts a)
        (rw (replaces_current-append l.margin l.attempts a l.incumbent v.in_range) (ground arith))

  -- The incumbent after an attempt is the attempt or the incumbent before.
  pub kept-after :
      (l : RepairLedger F) (a : Attempt F)
      → IsValid l
      → kept (after l a) ≡ (if outdone l.margin a (kept l) then some a else kept l)
  kept-after l a v = elim (Bool-cases (outdone l.margin a (kept l))) [
    | inl e ↦ rw e (get_elem?-append_length l.attempts a)
    | inr e ↦ rw e (kept-append l.attempts a l.incumbent v.in_range)
  ]

  no_incumbent :
      (l : RepairLedger F) → IsValid l → kept l ≡ none → any (λ a. a.passed) l.attempts ≡ false
  no_incumbent l v h = sym v.best ∙ ap passes h

  pub after-IsValid : (l : RepairLedger F) (a : Attempt F) → IsValid l → IsValid (after l a)
  unfolding replaces
  after-IsValid l a v = record {
    in_range = λ i h. ground (arith, length-append l.attempts (a ∷ []), v.in_range i);
    present = λ h. ground arith;
    best = rw (kept-after l a v) ground (arith, any-append l.attempts a, v.best, no_incumbent l v);
  }

  -- Every ruling succeeds on a ledger whose incumbent is in range, and reports that incumbent.
  abbrev pub name_of : Option (Attempt F) → Option String
  name_of none = none
  name_of (some a) = some a.candidate

  pub owned-kept : (l : RepairLedger F) → IsValid l → incumbent_owned F l ≡ some (name_of (kept l))
  unfolding incumbent_owned
  owned-kept l v = owned_at l.attempts l.incumbent v.in_range
    where
      owned_at :
          (xs : List (Attempt F)) (o : Option ℕ)
          → ((i : ℕ) → o ≡ some i → i < length xs)
          → owned F xs o ≡ some (name_of (o >>= get_elem? xs))
      owned_at xs none h = refl
      owned_at xs (some i) h = let (x, e) = get_elem?-lt xs i (h i refl) in rw e
