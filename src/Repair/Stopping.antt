-- ===== src/Repair/Stopping.antt =====
-- When the repair loop stops (crates/orchestrator/src/repair_stop.rs): the rulings of `record`.
use entheai.Base.{
  ℕ, ◌≤◌, ◌<◌, inl, inr, ◌≡◌, refl, ◌↔◌, Bool, true, false, not, Option, none, some, List, [], ◌∷◌,
  ◌++◌, length, all, any, ltb, ==_iff, arith, if◌then◌else◌, Bool-cases,
}
use entheai.Base.Float.{F64}
use entheai.Repair.{
  StopReason, passed, max_attempts, no_marginal_value, weak_verifier, RepairDecision, Attempt,
  RepairLedger, is_none, is_at, as_u32, ruling, record_attempt,
}
use entheai.Repair.Incumbent.{
  IsValid, kept, after, name_of, owned-kept, update_incumbent-after, after-IsValid, outdone,
  kept-after,
}

module _ (F : F64) where
  -- The verifier gave a score to some attempt.
  abbrev pub has_gradient : List (Attempt F) → Bool
  has_gradient xs = any (λ a. not (is_none F a.score)) xs

  gradient-all : (xs : List (Attempt F)) → all (λ a. is_none F a.score) xs ≡ not (has_gradient xs)
  gradient-all [] = refl
  gradient-all (x ∷ xs) = ground (arith, gradient-all xs)

  abbrev reason : RepairLedger F → Bool → ℕ → Option StopReason
  reason l attempt_passed idx =
      if attempt_passed
      then some passed
      else if ltb l.max_attempts (as_u32 (length l.attempts))
      then some max_attempts
      else if not (has_gradient l.attempts)
      then some weak_verifier
      else if not (is_at F l.incumbent idx)
      then some no_marginal_value
      else none

  abbrev goes_on : Option StopReason → Bool
  goes_on none = true
  goes_on (some _) = false

  abbrev decision : RepairLedger F → Option StopReason → RepairDecision
  decision l r = record {
    keep_repairing = goes_on r;
    incumbent = name_of F (kept F l);
    stop_reason = r;
  }

  ruling-decision :
      (l : RepairLedger F) (p : Bool) (idx : ℕ)
      → IsValid F l
      → ruling F l p idx ≡ some (decision l (reason l p idx))
  unfolding ruling
  ruling-decision l p idx v = ground (arith, gradient-all l.attempts, owned-kept F l v)

  pub record_attempt-eq :
      (l : RepairLedger F) (a : Attempt F)
      → IsValid F l
      → record_attempt F l a
        ≡ some (
          after F l a,
          decision (after F l a) (reason (after F l a) a.passed (length l.attempts)),
        )
  unfolding record_attempt
  record_attempt-eq l a v =
      rw (update_incumbent-after F l a v) (
        rw (ruling-decision (after F l a) a.passed (length l.attempts) (after-IsValid F l a v))
          refl)

  -- The index of the attempt just recorded is the incumbent's exactly when the attempt took over.
  is_at-after :
      (l : RepairLedger F) (a : Attempt F)
      → IsValid F l
      → is_at F (after F l a).incumbent (length l.attempts) ≡ outdone F l.margin a (kept F l)
  is_at-after l a v = elim (Bool-cases (outdone F l.margin a (kept F l))) [
    | inl e ↦ rw e ((==_iff (length l.attempts) (length l.attempts)).1 refl)
    | inr e ↦ rw e (not_at l.incumbent v.in_range)
  ]
    where
      not_at :
          (o : Option ℕ)
          → ((i : ℕ) → o ≡ some i → i < length l.attempts)
          → is_at F o (length l.attempts) ≡ false
      not_at none h = refl
      not_at (some i) h = ground (arith, h i refl)

  -- From a valid ledger, recording an attempt never panics: it keeps the attempt at the end of the
  -- list, reports the ledger's incumbent, and gives a reason to stop exactly when it stops. The loop
  -- goes on exactly when the attempt did not pass, the recorded attempts (as a 32-bit number) are
  -- within the budget, some attempt has a score, and the attempt has become the incumbent.
  pub record_attempt-rules :
      (l : RepairLedger F) (a : Attempt F)
      → IsValid F l
      → (l' : RepairLedger F) × (d : RepairDecision) × (record_attempt F l a ≡ some (l', d))
        × (l'.attempts ≡ l.attempts ++ a ∷ [])
        × (d.incumbent ≡ name_of F (kept F l'))
        × ((d.keep_repairing ≡ true) ↔ (d.stop_reason ≡ none))
        × ((d.keep_repairing ≡ true) ↔ (
            (a.passed ≡ false)
            × (as_u32 (length l'.attempts) ≤ l.max_attempts)
            × (has_gradient l'.attempts ≡ true)
            × (kept F l' ≡ some a)
            × (outdone F l.margin a (kept F l) ≡ true)))
  record_attempt-rules l a v = (
    after F l a,
    decision (after F l a) (reason (after F l a) a.passed (length l.attempts)),
    record_attempt-eq l a v,
    refl,
    refl,
    ground arith,
    ground (arith, is_at-after l a v, kept-after F l a v),
  )
