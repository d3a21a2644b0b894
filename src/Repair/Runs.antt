-- ===== src/Repair/Runs.antt =====
-- Whole runs of the repair ledger (crates/orchestrator/src/repair_stop.rs): from `new`, any
-- sequence of attempts.
use entheai.Base.{
  ℕ, ◌≡◌, refl, sym, ◌∙◌, ap, subst, ◌⊎◌, inl, inr, true, false, Option, none, some, List, [], ◌∷◌,
  ◌++◌, any, arith, ◌>>=◌, Bool-cases,
}
use mathlib.Core.List.{append-nil, append_assoc}
use entheai.Base.Float.{F64}
use entheai.Repair
use entheai.Repair.{Attempt, RepairLedger, record_attempt, replaces, clears}
use entheai.Repair.Incumbent.{IsValid, kept, after, passes, kept-after, after-IsValid}
use entheai.Repair.Stopping.{record_attempt-eq}

module _ (F : F64) where
  -- The ledger after recording each attempt in turn.
  abbrev pub run : RepairLedger F → List (Attempt F) → Option (RepairLedger F)
  run l [] = some l
  run l (a ∷ as') = record_attempt F l a >>= λ r. run r.0 as'

  abbrev pub afters : RepairLedger F → List (Attempt F) → RepairLedger F
  afters l [] = l
  afters l (a ∷ xs) = afters (after F l a) xs

  afters-IsValid :
      (l : RepairLedger F) (xs : List (Attempt F)) → IsValid F l → IsValid F (afters l xs)
  afters-IsValid l [] v = v
  afters-IsValid l (a ∷ xs) v = afters-IsValid (after F l a) xs (after-IsValid F l a v)

  run-afters :
      (l : RepairLedger F) (xs : List (Attempt F)) → IsValid F l → run l xs ≡ some (afters l xs)
  run-afters l [] v = refl
  run-afters l (a ∷ xs) v =
      rw (record_attempt-eq F l a v) (run-afters (after F l a) xs (after-IsValid F l a v))

  attempts-afters :
      (l : RepairLedger F) (xs : List (Attempt F)) → (afters l xs).attempts ≡ l.attempts ++ xs
  attempts-afters l [] = sym (append-nil l.attempts)
  attempts-afters l (a ∷ xs) =
      attempts-afters (after F l a) xs ∙ append_assoc l.attempts (a ∷ []) xs

  margin-afters : (l : RepairLedger F) (xs : List (Attempt F)) → (afters l xs).margin ≡ l.margin
  margin-afters l [] = refl
  margin-afters l (a ∷ xs) = margin-afters (after F l a) xs

  pub new-IsValid : (n : ℕ) (m : F.Num) → IsValid F (Repair.new F n m)
  unfolding Repair.new
  new-IsValid n m = record { in_range = λ i h. cc; present = λ h. refl; best = refl }

  -- From `new`, recording any sequence of attempts never panics, the ledger holds exactly these
  -- attempts in order, and its incumbent has passed exactly when some attempt has.
  pub run-new :
      (n : ℕ) (m : F.Num) (xs : List (Attempt F))
      → (l : RepairLedger F) × (run (Repair.new F n m) xs ≡ some l)
        × (l.attempts ≡ xs)
        × (passes F (kept F l) ≡ any (λ a. a.passed) xs)
  unfolding Repair.new
  run-new n m xs =
      let v = afters-IsValid (Repair.new F n m) xs (new-IsValid n m) in
      let e = attempts-afters (Repair.new F n m) xs in
      (
        afters (Repair.new F n m) xs,
        run-afters (Repair.new F n m) xs (new-IsValid n m),
        e,
        v.best ∙ ap (any (λ a. a.passed)) e,
      )

  abbrev pub ScoreLe : Option F.Num → Option F.Num → Type 0
  ScoreLe none none = Unit
  ScoreLe none (some c) = ⊥
  ScoreLe (some i) none = ⊥
  ScoreLe (some i) (some c) = (i ≡ c) ⊎ (F.geb c i ≡ true)

  -- `b` may stand where `a` stood: it passed, or neither did and its score is not lower.
  abbrev pub NotWorse : Attempt F → Attempt F → Type 0
  NotWorse a b =
      (b.passed ≡ true) ⊎ ((a.passed ≡ false) × (b.passed ≡ false) × ScoreLe a.score b.score)

  ScoreLe-refl : (s : Option F.Num) → ScoreLe s s
  ScoreLe-refl none = tt
  ScoreLe-refl (some i) = inl refl

  ScoreLe-trans : (s t u : Option F.Num) → ScoreLe s t → ScoreLe t u → ScoreLe s u
  ScoreLe-trans none none none h k = tt
  ScoreLe-trans none none (some c) h k = elim k [ ]
  ScoreLe-trans none (some b) u h k = elim h [ ]
  ScoreLe-trans (some a) none u h k = elim h [ ]
  ScoreLe-trans (some a) (some b) none h k = elim k [ ]
  ScoreLe-trans (some a) (some b) (some c) h k = ground (arith, F.geb_trans c b a)

  NotWorse-refl : (a : Attempt F) → NotWorse a a
  NotWorse-refl a = elim (Bool-cases a.passed) [
    | inl e ↦ inl e
    | inr e ↦ inr (e, e, ScoreLe-refl a.score)
  ]

  NotWorse-trans : (a b c : Attempt F) → NotWorse a b → NotWorse b c → NotWorse a c
  NotWorse-trans a b c h (inl k) = inl k
  NotWorse-trans a b c (inl h) (inr k) = cc
  NotWorse-trans a b c (inr h) (inr k) =
      inr (h.0, k.1, ScoreLe-trans a.score b.score c.score h.2 k.2)

  clears-ScoreLe :
      (m : F.Num) (c i : Option F.Num) → F.geb m F.zero ≡ true → clears F m c i ≡ true → ScoreLe i c
  clears-ScoreLe m none i pos h = cc
  clears-ScoreLe m (some c) none pos h = cc
  clears-ScoreLe m (some c) (some i) pos h = inr (F.geb_add c i m pos h)

  replaces-NotWorse :
      (m : F.Num) (cand inc : Attempt F)
      → F.geb m F.zero ≡ true
      → replaces F m cand inc ≡ true
      → NotWorse inc cand
  unfolding replaces
  replaces-NotWorse m cand inc pos h = elim (Bool-cases cand.passed) [
    | inl e ↦ inl e
    | inr e ↦ inr (ground arith, e, clears-ScoreLe m cand.score inc.score pos (ground arith))
  ]

  after-NotWorse :
      (l : RepairLedger F) (a inc : Attempt F)
      → IsValid F l
      → F.geb l.margin F.zero ≡ true
      → kept F l ≡ some inc
      → (inc' : Attempt F) × (kept F (after F l a) ≡ some inc') × NotWorse inc inc'
  after-NotWorse l a inc v pos h = elim (Bool-cases (replaces F l.margin a inc)) [
    | inl e ↦ (a, ground (arith, kept-after F l a v), replaces-NotWorse l.margin a inc pos e)
    | inr e ↦ (inc, ground (arith, kept-after F l a v), NotWorse-refl inc)
  ]

  afters-NotWorse :
      (l : RepairLedger F) (xs : List (Attempt F)) (inc : Attempt F)
      → IsValid F l
      → F.geb l.margin F.zero ≡ true
      → kept F l ≡ some inc
      → (inc' : Attempt F) × (kept F (afters l xs) ≡ some inc') × NotWorse inc inc'
  afters-NotWorse l [] inc v pos h = (inc, h, NotWorse-refl inc)
  afters-NotWorse l (a ∷ xs) inc v pos h =
      let (b, hb, ab) = after-NotWorse l a inc v pos h in
      let (c, hc, bc) = afters-NotWorse (after F l a) xs b (after-IsValid F l a v) pos hb in
      (c, hc, NotWorse-trans inc b c ab bc)

  margin_nonneg :
      (n : ℕ) (m : F.Num) (xs : List (Attempt F))
      → F.geb (afters (Repair.new F n m) xs).margin F.zero ≡ true
  unfolding Repair.new
  margin_nonneg n m xs = rw (margin-afters (Repair.new F n m) xs) (F.max-geb_zero m)

  -- Once attempts `xs` have been recorded from `new` and left the incumbent `inc`, any further
  -- attempts `ys` leave an incumbent that is not worse: it passed, or neither passed and its score
  -- is the same or not lower, and it has a score exactly when `inc` has one.
  pub run-NotWorse :
      (n : ℕ) (m : F.Num) (xs ys : List (Attempt F)) (l : RepairLedger F) (inc : Attempt F)
      → run (Repair.new F n m) xs ≡ some l
      → kept F l ≡ some inc
      → (l' : RepairLedger F) × (inc' : Attempt F) × (run l ys ≡ some l')
        × (kept F l' ≡ some inc')
        × NotWorse inc inc'
  run-NotWorse n m xs ys l inc r h =
      let s = afters (Repair.new F n m) xs in
      let e : s ≡ l = cc (run-afters (Repair.new F n m) xs (new-IsValid n m)) in
      let v : IsValid F l =
        subst (IsValid F) e (afters-IsValid (Repair.new F n m) xs (new-IsValid n m)) in
      let pos : F.geb l.margin F.zero ≡ true =
        subst (λ (t : RepairLedger F). F.geb t.margin F.zero ≡ true) e (margin_nonneg n m xs) in
      let (inc', k, w) = afters-NotWorse l ys inc v pos h in
      (afters l ys, inc', run-afters l ys v, k, w)
