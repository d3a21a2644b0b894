-- ===== src/Examples/RepairCases.antt =====
-- The repair ledger at concrete inputs (crates/orchestrator/src/repair_stop.rs), with numbers for scores.
use entheai.Base.{
  ℕ, ◌+◌, ◌≤◌, ◌≡◌, ◌↔◌, refl, true, false, some, none, [], ◌∷◌, ◌++◌, length, leb, max, arith,
}
use entheai.Base.Float.{F64}
use entheai.Repair
use entheai.Repair.{
  Attempt, RepairLedger, RepairDecision, StopReason, as_u32, record_attempt, update_incumbent,
  ruling, stop, continue, incumbent_owned, replaces,
}
use entheai.Repair.Incumbent.{kept, outdone, name_of}
use entheai.Repair.Stopping.{has_gradient, record_attempt-rules}
use entheai.Repair.Runs.{run, afters, NotWorse, new-IsValid, run-NotWorse}

natural_max : (x : ℕ) → leb 0 (max x 0) ≡ true
natural_max x = ground arith

natural_trans : (a b c : ℕ) → leb b a ≡ true → leb c b ≡ true → leb c a ≡ true
natural_trans a b c h k = ground (arith, h, k)

natural_add : (c i m : ℕ) → leb 0 m ≡ true → leb (i + m) c ≡ true → leb i c ≡ true
natural_add c i m h k = ground (arith, h, k)

abbrev natural : F64
natural = record {
  Num = ℕ;
  zero = 0;
  add = λ a b. a + b;
  max = λ a b. max a b;
  geb = λ a b. leb b a;
  max-geb_zero = natural_max;
  geb_trans = natural_trans;
  geb_add = natural_add;
}

abbrev first : Attempt natural
first = record { passed = false; score = some 4; candidate = "a" }

abbrev second : Attempt natural
second = record { passed = false; score = some 9; candidate = "b" }

abbrev fresh : RepairLedger natural
fresh = Repair.new natural 5 2

record_attempt-rules_example :
    (l' : RepairLedger natural) × (d : RepairDecision) × (record_attempt natural fresh first
      ≡ some (l', d))
    × (l'.attempts ≡ fresh.attempts ++ first ∷ [])
    × (d.incumbent ≡ name_of natural (kept natural l'))
    × ((d.keep_repairing ≡ true) ↔ (d.stop_reason ≡ none))
    × ((d.keep_repairing ≡ true) ↔ (
        (first.passed ≡ false)
        × (as_u32 (length l'.attempts) ≤ fresh.max_attempts)
        × (has_gradient natural l'.attempts ≡ true)
        × (kept natural l' ≡ some first)
        × (outdone natural fresh.margin first (kept natural fresh) ≡ true)))
record_attempt-rules_example = record_attempt-rules natural fresh first (new-IsValid natural 5 2)

abbrev after_first : RepairLedger natural
after_first = afters natural fresh (first ∷ [])

run-NotWorse_example :
    (l' : RepairLedger natural) × (inc' : Attempt natural) × (run natural after_first (second ∷ [])
      ≡ some l')
    × (kept natural l' ≡ some inc')
    × NotWorse natural first inc'
unfolding record_attempt update_incumbent ruling stop continue incumbent_owned Repair.new replaces
run-NotWorse_example =
    run-NotWorse natural 5 2 (first ∷ []) (second ∷ []) after_first first refl refl
