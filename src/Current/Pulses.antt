-- ===== src/Current/Pulses.antt =====
-- crates/current/src/lib.rs: the pulses of one day.
use entheai.Base.{
  ℕ, ◌+◌, ◌^◌, ◌≤◌, ◌<◌, min, ◌≡◌, refl, String, true, Option, none, some, List, [], ◌∷◌, ◌++◌,
  arith, string_eq,
}
use entheai.Base.Assoc.{lookup}
use entheai.Current.{
  BudgetLedger, Day, Stored, load, Pulse, Fetched, pulse_worldmonitor, pulse_valyu, pulse_dogfood,
  pulse, from_config, empty_report, CurrentEngine,
}
use entheai.Current.Spending.{
  spent, spent-append, used, IsWithin, AreSmall, Accounts, Accounts-trans, metered-Accounts,
  pulse_topics-Accounts,
}

module _ {Item : Type 0} (day : Day) (e : CurrentEngine Item) where
  pulse_worldmonitor-Accounts :
      (wm : Option (List (String × Fetched Item))) (p : Pulse Item)
      → day.writable ≡ true
      → AreSmall e.ledger day
      → IsWithin e.ledger day p.1
      → Accounts e.ledger day p (pulse_worldmonitor day (record e { worldmonitor = wm }) p)
  pulse_worldmonitor-Accounts none (report, stored) w small within = (within, λ t. refl)
  pulse_worldmonitor-Accounts (some wm) (report, stored) w small within =
      metered-Accounts e.ledger day "worldmonitor" 3 wm (report, stored) w small (omega arith)
        within

  pulse_valyu-Accounts :
      (valyu : Option (String → Fetched Item)) (topics : List String) (p : Pulse Item)
      → day.writable ≡ true
      → AreSmall e.ledger day
      → IsWithin e.ledger day p.1
      → Accounts e.ledger day p (pulse_valyu day (record e { valyu = valyu; topics = topics }) p)
  pulse_valyu-Accounts none [] (report, stored) w small within = (within, λ t. refl)
  pulse_valyu-Accounts none (_ ∷ _) (report, stored) w small within = (within, λ t. refl)
  pulse_valyu-Accounts (some valyu) topics (report, stored) w small within =
      pulse_topics-Accounts e.ledger day valyu topics (report, stored) w small within

  pulse_dogfood-Accounts :
      (df : Option (Fetched Item)) (p : Pulse Item)
      → day.writable ≡ true
      → AreSmall e.ledger day
      → IsWithin e.ledger day p.1
      → Accounts e.ledger day p (pulse_dogfood day (record e { dogfood = df }) p)
  pulse_dogfood-Accounts none (report, stored) w small within = (within, λ t. refl)
  pulse_dogfood-Accounts (some df) p w small within =
      metered-Accounts e.ledger day "dogfood" 2 (("dogfood", df) ∷ []) p w small (omega arith)
        within

  -- The same of a whole pulse.
  pulse-Accounts :
      (stored : Stored)
      → day.writable ≡ true
      → AreSmall e.ledger day
      → IsWithin e.ledger day stored
      → Accounts e.ledger day (empty_report day, stored) (pulse day e stored)
  unfolding pulse
  pulse-Accounts stored w small within =
      let p0 : Pulse Item = (empty_report day, stored) in
      let p1 = pulse_worldmonitor day e p0 in
      let p2 = pulse_valyu day e p1 in
      let a1 = pulse_worldmonitor-Accounts e.worldmonitor p0 w small within in
      let a2 = pulse_valyu-Accounts e.valyu e.topics p1 w small a1.0 in
      let a3 = pulse_dogfood-Accounts e.dogfood p2 w small a2.0 in
      Accounts-trans e.ledger day p0 p1 (pulse_dogfood day e p2) a1
        (Accounts-trans e.ledger day p1 p2 (pulse_dogfood day e p2) a2 a3)

module _ {Item : Type 0} (ledger : BudgetLedger) (day : Day) where
  -- What the pulses of a day report as spent, with one ledger, and its file at the end.
  abbrev pub pulses : List (CurrentEngine Item) → Stored → List (String × ℕ) × Stored
  pulses [] stored = ([], stored)
  pulses (e ∷ es) stored =
      let (report, after) = pulse day (record e { ledger = ledger }) stored in
      let (rest, last) = pulses es after in (report.requests_spent ++ rest, last)

  pulses-counted :
      (es : List (CurrentEngine Item)) (stored : Stored)
      → day.writable ≡ true
      → AreSmall ledger day
      → IsWithin ledger day stored
      → IsWithin ledger day (pulses es stored).1
        × ((t : String)
            → used ledger day t (pulses es stored).1
              ≡ used ledger day t stored + spent t (pulses es stored).0)
  pulses-counted [] stored w small within = (within, λ t. omega arith)
  pulses-counted (e ∷ es) stored w small within =
      let engine : CurrentEngine Item = record e { ledger = ledger } in
      let p = pulse day engine stored in
      let (within1, f) = pulse-Accounts day engine stored w small within in
      let (within2, g) = pulses-counted es p.1 w small within1 in
      (within2, λ t. omega (arith, f t, g t, spent-append t p.0.requests_spent (pulses es p.1).0))

  -- On one day, while the file of the ledger can be written, each source is within its cap and each
  -- cap is more than 3 below 2 ^ 32, the requests to a source that the pulses report as spent are what
  -- the ledger counts, and together with those before stay within the cap, whatever the sources
  -- answer.
  pub pulses-within :
      (es : List (CurrentEngine Item)) (stored : Stored) (t : String) (most : ℕ)
      → day.writable ≡ true
      → AreSmall ledger day
      → IsWithin ledger day stored
      → lookup t ledger.caps ≡ some most
      → (used ledger day t (pulses es stored).1
          ≡ used ledger day t stored + spent t (pulses es stored).0)
        × (used ledger day t stored + spent t (pulses es stored).0 ≤ most)
  pulses-within es stored t most w small within known =
      let (kept, counted) = pulses-counted es stored w small within in
      (counted t, omega (arith, counted t, kept t most known))

abbrev from_now : String → Day
from_now today = record { today = today; writable = true }

from_config-AreSmall :
    (valyu worldmonitor dogfood : ℕ) (today : String)
    → valyu + 3 < 2 ^ 32
    → dogfood + 3 < 2 ^ 32
    → AreSmall (from_config valyu worldmonitor dogfood) (from_now today)
unfolding from_config lookup
from_config-AreSmall valyu worldmonitor dogfood today v d source most known =
    ground (arith, known, v, d)

no_file-IsWithin : (ledger : BudgetLedger) (day : Day) → IsWithin ledger day none
unfolding load lookup
no_file-IsWithin ledger day source most known = omega arith

known_worldmonitor :
    (valyu worldmonitor dogfood : ℕ)
    → lookup "worldmonitor" (from_config valyu worldmonitor dogfood).caps
      ≡ some (min worldmonitor 50)
unfolding from_config lookup
known_worldmonitor valyu worldmonitor dogfood = refl

-- The requests to WorldMonitor that the pulses of one day report as spent are at most 50, whatever
-- the configuration says of it, while the file of the ledger can be written and the other two caps are
-- more than 3 below 2 ^ 32.
pub pulses-worldmonitor :
    {Item : Type 0} (valyu worldmonitor dogfood : ℕ) (today : String)
    (es : List (CurrentEngine Item))
    → valyu + 3 < 2 ^ 32
    → dogfood + 3 < 2 ^ 32
    → spent "worldmonitor"
        (pulses (from_config valyu worldmonitor dogfood) (from_now today) es none).0
      ≤ 50
pulses-worldmonitor valyu worldmonitor dogfood today es v d =
    let ledger = from_config valyu worldmonitor dogfood in
    let day = from_now today in
    let (_, most) =
      pulses-within ledger day es none "worldmonitor" (min worldmonitor 50) refl
        (from_config-AreSmall valyu worldmonitor dogfood today v d) (no_file-IsWithin ledger day)
        (known_worldmonitor valyu worldmonitor dogfood) in
    omega (arith, most)
