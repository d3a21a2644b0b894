-- ===== src/Current.antt =====
-- crates/current/src/lib.rs: the daily budgets of the live sources, and the pulse that spends them. The
-- file of the ledger is what reading and parsing it gives; a save that fails leaves it as it was.
-- What the sources answer in a pulse is given with it; the clients that fetch are not modelled.
pub mod Spending
pub mod Pulses
pub mod Civil
pub mod Years
pub mod Months
pub mod Calendar
use entheai.Base.{
  ℕ, ◌+◌, ◌%◌, ◌^◌, min, String, Bool, true, false, ◌&&◌, not, Option, none, some, List, [], ◌∷◌,
  ◌++◌, ltb, if◌then◌else◌, string_eq, ◌=?◌,
}
use entheai.Base.Assoc.{lookup, insert}

pub record LedgerState : Type 0 where
  pub date : String
  pub counts : List (String × ℕ)

pub record BudgetLedger : Type 0 where
  pub caps : List (String × ℕ)

abbrev pub copied_or_zero : Option ℕ → ℕ
copied_or_zero none = 0
copied_or_zero (some n) = n

-- The day, and whether the file can be written.
pub record Day : Type 0 where
  pub today : String
  pub writable : Bool

abbrev pub Stored : Type 0
Stored = Option LedgerState

abbrev fresh : String → LedgerState
fresh today = record { date = today; counts = [] }

unfoldable pub load : Day → Stored → LedgerState
load day none = fresh day.today
load day (some state) = if state.date =? day.today then state else fresh day.today

unfoldable pub save : Day → LedgerState → Stored → Stored
save day state stored = if day.writable then some state else stored

abbrev pub used_in : String → LedgerState → ℕ
used_in source state = copied_or_zero (lookup source state.counts)

-- `try_spend`, on `u32`.
abbrev pub spend_within : Day → ℕ → String → ℕ → LedgerState → Stored → Bool × Stored
spend_within day cap source n state stored =
    let total = (used_in source state + n) % 2 ^ 32 in
    if ltb cap total
    then (false, stored)
    else (true, save day (record state { counts = insert source total state.counts }) stored)

unfoldable pub try_spend : BudgetLedger → Day → String → ℕ → Stored → Bool × Stored
unfolding load save
try_spend ledger day source n stored = elim (lookup source ledger.caps) [
  | none ↦ (false, stored)
  | some cap ↦ spend_within day cap source n (load day stored) stored
]

unfoldable pub status : BudgetLedger → Day → String → Stored → ℕ × ℕ
unfolding load
status ledger day source stored =
    (used_in source (load day stored), copied_or_zero (lookup source ledger.caps))

-- What a source answers: items, or the text of an error.
pub data Fetched (Item : Type 0) : Type 0 where
  items : List Item → Fetched Item
  error : String → Fetched Item

pub record PulseReport (Item : Type 0) : Type 0 where
  pub items : List Item
  pub requests_spent : List (String × ℕ)
  pub budget_exhausted : List String
  pub keyless : List String
  pub errors : List (String × String)

-- The sources that have a key, with their answers.
pub record CurrentEngine (Item : Type 0) : Type 0 where
  pub valyu : Option (String → Fetched Item)
  pub worldmonitor : Option (List (String × Fetched Item))
  pub dogfood : Option (Fetched Item)
  pub ledger : BudgetLedger
  pub topics : List String

-- The caps of `from_config`.
unfoldable pub from_config : ℕ → ℕ → ℕ → BudgetLedger
from_config valyu worldmonitor dogfood = record {
  caps = ("valyu", valyu) ∷ ("worldmonitor", min worldmonitor 50) ∷ ("dogfood", dogfood) ∷ [];
}

-- The report, and the file of the ledger.
abbrev pub Pulse : Type 0 → Type 0
Pulse Item = PulseReport Item × Stored

module _ {Item : Type 0} (day : Day) where
  abbrev pub collect : String → Fetched Item → PulseReport Item → PulseReport Item
  collect name (items xs) report = record report { items = report.items ++ xs }
  collect name (error e) report = record report { errors = report.errors ++ (name, e) ∷ [] }

  abbrev pub collect_all : List (String × Fetched Item) → PulseReport Item → PulseReport Item
  collect_all [] report = report
  collect_all ((name, res) ∷ rest) report = collect_all rest (collect name res report)

  abbrev pub spent_on : String → ℕ → PulseReport Item → PulseReport Item
  spent_on source n report = record report {
    requests_spent = report.requests_spent ++ (source, n) ∷ [];
  }

  abbrev pub exhausted : String → PulseReport Item → PulseReport Item
  exhausted source report = record report {
    budget_exhausted = report.budget_exhausted ++ source ∷ [];
  }

  -- Spends and fetches all, or notes that the budget is exhausted.
  abbrev pub metered :
      BudgetLedger → String → ℕ → List (String × Fetched Item) → Pulse Item → Bool × Pulse Item
  metered ledger source n fetched (report, stored) =
      let (granted, after) = try_spend ledger day source n stored in
      if granted
      then (true, (collect_all fetched (spent_on source n report), after))
      else (false, (exhausted source report, after))

  abbrev pub pulse_worldmonitor : CurrentEngine Item → Pulse Item → Pulse Item
  pulse_worldmonitor e (report, stored) = elim e.worldmonitor [
    | none ↦ (record report { keyless = report.keyless ++ "worldmonitor" ∷ [] }, stored)
    | some wm ↦ (metered e.ledger "worldmonitor" 3 wm (report, stored)).1
  ]

  -- One request for each topic, until the budget is exhausted.
  abbrev pub pulse_topics :
      BudgetLedger → (String → Fetched Item) → List String → Pulse Item → Pulse Item
  pulse_topics ledger valyu [] p = p
  pulse_topics ledger valyu (topic ∷ topics) p =
      let (granted, after) = metered ledger "valyu" 1 (("valyu", valyu topic) ∷ []) p in
      let rest = pulse_topics ledger valyu topics after in if granted then rest else after

  abbrev pub pulse_valyu : CurrentEngine Item → Pulse Item → Pulse Item
  pulse_valyu e (report, stored) = elim e.valyu [
    | none ↦ elim e.topics [
      | [] ↦ (report, stored)
      | _ ∷ _ ↦ (record report { keyless = report.keyless ++ "valyu" ∷ [] }, stored)
    ]
    | some valyu ↦ pulse_topics e.ledger valyu e.topics (report, stored)
  ]

  abbrev pub pulse_dogfood : CurrentEngine Item → Pulse Item → Pulse Item
  pulse_dogfood e p = elim e.dogfood [
    | none ↦ p
    | some df ↦ (metered e.ledger "dogfood" 2 (("dogfood", df) ∷ []) p).1
  ]

  abbrev pub empty_report : PulseReport Item
  empty_report = record {
    items = [];
    requests_spent = [];
    budget_exhausted = [];
    keyless = [];
    errors = [];
  }

  unfoldable pub pulse : CurrentEngine Item → Stored → Pulse Item
  unfolding try_spend
  pulse e stored = pulse_dogfood e (pulse_valyu e (pulse_worldmonitor e (empty_report, stored)))
