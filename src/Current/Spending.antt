-- ===== src/Current/Spending.antt =====
-- crates/current/src/lib.rs: on one day, with a file that can be written, no source is asked more often
-- than its cap.
use entheai.Base.{
  ℕ, ◌+◌, ◌%◌, ◌^◌, ◌≤◌, ◌<◌, ◌≡◌, refl, ap, subst, String, Bool, true, false, none, some, List, [],
  ◌∷◌, ◌++◌, ltb, if◌then◌else◌, arith, Bool-cases, Option-cases, inl, inr, string_eq, ◌=?◌,
}
use entheai.Base.Assoc.{lookup, insert, lookup-insert}
use entheai.Current.{
  BudgetLedger, LedgerState, Day, Stored, load, save, used_in, spend_within, try_spend, Pulse,
  PulseReport, Fetched, metered, pulse_topics, collect, collect_all, spent_on, items, error,
}

-- The requests of a report that were spent on a source.
abbrev pub spent : String → List (String × ℕ) → ℕ
spent source [] = 0
spent source ((s, n) ∷ rest) = (if s =? source then n else 0) + spent source rest

load-date : (day : Day) (stored : Stored) → (load day stored).date ≡ day.today
unfolding load
load-date day none = refl
load-date day (some state) = elim (Bool-cases (state.date =? day.today)) [
  | inl e ↦ ground (arith, e, string_eq.beq_iff state.date day.today)
  | inr e ↦ ground (arith, e)
]

-- The uses of today, with one of them set.
abbrev recount : LedgerState → String → ℕ → LedgerState
recount state source total = record state { counts = insert source total state.counts }

used_in-recount :
    (day : Day) (state : LedgerState) (source t : String) (total : ℕ)
    → state.date ≡ day.today
    → used_in t (load day (some (recount state source total)))
      ≡ (if source =? t then total else used_in t state)
unfolding load
used_in-recount day state source t total e =
    ground
      (arith, string_eq.beq_iff state.date day.today, e, lookup-insert source t total state.counts)

module _ (ledger : BudgetLedger) (day : Day) where
  abbrev pub used : String → Stored → ℕ
  used source stored = used_in source (load day stored)

  -- Every source with a cap is within it.
  abbrev pub IsWithin : Stored → Type 0
  IsWithin stored =
      (source : String) (cap : ℕ) → lookup source ledger.caps ≡ some cap → used source stored ≤ cap

  abbrev pub AreSmall : Type 0
  AreSmall = (source : String) (cap : ℕ) → lookup source ledger.caps ≡ some cap → cap + 3 < 2 ^ 32

  abbrev Spends : String → ℕ → Stored → Bool × Stored → Type 0
  Spends source n stored (granted, after) =
      IsWithin after
      × ((t : String)
          → used t after ≡ used t stored + (if granted then (if source =? t then n else 0) else 0))

  recount-Spends :
      (source : String) (n cap total : ℕ) (stored : Stored)
      → total ≡ used source stored + n
      → lookup source ledger.caps ≡ some cap
      → total ≤ cap
      → IsWithin stored
      → Spends source n stored (true, some (recount (load day stored) source total))
  recount-Spends source n cap total stored sum known le within =
      let now = λ (t : String).
        used_in-recount day (load day stored) source t total (load-date day stored) in
      (
        λ t c k. ground (arith, now t, within t c k, le, string_eq.beq_iff source t, k, known),
        λ t. ground (arith, now t, sum, string_eq.beq_iff source t),
      )

  spend_within-Spends :
      (source : String) (n cap : ℕ) (stored : Stored)
      → day.writable ≡ true
      → AreSmall
      → n ≤ 3
      → lookup source ledger.caps ≡ some cap
      → IsWithin stored
      → Spends source n stored (spend_within day cap source n (load day stored) stored)
  unfolding save
  spend_within-Spends source n cap stored w small le known within =
      let state = load day stored in
      let total = (used_in source state + n) % 2 ^ 32 in
      let plain : total ≡ used_in source state + n =
        omega (arith, le, small source cap known, within source cap known) in
      elim (Bool-cases (ltb cap total)) [
        | inl e ↦
            let same : (false, stored) ≡ spend_within day cap source n state stored =
              ground (arith, e) in
            subst (Spends source n stored) same (within, λ t. omega arith)
        | inr e ↦
            let same : (true, some (recount state source total))
                ≡ spend_within day cap source n state stored =
              ground (arith, e, w) in
            subst (Spends source n stored) same
              (recount-Spends source n cap total stored plain known (ground (arith, e)) within)
      ]

  try_spend-Spends :
      (source : String) (n : ℕ) (stored : Stored)
      → day.writable ≡ true
      → AreSmall
      → n ≤ 3
      → IsWithin stored
      → Spends source n stored (try_spend ledger day source n stored)
  unfolding try_spend
  try_spend-Spends source n stored w small le within =
      elim (Option-cases (lookup source ledger.caps)) [
        | inl e ↦
            let same : (false, stored) ≡ try_spend ledger day source n stored = ground (arith, e) in
            subst (Spends source n stored) same (within, λ t. omega arith)
        | inr (most, e) ↦
            let same : spend_within day most source n (load day stored) stored
                ≡ try_spend ledger day source n stored =
              ground (arith, e) in
            subst (Spends source n stored) same
              (spend_within-Spends source n most stored w small le e within)
      ]

pub spent-append :
    (t : String) (xs ys : List (String × ℕ)) → spent t (xs ++ ys) ≡ spent t xs + spent t ys
spent-append t [] ys = omega arith
spent-append t ((s, n) ∷ xs) ys = omega (arith, spent-append t xs ys)

module _ {Item : Type 0} (day : Day) where
  collect_all-requests_spent :
      (fetched : List (String × Fetched Item)) (report : PulseReport Item)
      → (collect_all day fetched report).requests_spent ≡ report.requests_spent
  collect_all-requests_spent [] report = refl
  collect_all-requests_spent ((name, items xs) ∷ rest) report =
      collect_all-requests_spent rest (collect day name (items xs) report)
  collect_all-requests_spent ((name, error e) ∷ rest) report =
      collect_all-requests_spent rest (collect day name (error e) report)

-- A part of a pulse keeps the sources within their caps, and what it reports as spent is what the
-- ledger counts.
module _ {Item : Type 0} (ledger : BudgetLedger) (day : Day) where
  abbrev pub Accounts : Pulse Item → Pulse Item → Type 0
  Accounts (report, stored) (report', stored') =
      IsWithin ledger day stored'
      × ((t : String)
          → used ledger day t stored' + spent t report.requests_spent
            ≡ used ledger day t stored + spent t report'.requests_spent)

  pub Accounts-trans : (p q r : Pulse Item) → Accounts p q → Accounts q r → Accounts p r
  Accounts-trans p q r (_, f) (within, g) = (within, λ t. omega (arith, f t, g t))

  pub metered-Accounts :
      (source : String) (n : ℕ) (fetched : List (String × Fetched Item)) (p : Pulse Item)
      → day.writable ≡ true
      → AreSmall ledger day
      → n ≤ 3
      → IsWithin ledger day p.1
      → Accounts p (metered day ledger source n fetched p).1
  metered-Accounts source n fetched (report, stored) w small le within =
      let (after, counted) = try_spend-Spends ledger day source n stored w small le within in
      elim (Bool-cases (try_spend ledger day source n stored).0) [
        | inl e ↦
            let same = collect_all-requests_spent day fetched (spent_on day source n report) in
            rw e (
              after,
              λ t. ground (
                arith,
                counted t,
                e,
                ap (λ (xs : List (String × ℕ)). spent t xs) same,
                spent-append t report.requests_spent ((source, n) ∷ []),
              ),
            )
        | inr e ↦ rw e (after, λ t. ground (arith, counted t, e))
      ]

  pub pulse_topics-Accounts :
      (valyu : String → Fetched Item) (topics : List String) (p : Pulse Item)
      → day.writable ≡ true
      → AreSmall ledger day
      → IsWithin ledger day p.1
      → Accounts p (pulse_topics day ledger valyu topics p)
  pulse_topics-Accounts valyu [] (report, stored) w small within = (within, λ t. refl)
  pulse_topics-Accounts valyu (topic ∷ topics) p w small within =
      let one = metered day ledger "valyu" 1 (("valyu", valyu topic) ∷ []) p in
      let first =
        metered-Accounts "valyu" 1 (("valyu", valyu topic) ∷ []) p w small (omega arith) within in
      elim (Bool-cases one.0) [
        | inl e ↦
            let rest = pulse_topics-Accounts valyu topics one.1 w small first.0 in
            rw e (Accounts-trans p one.1 (pulse_topics day ledger valyu topics one.1) first rest)
        | inr e ↦ rw e first
      ]
