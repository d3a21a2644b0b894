-- ===== src/Oracle/Reply.antt =====
-- crates/orchestrator/src/oracle.rs: `parse_verdict`, on the bytes of the reply. The parser of JSON is a
-- parameter; a panic is the outer `none`.
use entheai.Base.{
  ℕ, suc, ◌-◌, ◌<◌, ◌≡◌, ◌↔◌, String, Option, none, some, List, take, drop, ltb, if◌then◌else◌,
  string_eq, ◌=?◌, arith, Option-cases, Bool-cases, inl, inr, ltb→lt,
}
use entheai.Base.Text.{find, rfind}
use entheai.Oracle.{Verdict, approve, rework, reject}

-- What `serde_json` reads of an object: `confidence` as a number, `reason` and `verdict` as texts.
pub record Reply (Num : Type 0) : Type 0 where
  pub confidence : Option Num
  pub reason : Option String
  pub verdict : Option String

module _ {Num : Type 0} (zero : Num) (from_str : List ℕ → Option (Reply Num)) where
  abbrev unwrap_or : {A : Type 0} → A → Option A → A
  unwrap_or a none = a
  unwrap_or a (some b) = b

  abbrev verdict_of : String → String → Num → Option (Verdict × Num)
  verdict_of verdict reason confidence =
      if verdict =? "approve"
      then some (approve, confidence)
      else if verdict =? "rework"
      then some (rework reason none, confidence)
      else if verdict =? "reject"
      then some (reject reason, confidence)
      else none

  abbrev ruling : Option (Reply Num) → Option (Verdict × Num)
  ruling none = none
  ruling (some v) = elim v.verdict [
    | none ↦ none
    | some verdict ↦ verdict_of verdict (unwrap_or "" v.reason) (unwrap_or zero v.confidence)
  ]

  -- `&reply[start..=end]`, which panics where the end is more than one before the start.
  abbrev inclusive : List ℕ → ℕ → ℕ → Option (List ℕ)
  inclusive reply start last =
      if ltb (suc last) start then none else some (take (suc last - start) (drop start reply))

  abbrev judged : List ℕ → ℕ → ℕ → Option (Option (Verdict × Num))
  judged reply start last = elim (inclusive reply start last) [
    | none ↦ none
    | some slice ↦ some (ruling (from_str slice))
  ]

  unfoldable pub parse_verdict : List ℕ → Option (Option (Verdict × Num))
  parse_verdict reply = elim (find b'{' reply) [
    | none ↦ some none
    | some start ↦ elim (rfind b'}' reply) [
      | none ↦ some none
      | some last ↦ judged reply start last
    ]
  ]

  -- Reading a reply panics exactly when it has braces and the last closing one stands more than one
  -- place before the first opening one, whatever the parser of JSON.
  pub parse_verdict-panics :
      (reply : List ℕ)
      → (parse_verdict reply ≡ none) ↔ (
          (start : ℕ) × ((last : ℕ) × ((find b'{' reply ≡ some start)
              × ((rfind b'}' reply ≡ some last) × (suc last < start)))))
  unfolding parse_verdict
  parse_verdict-panics reply = elim (Option-cases (find b'{' reply)) [
    | inl e ↦ ground (arith, e)
    | inr (start, e) ↦ elim (Option-cases (rfind b'}' reply)) [
      | inl k ↦ ground (arith, e, k)
      | inr (last, k) ↦ elim (Bool-cases (ltb (suc last) start)) [
        | inl h ↦ (
          λ _. (start, (last, (e, (k, ltb→lt (suc last) start h)))),
          λ _. ground (arith, e, k, h),
        )
        | inr h ↦ (
          λ p. absurd (ground (arith, e, k, h, p)),
          λ (s, (l, (e', (k', lt)))). ground (arith, e, k, h, e', k', lt),
        )
      ]
    ]
  ]
