-- ===== src/Current/Months.antt =====
-- crates/current/src/lib.rs: the months of a year that begins with March.
use entheai.Base.{
  ℕ, ◌+◌, ◌-◌, ◌*◌, ◌/◌, ◌≤◌, ◌<◌, ltb→lt, ◌≡◌, ap, ◌∙◌, ltb, leb, if◌then◌else◌, arith, Bool-cases,
  inl, inr,
}
use entheai.Current.Civil.{Date, date_in, next_date}
use entheai.Current.Years.{year_length}

-- The same, the month being known.
abbrev pub date_at : ℕ → ℕ → ℕ → Date
date_at mp y doy =
    let m = if ltb mp 10 then mp + 3 else mp - 9 in
    record { year = if leb m 2 then y + 1 else y; month = m; day = doy - (153 * mp + 2) / 5 + 1 }

pub same_month :
    (mp y doy : ℕ)
    → doy + 1 < year_length y
    → 153 * mp ≤ 5 * doy + 2
    → 5 * (doy + 1) + 2 < 153 * (mp + 1)
    → date_at mp y (doy + 1) ≡ next_date (date_at mp y doy)
same_month mp y doy h low high = ground (arith, h, low, high)

pub next_month :
    (mp y doy : ℕ)
    → doy + 1 < year_length y
    → 5 * doy + 2 < 153 * (mp + 1)
    → 153 * (mp + 1) ≤ 5 * (doy + 1) + 2
    → date_at (mp + 1) y (doy + 1) ≡ next_date (date_at mp y doy)
next_month mp y doy h low high = ground (arith, h, low, high)

pub next-last :
    (y doy : ℕ) → doy + 1 ≡ year_length y → date_in (y + 1) 0 ≡ next_date (date_in y doy)
next-last y doy h = ground (arith, h)

pub next-inside :
    (y doy : ℕ) → doy + 1 < year_length y → date_in y (doy + 1) ≡ next_date (date_in y doy)
next-inside y doy h =
    let mp = (5 * doy + 2) / 153 in
    elim (Bool-cases (ltb (5 * (doy + 1) + 2) (153 * (mp + 1)))) [
      | inl e ↦
          let below = ltb→lt (5 * (doy + 1) + 2) (153 * (mp + 1)) e in
          let same : (5 * (doy + 1) + 2) / 153 ≡ mp = omega (arith, below) in
          ap (λ (m : ℕ). date_at m y (doy + 1)) same ∙ same_month mp y doy h (omega arith) below
      | inr e ↦
          let above : 153 * (mp + 1) ≤ 5 * (doy + 1) + 2 = ground (arith, e) in
          let same : (5 * (doy + 1) + 2) / 153 ≡ mp + 1 = omega (arith, above) in
          ap (λ (m : ℕ). date_at m y (doy + 1)) same ∙ next_month mp y doy h (omega arith) above
    ]
