-- ===== src/Current/Civil.antt =====
-- crates/current/src/lib.rs: `utc_date_from_secs`, the civil date of a number of seconds since 1970.
use entheai.Base.{
  ℕ, zero, suc, ◌+◌, ◌-◌, ◌*◌, ◌/◌, ◌%◌, String, Bool, not, ◌&&◌, ◌||◌, ltb, leb, ◌==◌,
  if◌then◌else◌, length,
}
use entheai.Base.Decimal.{decimal, ◌+s+◌}
use entheai.Base.Text.{codes}

pub record Date : Type 0 where
  pub year : ℕ
  pub month : ℕ
  pub day : ℕ

abbrev pub year_of_era : ℕ → ℕ
year_of_era doe = (doe - doe / 1460 + doe / 36524 - doe / 146096) / 365

abbrev pub day_of_year : ℕ → ℕ
day_of_year doe = let yoe = year_of_era doe in doe - (365 * yoe + yoe / 4 - yoe / 100)

-- The month and the day of a year that begins with March.
abbrev pub date_in : ℕ → ℕ → Date
date_in y doy =
    let mp = (5 * doy + 2) / 153 in
    let m = if ltb mp 10 then mp + 3 else mp - 9 in
    record { year = if leb m 2 then y + 1 else y; month = m; day = doy - (153 * mp + 2) / 5 + 1 }

unfoldable pub civil_from_days : ℕ → Date
civil_from_days days =
    let z = days + 719468 in
    let doe = z % 146097 in date_in (year_of_era doe + z / 146097 * 400) (day_of_year doe)

-- `{y:04}-{m:02}-{d:02}`.
abbrev zeros : ℕ → String → String
zeros zero s = s
zeros (suc n) s = "0" +s+ zeros n s

abbrev padded : ℕ → ℕ → String
padded width n = zeros (width - length (codes (decimal n))) (decimal n)

unfoldable pub utc_date_from_secs : ℕ → String
unfolding civil_from_days decimal
utc_date_from_secs secs =
    let t = civil_from_days (secs / 86400) in
    padded 4 t.year +s+ "-" +s+ padded 2 t.month +s+ "-" +s+ padded 2 t.day

-- The calendar: the day after a date.
abbrev pub is_leap : ℕ → Bool
is_leap y = y % 4 == 0 && (not (y % 100 == 0) || y % 400 == 0)

abbrev pub days_in_month : ℕ → ℕ → ℕ
days_in_month y m =
    if m == 2
    then if is_leap y then 29 else 28
    else if m == 4 || (m == 6 || (m == 9 || m == 11))
    then 30
    else 31

abbrev pub next_date : Date → Date
next_date t =
    if ltb t.day (days_in_month t.year t.month)
    then record t { day = t.day + 1 }
    else if ltb t.month 12
    then record t { month = t.month + 1; day = 1 }
    else record { year = t.year + 1; month = 1; day = 1 }
