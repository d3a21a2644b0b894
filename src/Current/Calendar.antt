-- ===== src/Current/Calendar.antt =====
-- crates/current/src/lib.rs: `utc_date_from_secs` counts the days of the calendar.
use entheai.Base.{
  ℕ, ◌+◌, ◌*◌, ◌/◌, ◌%◌, ◌≤◌, ◌<◌, ltb→lt, ◌≡◌, refl, sym, ap, ◌∙◌, ltb, arith, Bool-cases, inl,
  inr,
}
use entheai.Current.Civil.{Date, year_of_era, day_of_year, date_in, civil_from_days, next_date}
use entheai.Current.Years.{
  year_length, year_start, within_year, year_start-length, ≤-eq, <-le, year_of_era-lt, days_into,
  days_into-lt, same_year, new_year, left_over, left_none, before, at_end,
}
use entheai.Current.Months.{next-last, next-inside}

abbrev of_era : ℕ → ℕ → Date
of_era doe era = date_in (year_of_era doe + era * 400) (day_of_year doe)

-- How long the year of a day is, and how far the day is from its end.
year_left :
    (doe era : ℕ)
    → doe < 146097
    → (doe + 1 < year_start (year_of_era doe + 1)
        → day_of_year doe + 1 < year_length (year_of_era doe + era * 400))
      × (doe + 1 ≡ year_start (year_of_era doe + 1)
          → day_of_year doe + 1 ≡ year_length (year_of_era doe + era * 400))
year_left doe era d =
    let yoe = year_of_era doe in
    let small = year_of_era-lt doe d in
    let (low, high) = within_year doe d in
    let len = year_length (yoe + era * 400) in
    let end = year_start-length era yoe small in
    let (short, sum) = days_into-lt yoe doe len small low (<-le high (≤-eq end)) in
    (
      λ h. left_over (year_start yoe) (days_into yoe doe) doe len sum (<-le h (≤-eq end)),
      λ h. left_none (year_start yoe) (days_into yoe doe) doe len sum (h ∙ end),
    )

later : (yoe era : ℕ) → yoe + 1 + era * 400 ≡ yoe + era * 400 + 1
later yoe era = omega arith

of_era-suc : (doe era : ℕ) → doe + 1 < 146097 → of_era (doe + 1) era ≡ next_date (of_era doe era)
of_era-suc doe era h =
    let d = before doe h in
    let yoe = year_of_era doe in
    let y = yoe + era * 400 in
    let (inside, last) = year_left doe era d in
    elim (at_end doe (year_start (yoe + 1)) (within_year doe d).1) [
      | inl k ↦
          let (year, days) = same_year doe k d in
          ap (λ (a : ℕ). date_in (a + era * 400) (day_of_year (doe + 1))) year
          ∙ ap (λ (a : ℕ). date_in y a) days
          ∙ next-inside y (day_of_year doe) (inside k)
      | inr k ↦
          let (year, days) = new_year doe k h in
          ap (λ (a : ℕ). date_in (a + era * 400) (day_of_year (doe + 1))) year
          ∙ ap (λ (a : ℕ). date_in (yoe + 1 + era * 400) a) days
          ∙ ap (λ (a : ℕ). date_in a 0) (later yoe era)
          ∙ next-last y (day_of_year doe) (last k)
    ]

era-suc : (era : ℕ) → of_era 0 (era + 1) ≡ next_date (of_era 146096 era)
era-suc era = ground arith

same_era :
    (days : ℕ)
    → (days + 719468) % 146097 + 1 < 146097
    → ((days + 1 + 719468) % 146097 ≡ (days + 719468) % 146097 + 1)
      × ((days + 1 + 719468) / 146097 ≡ (days + 719468) / 146097)
same_era days h = (omega (arith, h), omega (arith, h))

new_era :
    (days : ℕ)
    → 146097 ≤ (days + 719468) % 146097 + 1
    → ((days + 1 + 719468) % 146097 ≡ 0)
      × (((days + 1 + 719468) / 146097 ≡ (days + 719468) / 146097 + 1)
          × ((days + 719468) % 146097 ≡ 146096))
new_era days h = (omega (arith, h), (omega (arith, h), omega (arith, h)))

-- The first day of 1970 is the day 0, and each day is followed by the next one of the calendar.
pub civil_from_days-next :
    (civil_from_days 0 ≡ record { year = 1970; month = 1; day = 1 })
    × ((days : ℕ) → civil_from_days (days + 1) ≡ next_date (civil_from_days days))
unfolding civil_from_days
civil_from_days-next = (
  refl,
  λ days.
      let z = days + 719468 in
      elim (Bool-cases (ltb (z % 146097 + 1) 146097)) [
        | inl h ↦
            let (day, era) = same_era days (ltb→lt (z % 146097 + 1) 146097 h) in
            ap (λ (x : ℕ). of_era x ((days + 1 + 719468) / 146097)) day
            ∙ ap (λ (x : ℕ). of_era (z % 146097 + 1) x) era
            ∙ of_era-suc (z % 146097) (z / 146097) (ltb→lt (z % 146097 + 1) 146097 h)
        | inr h ↦
            let (day, (era, last)) = new_era days (ground (arith, h)) in
            ap (λ (x : ℕ). of_era x ((days + 1 + 719468) / 146097)) day
            ∙ ap (λ (x : ℕ). of_era 0 x) era
            ∙ era-suc (z / 146097)
            ∙ ap (λ (x : ℕ). next_date (of_era x (z / 146097))) (sym last)
      ],
)
