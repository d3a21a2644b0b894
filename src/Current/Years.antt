-- ===== src/Current/Years.antt =====
-- crates/current/src/lib.rs: the years of an era of 400, as `utc_date_from_secs` finds them.
use entheai.Base.{
  ℕ, zero, suc, ◌+◌, ◌-◌, ◌*◌, ◌/◌, ◌≤◌, ◌<◌, ◌≡◌, sym, ap, subst, ◌∙◌, if◌then◌else◌, arith, inl,
  inr, ◌⊎◌,
}
use entheai.Current.Civil.{year_of_era, day_of_year, is_leap}

-- The days of a year that begins with March.
abbrev pub year_length : ℕ → ℕ
year_length y = if is_leap (y + 1) then 366 else 365

-- The days of an era before one of its years.
abbrev pub year_start : ℕ → ℕ
year_start yoe = 365 * yoe + yoe / 4 - yoe / 100 + yoe / 400

pub within_year :
    (doe : ℕ)
    → doe < 146097
    → (year_start (year_of_era doe) ≤ doe) × (doe < year_start (year_of_era doe + 1))
within_year doe h = (omega (arith, h), omega (arith, h))

pub year_start-length :
    (era yoe : ℕ)
    → yoe < 400
    → year_start (yoe + 1) ≡ year_start yoe + year_length (yoe + era * 400)
year_start-length era yoe h = ground (arith, h)

pub three : (a b : ℕ) → (a + 1 ≤ b) ⊎ ((a ≡ b) ⊎ (b + 1 ≤ a))
three a b = ground arith

pub ≤-eq : {m n : ℕ} → m ≡ n → m ≤ n
≤-eq {m} {n} e = omega (arith, e)

pub ≤-trans : {m n k : ℕ} → m ≤ n → n ≤ k → m ≤ k
≤-trans {m} {n} {k} h l = omega (arith, h, l)

pub ≤-lt-absurd : {s t x : ℕ} → s ≤ t → x < s → t ≤ x → ⊥
≤-lt-absurd {s} {t} {x} h l k = omega (arith, h, l, k)

pub <-le : {m n k : ℕ} → m < n → n ≤ k → m < k
<-le {m} {n} {k} h l = omega (arith, h, l)

pub ≤-lt-lt : {m n k : ℕ} → m ≤ n → n < k → m < k
≤-lt-lt {m} {n} {k} h l = omega (arith, h, l)

pub ≤-suc : {m n : ℕ} → m ≤ n → m ≤ n + 1
≤-suc {m} {n} h = omega (arith, h)

pub year_start-suc : (n : ℕ) → year_start n ≤ year_start (n + 1)
year_start-suc n = omega arith

pub year_start-lt : (n : ℕ) → year_start n < year_start (n + 1)
year_start-lt n = omega arith

pub year_start-add : (a k : ℕ) → year_start a ≤ year_start (a + k)
year_start-add a zero = ≤-eq (ap year_start (omega arith))
year_start-add a (suc k) =
    ≤-trans (year_start-add a k)
      (≤-trans (year_start-suc (a + k)) (≤-eq (ap year_start (omega arith))))

pub year_start_mono : (a b : ℕ) → a ≤ b → year_start a ≤ year_start b
year_start_mono a b h = ≤-trans (year_start-add a (b - a)) (≤-eq (ap year_start (omega (arith, h))))

pub year_unique :
    (a b x : ℕ)
    → year_start a ≤ x
    → x < year_start (a + 1)
    → year_start b ≤ x
    → x < year_start (b + 1)
    → a ≡ b
year_unique a b x h k l m = elim (three a b) [
  | inl lt ↦ absurd (≤-lt-absurd (year_start_mono (a + 1) b lt) k l)
  | inr (inl e) ↦ e
  | inr (inr gt) ↦ absurd (≤-lt-absurd (year_start_mono (b + 1) a gt) m h)
]

pub year_of_era-lt : (doe : ℕ) → doe < 146097 → year_of_era doe < 400
year_of_era-lt doe h = omega (arith, h)

abbrev pub days_into : ℕ → ℕ → ℕ
days_into yoe doe = doe - (365 * yoe + yoe / 4 - yoe / 100)

pub days_into-suc :
    (yoe doe : ℕ)
    → yoe < 400
    → year_start yoe ≤ doe
    → days_into yoe (doe + 1) ≡ days_into yoe doe + 1
days_into-suc yoe doe h k = omega (arith, h, k)

pub days_into-start : (yoe doe : ℕ) → yoe < 400 → doe ≡ year_start yoe → days_into yoe doe ≡ 0
days_into-start yoe doe h k = omega (arith, h, k)

pub days_into-lt :
    (yoe doe len : ℕ)
    → yoe < 400
    → year_start yoe ≤ doe
    → doe < year_start yoe + len
    → (days_into yoe doe < len) × (year_start yoe + days_into yoe doe ≡ doe)
days_into-lt yoe doe len h k l = (omega (arith, h, k, l), omega (arith, h, k))

pub below_era : (yoe doe : ℕ) → yoe < 400 → doe < year_start (yoe + 1) → doe < 146097
below_era yoe doe h k = <-le k (year_start_mono (yoe + 1) 400 (omega (arith, h)))

-- The year and the day in it, for the day after one of an era.
pub same_year :
    (doe : ℕ)
    → doe + 1 < year_start (year_of_era doe + 1)
    → doe < 146097
    → (year_of_era (doe + 1) ≡ year_of_era doe) × (day_of_year (doe + 1) ≡ day_of_year doe + 1)
same_year doe h d =
    let small = year_of_era-lt doe d in
    let (low, high) = within_year (doe + 1) (below_era (year_of_era doe) (doe + 1) small h) in
    let (low', high') = within_year doe d in
    let same : year_of_era (doe + 1) ≡ year_of_era doe =
      year_unique (year_of_era (doe + 1)) (year_of_era doe) (doe + 1) low high (≤-suc low') h in
    (
      same,
      ap (λ (yoe : ℕ). days_into yoe (doe + 1)) same
          ∙ days_into-suc (year_of_era doe) doe small low',
    )

pub new_year :
    (doe : ℕ)
    → doe + 1 ≡ year_start (year_of_era doe + 1)
    → doe + 1 < 146097
    → (year_of_era (doe + 1) ≡ year_of_era doe + 1) × (day_of_year (doe + 1) ≡ 0)
new_year doe h d =
    let (low, high) = within_year (doe + 1) d in
    let next = year_of_era doe + 1 in
    let same : year_of_era (doe + 1) ≡ next =
      year_unique (year_of_era (doe + 1)) next (doe + 1) low high (≤-eq (sym h))
        (≤-lt-lt (≤-eq h) (year_start-lt next)) in
    let small : next < 400 = subst (λ (y : ℕ). y < 400) same (year_of_era-lt (doe + 1) d) in
    (same, ap (λ (yoe : ℕ). days_into yoe (doe + 1)) same ∙ days_into-start next (doe + 1) small h)

pub left_over :
    (start into doe len : ℕ) → start + into ≡ doe → doe + 1 < start + len → into + 1 < len
left_over start into doe len h k = omega (arith, h, k)

pub left_none :
    (start into doe len : ℕ) → start + into ≡ doe → doe + 1 ≡ start + len → into + 1 ≡ len
left_none start into doe len h k = omega (arith, h, k)

pub before : (doe : ℕ) → doe + 1 < 146097 → doe < 146097
before doe h = omega (arith, h)

pub at_end : (x s : ℕ) → x < s → (x + 1 < s) ⊎ (x + 1 ≡ s)
at_end x s h = ground (arith, h)
