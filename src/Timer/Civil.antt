-- ===== src/Timer/Civil.antt =====
-- cpu/timer.c: `days_from_civil` against a calendar that goes from day to day.
use project_lariat.Prelude.{
  Bool, ap, ap₂, arith, if-both, if◌then◌else◌, leb, ltb, not, refl, subst, suc, sym, zero, ℕ,
  ℕ_discrete, ◌%◌, ◌&&◌, ◌*◌, ◌+◌, ◌-◌, ◌/◌, ◌<◌, ◌==◌, ◌||◌, ◌∙◌, ◌≡◌, ◌≢◌, ◌≤◌,
}
use project_lariat.Timer.{days_from_civil, from_march}

pub record Date : Type 0 where
  pub year : ℕ
  pub month : ℕ
  pub day : ℕ

abbrev pub is_leap : ℕ → Bool
is_leap y = y % 4 == 0 && (not (y % 100 == 0) || y % 400 == 0)

-- The number of days of a month.
abbrev pub month_days : ℕ → ℕ → ℕ
month_days y m =
    if m == 2
    then (if is_leap y then 29 else 28)
    else if m == 4 || (m == 6 || (m == 9 || m == 11))
    then 30
    else 31

abbrev pub next_day : Date → Date
next_day t =
    if ltb t.day (month_days t.year t.month)
    then record t { day = t.day + 1 }
    else if ltb t.month 12
    then record t { month = t.month + 1; day = 1 }
    else record { year = t.year + 1; month = 1; day = 1 }

pub record IsDate (t : Date) : Type 0 where
  pub year_late : 1970 ≤ t.year
  pub month_low : 1 ≤ t.month
  pub month_high : t.month ≤ 12
  pub day_low : 1 ≤ t.day
  pub day_high : t.day ≤ month_days t.year t.month

abbrev pub day_number : Date → ℕ
day_number t = days_from_civil t.year t.month t.day

-- The days before a year that begins in March.
years : ℕ → ℕ
years y =
    y / 400 * 146097
    + ((y - y / 400 * 400) * 365 + (y - y / 400 * 400) / 4 - (y - y / 400 * 400) / 100)

years_suc : (y : ℕ) → years (y + 1) ≡ years y + 365 + (if is_leap (y + 1) then 1 else 0)
unfolding years
years_suc y = ground arith

-- The days before a month of a year that begins in March.
months : ℕ → ℕ
months m = (153 * from_march m + 2) / 5

abbrev march_year : ℕ → ℕ → ℕ
march_year y m = if leb m 2 then y - 1 else y

years_late : (y : ℕ) → 1969 ≤ y → 719162 ≤ years y
unfolding years
years_late y h = omega arith

years_later : (y : ℕ) → 1970 ≤ y → 719527 ≤ years y
unfolding years
years_later y h = omega arith

-- No date lies before the first day.
begun : (y m : ℕ) → 1970 ≤ y → 1 ≤ m → 719468 ≤ years (march_year y m) + months m
unfolding months from_march
begun y m late low = ground (arith, years_late (y - 1), years_later y)

days_lem :
    (y m d : ℕ) → days_from_civil y m d ≡ years (march_year y m) + (months m + d - 1) - 719468
unfolding days_from_civil years months
days_lem y m d = omega arith

-- Within a month.
day_suc :
    (y m d : ℕ) → 1970 ≤ y → 1 ≤ m → 1 ≤ d → days_from_civil y m (d + 1) ≡ days_from_civil y m d + 1
day_suc y m d late first low =
    omega (arith, days_lem y m d, days_lem y m (d + 1), begun y m late first)

-- The lengths of the months, by the day of the year on which they begin.
months_suc :
    (y m : ℕ)
    → 1 ≤ m
    → m < 12
    → m ≢ 2
    → (months (m + 1) ≡ months m + month_days y m) × (march_year y (m + 1) ≡ march_year y m)
unfolding months from_march
months_suc y m low high other = (ground arith, ground arith)

-- The 1st of March follows the last day of February.
february : (y : ℕ) → 1970 ≤ y → days_from_civil y 3 1 ≡ days_from_civil y 2 (month_days y 2) + 1
unfolding months from_march
february y late =
    let at : y - 1 + 1 ≡ y = omega arith in
    let longer : years y ≡ years (y - 1) + 365 + (if is_leap y then 1 else 0) =
      subst (λ z. years z ≡ years (y - 1) + 365 + (if is_leap z then 1 else 0)) at
        (years_suc (y - 1)) in
    ground (arith, days_lem y 3 1, days_lem y 2 28, days_lem y 2 29, begun y 2 late, longer)

-- From the last day of a month to the first of the next.
month_suc :
    (y m : ℕ)
    → 1970 ≤ y
    → 1 ≤ m
    → m < 12
    → days_from_civil y (m + 1) 1 ≡ days_from_civil y m (month_days y m) + 1
month_suc y m late low high = elim (ℕ_discrete m 2) [
  | yes e ↦
      subst (λ k. days_from_civil y (k + 1) 1 ≡ days_from_civil y k (month_days y k) + 1) (sym e)
        (february y late)
  | no ne ↦
      let (length_of, same) = months_suc y m low high ne in
      let positive : 1 ≤ month_days y m = ground arith in
      omega (
        arith,
        days_lem y (m + 1) 1,
        days_lem y m (month_days y m),
        begun y m late low,
        length_of,
        ap years same,
      )
]

year_suc : (y : ℕ) → 1970 ≤ y → days_from_civil (y + 1) 1 1 ≡ days_from_civil y 12 31 + 1
unfolding months from_march
year_suc y late =
    let same : march_year (y + 1) 1 ≡ y = ground arith in
    omega (arith, days_lem (y + 1) 1 1, days_lem y 12 31, begun y 12 late, ap years same)

day_number-next_day : (t : Date) → IsDate t → day_number (next_day t) ≡ day_number t + 1
day_number-next_day t h =
    let P : Date → Type 0 = λ n. day_number n ≡ day_number t + 1 in
    if-both P (ltb t.day (month_days t.year t.month))
      (λ e. day_suc t.year t.month t.day h.year_late h.month_low h.day_low)
      (λ e.
        let last : t.day ≡ month_days t.year t.month = ground (arith, e, h.day_high) in
        if-both P (ltb t.month 12)
          (λ m.
            month_suc t.year t.month h.year_late h.month_low (ground (arith, m))
            ∙ ap (λ d. days_from_civil t.year t.month d + 1) (sym last))
          (λ m.
            let twelve : t.month ≡ 12 = ground (arith, m, h.month_high) in
            let end : t.day ≡ 31 = last ∙ ap (month_days t.year) twelve in
            year_suc t.year h.year_late
            ∙ ap₂ (λ m d. days_from_civil t.year m d + 1) (sym twelve) (sym end)))

month_days_low : (y m : ℕ) → 28 ≤ month_days y m
month_days_low y m = ground arith

next_day-IsDate : (t : Date) → IsDate t → IsDate (next_day t)
next_day-IsDate t h =
    if-both IsDate (ltb t.day (month_days t.year t.month))
      (λ e. record {
        year_late = h.year_late;
        month_low = h.month_low;
        month_high = h.month_high;
        day_low = omega arith;
        day_high = ground (arith, e);
      })
      (λ e.
        if-both IsDate (ltb t.month 12)
          (λ m. record {
            year_late = h.year_late;
            month_low = omega arith;
            month_high = ground (arith, m);
            day_low = omega arith;
            day_high = omega (arith, month_days_low t.year (t.month + 1));
          })
          (λ m. record {
            year_late = omega (arith, h.year_late);
            month_low = omega arith;
            month_high = omega arith;
            day_low = omega arith;
            day_high = omega arith;
          }))

-- The date so many days after the 1st of January 1970.
abbrev pub calendar : ℕ → Date
calendar zero = record { year = 1970; month = 1; day = 1 }
calendar (suc n) = next_day (calendar n)

calendar-IsDate : (n : ℕ) → IsDate (calendar n)
calendar-IsDate zero = record {
  year_late = omega arith;
  month_low = omega arith;
  month_high = omega arith;
  day_low = omega arith;
  day_high = omega arith;
}
calendar-IsDate (suc n) = next_day-IsDate (calendar n) (calendar-IsDate n)

-- The number that `days_from_civil` gives for a date of the Gregorian calendar is that of the days
-- since the 1st of January 1970, counted one by one.
pub days_from_civil-calendar :
    (n : ℕ) → let t = calendar n in days_from_civil t.year t.month t.day ≡ n
unfolding days_from_civil from_march
days_from_civil-calendar zero = refl
days_from_civil-calendar (suc n) =
    omega (arith, day_number-next_day (calendar n) (calendar-IsDate n), days_from_civil-calendar n)
