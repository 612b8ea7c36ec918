-- ===== src/Fetcher/Dates.antt =====
-- internal/fetcher/fetcher.go: the month before a date, and how a month is spelled in a request.
use bitblocker.Base.{
  ℕ, zero, suc, ◌+◌, ◌-◌, ◌*◌, ◌/◌, ◌%◌, ◌≤◌, ◌≡◌, refl, sym, ap, subst, ◌∙◌, true, List, [], ◌∷◌,
  arith, ltb,
}
use bitblocker.Fetcher.Calendar.{Date, days_in, day_before, days_back, format_month}

pub record IsDate (d : Date) : Type 0 where
  pub year_from : 1 ≤ d.year
  pub month_from : 1 ≤ d.month
  pub month_to : d.month ≤ 12
  pub day_from : 1 ≤ d.day
  pub day_to : d.day ≤ days_in d.year d.month

abbrev pub month_number : Date → ℕ
month_number d = 12 * d.year + d.month

-- From the n-th of a month, n days back lies the last day before the month.
days_back-first :
    (n : ℕ) (d : Date) → d.day ≡ suc n → days_back (suc n) d ≡ day_before (record d { day = 1 })
unfolding days_back day_before
days_back-first zero d h = rw h refl
days_back-first (suc n) d h =
    let later : ltb 1 d.day ≡ true = ground arith in
    rw later (days_back-first n (record d { day = d.day - 1 }) (omega arith))

-- The day before the first of a month lies in the month before.
before_first :
    (d : Date)
    → IsDate d
    → let p = day_before (record d { day = 1 }) in
      (suc (month_number p) ≡ month_number d) × (1 ≤ p.month) × (p.month ≤ 12)
unfolding day_before
before_first d h = ground (arith, h.year_from, h.month_from, h.month_to)

-- From any day, the day number back lies in the month before, whose number runs from 1 to 12 again.
pub prior_month :
    (d : Date)
    → IsDate d
    → let p = days_back d.day d in
      (suc (month_number p) ≡ month_number d) × (1 ≤ p.month) × (p.month ≤ 12)
prior_month d h =
    let day : d.day ≡ suc (d.day - 1) = omega (arith, h.day_from) in
    let back : days_back d.day d ≡ day_before (record d { day = 1 }) =
      ap (λ n. days_back n d) day ∙ days_back-first (d.day - 1) d day in
    subst (λ (p : Date). (suc (month_number p) ≡ month_number d) × (1 ≤ p.month) × (p.month ≤ 12))
      (sym back) (before_first d h)

-- A text as `2026-01`.
pub record Spells (year month : ℕ) (text : List ℕ) : Type 0 where
  pub thousands : ℕ
  pub hundreds : ℕ
  pub tens : ℕ
  pub units : ℕ
  pub month_tens : ℕ
  pub month_units : ℕ
  pub are_digits :
      (thousands ≤ 9)
      × (hundreds ≤ 9)
      × (tens ≤ 9)
      × (units ≤ 9)
      × (month_tens ≤ 9)
      × (month_units ≤ 9)
  pub year_read : year ≡ 1000 * thousands + 100 * hundreds + 10 * tens + units
  pub month_read : month ≡ 10 * month_tens + month_units
  pub spelled :
      text
      ≡ (48 + thousands)
        ∷ (48 + hundreds)
        ∷ (48 + tens)
        ∷ (48 + units)
        ∷ 45
        ∷ (48 + month_tens)
        ∷ (48 + month_units)
        ∷ []

pub format_month-Spells :
    (d : Date) → d.year ≤ 9999 → d.month ≤ 12 → Spells d.year d.month (format_month d)
unfolding format_month
format_month-Spells d y m = record {
  thousands = d.year / 1000 % 10;
  hundreds = d.year / 100 % 10;
  tens = d.year / 10 % 10;
  units = d.year % 10;
  month_tens = d.month / 10 % 10;
  month_units = d.month % 10;
  are_digits = (omega arith, omega arith, omega arith, omega arith, omega arith, omega arith);
  year_read = omega arith;
  month_read = omega arith;
  spelled = ground arith;
}
