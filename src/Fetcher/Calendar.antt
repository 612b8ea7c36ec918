-- ===== src/Fetcher/Calendar.antt =====
-- The dates and the month segment of internal/fetcher/fetcher.go, as Go's package time has them.
use bitblocker.Base.{
  ℕ, zero, suc, ◌+◌, ◌-◌, ◌/◌, ◌%◌, ◌^◌, Bool, not, ◌&&◌, ◌||◌, List, [], ◌∷◌, ◌++◌, ltb, ◌==◌,
  if◌then◌else◌,
}

-- A day of the calendar, in UTC.
pub record Date : Type 0 where
  pub year : ℕ
  pub month : ℕ
  pub day : ℕ

abbrev pub is_leap : ℕ → Bool
is_leap y = y % 4 == 0 && (not (y % 100 == 0) || y % 400 == 0)

abbrev pub days_in : ℕ → ℕ → ℕ
days_in y m =
    if m == 2
    then (if is_leap y then 29 else 28)
    else if m == 4 || m == 6 || m == 9 || m == 11
    then 30
    else 31

unfoldable pub day_before : Date → Date
day_before d =
    if ltb 1 d.day
    then record d { day = d.day - 1 }
    else if d.month == 1
    then record { year = d.year - 1; month = 12; day = 31 }
    else record d { month = d.month - 1; day = days_in d.year (d.month - 1) }

-- `AddDate(0, 0, -n)`.
unfoldable pub days_back : ℕ → Date → Date
unfolding day_before
days_back zero d = d
days_back (suc n) d = days_back n (day_before d)

-- A decimal of a fixed number of digits.
abbrev pub digits : ℕ → ℕ → List ℕ
digits zero n = []
digits (suc k) n = (48 + n / 10 ^ k % 10) ∷ digits k n

-- `Format("2006-01")`.
unfoldable pub format_month : Date → List ℕ
format_month d = digits 4 d.year ++ (45 ∷ digits 2 d.month)
