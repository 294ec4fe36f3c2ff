-- ===== src/Calendar/Days.antt =====
-- The day number of a date and the date of a day number are inverse.
use native.Mathlib.Decide.{dec_lt}
use native.Mathlib.Nat.{add-sub_cancel, add-sub_cancel_left}
use native.Mathlib.Numerals.{add-one}
use new_bnbhack.Common.{ℕ, zero, suc, ◌+◌, ◌-◌, ◌≤◌, ◌<◌, ◌≡◌, refl, List, [], ◌∷◌, arith}
use new_bnbhack.Calendar.{
  days_in_year, days_before_year, month_lengths, days_before_month, day_number, month_of, year_of,
  date_of,
}

days_in_year-ge : (y : ℕ) → 365 ≤ days_in_year y
unfolding days_in_year
days_in_year-ge y = ground arith

year_of_here :
    (fuel n rest : ℕ) → rest < days_in_year (1970 + n) → year_of (suc fuel) n rest ≡ (n, rest)
unfolding year_of
year_of_here fuel n rest h = ground arith

year_of_next :
    (fuel n rest : ℕ)
    → days_in_year (1970 + n) ≤ rest
    → year_of (suc fuel) n rest ≡ year_of fuel (n + 1) (rest - days_in_year (1970 + n))
unfolding year_of
year_of_next fuel n rest h = ground arith

days_before_year_next :
    (n : ℕ) → days_before_year (n + 1) ≡ days_before_year n + days_in_year (1970 + n)
unfolding days_before_year
days_before_year_next n = rw add-one

-- Every step keeps the day that is meant, and the rounds are enough: the search ends in its year.
year_of_lem :
    (fuel n rest : ℕ)
    → rest < fuel
    → (days_before_year (year_of fuel n rest).0 + (year_of fuel n rest).1
        ≡ days_before_year n + rest)
      × ((year_of fuel n rest).1 < days_in_year (1970 + (year_of fuel n rest).0))
year_of_lem zero n rest h = elim h [ ]
year_of_lem (suc fuel) n rest h = elim (dec_lt rest (days_in_year (1970 + n))) [
  | yes inside ↦ rw (year_of_here fuel n rest inside) (refl, inside)
  | no beyond ↦
      let long = days_in_year-ge (1970 + n) in
      let (same, inside) =
        year_of_lem fuel (n + 1) (rest - days_in_year (1970 + n)) (omega (arith, long)) in
      rw (year_of_next fuel n rest (omega arith))
        (omega (arith, same, days_before_year_next n), inside)
]

month_of_here :
    (rest l : ℕ) (lengths : List ℕ) → rest < l → month_of rest (l ∷ lengths) ≡ (0, rest + 1)
unfolding month_of
month_of_here rest l lengths h = ground arith

month_of_next :
    (rest l : ℕ) (lengths : List ℕ)
    → l ≤ rest
    → month_of rest (l ∷ lengths)
      ≡ (suc (month_of (rest - l) lengths).0, (month_of (rest - l) lengths).1)
unfolding month_of
month_of_next rest l lengths h = ground arith

days_before_month_next :
    (n l : ℕ) (lengths : List ℕ)
    → days_before_month (suc n) (l ∷ lengths) ≡ l + days_before_month n lengths
unfolding days_before_month
days_before_month_next n l lengths = refl

month_of_lem :
    (rest : ℕ) (lengths : List ℕ)
    → (1 ≤ (month_of rest lengths).1)
      × (days_before_month (month_of rest lengths).0 lengths + ((month_of rest lengths).1 - 1)
          ≡ rest)
month_of_lem rest [] = unfold month_of days_before_month in omega arith
month_of_lem rest (l ∷ lengths) = elim (dec_lt rest l) [
  | yes inside ↦ rw (month_of_here rest l lengths inside) (unfold days_before_month in omega arith)
  | no beyond ↦ rw (month_of_next rest l lengths (omega arith)) (
      omega (
        arith,
        month_of_lem (rest - l) lengths,
        days_before_month_next (month_of (rest - l) lengths).0 l lengths,
      ))
]

-- The day number of a day's date is that day: dates name days without loss.
pub day_number-date_of : (day : ℕ) → day_number (date_of day) ≡ day
unfolding day_number date_of
day_number-date_of day =
    let found = year_of (suc day) 0 day in
    let lengths = month_lengths (1970 + found.0) in
    let (same, _) = year_of_lem (suc day) 0 day (omega arith) in
    let (first, month) = month_of_lem found.1 lengths in
    let start : days_before_year 0 ≡ 0 = unfold days_before_year in refl in
    rw (add-sub_cancel_left 1970 found.0, add-sub_cancel (month_of found.1 lengths).0 1)
      (omega (arith, same, month, start))
