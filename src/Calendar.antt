-- ===== src/Calendar.antt =====
-- Dates and clocks as the language's library gives them to packages/core/src/session.ts: `Date.UTC`,
-- the calendar fields of an instant, and the wall clock of America/New_York.
-- An instant is its number of milliseconds since 1970-01-01T00:00Z, and a calendar date text
-- `YYYY-MM-DD` is its three numbers. The New York rule is that of the time-zone data since 2007;
-- instants stand at least five hours behind the epoch, so no local time is negative.
pub mod Days
use new_bnbhack.Common.{
  ℕ, zero, suc, ◌+◌, ◌-◌, ◌*◌, ◌/◌, ◌%◌, ◌≡◌, refl, Bool, true, false, ◌&&◌, ◌||◌, not, ltb, leb,
  ◌==◌, if◌then◌else◌, List, [], ◌∷◌, ◌++◌,
}
use new_bnbhack.Common.Text.{Text, pad_start, to_string}

abbrev pub day_ms : ℕ
day_ms = 86_400_000

abbrev pub minute_ms : ℕ
minute_ms = 60_000

pub record Ymd : Type 0 where
  pub year : ℕ
  pub month : ℕ
  pub day : ℕ

abbrev pub ymd : ℕ → ℕ → ℕ → Ymd
ymd y m d = record { year = y; month = m; day = d }

-- `a === b` on date texts
abbrev pub same_date : Ymd → Ymd → Bool
same_date a b = (a.year == b.year) && (a.month == b.month) && (a.day == b.day)

abbrev pub is_leap : ℕ → Bool
is_leap y = (y % 4 == 0) && (not (y % 100 == 0) || (y % 400 == 0))

unfoldable pub days_in_year : ℕ → ℕ
days_in_year y = if is_leap y then 366 else 365

-- the days from the epoch to the first of January of `1970 + n`
unfoldable pub days_before_year : ℕ → ℕ
days_before_year zero = 0
days_before_year (suc n) = days_before_year n + days_in_year (1970 + n)

unfoldable pub month_lengths : ℕ → List ℕ
month_lengths y =
    31 ∷ (if is_leap y then 29 else 28) ∷ 31 ∷ 30 ∷ 31 ∷ 30 ∷ 31 ∷ 31 ∷ 30 ∷ 31 ∷ 30 ∷ 31 ∷ []

-- the days of the months before the `n`th month of the list
unfoldable pub days_before_month : ℕ → List ℕ → ℕ
days_before_month zero lengths = 0
days_before_month (suc n) [] = 0
days_before_month (suc n) (l ∷ lengths) = l + days_before_month n lengths

-- The day number of `Date.UTC(year, month - 1, day)`; a day past the month's end runs on.
unfoldable pub day_number : Ymd → ℕ
day_number d =
    days_before_year (d.year - 1970)
    + days_before_month (d.month - 1) (month_lengths d.year)
    + (d.day - 1)

-- how many whole months of the list fit into `rest` days, and the day of the month after them
unfoldable pub month_of : ℕ → List ℕ → ℕ × ℕ
month_of rest [] = (0, rest + 1)
month_of rest (l ∷ lengths) = elim (ltb rest l) [
  | true ↦ (0, rest + 1)
  | false ↦ let (m, d) = month_of (rest - l) lengths in (suc m, d)
]

-- The year that lies `rest` days from the first of January of `1970 + n`, and the days into it.
unfoldable pub year_of : ℕ → ℕ → ℕ → ℕ × ℕ
year_of zero n rest = (n, rest)
year_of (suc fuel) n rest = elim (ltb rest (days_in_year (1970 + n))) [
  | true ↦ (n, rest)
  | false ↦ year_of fuel (n + 1) (rest - days_in_year (1970 + n))
]

-- The calendar date of a day number. More rounds than days are always enough.
unfoldable pub date_of : ℕ → Ymd
date_of day =
    let (n, rest) = year_of (suc day) 0 day in
    let (m, d) = month_of rest (month_lengths (1970 + n)) in ymd (1970 + n) (m + 1) d

-- 0 is Sunday; the epoch was a Thursday
abbrev pub weekday_of : ℕ → ℕ
weekday_of day = (day + 4) % 7

-- the first Sunday on or after a day
abbrev pub sunday_from : ℕ → ℕ
sunday_from day = day + (7 - weekday_of day) % 7

-- Daylight saving time runs from 2:00 EST on the second Sunday of March to 2:00 EDT on the first
-- Sunday of November: New York is then four hours behind UTC, else five. In minutes.
unfoldable pub new_york_offset : ℕ → ℕ
new_york_offset at =
    let y = (date_of (at / day_ms)).year in
    let start = (sunday_from (day_number (ymd y 3 1)) + 7) * day_ms + 7 * 60 * minute_ms in
    let end_ = sunday_from (day_number (ymd y 11 1)) * day_ms + 6 * 60 * minute_ms in
    if leb start at && ltb at end_ then 240 else 300

pad2 : ℕ → Text
pad2 n = pad_start (to_string n) 2 b'0'

-- `toISOString`, for years of four digits
unfoldable pub iso : ℕ → Text
unfolding pad2 pad_start to_string
iso at =
    let d = date_of (at / day_ms) in
    let t = at % day_ms in
    to_string d.year
    ++ b'-'
      ∷ (pad2 d.month
          ++ b'-'
            ∷ (pad2 d.day
                ++ b'T'
                  ∷ (pad2 (t / 3_600_000)
                      ++ b':'
                        ∷ (pad2 (t / 60_000 % 60)
                            ++ b':'
                              ∷ (pad2 (t / 1000 % 60)
                                  ++ b'.'
                                    ∷ (pad_start (to_string (t % 1000)) 3 b'0' ++ b'Z' ∷ []))))))
