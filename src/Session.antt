-- ===== src/Session.antt =====
-- The NYSE session calendar of packages/core/src/session.ts and the next due time of
-- packages/core/src/schedule.ts. A `Date` is its milliseconds; a date text is its three numbers.
pub mod Open
pub mod Due
pub mod Tests
use new_bnbhack.Common.{
  ℕ, zero, suc, ◌+◌, ◌-◌, ◌*◌, ◌/◌, ◌%◌, ◌≡◌, refl, Bool, true, false, ◌&&◌, ◌||◌, not, ltb, leb,
  ◌==◌, if◌then◌else◌, List, [], ◌∷◌, Option, none, some, any, Result, ok, err, ◌>>=◌, no_wall_time,
  no_session,
}
use new_bnbhack.Calendar.{
  day_ms, minute_ms, Ymd, ymd, same_date, day_number, date_of, weekday_of, new_york_offset, iso,
}
use new_bnbhack.Common.Text.{Text}
pub use new_bnbhack.Domain.{Cadence, weekly, daily, once}

pub data UsSession : Type 0 where
  regular pre post overnight weekend holiday : UsSession

-- `NYSE_HOLIDAYS`
unfoldable pub nyse_holidays : List Ymd
nyse_holidays =
    ymd 2026 1 1
    ∷ ymd 2026 1 19
    ∷ ymd 2026 2 16
    ∷ ymd 2026 4 3
    ∷ ymd 2026 5 25
    ∷ ymd 2026 6 19
    ∷ ymd 2026 7 3
    ∷ ymd 2026 9 7
    ∷ ymd 2026 11 26
    ∷ ymd 2026 12 25
    ∷ ymd 2027 1 1
    ∷ ymd 2027 1 18
    ∷ ymd 2027 2 15
    ∷ ymd 2027 3 26
    ∷ ymd 2027 5 31
    ∷ ymd 2027 6 18
    ∷ ymd 2027 7 5
    ∷ ymd 2027 9 6
    ∷ ymd 2027 11 25
    ∷ ymd 2027 12 24
    ∷ []

-- `NYSE_EARLY_CLOSE`
unfoldable pub nyse_early_close : List Ymd
nyse_early_close = ymd 2026 11 27 ∷ ymd 2026 12 24 ∷ ymd 2027 11 26 ∷ []

-- `KNOWN_YEARS`
unfoldable pub known_years : List ℕ
known_years = 2026 ∷ 2027 ∷ []

-- `closedDate`
unfoldable pub closed_date : Ymd → Bool
unfolding nyse_holidays known_years
closed_date date = any (same_date date) nyse_holidays || not (any (λ y. date.year == y) known_years)

-- `REGULAR_OPEN_MINUTES`
abbrev pub regular_open_minutes : ℕ
regular_open_minutes = 9 * 60 + 30

pub record Parts : Type 0 where
  pub date : Ymd
  -- 0 is Sunday and 6 is Saturday
  pub weekday : ℕ
  pub minutes : ℕ

-- the instant's wall clock in New York, as if it were UTC
unfoldable pub new_york_local : ℕ → ℕ
new_york_local at = at - new_york_offset at * minute_ms

-- `newYorkParts`
unfoldable pub new_york_parts : ℕ → Parts
new_york_parts at =
    let day = new_york_local at / day_ms in
    record {
      date = date_of day;
      weekday = weekday_of day;
      minutes = new_york_local at % day_ms / minute_ms;
    }

abbrev pub is_weekend : ℕ → Bool
is_weekend weekday = (weekday == 6) || (weekday == 0)

unfoldable pub close_minutes : Ymd → ℕ
unfolding nyse_early_close
close_minutes date = if any (same_date date) nyse_early_close then 13 * 60 else 16 * 60

-- the session by the parts of the instant
unfoldable pub session_of : Parts → UsSession
session_of p =
    let close = close_minutes p.date in
    let m = p.minutes in
    if is_weekend p.weekday
    then weekend
    else if closed_date p.date
    then holiday
    else if leb (4 * 60) m && ltb m regular_open_minutes
    then pre
    else if leb regular_open_minutes m && ltb m close
    then regular
    else if leb close m && ltb m (20 * 60)
    then post
    else overnight

-- `usSession`
unfoldable pub us_session : ℕ → UsSession
us_session at = session_of (new_york_parts at)

abbrev pub is_regular : UsSession → Bool
is_regular regular = true
is_regular _ = false

-- the first of the candidates that shows the wanted wall time
new_york_candidate : Ymd → ℕ → List ℕ → Result ℕ
new_york_candidate date minutes [] = err (no_wall_time minutes)
new_york_candidate date minutes (offset ∷ offsets) =
    let candidate = day_number date * day_ms + (minutes + offset) * minute_ms in
    let parts = new_york_parts candidate in
    if same_date parts.date date && (parts.minutes == minutes)
    then ok candidate
    else new_york_candidate date minutes offsets

-- `newYorkTimeOn`
unfoldable pub new_york_time_on : Ymd → ℕ → Result ℕ
unfolding new_york_candidate
new_york_time_on date minutes = new_york_candidate date minutes (4 * 60 ∷ 5 * 60 ∷ [])

-- `regularClose`; `null` is `none`
unfoldable pub regular_close : ℕ → Result (Option ℕ)
regular_close at =
    let date = (new_york_parts at).date in
    if is_regular (us_session at)
    then (do close ← new_york_time_on date (close_minutes date); ok (some close))
    else ok none

-- The loop of `nextRegularOpen`, with the days left to search, the noon it stands at and, for the
-- error, the days searched.
next_open_from : ℕ → ℕ → ℕ → ℕ → Result ℕ
next_open_from zero noon now days = err (no_session days)
next_open_from (suc left) noon now days =
    let p = new_york_parts noon in
    let rest = next_open_from left (noon + day_ms) now days in
    if not (is_weekend p.weekday) && not (closed_date p.date)
    then (do
      open_ ← new_york_time_on p.date regular_open_minutes
      if ltb now open_ then ok open_ else rest)
    else rest

-- `nextRegularOpen`
unfoldable pub next_regular_open : ℕ → ℕ → Result ℕ
unfolding next_open_from
next_regular_open now search_days = do
  noon ← new_york_time_on (new_york_parts now).date (12 * 60)
  next_open_from search_days noon now search_days

abbrev pub search_days : ℕ
search_days = 14

-- `addNewYorkDays`
unfoldable pub add_new_york_days : Ymd → ℕ → Ymd
add_new_york_days date days = date_of (day_number date + days)

-- `firstOpenOnOrAfter`
unfoldable pub first_open_on_or_after : Ymd → Result ℕ
first_open_on_or_after date = do
  midnight ← new_york_time_on date 0
  next_regular_open (midnight - 1) search_days

pub data NextDue : Type 0 where
  due : Text → NextDue
  stop : NextDue

-- `OPEN_SETTLE_MS`
abbrev pub open_settle_ms : ℕ
open_settle_ms = 2 * 60_000

next_slot : ℕ → ℕ → Result NextDue
next_slot now days = do
  open_ ← first_open_on_or_after (add_new_york_days (new_york_parts now).date days)
  ok (due (iso (open_ + open_settle_ms)))

-- `nextDue`; `retryAt` is the DEFERRED outcome's retry time
unfoldable pub next_due : Cadence → ℕ → Option Text → Result NextDue
unfolding next_slot
next_due cadence now (some retry_at) = ok (due retry_at)
next_due once now none = ok stop
next_due weekly now none = next_slot now 7
next_due daily now none = next_slot now 1
