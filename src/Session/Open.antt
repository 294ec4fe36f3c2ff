-- ===== src/Session/Open.antt =====
-- What `nextRegularOpen` and its clock conversions return.
use new_bnbhack.Common.{
  ℕ, zero, suc, ◌+◌, ◌*◌, ◌≤◌, ◌<◌, ◌≡◌, sym, ◌∙◌, ap, true, false, List, [], ◌∷◌, arith, ok,
  >>=-eq-ok,
}
use new_bnbhack.Calendar.{day_ms, minute_ms, Ymd, same_date, day_number, weekday_of}
use new_bnbhack.Calendar.Days.{day_number-date_of}
use new_bnbhack.Session.{
  regular, Parts, new_york_parts, is_weekend, closed_date, close_minutes, session_of, us_session,
  regular_open_minutes, new_york_candidate, new_york_time_on, next_open_from, next_regular_open,
}

same_date-eq : (a b : Ymd) → same_date a b ≡ true → a ≡ b
same_date-eq a b h = ground arith

new_york_candidate-parts :
    (date : Ymd) (minutes at : ℕ) (offsets : List ℕ)
    → new_york_candidate date minutes offsets ≡ ok at
    → ((new_york_parts at).date ≡ date) × ((new_york_parts at).minutes ≡ minutes)
unfolding new_york_candidate
new_york_candidate-parts date minutes at [] h = cc
new_york_candidate-parts date minutes at (offset ∷ offsets) h =
    let candidate = day_number date * day_ms + (minutes + offset) * minute_ms in
    ground (
      arith,
      same_date-eq (new_york_parts candidate).date date,
      new_york_candidate-parts date minutes at offsets,
    )

-- An instant that is returned shows the wall time asked for: the date and the minute.
pub new_york_time_on-parts :
    (date : Ymd) (minutes at : ℕ)
    → new_york_time_on date minutes ≡ ok at
    → ((new_york_parts at).date ≡ date) × ((new_york_parts at).minutes ≡ minutes)
unfolding new_york_time_on
new_york_time_on-parts date minutes at h =
    new_york_candidate-parts date minutes at (4 * 60 ∷ 5 * 60 ∷ []) h

-- The weekday follows from the date.
weekday_of_date :
    (a b : ℕ)
    → (new_york_parts a).date ≡ (new_york_parts b).date
    → (new_york_parts a).weekday ≡ (new_york_parts b).weekday
unfolding new_york_parts
weekday_of_date a b h =
    ap weekday_of (sym (day_number-date_of _) ∙ ap day_number h ∙ day_number-date_of _)

close_minutes_bounds : (date : Ymd) → (780 ≤ close_minutes date) × (close_minutes date ≤ 960)
unfolding close_minutes
close_minutes_bounds date = ground arith

-- On a day that is neither a weekend nor closed, 9:30 is in the regular session.
session_of_open :
    (p : Parts)
    → is_weekend p.weekday ≡ false
    → closed_date p.date ≡ false
    → p.minutes ≡ regular_open_minutes
    → session_of p ≡ regular
unfolding session_of
session_of_open p w c m = ground (arith, close_minutes_bounds p.date)

-- an open that the search accepts: later than `now`, at 9:30 of the regular session
abbrev pub IsOpenAfter : ℕ → ℕ → Type 0
IsOpenAfter now at =
    (now < at) × (us_session at ≡ regular) × ((new_york_parts at).minutes ≡ regular_open_minutes)

-- The open on the date of an instant that stands on a session day is in the regular session.
us_session_of_open :
    (noon at : ℕ)
    → is_weekend (new_york_parts noon).weekday ≡ false
    → closed_date (new_york_parts noon).date ≡ false
    → new_york_time_on (new_york_parts noon).date regular_open_minutes ≡ ok at
    → (us_session at ≡ regular) × ((new_york_parts at).minutes ≡ regular_open_minutes)
unfolding us_session
us_session_of_open noon at w c h =
    let (date, minutes) =
      new_york_time_on-parts (new_york_parts noon).date regular_open_minutes at h in
    (
      session_of_open (new_york_parts at) (rw (weekday_of_date at noon date) w) (rw date c) minutes,
      minutes,
    )

next_open_from-IsOpenAfter :
    (left noon now days at : ℕ) → next_open_from left noon now days ≡ ok at → IsOpenAfter now at
unfolding next_open_from
next_open_from-IsOpenAfter zero noon now days at h = cc
next_open_from-IsOpenAfter (suc left) noon now days at h =
    ground (
      arith,
      us_session_of_open noon at,
      next_open_from-IsOpenAfter left (noon + day_ms) now days at,
    )

-- What `nextRegularOpen` returns lies strictly after `now`, and is 9:30 New York time of a day on
-- which the regular session runs: its session is the regular one.
pub next_regular_open-IsOpenAfter :
    (now days at : ℕ) → next_regular_open now days ≡ ok at → IsOpenAfter now at
unfolding next_regular_open
next_regular_open-IsOpenAfter now days at h =
    let (noon, _, found) = >>=-eq-ok (new_york_time_on (new_york_parts now).date (12 * 60)) _ h in
    next_open_from-IsOpenAfter days noon now days at found
