-- ===== src/Session/Tests.antt =====
-- Runs of the session calendar around Thanksgiving 2026, and the theorems there.
use new_bnbhack.Common.{ℕ, ◌-◌, ◌≡◌, ◌≢◌, refl, none, some, ok}
use new_bnbhack.Calendar.{
  date_of, day_number, days_before_year, days_before_month, month_lengths, month_of, year_of,
  days_in_year, new_york_offset, iso,
}
use new_bnbhack.Common.Text.{Text, codes}
use new_bnbhack.Session.{
  regular, pre, weekend, holiday, closed_date, close_minutes, new_york_local, new_york_parts,
  session_of, us_session, new_york_time_on, regular_close, next_regular_open, add_new_york_days,
  first_open_on_or_after, weekly, once, due, next_due,
}
use new_bnbhack.Session.Open.{IsOpenAfter, next_regular_open-IsOpenAfter}
use new_bnbhack.Session.Due.{IsSlot, next_due-IsSlot}

-- 2026-11-26T15:00Z, Thanksgiving
abbrev thanksgiving : ℕ
thanksgiving = 1_795_705_200_000

-- 2026-11-27T14:30Z, 9:30 in New York
abbrev friday_open : ℕ
friday_open = 1_795_789_800_000

clock_runs :
    (us_session thanksgiving ≡ holiday)
    × (us_session friday_open ≡ regular)
    × (us_session (friday_open - 1) ≡ pre)
    × (us_session 1_795_892_400_000 ≡ weekend)
unfolding us_session session_of new_york_parts new_york_local new_york_offset date_of year_of
    month_of day_number days_before_year days_before_month days_in_year month_lengths closed_date
    close_minutes
clock_runs = (refl, refl, refl, refl)

-- the search skips the holiday
next_open : next_regular_open thanksgiving 14 ≡ ok friday_open
unfolding next_regular_open new_york_time_on new_york_parts new_york_local new_york_offset date_of
    year_of month_of day_number days_before_year days_before_month days_in_year month_lengths
    closed_date
next_open = refl

-- the session after Thanksgiving closes at 13:00
early_close : regular_close friday_open ≡ ok (some 1_795_802_400_000)
unfolding regular_close us_session session_of new_york_time_on new_york_parts new_york_local
    new_york_offset date_of year_of month_of day_number days_before_year days_before_month
    days_in_year month_lengths closed_date close_minutes
early_close = refl

abbrev friday_slot : Text
friday_slot = codes "2026-12-04T14:32:00.000Z"

-- a weekly plan run at Friday's open is due at the next Friday's, two minutes in
weekly_slot : next_due weekly friday_open none ≡ ok (due friday_slot)
unfolding next_due first_open_on_or_after add_new_york_days next_regular_open new_york_time_on
    new_york_parts new_york_local new_york_offset date_of year_of month_of day_number
    days_before_year days_before_month days_in_year month_lengths closed_date iso
weekly_slot = refl

next_regular_open-IsOpenAfter_example : IsOpenAfter thanksgiving friday_open
next_regular_open-IsOpenAfter_example =
    next_regular_open-IsOpenAfter thanksgiving 14 friday_open next_open

next_due-IsSlot_example : (weekly ≢ once) × IsSlot friday_open 7 friday_slot
next_due-IsSlot_example = next_due-IsSlot weekly friday_open friday_slot weekly_slot
