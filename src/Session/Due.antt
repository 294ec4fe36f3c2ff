-- ===== src/Session/Due.antt =====
-- When a plan is due next: the slot that `nextDue` picks.
use new_bnbhack.Common.{ℕ, ◌+◌, ◌-◌, ◌≤◌, ◌≡◌, ◌≢◌, none, arith, ok, >>=-eq-ok}
use new_bnbhack.Calendar.{Ymd, day_number, date_of, iso}
use new_bnbhack.Common.Text.{Text}
use new_bnbhack.Session.{
  regular, new_york_parts, us_session, regular_open_minutes, new_york_time_on, add_new_york_days,
  first_open_on_or_after, Cadence, weekly, daily, once, due, open_settle_ms, next_slot, next_due,
  search_days,
}
use new_bnbhack.Session.Open.{new_york_time_on-parts, next_regular_open-IsOpenAfter}

-- the New York days that a cadence moves on
abbrev pub step_days : Cadence → ℕ
step_days weekly = 7
step_days daily = 1
step_days once = 0

-- `open` is a regular open, not before the midnight that begins `date` in New York.
abbrev pub IsOpenFrom : Ymd → ℕ → Type 0
IsOpenFrom date at =
    (midnight : ℕ) × ((new_york_parts midnight).date ≡ date)
    × ((new_york_parts midnight).minutes ≡ 0)
    × (midnight ≤ at)
    × (us_session at ≡ regular)
    × ((new_york_parts at).minutes ≡ regular_open_minutes)

pub first_open_on_or_after-IsOpenFrom :
    (date : Ymd) (at : ℕ) → first_open_on_or_after date ≡ ok at → IsOpenFrom date at
unfolding first_open_on_or_after
first_open_on_or_after-IsOpenFrom date at h =
    let (midnight, shown, found) = >>=-eq-ok (new_york_time_on date 0) _ h in
    let (same, zero_minutes) = new_york_time_on-parts date 0 midnight shown in
    let (later, open_session, open_time) =
      next_regular_open-IsOpenAfter (midnight - 1) search_days at found in
    (midnight, same, zero_minutes, omega arith, open_session, open_time)

-- the slot that lies `days` New York days on
abbrev pub IsSlot : ℕ → ℕ → Text → Type 0
IsSlot now days at =
    (open_ : ℕ) × (at ≡ iso (open_ + open_settle_ms))
    × IsOpenFrom (date_of (day_number (new_york_parts now).date + days)) open_

next_slot-IsSlot :
    (now days : ℕ) (at : Text) → next_slot now days ≡ ok (due at) → IsSlot now days at
unfolding next_slot add_new_york_days
next_slot-IsSlot now days at h =
    let date = date_of (day_number (new_york_parts now).date + days) in
    let (open_, found, made) = >>=-eq-ok (first_open_on_or_after date) _ h in
    (open_, ground arith, first_open_on_or_after-IsOpenFrom date open_ found)

-- When the run gives no retry time, nextDue makes a plan due again two minutes after a regular
-- open, at the earliest on the New York date one day (daily) or seven days (weekly) after the
-- date of the run, and does so for no plan that runs once.
pub next_due-IsSlot :
    (cadence : Cadence) (now : ℕ) (at : Text)
    → next_due cadence now none ≡ ok (due at)
    → (cadence ≢ once) × IsSlot now (step_days cadence) at
unfolding next_due
next_due-IsSlot weekly now at h = (cc, next_slot-IsSlot now 7 at h)
next_due-IsSlot daily now at h = (cc, next_slot-IsSlot now 1 at h)
next_due-IsSlot once now at h = cc
