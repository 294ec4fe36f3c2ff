-- ===== src/Decide/Budgeting.antt =====
-- The first stages of `decideCycle`: DUE, GUARDIAN, WINDOW and BUDGET.
use new_bnbhack.Common.{
  ℕ, ◌+◌, ◌/◌, Bool, true, false, not, ◌&&◌, ltb, leb, ◌==◌, smaller, if◌then◌else◌, List, [], ◌∷◌,
  ◌++◌, Option, none, some, sector_target, limit_below_minimum, no_position, no_principal,
}
use new_bnbhack.Common.Int.{pos}
use new_bnbhack.Common.Text.{Text, codes}
use new_bnbhack.Amounts.{interest_units}
use new_bnbhack.Session.{is_regular, us_session, next_regular_open, search_days, open_settle_ms}
use new_bnbhack.Domain.{
  PlanMode, safe, yield, regular_session, anytime, PlanStatus, active, Target, ticker, sector, Plan,
  PlanWindow, below_min, daily_cap, guardian, skipped,
}
use new_bnbhack.Why.{
  WhyKey, Why, format_usd, skipped_below_min, skipped_daily_cap, skipped_guardian_hold,
}
use new_bnbhack.Platform.{Platform}
use new_bnbhack.Decide.Input.{
  CycleInput, Position, not_due, done, Flow, throws, answers, goes_on, ◌>>=◌, ◌>>◌, lift, answer_if,
  throw_if, units, decimal, market_closed_at,
}

abbrev pub why : WhyKey → List (Text × Text) → Why
why k ps = record { key = k; params = ps }

abbrev pub is_active : PlanStatus → Bool
is_active active = true
is_active _ = false

abbrev pub is_safe : PlanMode → Bool
is_safe safe = true
is_safe yield = false

abbrev pub is_regular_session : PlanWindow → Bool
is_regular_session regular_session = true
is_regular_session anytime = false

-- `Date.parse(t) > now` and `Date.parse(t) <= now`, where NaN compares as false
abbrev pub later_than : Option ℕ → ℕ → Bool
later_than none now = false
later_than (some t) now = ltb now t

abbrev pub at_or_before : Option ℕ → ℕ → Bool
at_or_before none now = false
at_or_before (some t) now = leb t now

abbrev pub target_ticker : Plan → Target → Flow Text
target_ticker plan (ticker t) = goes_on t
target_ticker plan (sector s) = throws (sector_target plan.id)

module _ {F : Type 0} (p : Platform F) where
  -- whether an expiry is set and not in the future
  abbrev pub is_expired : Option Text → ℕ → Bool
  is_expired none now = false
  is_expired (some t) now = not (later_than (p.date_parse t) now)

  -- DUE: the plan's ticker, if its cycle is due
  unfoldable pub due_stage : CycleInput → Flow Text
  due_stage input = do
    answer_if (not (is_active input.plan.status)) not_due
    answer_if (is_expired input.plan.expires_at input.now) not_due
    answer_if (not (at_or_before (p.date_parse input.plan.next_due_at) input.now)) not_due
    target_ticker input.plan input.plan.target

-- GUARDIAN
unfoldable pub guardian_stage : Option Text → Flow (Unit {0})
guardian_stage none = goes_on tt
guardian_stage (some rule) =
    answers
      (done (skipped guardian (some rule)) (why skipped_guardian_hold ((codes "rule", rule) ∷ [])))

-- two minutes after the next regular open
unfoldable pub settled_open : ℕ → Flow ℕ
settled_open now = do
  open_ ← lift (next_regular_open now search_days)
  goes_on (open_ + open_settle_ms)

-- `return marketClosed(nextRegularOpen(now) + OPEN_SETTLE_MS, detail)` under a test
unfoldable pub wait_for_open_if : Bool → ℕ → Option Text → Flow (Unit {0})
unfolding settled_open
wait_for_open_if true now detail = do at ← settled_open now; answers (market_closed_at at detail)
wait_for_open_if false now detail = goes_on tt

-- WINDOW: whether the regular session runs
unfoldable pub window_stage : CycleInput → Flow Bool
window_stage input = do
  let regular = is_regular (us_session input.now)
  wait_for_open_if (is_regular_session input.plan.window && not regular) input.now none
  goes_on regular

-- the `daily_cap` skip, which names the daily limit
unfoldable pub daily_cap_stop {ℓ} : {A : Type ℓ} → CycleInput → Option Text → Flow A
daily_cap_stop input detail = do
  daily_limit ← units input.daily_limit_usd
  answers (
      done (skipped daily_cap detail)
        (why skipped_daily_cap ((codes "daily", format_usd (pos daily_limit)) ∷ [])))

unfoldable pub daily_cap_if : Bool → CycleInput → Option Text → Flow (Unit {0})
unfolding daily_cap_stop
daily_cap_if true input detail = daily_cap_stop input detail
daily_cap_if false input detail = goes_on tt

pub record Budget : Type 0 where
  pub min_buy : ℕ
  pub per_buy_limit : ℕ
  pub max_per_buy : ℕ
  pub interest_in_position : ℕ
  pub harvested_unspent : ℕ
  pub budget : ℕ
  pub planned_spend : ℕ

-- the interest in the position and what was redeemed but not spent
unfoldable pub interest_of : Plan → PlanMode → Option Position → Flow (ℕ × ℕ)
interest_of plan safe position = goes_on (0, 0)
interest_of plan yield none = throws (no_position plan.id)
interest_of plan yield (some position) = do
  principal ← units plan.principal_usd
  throw_if (principal == 0) (no_principal plan.id)
  underlying ← units position.underlying_usd
  harvested ← units position.harvested_unspent_usd
  goes_on (interest_units underlying principal 0, harvested)

-- `perBuyLimit`, with the check against the minimum buy
unfoldable pub limit_stage : CycleInput → Flow (ℕ × ℕ)
limit_stage input = do
  min_buy ← units input.caps.min_buy_usd
  own_limit ← units input.plan.limits.max_per_buy_usd
  cap ← units input.caps.max_per_tx_usd
  let per_buy_limit = smaller own_limit cap
  throw_if (ltb per_buy_limit min_buy)
      (limit_below_minimum input.plan.id (decimal per_buy_limit) (decimal min_buy))
  goes_on (min_buy, per_buy_limit)

-- what is available, and the planned spend
unfoldable pub spend_stage : CycleInput → ℕ → ℕ → ℕ → Flow Budget
unfolding interest_of
spend_stage input min_buy per_buy_limit max_per_buy = do
  interest ← interest_of input.plan input.plan.mode input.position
  contribution ← units input.plan.contribution_usd
  let budget = interest.0 + interest.1 + contribution
  answer_if (ltb budget min_buy) (
      done (skipped below_min (some (codes "budget " ++ decimal budget))) (
        why skipped_below_min
          ((codes "acc", format_usd (pos budget)) ∷ (codes "min", format_usd (pos min_buy)) ∷ [])))
  daily_remaining ← units input.daily_remaining_usd
  daily_cap_if (ltb daily_remaining min_buy) input none
  goes_on (record {
    min_buy = min_buy;
    per_buy_limit = per_buy_limit;
    max_per_buy = max_per_buy;
    interest_in_position = interest.0;
    harvested_unspent = interest.1;
    budget = budget;
    planned_spend = smaller (smaller budget max_per_buy) daily_remaining;
  })

-- BUDGET: off hours an `anytime` plan buys at half its limit
unfoldable pub budget_stage : CycleInput → Bool → Flow Budget
budget_stage input regular = do
  limits ← limit_stage input
  let max_per_buy = if regular then limits.1 else limits.1 / 2
  wait_for_open_if (ltb max_per_buy limits.0) input.now (some (codes "half_limit_below_min"))
  spend_stage input limits.0 limits.1 max_per_buy
