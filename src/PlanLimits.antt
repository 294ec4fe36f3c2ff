-- ===== src/PlanLimits.antt =====
-- `changePlanSettings` of packages/core/src/limits.ts, which moves a plan's own limits inside
-- the caps, and the minimum orders of packages/core/src/venues.ts.
pub mod Dollars
pub mod Runnable
pub mod Tests
use new_bnbhack.Common.{
  ℕ, Bool, true, false, leb, ltb, if◌then◌else◌, length, List, [], ◌∷◌, ◌++◌, Option, none, some,
  Result, ok, err, ◌>>=◌,
}
use new_bnbhack.Common.Text.{Text, codes, eq_text}
use new_bnbhack.Amounts.{to_units, match_decimal}
use new_bnbhack.Domain.{
  Issuer, bstocks, ondo, xstocks, PlanMode, safe, yield, PlanWindow, regular_session, anytime,
  Cadence, weekly, daily, once, Plan,
}

-- `VENUE_MIN_USD`
abbrev pub venue_min_usd : Issuer → Option Text
venue_min_usd bstocks = none
venue_min_usd ondo = some (codes "5.01")
venue_min_usd xstocks = none

pub record PlanSettings : Type 0 where
  pub contribution_usd : Text
  pub max_per_buy_usd : Text
  pub max_daily_usd : Text
  pub cadence : Cadence
  pub window : PlanWindow

-- what an operator typed: any subset
pub record PlanSettingsChange : Type 0 where
  pub contribution_usd : Option Text
  pub max_per_buy_usd : Option Text
  pub max_daily_usd : Option Text
  pub cadence : Option Text
  pub window : Option Text

pub record PlanLimitCaps : Type 0 where
  pub min_buy_usd : Text
  pub max_per_tx_usd : Text
  pub daily_cap_usd : Text

-- `planSettings`
abbrev pub plan_settings : Plan → PlanSettings
plan_settings plan = record {
  contribution_usd = plan.contribution_usd;
  max_per_buy_usd = plan.limits.max_per_buy_usd;
  max_daily_usd = plan.limits.max_daily_usd;
  cadence = plan.cadence;
  window = plan.window;
}

-- `/^\d+(\.\d{1,2})?$/`: digits, and one or two more behind a point
two_places : Option (Text × Text) → Bool
two_places none = false
two_places (some parts) = leb (length parts.1) 2

unfoldable pub is_usd_amount : Text → Bool
unfolding two_places
is_usd_amount text = two_places (match_decimal text)

-- one amount of the change: the setting, and what is wrong with it
unfoldable pub amount_setting : Text → Option Text → Text → Text × List Text
amount_setting name none current = (current, [])
amount_setting name (some value) current = if is_usd_amount value then (value, []) else (
  current,
  (name ++ (codes " must be dollars like 1 or 2.50, not \"" ++ (value ++ codes "\""))) ∷ [],
)

-- `CADENCES.find((c) => c === text)` and `WINDOWS.find(...)`
abbrev pub cadence_of : Text → Option Cadence
cadence_of text =
    if eq_text text (codes "daily")
    then some daily
    else if eq_text text (codes "weekly")
    then some weekly
    else if eq_text text (codes "once")
    then some once
    else none

abbrev pub window_of : Text → Option PlanWindow
window_of text =
    if eq_text text (codes "regular_session")
    then some regular_session
    else if eq_text text (codes "anytime")
    then some anytime
    else none

abbrev pub found_or {ℓ} : {A : Type ℓ} → Option A → A → Text → A × List Text
found_or (some a) current problem = (a, [])
found_or none current problem = (current, problem ∷ [])

unfoldable pub cadence_setting : Option Text → Cadence → Cadence × List Text
cadence_setting none current = (current, [])
cadence_setting (some text) current =
    found_or (cadence_of text) current (codes "cadence must be one of daily, weekly, once")

unfoldable pub window_setting : Option Text → PlanWindow → PlanWindow × List Text
window_setting none current = (current, [])
window_setting (some text) current =
    found_or (window_of text) current (codes "window must be one of regular_session, anytime")

-- the settings after the change, and what could not be read
unfoldable pub read_change : PlanSettings → PlanSettingsChange → PlanSettings × List Text
read_change old change =
    let (contribution, p1) =
      amount_setting (codes "contribution") change.contribution_usd old.contribution_usd in
    let (per_buy, p2) =
      amount_setting (codes "per buy") change.max_per_buy_usd old.max_per_buy_usd in
    let (per_day, p3) = amount_setting (codes "per day") change.max_daily_usd old.max_daily_usd in
    let (cadence, p4) = cadence_setting change.cadence old.cadence in
    let (window, p5) = window_setting change.window old.window in
    (
      record {
        contribution_usd = contribution;
        max_per_buy_usd = per_buy;
        max_daily_usd = per_day;
        cadence = cadence;
        window = window;
      },
      p1 ++ (p2 ++ (p3 ++ (p4 ++ p5))),
    )

-- `if (test) problems.push(problem)`
abbrev pub problem_if : Bool → Text → List Text
problem_if true problem = problem ∷ []
problem_if false problem = []

-- a safe plan's contribution is at least the minimum buy
unfoldable pub contribution_problems : PlanMode → Text → Text → ℕ → Result (List Text)
contribution_problems yield contribution_usd min_buy_usd min_buy = ok []
contribution_problems safe contribution_usd min_buy_usd min_buy = do
  contribution ← to_units contribution_usd 18
  ok (
      problem_if (ltb contribution min_buy) (
        codes "a safe plan's contribution $"
        ++ (contribution_usd ++ (codes " is below the minimum buy $" ++ min_buy_usd))))

-- what the amounts that were read break, in the order of the source
unfoldable pub limit_messages :
    PlanSettings
    → PlanLimitCaps
    → (per_buy per_day min_buy max_per_tx daily_cap : ℕ) → List Text
    → List Text
limit_messages s caps per_buy per_day min_buy max_per_tx daily_cap rest =
    problem_if (ltb per_buy min_buy) (
      codes "per buy $"
      ++ (s.max_per_buy_usd ++ (codes " is below the minimum buy $" ++ caps.min_buy_usd)))
    ++ (problem_if (ltb max_per_tx per_buy) (
          codes "per buy $"
          ++ (s.max_per_buy_usd
              ++ (codes " is above the per-transaction cap $" ++ caps.max_per_tx_usd)))
        ++ (problem_if (ltb per_day per_buy)
              (codes "per day $" ++ (s.max_daily_usd ++ codes " is below per buy"))
            ++ (problem_if (ltb daily_cap per_day) (
                  codes "per day $"
                  ++ (s.max_daily_usd ++ (codes " is above the daily cap $" ++ caps.daily_cap_usd)))
                ++ rest)))

-- what is wrong with the settings under the caps
unfoldable pub limit_problems : PlanMode → PlanSettings → PlanLimitCaps → Result (List Text)
limit_problems mode s caps = do
  per_buy ← to_units s.max_per_buy_usd 18
  per_day ← to_units s.max_daily_usd 18
  min_buy ← to_units caps.min_buy_usd 18
  max_per_tx ← to_units caps.max_per_tx_usd 18
  daily_cap ← to_units caps.daily_cap_usd 18
  rest ← contribution_problems mode s.contribution_usd caps.min_buy_usd min_buy
  ok (limit_messages s caps per_buy per_day min_buy max_per_tx daily_cap rest)

-- the limits are looked at once every value could be read
unfoldable pub checked_settings :
    PlanMode → PlanLimitCaps → PlanSettings × List Text → Result (PlanSettings × List Text)
checked_settings mode caps (s, problem ∷ problems) = ok (s, problem ∷ problems)
checked_settings mode caps (s, []) = do problems ← limit_problems mode s caps; ok (s, problems)

-- `changePlanSettings`
unfoldable pub change_plan_settings :
    Plan → PlanSettingsChange → PlanLimitCaps → Result (PlanSettings × List Text)
change_plan_settings plan change caps =
    checked_settings plan.mode caps (read_change (plan_settings plan) change)
