-- ===== src/PlanLimits/Runnable.antt =====
-- Settings without problems can run.
use mathlib.Core.Path.{subst}
use new_bnbhack.Common.{
  ℕ, ◌≤◌, ◌≡◌, ◌⊎◌, inl, inr, refl, Bool, true, false, ltb, smaller, List, [], ◌∷◌, ◌++◌, arith, ok,
  >>=-eq-ok, when_ok, ok-injective, ltb-eq-false, ap, ◌∙◌, Option, some, none, Bool-cases,
}
use new_bnbhack.Common.Text.{Text, codes}
use new_bnbhack.Amounts.{to_units}
use new_bnbhack.Domain.{PlanMode, safe, yield, Plan}
use new_bnbhack.Decide.{CycleInput, goes_on, limit_stage}
use new_bnbhack.PlanLimits.Dollars.{IsOwnOrDollars, is_usd_amount-IsDollars}
use new_bnbhack.PlanLimits.{
  PlanSettings, PlanSettingsChange, PlanLimitCaps, is_usd_amount, amount_setting, read_change,
  plan_settings, problem_if, contribution_problems, limit_messages, limit_problems,
  checked_settings, change_plan_settings,
}

-- Settings that can run under the caps, for a plan of the given mode.
pub record IsRunnable (mode : PlanMode) (s : PlanSettings) (caps : PlanLimitCaps) : Type 0 where
  pub per_buy : ℕ
  pub per_day : ℕ
  pub min_buy : ℕ
  pub max_per_tx : ℕ
  pub daily_cap : ℕ
  pub per_buy_read : to_units s.max_per_buy_usd 18 ≡ ok per_buy
  pub per_day_read : to_units s.max_daily_usd 18 ≡ ok per_day
  pub min_buy_read : to_units caps.min_buy_usd 18 ≡ ok min_buy
  pub max_per_tx_read : to_units caps.max_per_tx_usd 18 ≡ ok max_per_tx
  pub daily_cap_read : to_units caps.daily_cap_usd 18 ≡ ok daily_cap
  pub above_minimum : min_buy ≤ per_buy
  pub below_cap : per_buy ≤ max_per_tx
  pub day_holds_buy : per_buy ≤ per_day
  pub below_daily : per_day ≤ daily_cap
  pub contributes :
      (mode ≡ yield) ⊎ ((c : ℕ) × (to_units s.contribution_usd 18 ≡ ok c) × (min_buy ≤ c))

-- No problem at all: none of the tests was true, and nothing follows.
no_problem :
    (test : Bool) (problem : Text) (rest : List Text)
    → problem_if test problem ++ rest ≡ []
    → (test ≡ false) × (rest ≡ [])
no_problem true problem rest h = absurd (cc)
no_problem false problem rest h = (refl, h)

contribution_problems-nil :
    (mode : PlanMode) (contribution_usd min_buy_usd : Text) (min_buy : ℕ)
    → contribution_problems mode contribution_usd min_buy_usd min_buy ≡ ok []
    → (mode ≡ yield) ⊎ ((c : ℕ) × (to_units contribution_usd 18 ≡ ok c) × (min_buy ≤ c))
unfolding contribution_problems
contribution_problems-nil yield contribution_usd min_buy_usd min_buy h = inl refl
contribution_problems-nil safe contribution_usd min_buy_usd min_buy h =
    let (c, read, rest) = >>=-eq-ok (to_units contribution_usd 18) _ h in
    inr (c, read, ground (arith, rest))

limit_messages-nil :
    (s : PlanSettings) (caps : PlanLimitCaps) (per_buy per_day min_buy max_per_tx daily_cap : ℕ)
    (rest : List Text)
    → limit_messages s caps per_buy per_day min_buy max_per_tx daily_cap rest ≡ []
    → (min_buy ≤ per_buy)
      × (per_buy ≤ max_per_tx)
      × (per_buy ≤ per_day)
      × (per_day ≤ daily_cap)
      × (rest ≡ [])
unfolding limit_messages
limit_messages-nil s caps per_buy per_day min_buy max_per_tx daily_cap rest h =
    let (low, h1) = no_problem (ltb per_buy min_buy) _ _ h in
    let (high, h2) = no_problem (ltb max_per_tx per_buy) _ _ h1 in
    let (day, h3) = no_problem (ltb per_day per_buy) _ _ h2 in
    let (cap, h4) = no_problem (ltb daily_cap per_day) _ _ h3 in
    (ground (arith, low), ground (arith, high), ground (arith, day), ground (arith, cap), h4)

limit_problems-IsRunnable :
    (mode : PlanMode) (s : PlanSettings) (caps : PlanLimitCaps)
    → limit_problems mode s caps ≡ ok []
    → IsRunnable mode s caps
unfolding limit_problems
limit_problems-IsRunnable mode s caps h =
    when_ok (to_units s.max_per_buy_usd 18) _ h λ per_buy r1 h1.
      when_ok (to_units s.max_daily_usd 18) _ h1 λ per_day r2 h2.
        when_ok (to_units caps.min_buy_usd 18) _ h2 λ min_buy r3 h3.
          when_ok (to_units caps.max_per_tx_usd 18) _ h3 λ max_per_tx r4 h4.
            when_ok (to_units caps.daily_cap_usd 18) _ h4 λ daily_cap r5 h5.
              when_ok (contribution_problems mode s.contribution_usd caps.min_buy_usd min_buy) _ h5
                λ rest r6 h6.
                  let messages : limit_messages s caps per_buy per_day min_buy max_per_tx daily_cap
                        rest
                      ≡ [] =
                    ok-injective _ [] h6 in
                  let (low, high, day, cap, none_left) =
                    limit_messages-nil s caps per_buy per_day min_buy max_per_tx daily_cap rest
                      messages in
                  record {
                    per_buy = per_buy;
                    per_day = per_day;
                    min_buy = min_buy;
                    max_per_tx = max_per_tx;
                    daily_cap = daily_cap;
                    per_buy_read = r1;
                    per_day_read = r2;
                    min_buy_read = r3;
                    max_per_tx_read = r4;
                    daily_cap_read = r5;
                    above_minimum = low;
                    below_cap = high;
                    day_holds_buy = day;
                    below_daily = cap;
                    contributes =
                        contribution_problems-nil mode s.contribution_usd caps.min_buy_usd min_buy
                          (r6 ∙ ap ok none_left);
                  }

checked_settings-IsRunnable :
    (mode : PlanMode) (caps : PlanLimitCaps) (s s' : PlanSettings) (problems : List Text)
    → checked_settings mode caps (s, problems) ≡ ok (s', [])
    → IsRunnable mode s' caps
unfolding checked_settings
checked_settings-IsRunnable mode caps s s' (problem ∷ problems) h = absurd (cc)
checked_settings-IsRunnable mode caps s s' [] h =
    when_ok (limit_problems mode s caps) _ h λ problems read same.
      let pair : (s, problems) ≡ (s', []) = ok-injective _ _ same in
      subst (λ t. IsRunnable mode t caps) (ap (λ q. q.0) pair)
        (limit_problems-IsRunnable mode s caps (read ∙ ap ok (ap (λ q. q.1) pair)))

amount_setting-nil :
    (name : Text) (change : Option Text) (own : Text)
    → (amount_setting name change own).1 ≡ []
    → IsOwnOrDollars own (amount_setting name change own).0
unfolding amount_setting
amount_setting-nil name none own h = inl refl
amount_setting-nil name (some text) own h = elim (Bool-cases (is_usd_amount text)) [
  | inl good ↦ rw good (inr (is_usd_amount-IsDollars text good))
  | inr bad ↦ absurd (cc (rw bad at h))
]

append-nil_both : (xs ys : List Text) → xs ++ ys ≡ [] → (xs ≡ []) × (ys ≡ [])
append-nil_both [] ys h = (refl, h)
append-nil_both (x ∷ xs) ys h = absurd (cc)

-- every amount among the settings
abbrev pub AreAmounts : PlanSettings → PlanSettings → Type 0
AreAmounts own s =
    IsOwnOrDollars own.contribution_usd s.contribution_usd
    × IsOwnOrDollars own.max_per_buy_usd s.max_per_buy_usd
    × IsOwnOrDollars own.max_daily_usd s.max_daily_usd

read_change-AreAmounts :
    (own : PlanSettings) (change : PlanSettingsChange)
    → (read_change own change).1 ≡ []
    → AreAmounts own (read_change own change).0
unfolding read_change
read_change-AreAmounts own change h =
    let (p1, h1) =
      append-nil_both
        (amount_setting (codes "contribution") change.contribution_usd own.contribution_usd).1 _
        h in
    let (p2, h2) =
      append-nil_both
        (amount_setting (codes "per buy") change.max_per_buy_usd own.max_per_buy_usd).1 _ h1 in
    let (p3, h3) =
      append-nil_both (amount_setting (codes "per day") change.max_daily_usd own.max_daily_usd).1 _
        h2 in
    (
      amount_setting-nil (codes "contribution") change.contribution_usd own.contribution_usd p1,
      amount_setting-nil (codes "per buy") change.max_per_buy_usd own.max_per_buy_usd p2,
      amount_setting-nil (codes "per day") change.max_daily_usd own.max_daily_usd p3,
    )

checked_settings-inv :
    (mode : PlanMode) (caps : PlanLimitCaps) (s s' : PlanSettings) (problems : List Text)
    → checked_settings mode caps (s, problems) ≡ ok (s', [])
    → (problems ≡ []) × (s ≡ s')
unfolding checked_settings
checked_settings-inv mode caps s s' (problem ∷ problems) h = absurd (cc)
checked_settings-inv mode caps s s' [] h =
    when_ok (limit_problems mode s caps) _ h λ problems read same.
      (refl, ap (λ (q : PlanSettings × List Text). q.0) (ok-injective _ _ same))

-- Settings that changePlanSettings leaves without a problem have limits per buy and per day
-- that can be read, with the minimum buy at most the limit per buy, that at most the per-
-- transaction cap and the limit per day, and that at most the daily cap; a safe plan's
-- contribution can be read and is at least the minimum buy; and each of their amounts, a yield
-- plan's contribution too, is the plan's own or dollars with at most two decimals.
pub change_plan_settings-IsRunnable :
    (plan : Plan) (change : PlanSettingsChange) (caps : PlanLimitCaps) (s : PlanSettings)
    → change_plan_settings plan change caps ≡ ok (s, [])
    → IsRunnable plan.mode s caps × AreAmounts (plan_settings plan) s
unfolding change_plan_settings
change_plan_settings-IsRunnable plan change caps s h =
    let new = (read_change (plan_settings plan) change).0 in
    let problems = (read_change (plan_settings plan) change).1 in
    let (none_found, same) = checked_settings-inv plan.mode caps new s problems h in
    (
      checked_settings-IsRunnable plan.mode caps new s problems h,
      subst (AreAmounts (plan_settings plan)) same
          (read_change-AreAmounts (plan_settings plan) change none_found),
    )

-- Under the caps that settings were checked with, the engine's check of the limit per buy
-- against the minimum buy passes for a plan with those settings, and the limit per buy that it
-- goes on with is the plan's own.
pub limit_stage-IsRunnable :
    (mode : PlanMode) (s : PlanSettings) (caps : PlanLimitCaps) (input : CycleInput)
    (r : IsRunnable mode s caps)
    → input.plan.limits.max_per_buy_usd ≡ s.max_per_buy_usd
    → input.caps.min_buy_usd ≡ caps.min_buy_usd
    → input.caps.max_per_tx_usd ≡ caps.max_per_tx_usd
    → limit_stage input ≡ goes_on (r.min_buy, r.per_buy)
unfolding limit_stage
limit_stage-IsRunnable mode s caps input r own minimum cap =
    let low = r.above_minimum in
    let high = r.below_cap in
    let least : smaller r.per_buy r.max_per_tx ≡ r.per_buy = ground (arith, high) in
    rw
      (
        own,
        minimum,
        cap,
        r.min_buy_read,
        r.per_buy_read,
        r.max_per_tx_read,
        least,
        ltb-eq-false r.per_buy r.min_buy low,
      )
      refl
