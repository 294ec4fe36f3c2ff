-- ===== src/PlanLimits/Tests.antt =====
-- An operator raises the limit per buy.
use new_bnbhack.Common.{◌≡◌, refl, none, some, [], ◌∷◌, ok}
use new_bnbhack.Common.Text.{
  codes, eq_text, trim, drop_while, drop_end_while, is_space, span_digits, pad_end,
}
use new_bnbhack.Amounts.{to_units, match_decimal}
use new_bnbhack.Domain
use new_bnbhack.Domain.{Plan}
use new_bnbhack.Decide.{CycleInput, goes_on, limit_stage}
use new_bnbhack.PlanLimits.{
  plan_settings, PlanSettings, PlanSettingsChange, PlanLimitCaps, is_usd_amount, amount_setting,
  cadence_setting, window_setting, read_change, contribution_problems, limit_messages,
  limit_problems, checked_settings, change_plan_settings,
}
use new_bnbhack.PlanLimits.Runnable.{
  IsRunnable, AreAmounts, change_plan_settings-IsRunnable, limit_stage-IsRunnable,
}

abbrev plan : Plan
plan = record {
  id = codes "p1";
  owner = Domain.house;
  mode = Domain.safe;
  target = Domain.ticker (codes "NVDA");
  issuer_preference = [];
  principal_usd = codes "0";
  contribution_usd = codes "2";
  cadence = Domain.weekly;
  window = Domain.anytime;
  limits = record { max_per_buy_usd = codes "2"; max_daily_usd = codes "5" };
  status = Domain.active;
  paused_reason = none;
  created_at = codes "0";
  next_due_at = codes "0";
  expires_at = none;
}

abbrev caps : PlanLimitCaps
caps = record { min_buy_usd = codes "1"; max_per_tx_usd = codes "25"; daily_cap_usd = codes "10" }

abbrev change : PlanSettingsChange
change = record {
  contribution_usd = none;
  max_per_buy_usd = some (codes "4.50");
  max_daily_usd = none;
  cadence = some (codes "daily");
  window = none;
}

abbrev changed : PlanSettings
changed = record {
  contribution_usd = codes "2";
  max_per_buy_usd = codes "4.50";
  max_daily_usd = codes "5";
  cadence = Domain.daily;
  window = Domain.anytime;
}

allowed : change_plan_settings plan change caps ≡ ok (changed, [])
unfolding change_plan_settings checked_settings read_change amount_setting cadence_setting
    window_setting is_usd_amount limit_problems limit_messages contribution_problems to_units
    match_decimal trim drop_while drop_end_while is_space span_digits pad_end eq_text
allowed = refl

too_much :
    change_plan_settings plan (record change { max_per_buy_usd = some (codes "6") }) caps
    ≡ ok (record changed { max_per_buy_usd = codes "6" }, codes "per day $5 is below per buy" ∷ [])
unfolding change_plan_settings checked_settings read_change amount_setting cadence_setting
    window_setting is_usd_amount limit_problems limit_messages contribution_problems to_units
    match_decimal trim drop_while drop_end_while is_space span_digits pad_end eq_text
too_much = refl

change_plan_settings-IsRunnable_example :
    IsRunnable Domain.safe changed caps × AreAmounts (plan_settings plan) changed
change_plan_settings-IsRunnable_example =
    change_plan_settings-IsRunnable plan change caps changed allowed

abbrev runnable : IsRunnable Domain.safe changed caps
unfolding allowed
runnable = (change_plan_settings-IsRunnable plan change caps changed allowed).0

abbrev input : CycleInput
input = record {
  now = 0;
  plan = record plan {
    limits = record { max_per_buy_usd = codes "4.50"; max_daily_usd = codes "5" };
  };
  caps = record { min_buy_usd = codes "1"; max_per_tx_usd = codes "25" };
  daily_remaining_usd = codes "5";
  daily_limit_usd = codes "5";
  markets = [];
  position = none;
  guardian_block = none;
  quotes = [];
}

limit_stage-IsRunnable_example : limit_stage input ≡ goes_on (runnable.min_buy, runnable.per_buy)
limit_stage-IsRunnable_example =
    limit_stage-IsRunnable Domain.safe changed caps input runnable refl refl refl
