-- ===== src/Decide/Tests.antt =====
-- A yield plan at Friday's open, run by the engine: the question for a quote, and the buy.
use new_bnbhack.Common.{◌+◌, ◌≡◌, refl, true, false, List, [], ◌∷◌, none, some, Result, ok}
use new_bnbhack.Common.Int.{◌-ℤ◌, ◌*ℤ◌}
use new_bnbhack.Common.Text.{
  codes, eq_text, trim, drop_while, drop_end_while, is_space, span_digits, pad_start, pad_end,
  to_string,
}
use new_bnbhack.Amounts.{
  to_units, match_decimal, from_units, from_magnitude, with_fraction, interest_units,
}
use new_bnbhack.Calendar.{
  date_of, year_of, month_of, day_number, days_before_year, days_before_month, days_in_year,
  month_lengths, new_york_offset, iso,
}
use new_bnbhack.Session.{
  us_session, session_of, new_york_parts, new_york_local, closed_date, close_minutes,
  next_regular_open, new_york_time_on, open_settle_ms,
}
use new_bnbhack.Domain
use new_bnbhack.Domain.{Plan, Instrument, skipped, guardian}
use new_bnbhack.Why.{format_pct, skipped_guardian_hold}
use new_bnbhack.Platform.{scaled_platform}
use new_bnbhack.Decide.{
  CycleInput, InstrumentMarket, QuoteObservation, ExecuteDecision, Decision, answer, quote, done,
  execute, why, market_closed_at, decide_cycle, due_stage, guardian_stage, window_stage,
  wait_for_open_if, budget_stage, limit_stage, spend_stage, interest_of, daily_cap_if, asset_stage,
  excluded_by, candidates, prepend, choose, look_at, below_venue, excluded_reason, price_stage,
  quote_stage, quote_checks, refused_if, impact_if, execution,
}
use new_bnbhack.Decide.Execution.{IsSafeBuy, decide_cycle-IsSafeBuy}
use new_bnbhack.Decide.Redeem.{IsPaid, decide_cycle-IsPaid}
use new_bnbhack.Decide.Asks.{IsSafeAsk, decide_cycle-IsSafeAsk}

abbrev nvda : Instrument
nvda = record {
  id = codes "NVDA:bstocks";
  ticker = codes "NVDA";
  issuer = Domain.bstocks;
  address = codes "0x1";
  symbol = codes "NVDAB";
  decimals = 18;
  multiplier = codes "1";
  verified_at = codes "0";
}

abbrev market : InstrumentMarket
market = record {
  instrument = nvda;
  status = record {
    open_state = some true;
    reason_code = some (codes "TRADING");
    reason_msg = none;
    next_open_time = none;
  };
  onchain_share_price_usd = some (codes "100.5");
  independent_share_price_usd = some (codes "100");
  venue_min_usd = none;
}

-- 1000 dollars of principal, and two dollars a week on top of the interest
abbrev plan : Plan
plan = record {
  id = codes "p1";
  owner = Domain.house;
  mode = Domain.yield;
  target = Domain.ticker (codes "NVDA");
  issuer_preference = Domain.bstocks ∷ Domain.ondo ∷ [];
  principal_usd = codes "1000";
  contribution_usd = codes "2";
  cadence = Domain.weekly;
  window = Domain.regular_session;
  limits = record { max_per_buy_usd = codes "5"; max_daily_usd = codes "10" };
  status = Domain.active;
  paused_reason = none;
  created_at = codes "0";
  next_due_at = codes "1795789800000";
  expires_at = none;
}

-- the position has earned four dollars, and half a dollar was redeemed before
abbrev input : List QuoteObservation → CycleInput
input quotes = record {
  now = 1_795_789_860_000;
  plan = plan;
  caps = record { min_buy_usd = codes "1"; max_per_tx_usd = codes "25" };
  daily_remaining_usd = codes "10";
  daily_limit_usd = codes "10";
  markets = market ∷ [];
  position = some record { underlying_usd = codes "1004"; harvested_unspent_usd = codes "0.5" };
  guardian_block = none;
  quotes = quotes;
}

abbrev good_quote : QuoteObservation
good_quote = record {
  instrument_id = codes "NVDA:bstocks";
  spend_usd = codes "5";
  received_at = codes "1795789850000";
  quote_id = some (codes "q1");
  to_token_amount = some (codes "49000000000000000");
  price_impact_pct = some (codes "0.01");
  execution_mode = none;
  error_code = none;
  error_msg = none;
  error_action = none;
}

-- the engine on the concrete platform, open down to its helpers
run : CycleInput → Result Decision
unfolding decide_cycle due_stage guardian_stage window_stage wait_for_open_if budget_stage
    limit_stage spend_stage interest_of interest_units daily_cap_if asset_stage excluded_by
    candidates prepend choose look_at below_venue excluded_reason price_stage quote_stage
    quote_checks refused_if impact_if execution format_pct eq_text to_units match_decimal from_units
    from_magnitude with_fraction trim drop_while drop_end_while is_space span_digits pad_start
    pad_end to_string us_session session_of new_york_parts new_york_local new_york_offset date_of
    year_of month_of day_number days_before_year days_before_month days_in_year month_lengths
    closed_date close_minutes next_regular_open new_york_time_on iso ◌-ℤ◌ ◌*ℤ◌
run = decide_cycle scaled_platform

asks_first : run (input []) ≡ ok (answer (quote (codes "NVDA:bstocks") (codes "5")))
unfolding run
asks_first = refl

buy : ExecuteDecision
buy = record {
  instrument_id = codes "NVDA:bstocks";
  spend_usd = codes "5";
  quote = good_quote;
  redeem_usd = codes "4";
  interest_usd = some (codes "4.5");
  off_hours = false;
  ref_gap_pct = some (codes "0.5");
}

buys_then : run (input (good_quote ∷ [])) ≡ ok (execute buy)
unfolding run buy
buys_then = refl

decide_cycle-IsSafeBuy_example : IsSafeBuy scaled_platform (input (good_quote ∷ [])) buy
unfolding run
decide_cycle-IsSafeBuy_example =
    decide_cycle-IsSafeBuy scaled_platform (input (good_quote ∷ [])) buy buys_then

decide_cycle-IsPaid_example : IsPaid scaled_platform (input (good_quote ∷ [])) buy
unfolding run
decide_cycle-IsPaid_example =
    decide_cycle-IsPaid scaled_platform (input (good_quote ∷ [])) buy buys_then

decide_cycle-IsSafeAsk_example :
    IsSafeAsk scaled_platform (input []) (codes "NVDA:bstocks") (codes "5")
unfolding run
decide_cycle-IsSafeAsk_example =
    decide_cycle-IsSafeAsk scaled_platform (input []) (codes "NVDA:bstocks") (codes "5") asks_first

-- the same plan, blocked
abbrev blocked : CycleInput
blocked = record (input []) { guardian_block = some (codes "usdt_depeg") }

skips_blocked :
    run blocked
    ≡ ok (
        answer (
          done
            (skipped guardian (some (codes "usdt_depeg")))
            (why skipped_guardian_hold ((codes "rule", codes "usdt_depeg") ∷ []))))
unfolding run
skips_blocked = refl

-- the same plan on the evening before, with its due time past
abbrev evening : CycleInput
evening = record (input []) {
  now = 1_795_741_200_000;
  plan = record plan { next_due_at = codes "1795741100000" };
}

waits_for_open :
    run evening ≡ ok (answer (market_closed_at (1_795_789_800_000 + open_settle_ms) none))
unfolding run
waits_for_open = refl
