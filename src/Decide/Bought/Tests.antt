-- ===== src/Decide/Bought/Tests.antt =====
-- The receipt of a regular buy that interest pays in part.
use new_bnbhack.Common.{◌*◌, ◌/◌, ◌^◌, ◌≡◌, ◌↔◌, refl, true, false, none, some, ok, arith}
use new_bnbhack.Common.Text.{
  codes, big_int, trim, drop_while, drop_end_while, is_space, span_digits, pad_end,
}
use new_bnbhack.Amounts.{to_units, match_decimal}
use new_bnbhack.Amounts.Truncate.{cut_value}
use new_bnbhack.Domain
use new_bnbhack.Domain.{Instrument, BoughtOutcome}
use new_bnbhack.Why.{Why, bought_anytime}
use new_bnbhack.Decide.{ExecuteDecision, QuoteObservation}
use new_bnbhack.Decide.Bought.{bought_outcome}
use new_bnbhack.Decide.Bought.Outcome.{bought_outcome-total}

abbrev token : Instrument
token = record {
  id = codes "AAPL:ondo";
  ticker = codes "AAPL";
  issuer = Domain.ondo;
  address = codes "0x2";
  symbol = codes "AAPLon";
  decimals = 18;
  multiplier = codes "1.01";
  verified_at = codes "0";
}

abbrev taken : QuoteObservation
taken = record {
  instrument_id = codes "AAPL:ondo";
  spend_usd = codes "5";
  received_at = codes "0";
  quote_id = some (codes "q1");
  to_token_amount = some (codes "20000000000000000");
  price_impact_pct = some (codes "0.01");
  execution_mode = none;
  error_code = none;
  error_msg = none;
  error_action = none;
}

abbrev decided : ExecuteDecision
decided = record {
  instrument_id = codes "AAPL:ondo";
  spend_usd = codes "5";
  quote = taken;
  redeem_usd = codes "1.5";
  interest_usd = some (codes "1.5");
  off_hours = false;
  ref_gap_pct = none;
}

bought_outcome-total_example :
    (o : BoughtOutcome) × (w : Why) × (bought_outcome decided token (codes "20000000000000000")
      ≡ ok (o, w))
    × (o.tokens ≡ codes "20000000000000000")
    × (to_units o.shares 18
        ≡ ok (20_000_000_000_000_000 * cut_value (codes "1", codes "01") 18 / 10 ^ 18))
    × (o.spend_usd ≡ codes "5")
    × ((w.key ≡ bought_anytime) ↔ (false ≡ true))
unfolding big_int trim drop_while drop_end_while is_space span_digits match_decimal to_units pad_end
bought_outcome-total_example =
    bought_outcome-total decided token (codes "20000000000000000") 20_000_000_000_000_000
      5_000_000_000_000_000_000 (codes "1", codes "01") refl refl (omega arith) refl
      (1_500_000_000_000_000_000, refl)
