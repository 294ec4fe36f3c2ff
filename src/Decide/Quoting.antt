-- ===== src/Decide/Quoting.antt =====
-- PRICE, QUOTE and EXECUTE of `decideCycle`, and the whole function.
use new_bnbhack.Common.{
  ℕ, ◌+◌, ◌-◌, ◌/◌, Bool, true, false, not, ◌&&◌, ◌||◌, ltb, leb, smaller, if◌then◌else◌, List, [],
  ◌∷◌, Option, none, some, filter, last, length, Result, ok, err,
}
use new_bnbhack.Common.Text.{Text, codes, eq_text}
use new_bnbhack.Calendar.{iso}
use new_bnbhack.Domain.{
  PlanMode, safe, yield, price_gap, quote_impact, data_unavailable, deferred, failed, nothing,
}
use new_bnbhack.Why
use new_bnbhack.Why.{format_pct, deferred_price_gap, deferred_quote_impact, failed_simulation}
use new_bnbhack.Platform.{Platform}
use new_bnbhack.Decide.Input.{
  max_quote_age_ms, max_requotes, retry_later_ms, has_code, off_hours_quote_codes, InstrumentMarket,
  ErrorAction, session_closed, QuoteObservation, CycleInput, ExecuteDecision, Answer, Decision,
  answer, quote, execute, done, Flow, throws, answers, goes_on, ◌>>=◌, ◌>>◌, answer_if, units,
  decimal, text_or, market_closed_at,
}
use new_bnbhack.Decide.Budgeting.{
  why, Budget, due_stage, guardian_stage, window_stage, settled_open, budget_stage,
}
use new_bnbhack.Decide.Asset.{is_some}
use new_bnbhack.Decide.Unavailable.{asset_stage}

abbrev pub is_market_closed : Option ErrorAction → Bool
is_market_closed (some session_closed) = true
is_market_closed _ = false

-- the quotes of one instrument, oldest first
abbrev pub own_quotes : Text → List QuoteObservation → List QuoteObservation
own_quotes id = filter (λ q. eq_text q.instrument_id id)

abbrev pub quote_failed : Text → Text → Answer
quote_failed code message =
    done (failed code message nothing) (why failed_simulation ((codes "code", code) ∷ []))

-- a quote that came back with an error
unfoldable pub refused_quote : CycleInput → Bool → QuoteObservation → Text → Flow (Unit {0})
refused_quote input regular q code =
    if has_code off_hours_quote_codes code || is_market_closed q.error_action
    then (do
      at ← if regular then goes_on (input.now + retry_later_ms) else settled_open input.now
      answers (market_closed_at at (some code)))
    else answers (quote_failed code (text_or q.error_msg (codes "quote failed")))

unfoldable pub refused_if : CycleInput → Bool → QuoteObservation → Option Text → Flow (Unit {0})
unfolding refused_quote
refused_if input regular q none = goes_on tt
refused_if input regular q (some code) = refused_quote input regular q code

abbrev pub venue_units : Option Text → Flow ℕ
venue_units none = goes_on 0
venue_units (some text) = units text

module _ {F : Type 0} (p : Platform F) where
  -- `Number(text ?? NaN)`
  abbrev pub number_or_nan : Option Text → F
  number_or_nan none = p.nan
  number_or_nan (some t) = p.number t

  abbrev pub positive : F → Bool
  positive x = p.is_finite x && p.lt (p.hundredths 0) x

  -- the premium over the stock price in percent
  abbrev pub gap_pct : F → F → F
  gap_pct onchain independent =
      p.mul (p.sub (p.div onchain independent) (p.hundredths 100)) (p.hundredths 10_000)

  -- PRICE: the shown gap, when both prices are prices
  unfoldable pub price_stage : CycleInput → Bool → InstrumentMarket → Flow (Option Text)
  price_stage input regular m =
      let onchain = number_or_nan m.onchain_share_price_usd in
      let independent = number_or_nan m.independent_share_price_usd in
      let gap = gap_pct onchain independent in
      if positive onchain && positive independent
      then (do
        answer_if (regular && p.lt (p.hundredths 200) gap) (
            done (deferred price_gap (iso (input.now + retry_later_ms)) none)
              (why deferred_price_gap ((codes "gap", format_pct p gap) ∷ [])))
        goes_on (some (format_pct p gap)))
      else goes_on none

  abbrev pub is_high_impact : F → Bool
  is_high_impact impact = p.lt (p.hundredths 100) impact

  -- the quotes whose price impact was above the limit
  abbrev pub halvings : List QuoteObservation → ℕ
  halvings own = length (filter (λ q. is_high_impact (number_or_nan q.price_impact_pct)) own)

  -- a quote above the impact limit: ask again for half, or wait
  unfoldable pub impact_stage :
      CycleInput → Budget → InstrumentMarket → List QuoteObservation → ℕ → F → Flow (Unit {0})
  impact_stage input b m own spend impact = do
    venue_min ← venue_units m.venue_min_usd
    let half = spend / 2
    answer_if (leb (halvings own) max_requotes && (leb b.min_buy half && leb venue_min half))
        (quote m.instrument.id (decimal half))
    answers (
        done (deferred quote_impact (iso (input.now + retry_later_ms)) none)
          (why deferred_quote_impact ((codes "impact", format_pct p impact) ∷ [])))

  unfoldable pub impact_if :
      Bool
      → CycleInput
      → Budget
      → InstrumentMarket
      → List QuoteObservation
      → ℕ
      → F
      → Flow (Unit {0})
  unfolding impact_stage
  impact_if true input b m own spend impact = impact_stage input b m own spend impact
  impact_if false input b m own spend impact = goes_on tt

  -- whether the quote arrived at most `MAX_QUOTE_AGE_MS` ago
  abbrev pub is_fresh : ℕ → Option ℕ → Bool
  is_fresh now none = false
  is_fresh now (some received) = leb now (received + max_quote_age_ms)

  -- the checks of the latest quote; the spend it is for
  unfoldable pub quote_checks :
      CycleInput
      → Bool
      → Budget
      → InstrumentMarket
      → List QuoteObservation
      → QuoteObservation
      → Flow ℕ
  quote_checks input regular b m own q = do
    let id = m.instrument.id
    refused_if input regular q q.error_code
    answer_if (not (is_some q.quote_id) || not (is_some q.to_token_amount))
        (quote_failed (codes "QUOTE_INCOMPLETE") (codes "quote has no quoteId or amount"))
    spend ← units q.spend_usd
    answer_if (ltb b.planned_spend spend) (quote id (decimal b.planned_spend))
    let impact = number_or_nan q.price_impact_pct
    answer_if (not (p.is_finite impact)) (
        done
          (deferred data_unavailable (iso (input.now + retry_later_ms))
            (some (codes "price_impact_unknown")))
          (why Why.data_unavailable []))
    impact_if (is_high_impact impact) input b m own spend impact
    answer_if (not (is_fresh input.now (p.date_parse q.received_at))) (quote id q.spend_usd)
    goes_on spend

  -- the first quote is asked for at the planned spend
  unfoldable pub latest_quote :
      CycleInput
      → Bool
      → Budget
      → InstrumentMarket
      → List QuoteObservation
      → Option QuoteObservation
      → Flow (QuoteObservation × ℕ)
  latest_quote input regular b m own none =
      answers (quote m.instrument.id (decimal b.planned_spend))
  latest_quote input regular b m own (some q) = do
    spend ← quote_checks input regular b m own q
    goes_on (q, spend)

  -- QUOTE: the latest quote and the spend it is for
  unfoldable pub quote_stage :
      CycleInput → Bool → Budget → InstrumentMarket → Flow (QuoteObservation × ℕ)
  unfolding latest_quote
  quote_stage input regular b m =
      let own = own_quotes m.instrument.id input.quotes in
      latest_quote input regular b m own (last own)

-- the interest that pays for a spend
abbrev pub interest_used : PlanMode → ℕ → ℕ → Option ℕ
interest_used safe spend available = none
interest_used yield spend available = some (smaller spend available)

-- what is redeemed: the interest used beyond what was redeemed before
abbrev pub redeem_of : Option ℕ → ℕ → ℕ
redeem_of none harvested = 0
redeem_of (some used) harvested = if ltb harvested used then used - harvested else 0

abbrev pub map_decimal : Option ℕ → Option Text
map_decimal none = none
map_decimal (some n) = some (decimal n)

-- EXECUTE
unfoldable pub execution :
    PlanMode
    → Bool
    → Budget
    → InstrumentMarket
    → Option Text
    → QuoteObservation
    → ℕ
    → ExecuteDecision
execution mode regular b m ref_gap_pct q spend =
    let used = interest_used mode spend (b.interest_in_position + b.harvested_unspent) in
    record {
      instrument_id = m.instrument.id;
      spend_usd = q.spend_usd;
      quote = q;
      redeem_usd = decimal (redeem_of used b.harvested_unspent);
      interest_usd = map_decimal used;
      off_hours = not regular;
      ref_gap_pct = ref_gap_pct;
    }

module _ {F : Type 0} (p : Platform F) where
  -- the stages in order
  unfoldable pub cycle : CycleInput → Flow ExecuteDecision
  cycle input = do
    ticker ← due_stage p input
    guardian_stage input.guardian_block
    regular ← window_stage input
    b ← budget_stage input regular
    m ← asset_stage input ticker b
    ref_gap_pct ← price_stage p input regular m
    q ← quote_stage p input regular b m
    goes_on (execution input.plan.mode regular b m ref_gap_pct q.0 q.1)

abbrev pub outcome_of : Flow ExecuteDecision → Result Decision
outcome_of (throws e) = err e
outcome_of (answers a) = ok (answer a)
outcome_of (goes_on d) = ok (execute d)

-- `decideCycle`
unfoldable pub decide_cycle : {F : Type 0} (p : Platform F) → CycleInput → Result Decision
unfolding cycle
decide_cycle p input = outcome_of (cycle p input)
