-- ===== src/Decide/Execution.antt =====
-- The whole of `decideCycle` when it answers `execute`: the gates passed, the limits kept, and what
-- is redeemed.
use mathlib.Core.Path.{subst}
use mathlib.Core.List.{Mem}
use new_bnbhack.Common.{
  sym, [], ℕ, ◌≤◌, ◌≡◌, refl, ap, Bool, true, false, not, ◌&&◌, Option, none, some, arith, ok,
}
use new_bnbhack.Common.Text.{Text, eq_text}
use new_bnbhack.Amounts.{to_units}
use new_bnbhack.Session.{is_regular, us_session}
use new_bnbhack.Platform.{Platform}
use new_bnbhack.Decide.Flows.{bind_goes_on, goes_on-injective, then_goes_on}
use new_bnbhack.Decide.Choice.{IsBuyable, asset_stage-IsBuyable}
use new_bnbhack.Decide.Limits.{WithinLimits, WithinLimits-le, budget_stage-WithinLimits}
use new_bnbhack.Decide.Gates.{IsDue, IsGoodQuote, due_stage-IsDue, quote_stage-IsGoodQuote}
use new_bnbhack.Decide.{
  CycleInput, InstrumentMarket, QuoteObservation, ExecuteDecision, execute, Flow, throws, answers,
  goes_on, is_regular_session, due_stage, guardian_stage, wait_for_open_if, window_stage, Budget,
  budget_stage, excluded_by, asset_stage, price_stage, number_or_nan, positive, gap_pct,
  quote_stage, execution, cycle, outcome_of, decide_cycle,
}

pub guardian_stage-none : (block : Option Text) → guardian_stage block ≡ goes_on tt → block ≡ none
unfolding guardian_stage
guardian_stage-none none h = refl
guardian_stage-none (some rule) h = cc

wait_for_open_if-false :
    (test : Bool) (now : ℕ) (detail : Option Text)
    → wait_for_open_if test now detail ≡ goes_on tt
    → test ≡ false
unfolding wait_for_open_if
wait_for_open_if-false true now detail h = ground arith
wait_for_open_if-false false now detail h = refl

-- the session is the clock's, and it is the regular one where the plan asks for it
pub window_stage-lem :
    (input : CycleInput) (regular : Bool)
    → window_stage input ≡ goes_on regular
    → (regular ≡ is_regular (us_session input.now))
      × ((is_regular_session input.plan.window && not regular) ≡ false)
unfolding window_stage
window_stage-lem input regular h =
    let now_regular = is_regular (us_session input.now) in
    then_goes_on
      (wait_for_open_if (is_regular_session input.plan.window && not now_regular) input.now none) _
      h
      λ went rest.
        let open_ =
          wait_for_open_if-false (is_regular_session input.plan.window && not now_regular) input.now
            none went in
        let same : now_regular ≡ regular = goes_on-injective now_regular regular rest in
        (sym same, ground (arith, open_, same))

module _ {F : Type 0} (p : Platform F) where
  -- A premium above the limit over the stock price, in the regular session.
  abbrev pub is_premium : InstrumentMarket → Bool
  is_premium m =
      let onchain = number_or_nan p m.onchain_share_price_usd in
      let independent = number_or_nan p m.independent_share_price_usd in
      (positive p onchain && positive p independent)
      && p.lt (p.hundredths 200) (gap_pct p onchain independent)

  price_stage-no_premium :
      (input : CycleInput) (regular : Bool) (m : InstrumentMarket) (shown : Option Text)
      → price_stage p input regular m ≡ goes_on shown
      → (regular && is_premium m) ≡ false
  unfolding price_stage
  price_stage-no_premium input regular m shown h = ground arith

  -- The gates of a buy. `tick` is the plan's ticker, `m` the token bought and `spend` what is spent.
  pub record IsSafeBuy (input : CycleInput) (d : ExecuteDecision) : Type 0 where
    pub tick : Text
    pub is_due : IsDue p input tick
    pub not_blocked : input.guardian_block ≡ none
    pub session_shown : d.off_hours ≡ not (is_regular (us_session input.now))
    pub session_kept : (is_regular_session input.plan.window && d.off_hours) ≡ false
    pub m : InstrumentMarket
    pub listed : Mem m input.markets
    pub spend : ℕ
    pub planned : ℕ
    pub of_ticker : eq_text m.instrument.ticker tick ≡ true
    pub named : d.instrument_id ≡ m.instrument.id
    pub buyable : IsBuyable (excluded_by [] input.quotes) planned m
    pub no_premium : (not d.off_hours && is_premium m) ≡ false
    pub good_quote : IsGoodQuote p input m.instrument.id d.quote
    pub same_spend : d.spend_usd ≡ d.quote.spend_usd
    pub spend_read : to_units d.spend_usd 18 ≡ ok spend
    pub spend_planned : spend ≤ planned
    pub within : WithinLimits input (is_regular (us_session input.now)) spend

  execution-IsSafeBuy :
      (input : CycleInput) (tick : Text) (regular : Bool) (b : Budget) (m : InstrumentMarket)
      (gap : Option Text) (q : QuoteObservation) (spend : ℕ)
      → due_stage p input ≡ goes_on tick
      → guardian_stage input.guardian_block ≡ goes_on tt
      → window_stage input ≡ goes_on regular
      → budget_stage input regular ≡ goes_on b
      → asset_stage input tick b ≡ goes_on m
      → price_stage p input regular m ≡ goes_on gap
      → quote_stage p input regular b m ≡ goes_on (q, spend)
      → IsSafeBuy input (execution input.plan.mode regular b m gap q spend)
  unfolding execution
  execution-IsSafeBuy input tick regular b m gap q spend due guard window budget asset price
        quoted =
      let (clock, asked) = window_stage-lem input regular window in
      let (buyable, (of_ticker, listed)) = asset_stage-IsBuyable input tick b m asset in
      let (good, read, small) = quote_stage-IsGoodQuote p input regular b m q spend quoted in
      let limits =
        WithinLimits-le input regular spend b.planned_spend small
          (budget_stage-WithinLimits input regular b budget) in
      record {
        tick = tick;
        is_due = due_stage-IsDue p input tick due;
        not_blocked = guardian_stage-none input.guardian_block guard;
        session_shown = ap not clock;
        session_kept = asked;
        m = m;
        listed = listed;
        spend = spend;
        planned = b.planned_spend;
        of_ticker = of_ticker;
        named = refl;
        buyable = buyable;
        no_premium = ground (arith, price_stage-no_premium input regular m gap price);
        good_quote = good;
        same_spend = refl;
        spend_read = read;
        spend_planned = small;
        within = subst (λ r. WithinLimits input r spend) clock limits;
      }

  pub cycle-eq-goes_on :
      (input : CycleInput) (d : ExecuteDecision)
      → decide_cycle p input ≡ ok (execute d)
      → cycle p input ≡ goes_on d
  unfolding decide_cycle
  cycle-eq-goes_on input d h = executed (cycle p input) h
    where
      executed : (c : Flow ExecuteDecision) → outcome_of c ≡ ok (execute d) → c ≡ goes_on d
      executed (goes_on e) k = ground arith
      executed (throws e) k = absurd (cc)
      executed (answers a) k = absurd (cc)

  -- Whenever decideCycle answers execute, the plan is active, due and not expired, the guardian
  -- blocks nothing, the plan's window is open, the token bought is that of one of the input's
  -- markets, which is of the plan's ticker, open and trading, and not ruled out, no premium
  -- above 2 % was seen in the regular session, the latest quote is complete, fresh and of low
  -- impact, and the spend is within every limit.
  pub decide_cycle-IsSafeBuy :
      (input : CycleInput) (d : ExecuteDecision)
      → decide_cycle p input ≡ ok (execute d)
      → IsSafeBuy input d
  unfolding decide_cycle
  decide_cycle-IsSafeBuy input d h =
      bind_goes_on (due_stage p input) _ (cycle-eq-goes_on input d h) λ tick due h1.
        then_goes_on (guardian_stage input.guardian_block) _ h1 λ guard h2.
          bind_goes_on (window_stage input) _ h2 λ regular window h3.
            bind_goes_on (budget_stage input regular) _ h3 λ b budget h4.
              bind_goes_on (asset_stage input tick b) _ h4 λ m asset h5.
                bind_goes_on (price_stage p input regular m) _ h5 λ gap price h6.
                  bind_goes_on (quote_stage p input regular b m) _ h6 λ q quoted h7.
                    subst (IsSafeBuy input)
                      (goes_on-injective (execution input.plan.mode regular b m gap q.0 q.1) d h7)
                      (execution-IsSafeBuy input tick regular b m gap q.0 q.1 due guard window
                        budget asset price quoted)
