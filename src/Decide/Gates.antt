-- ===== src/Decide/Gates.antt =====
-- Every gate that a buy has passed: what holds whenever `decideCycle` answers `execute`.
use mathlib.Core.Path.{subst₂}
use new_bnbhack.Common.{
  ℕ, ◌≤◌, ◌≡◌, refl, ap, Bool, true, false, not, ◌||◌, ltb, List, Option, none, some, last, arith,
  ok,
}
use new_bnbhack.Common.Text.{Text}
use new_bnbhack.Amounts.{to_units}
use new_bnbhack.Domain.{Target, ticker, sector}
use new_bnbhack.Platform.{Platform}
use new_bnbhack.Decide.Flows.{
  bind_goes_on, goes_on-injective, units_goes_on, answer_goes_on, then_goes_on,
}
use new_bnbhack.Decide.{
  CycleInput, InstrumentMarket, QuoteObservation, goes_on, is_active, is_expired, at_or_before,
  target_ticker, due_stage, Budget, is_some, own_quotes, refused_if, number_or_nan, is_high_impact,
  impact_if, is_fresh, quote_checks, latest_quote, quote_stage, venue_units,
}

-- the ticker that the plan names
abbrev pub NamesTicker : Target → Text → Type 0
NamesTicker (ticker t) t' = t ≡ t'
NamesTicker (sector s) t' = ⊥

module _ {F : Type 0} (p : Platform F) where
  pub record IsDue (input : CycleInput) (tick : Text) : Type 0 where
    pub active : is_active input.plan.status ≡ true
    pub not_expired : is_expired p input.plan.expires_at input.now ≡ false
    pub due_now : at_or_before (p.date_parse input.plan.next_due_at) input.now ≡ true
    pub ticker_named : NamesTicker input.plan.target tick

  target_ticker-names :
      (input : CycleInput) (target : Target) (tick : Text)
      → target_ticker input.plan target ≡ goes_on tick
      → NamesTicker target tick
  target_ticker-names input (ticker t) tick h = goes_on-injective t tick h
  target_ticker-names input (sector s) tick h = cc

  pub due_stage-IsDue :
      (input : CycleInput) (tick : Text) → due_stage p input ≡ goes_on tick → IsDue input tick
  unfolding due_stage
  due_stage-IsDue input tick h =
      answer_goes_on (not (is_active input.plan.status)) _ _ h λ active h1.
        answer_goes_on (is_expired p input.plan.expires_at input.now) _ _ h1 λ not_expired h2.
          answer_goes_on (not (at_or_before (p.date_parse input.plan.next_due_at) input.now)) _ _ h2
            λ due_now h3. record {
              active = ground arith;
              not_expired = not_expired;
              due_now = ground arith;
              ticker_named = target_ticker-names input input.plan.target tick h3;
            }

  -- The latest quote of the token passed every check.
  pub record IsGoodQuote (input : CycleInput) (id : Text) (q : QuoteObservation) : Type 0 where
    pub latest : last (own_quotes id input.quotes) ≡ some q
    pub no_error : q.error_code ≡ none
    pub has_id : is_some q.quote_id ≡ true
    pub has_amount : is_some q.to_token_amount ≡ true
    pub impact_known : p.is_finite (number_or_nan p q.price_impact_pct) ≡ true
    pub impact_low : is_high_impact p (number_or_nan p q.price_impact_pct) ≡ false
    pub fresh : is_fresh p input.now (p.date_parse q.received_at) ≡ true

  refused_if-none :
      (input : CycleInput) (regular : Bool) (q : QuoteObservation) (code : Option Text)
      → refused_if input regular q code ≡ goes_on tt
      → code ≡ none
  unfolding refused_if
  refused_if-none input regular q none h = refl
  refused_if-none input regular q (some code) h = ground arith

  impact_if-false :
      (high : Bool) (input : CycleInput) (b : Budget) (m : InstrumentMarket)
      (own : List QuoteObservation) (spend : ℕ) (impact : F)
      → impact_if p high input b m own spend impact ≡ goes_on tt
      → high ≡ false
  unfolding impact_if
  impact_if-false true input b m own spend impact h =
      bind_goes_on (venue_units m.venue_min_usd) _ h λ venue_min _ h1. ground arith
  impact_if-false false input b m own spend impact h = refl

  quote_checks-IsGoodQuote :
      (input : CycleInput) (regular : Bool) (b : Budget) (m : InstrumentMarket)
      (q : QuoteObservation) (spend : ℕ)
      → let own = own_quotes m.instrument.id input.quotes in
        last own ≡ some q
        → quote_checks p input regular b m own q ≡ goes_on spend
        → IsGoodQuote input m.instrument.id q
          × (to_units q.spend_usd 18 ≡ ok spend)
          × (spend ≤ b.planned_spend)
  unfolding quote_checks
  quote_checks-IsGoodQuote input regular b m q spend latest h =
      let own = own_quotes m.instrument.id input.quotes in
      let impact = number_or_nan p q.price_impact_pct in
      then_goes_on (refused_if input regular q q.error_code) _ h λ accepted h1.
        answer_goes_on (not (is_some q.quote_id) || not (is_some q.to_token_amount)) _ _ h1
          λ complete h2. units_goes_on q.spend_usd _ h2 λ n read h3.
            answer_goes_on (ltb b.planned_spend n) _ _ h3 λ within h4.
              answer_goes_on (not (p.is_finite impact)) _ _ h4 λ known h5.
                then_goes_on (impact_if p (is_high_impact p impact) input b m own n impact) _ h5
                  λ low h6.
                    answer_goes_on (not (is_fresh p input.now (p.date_parse q.received_at))) _ _ h6
                      λ fresh h7.
                        let same : n ≡ spend = goes_on-injective n spend h7 in
                        (
                          record {
                            latest = latest;
                            no_error = refused_if-none input regular q q.error_code accepted;
                            has_id = ground (arith, complete);
                            has_amount = ground (arith, complete);
                            impact_known = ground (arith, known);
                            impact_low =
                                impact_if-false (is_high_impact p impact) input b m own n impact
                                  low;
                            fresh = ground (arith, fresh);
                          },
                          rw (← same) read,
                          ground (arith, same, within),
                        )

  latest_quote-IsGoodQuote :
      (input : CycleInput) (regular : Bool) (b : Budget) (m : InstrumentMarket)
      (q : QuoteObservation) (spend : ℕ) (latest : Option QuoteObservation)
      → let own = own_quotes m.instrument.id input.quotes in
        last own ≡ latest
        → latest_quote p input regular b m own latest ≡ goes_on (q, spend)
        → IsGoodQuote input m.instrument.id q
          × (to_units q.spend_usd 18 ≡ ok spend)
          × (spend ≤ b.planned_spend)
  unfolding latest_quote
  latest_quote-IsGoodQuote input regular b m q spend none e h = absurd (cc)
  latest_quote-IsGoodQuote input regular b m q spend (some l) e h =
      bind_goes_on (quote_checks p input regular b m (own_quotes m.instrument.id input.quotes) l) _
        h
        λ n checked rest.
          let same = goes_on-injective (l, n) (q, spend) rest in
          let q_same : l ≡ q = ap (λ (r : QuoteObservation × ℕ). r.0) same in
          let n_same : n ≡ spend = ap (λ (r : QuoteObservation × ℕ). r.1) same in
          subst₂
            (λ x k.
              IsGoodQuote input m.instrument.id x
              × (to_units x.spend_usd 18 ≡ ok k)
              × (k ≤ b.planned_spend))
            q_same n_same (quote_checks-IsGoodQuote input regular b m l n e checked)

  pub quote_stage-IsGoodQuote :
      (input : CycleInput) (regular : Bool) (b : Budget) (m : InstrumentMarket)
      (q : QuoteObservation) (spend : ℕ)
      → quote_stage p input regular b m ≡ goes_on (q, spend)
      → IsGoodQuote input m.instrument.id q
        × (to_units q.spend_usd 18 ≡ ok spend)
        × (spend ≤ b.planned_spend)
  unfolding quote_stage
  quote_stage-IsGoodQuote input regular b m q spend h =
      latest_quote-IsGoodQuote input regular b m q spend
        (last (own_quotes m.instrument.id input.quotes)) refl h
