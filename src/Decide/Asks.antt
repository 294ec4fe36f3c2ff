-- ===== src/Decide/Asks.antt =====
-- What `decideCycle` asks a quote for: never more than may be spent now.
use native.Mathlib.Nat.{le_refl}
use mathlib.Core.Path.{subst}
use mathlib.Core.List.{Mem}
use new_bnbhack.Common.{
  ℕ, ◌/◌, ◌≤◌, ◌≡◌, refl, ap, sym, ◌∙◌, Bool, true, false, not, ◌||◌, ltb, List, [], Option, none,
  some, last, arith, ok,
}
use new_bnbhack.Common.Text.{Text}
use new_bnbhack.Amounts.{to_units}
use new_bnbhack.Amounts.RoundTrip.{to_units-from_units}
use new_bnbhack.Session.{is_regular, us_session}
use new_bnbhack.Platform.{Platform}
use new_bnbhack.Decide.Flows.{lift-eq-goes_on}
use new_bnbhack.Decide.Limits.{WithinLimits, WithinLimits-le, budget_stage-WithinLimits}
use new_bnbhack.Decide.Choice.{IsBuyable, asset_stage-IsBuyable}
use new_bnbhack.Decide.Execution.{guardian_stage-none, window_stage-lem}
use new_bnbhack.Decide.Quiet.{
  IsQuiet, quiet_asks, bind_answers, IsQuiet-lift, due_stage-IsQuiet, guardian_stage-IsQuiet,
  window_stage-IsQuiet, settled_open-IsQuiet,
}
use new_bnbhack.Decide.QuietStages.{budget_stage-IsQuiet, asset_stage-IsQuiet, price_stage-IsQuiet}
use new_bnbhack.Decide.{
  CycleInput, InstrumentMarket, QuoteObservation, ExecuteDecision, Answer, quote, answer, Flow,
  throws, answers, goes_on, ◌>>◌, units, decimal, answer_if, due_stage, guardian_stage,
  window_stage, Budget, budget_stage, excluded_by, asset_stage, price_stage, is_some, own_quotes,
  refused_if, number_or_nan, is_high_impact, impact_if, is_fresh, quote_checks, latest_quote,
  quote_stage, cycle, outcome_of, decide_cycle,
}

answers-quote :
    {A : Type 0} (id s id' s' : Text)
    → ◌≡◌ {A = Flow A} (answers (quote id s)) (answers (quote id' s'))
    → (id ≡ id') × (s ≡ s')
answers-quote id s id' s' h = ground arith

-- either the answer is given here, or it comes from what follows
answer_or_rest {κ μ} :
    {B : Type κ} {C : Type μ} (test : Bool) (a b : Answer) (rest : Flow B)
    → (answer_if test a >> rest) ≡ answers b
    → (test ≡ true → a ≡ b → C)
    → (test ≡ false → rest ≡ answers b → C)
    → C
answer_or_rest true a b rest h k l = k refl (ground arith)
answer_or_rest false a b rest h k l = l refl h

-- a text for a spend of at most `planned`
abbrev IsAtMost : ℕ → Text → Type 0
IsAtMost planned s = (n : ℕ) × (to_units s 18 ≡ ok n) × (n ≤ planned)

IsAtMost-decimal : (n planned : ℕ) (s : Text) → n ≤ planned → decimal n ≡ s → IsAtMost planned s
IsAtMost-decimal n planned s small same =
    (n, ap (λ t. to_units t 18) (sym same) ∙ to_units-from_units n 18, small)

quote-injective : (id s id' s' : Text) → quote id s ≡ quote id' s' → (id ≡ id') × (s ≡ s')
quote-injective id s id' s' h = ground arith

module _ {F : Type 0} (p : Platform F) where
  refused_if-IsQuiet :
      (input : CycleInput) (regular : Bool) (q : QuoteObservation) (code : Option Text)
      → IsQuiet (refused_if input regular q code)
  unfolding refused_if
  refused_if-IsQuiet input regular q none = tt
  refused_if-IsQuiet input regular q (some code) = ground (arith, settled_open-IsQuiet input.now)

  impact_if-asks :
      (high : Bool) (input : CycleInput) (b : Budget) (m : InstrumentMarket)
      (own : List QuoteObservation) (spend : ℕ) (impact : F) (id s : Text)
      → impact_if p high input b m own spend impact ≡ answers (quote id s)
      → (m.instrument.id ≡ id) × (decimal (spend / 2) ≡ s)
  unfolding impact_if
  impact_if-asks true input b m own spend impact id s h = ground arith
  impact_if-asks false input b m own spend impact id s h = absurd (cc)

  quote_checks-asks :
      (input : CycleInput) (regular : Bool) (b : Budget) (m : InstrumentMarket)
      (own : List QuoteObservation) (q : QuoteObservation) (id s : Text)
      → quote_checks p input regular b m own q ≡ answers (quote id s)
      → (m.instrument.id ≡ id) × IsAtMost b.planned_spend s
  unfolding quote_checks
  quote_checks-asks input regular b m own q id s h =
      let impact = number_or_nan p q.price_impact_pct in
      quiet_asks (refused_if input regular q q.error_code) _ id s
        (refused_if-IsQuiet input regular q q.error_code) h
        λ _ _ h1.
          answer_or_rest (not (is_some q.quote_id) || not (is_some q.to_token_amount)) _
            (quote id s) _ h1 (λ _ e. absurd (cc))
            λ _ h2.
              quiet_asks (units q.spend_usd) _ id s (IsQuiet-lift (to_units q.spend_usd 18)) h2
                λ n read h3.
                  answer_or_rest (ltb b.planned_spend n) _ (quote id s) _ h3
                    (λ _ e.
                      let (same_id, same) = quote-injective _ _ id s e in
                      (
                        same_id,
                        IsAtMost-decimal b.planned_spend b.planned_spend s (le_refl _) same,
                      ))
                    λ within h4.
                      answer_or_rest (not (p.is_finite impact)) _ (quote id s) _ h4
                        (λ _ e. absurd (cc))
                        λ _ h5.
                          bind_answers
                            (impact_if p (is_high_impact p impact) input b m own n impact) _
                            (quote id s) h5
                            (λ asked.
                              let (same_id, same) =
                                impact_if-asks (is_high_impact p impact) input b m own n impact id s
                                  asked in
                              (
                                same_id,
                                IsAtMost-decimal (n / 2) b.planned_spend s (ground (arith, within))
                                    same,
                              ))
                            λ _ _ h6.
                              answer_or_rest
                                (not (is_fresh p input.now (p.date_parse q.received_at))) _
                                (quote id s) _ h6
                                (λ _ e.
                                  let (same_id, same) = quote-injective _ _ id s e in
                                  (
                                    same_id,
                                    (
                                      n,
                                      ap (λ t. to_units t 18) (sym same)
                                          ∙ lift-eq-goes_on (to_units q.spend_usd 18) read,
                                      ground (arith, within),
                                    ),
                                  ))
                                λ _ h7. absurd (cc)

  latest_quote-asks :
      (input : CycleInput) (regular : Bool) (b : Budget) (m : InstrumentMarket)
      (own : List QuoteObservation) (latest : Option QuoteObservation) (id s : Text)
      → latest_quote p input regular b m own latest ≡ answers (quote id s)
      → (m.instrument.id ≡ id) × IsAtMost b.planned_spend s
  unfolding latest_quote
  latest_quote-asks input regular b m own none id s h =
      let (same_id, same) = answers-quote _ _ id s h in
      (same_id, IsAtMost-decimal b.planned_spend b.planned_spend s (le_refl _) same)
  latest_quote-asks input regular b m own (some q) id s h =
      bind_answers (quote_checks p input regular b m own q) _ (quote id s) h
        (quote_checks-asks input regular b m own q id s) λ _ _ rest. absurd (cc)

  quote_stage-asks :
      (input : CycleInput) (regular : Bool) (b : Budget) (m : InstrumentMarket) (id s : Text)
      → quote_stage p input regular b m ≡ answers (quote id s)
      → (m.instrument.id ≡ id) × IsAtMost b.planned_spend s
  unfolding quote_stage
  quote_stage-asks input regular b m id s h =
      latest_quote-asks input regular b m _ (last (own_quotes m.instrument.id input.quotes)) id s h

  -- A question for a quote: the token named may be bought, the guardian blocks nothing, and the
  -- amount is within every limit.
  pub record IsSafeAsk (input : CycleInput) (id s : Text) : Type 0 where
    pub m : InstrumentMarket
    pub listed : Mem m input.markets
    pub planned : ℕ
    pub spend : ℕ
    pub named : m.instrument.id ≡ id
    pub not_blocked : input.guardian_block ≡ none
    pub buyable : IsBuyable (excluded_by [] input.quotes) planned m
    pub spend_read : to_units s 18 ≡ ok spend
    pub within : WithinLimits input (is_regular (us_session input.now)) spend

  cycle-eq-answers :
      (input : CycleInput) (a : Answer)
      → decide_cycle p input ≡ ok (answer a)
      → cycle p input ≡ answers a
  unfolding decide_cycle
  cycle-eq-answers input a h = answered (cycle p input) h
    where
      answered : (c : Flow ExecuteDecision) → outcome_of c ≡ ok (answer a) → c ≡ answers a
      answered (goes_on e) k = absurd (cc)
      answered (throws e) k = absurd (cc)
      answered (answers b) k = ground arith

  -- Whenever decideCycle asks for a quote, the token is that of one of the input's markets,
  -- which is open and trading and which no quote rules out, the amount is read back exactly and
  -- is within every limit, and the guardian blocks nothing.
  pub decide_cycle-IsSafeAsk :
      (input : CycleInput) (id s : Text)
      → decide_cycle p input ≡ ok (answer (quote id s))
      → IsSafeAsk input id s
  unfolding cycle
  decide_cycle-IsSafeAsk input id s h =
      quiet_asks (due_stage p input) _ id s (due_stage-IsQuiet p input)
        (cycle-eq-answers input (quote id s) h)
        λ tick _ h1.
          quiet_asks (guardian_stage input.guardian_block) _ id s
            (guardian_stage-IsQuiet input.guardian_block) h1
            λ _ guard h2.
              quiet_asks (window_stage input) _ id s (window_stage-IsQuiet input) h2
                λ regular window h3.
                  quiet_asks (budget_stage input regular) _ id s
                    (budget_stage-IsQuiet input regular) h3
                    λ b budget h4.
                      quiet_asks (asset_stage input tick b) _ id s
                        (asset_stage-IsQuiet input tick b) h4
                        λ m asset h5.
                          quiet_asks (price_stage p input regular m) _ id s
                            (price_stage-IsQuiet p input regular m) h5
                            λ gap _ h6.
                              bind_answers (quote_stage p input regular b m) _ (quote id s) h6
                                (λ asked.
                                  let (named, (n, read, small)) =
                                    quote_stage-asks input regular b m id s asked in
                                  record {
                                    m = m;
                                    listed = (asset_stage-IsBuyable input tick b m asset).1.1;
                                    planned = b.planned_spend;
                                    spend = n;
                                    named = named;
                                    not_blocked = guardian_stage-none input.guardian_block guard;
                                    buyable = (asset_stage-IsBuyable input tick b m asset).0;
                                    spend_read = read;
                                    within =
                                        subst (λ r. WithinLimits input r n)
                                          (window_stage-lem input regular window).0
                                          (WithinLimits-le input regular n b.planned_spend small
                                            (budget_stage-WithinLimits input regular b budget));
                                  })
                                λ _ _ rest. absurd (cc)
