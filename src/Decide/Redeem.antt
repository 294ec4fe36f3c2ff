-- ===== src/Decide/Redeem.antt =====
-- What an `execute` answer takes out of the position, and who pays for the buy.
use mathlib.Core.Path.{subst}
use new_bnbhack.Common.{
  no_principal, ℕ, ◌+◌, ◌-◌, ◌≤◌, ◌≡◌, ◌∙◌, ◌<◌, ◌==◌, refl, sym, ap, Bool, Option, none, some,
  arith, ok, smaller,
}
use new_bnbhack.Common.Text.{Text}
use new_bnbhack.Amounts.{to_units}
use new_bnbhack.Amounts.Bounds.{interest_units-eq-sub}
use new_bnbhack.Domain.{PlanMode, safe, yield, Plan}
use new_bnbhack.Platform.{Platform}
use new_bnbhack.Decide.Flows.{
  bind_goes_on, goes_on-injective, then_goes_on, throw_goes_on, units_goes_on,
}
use new_bnbhack.Decide.Limits.{budget_stage-interest}
use new_bnbhack.Decide.Gates.{quote_stage-IsGoodQuote}
use new_bnbhack.Decide.Execution.{cycle-eq-goes_on}
use new_bnbhack.Decide.{
  CycleInput, Position, InstrumentMarket, QuoteObservation, ExecuteDecision, execute, goes_on,
  decimal, interest_of, due_stage, guardian_stage, window_stage, Budget, budget_stage, asset_stage,
  price_stage, quote_stage, redeem_of, execution, cycle, decide_cycle,
}

-- Who pays for `spend` when the position holds `interest.0` of interest and `interest.1` was taken
-- out before: a safe plan redeems nothing; a yield plan pays with interest first, and redeems only
-- what the interest taken out before does not cover, never more than the position's interest.
abbrev pub PaysFor : PlanMode → ℕ × ℕ → ℕ → ExecuteDecision → Type 0
PaysFor safe interest spend d = (d.interest_usd ≡ none) × (d.redeem_usd ≡ decimal 0)
PaysFor yield interest spend d =
    (used : ℕ) × (redeem : ℕ) × (d.interest_usd ≡ some (decimal used))
    × (d.redeem_usd ≡ decimal redeem)
    × (used ≡ smaller spend (interest.0 + interest.1))
    × (redeem ≡ used - interest.1)
    × (redeem ≤ interest.0)

execution-PaysFor :
    (mode : PlanMode) (regular : Bool) (b : Budget) (m : InstrumentMarket) (gap : Option Text)
    (q : QuoteObservation) (spend : ℕ)
    → PaysFor mode
        (b.interest_in_position, b.harvested_unspent)
        spend
        (execution mode regular b m gap q spend)
unfolding execution
execution-PaysFor safe regular b m gap q spend = (refl, refl)
execution-PaysFor yield regular b m gap q spend =
    let available = b.interest_in_position + b.harvested_unspent in
    let used = smaller spend available in
    (used, redeem_of (some used) b.harvested_unspent, refl, refl, refl, ground arith, ground arith)

-- The interest that a plan has, from its own amounts: what the position holds beyond the principal, and
-- what was taken out and is unspent.
abbrev pub HasInterest : Plan → PlanMode → Option Position → ℕ × ℕ → Type 0
HasInterest plan safe position interest = interest ≡ (0, 0)
HasInterest plan yield none interest = ⊥
HasInterest plan yield (some position) interest =
    (principal : ℕ) × (underlying : ℕ) × (to_units plan.principal_usd 18 ≡ ok principal)
    × (0 < principal)
    × (to_units position.underlying_usd 18 ≡ ok underlying)
    × (interest.0 ≡ underlying - principal)
    × (to_units position.harvested_unspent_usd 18 ≡ ok interest.1)

interest_of-HasInterest :
    (plan : Plan) (mode : PlanMode) (position : Option Position) (interest : ℕ × ℕ)
    → interest_of plan mode position ≡ goes_on interest
    → HasInterest plan mode position interest
unfolding interest_of
interest_of-HasInterest plan safe position interest h = sym (goes_on-injective (0, 0) interest h)
interest_of-HasInterest plan yield none interest h = absurd (cc)
interest_of-HasInterest plan yield (some position) interest h =
    units_goes_on plan.principal_usd _ h λ principal r1 h1.
      throw_goes_on (principal == 0) (no_principal plan.id) _ h1 λ some_principal h2.
        units_goes_on position.underlying_usd _ h2 λ underlying r2 h3.
          units_goes_on position.harvested_unspent_usd _ h3 λ harvested r3 h4.
            subst (HasInterest plan yield (some position)) (goes_on-injective _ interest h4) (
              principal,
              underlying,
              r1,
              ground (arith, some_principal),
              r2,
              interest_units-eq-sub underlying principal 0 ∙ ap (λ n. underlying - n) (omega arith),
              r3,
            )

module _ {F : Type 0} (p : Platform F) where
  -- what a buy takes out and who pays, read from the input
  pub record IsPaid (input : CycleInput) (d : ExecuteDecision) : Type 0 where
    pub spend : ℕ
    pub interest : ℕ × ℕ
    pub spend_read : to_units d.spend_usd 18 ≡ ok spend
    pub interest_read : HasInterest input.plan input.plan.mode input.position interest
    pub paid : PaysFor input.plan.mode interest spend d

  -- When decideCycle answers execute, interest pays first: a yield plan spends what was
  -- redeemed before and is unspent, then what its position holds beyond the plan's principal,
  -- and redeems only what the former does not cover and at most the latter, never principal; a
  -- safe plan redeems nothing.
  pub decide_cycle-IsPaid :
      (input : CycleInput) (d : ExecuteDecision)
      → decide_cycle p input ≡ ok (execute d)
      → IsPaid input d
  unfolding cycle
  decide_cycle-IsPaid input d h =
      bind_goes_on (due_stage p input) _ (cycle-eq-goes_on p input d h) λ tick due h1.
        then_goes_on (guardian_stage input.guardian_block) _ h1 λ guard h2.
          bind_goes_on (window_stage input) _ h2 λ regular window h3.
            bind_goes_on (budget_stage input regular) _ h3 λ b budget h4.
              bind_goes_on (asset_stage input tick b) _ h4 λ m asset h5.
                bind_goes_on (price_stage p input regular m) _ h5 λ gap price h6.
                  bind_goes_on (quote_stage p input regular b m) _ h6 λ q quoted h7.
                    subst (IsPaid input)
                      (goes_on-injective (execution input.plan.mode regular b m gap q.0 q.1) d h7)
                      record {
                        spend = q.1;
                        interest = (b.interest_in_position, b.harvested_unspent);
                        spend_read =
                            unfold execution in
                            (quote_stage-IsGoodQuote p input regular b m q.0 q.1 quoted).1;
                        interest_read =
                            interest_of-HasInterest input.plan input.plan.mode input.position _
                              (budget_stage-interest input regular b budget);
                        paid = execution-PaysFor input.plan.mode regular b m gap q.0 q.1;
                      }
