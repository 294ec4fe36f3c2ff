-- ===== src/Decide/Limits.antt =====
-- What a decision may spend: the limits that hold whenever `decideCycle` asks for a quote or buys.
use native.Mathlib.Nat.{le_trans}
use new_bnbhack.Common.{
  ap, ◌∙◌, ℕ, ◌+◌, ◌/◌, ◌≤◌, ◌≡◌, Bool, ltb, smaller, if◌then◌else◌, none, arith, ok,
}
use new_bnbhack.Amounts.{to_units}
use new_bnbhack.Decide.Flows.{
  bind_goes_on, goes_on-injective, units_goes_on, answer_goes_on, throw_goes_on, then_goes_on,
}
use new_bnbhack.Decide.{
  CycleInput, goes_on, Budget, limit_stage, spend_stage, budget_stage, interest_of,
  wait_for_open_if, daily_cap_if,
}

-- The limits on one buy, as the input states them: the plan's own and the cap of a transaction,
-- and half of each while the regular session is closed.
pub record BuyLimits (input : CycleInput) (regular : Bool) (spend : ℕ) : Type 0 where
  pub own_limit : ℕ
  pub cap : ℕ
  pub own_limit_read : to_units input.plan.limits.max_per_buy_usd 18 ≡ ok own_limit
  pub cap_read : to_units input.caps.max_per_tx_usd 18 ≡ ok cap
  pub within_own_limit : spend ≤ (if regular then own_limit else own_limit / 2)
  pub within_cap : spend ≤ (if regular then cap else cap / 2)

-- What there is to spend: the interest, the contribution, and what is left of the day.
pub record Funds (input : CycleInput) (spend : ℕ) : Type 0 where
  pub interest : ℕ × ℕ
  pub contribution : ℕ
  pub remaining : ℕ
  pub interest_read : interest_of input.plan input.plan.mode input.position ≡ goes_on interest
  pub contribution_read : to_units input.plan.contribution_usd 18 ≡ ok contribution
  pub remaining_read : to_units input.daily_remaining_usd 18 ≡ ok remaining
  pub within_funds : spend ≤ interest.0 + interest.1 + contribution
  pub within_remaining : spend ≤ remaining

limit_stage-BuyLimits :
    (input : CycleInput) (limits : ℕ × ℕ)
    → limit_stage input ≡ goes_on limits
    → (regular : Bool) → BuyLimits input regular (if regular then limits.1 else limits.1 / 2)
unfolding limit_stage
limit_stage-BuyLimits input limits h regular =
    units_goes_on input.caps.min_buy_usd _ h λ min_buy _ h1.
      units_goes_on input.plan.limits.max_per_buy_usd _ h1 λ own_limit own_read h2.
        units_goes_on input.caps.max_per_tx_usd _ h2 λ cap cap_read h3.
          throw_goes_on (ltb (smaller own_limit cap) min_buy) _ _ h3 λ enough h4.
            let least =
              ap (λ (l : ℕ × ℕ). l.1)
                (goes_on-injective (min_buy, smaller own_limit cap) limits h4) in
            record {
              own_limit = own_limit;
              cap = cap;
              own_limit_read = own_read;
              cap_read = cap_read;
              within_own_limit = ground (arith, least);
              within_cap = ground (arith, least);
            }

spend_stage-Funds :
    (input : CycleInput) (min_buy per_buy_limit max_per_buy : ℕ) (b : Budget)
    → spend_stage input min_buy per_buy_limit max_per_buy ≡ goes_on b
    → Funds input b.planned_spend
      × (b.planned_spend ≤ max_per_buy)
      × (interest_of input.plan input.plan.mode input.position
          ≡ goes_on (b.interest_in_position, b.harvested_unspent))
unfolding spend_stage
spend_stage-Funds input min_buy per_buy_limit max_per_buy b h =
    bind_goes_on (interest_of input.plan input.plan.mode input.position) _ h
      λ interest interest_read h1.
        units_goes_on input.plan.contribution_usd _ h1 λ contribution contribution_read h2.
          answer_goes_on (ltb (interest.0 + interest.1 + contribution) min_buy) _ _ h2 λ enough h3.
            units_goes_on input.daily_remaining_usd _ h3 λ remaining remaining_read h4.
              then_goes_on (daily_cap_if (ltb remaining min_buy) input none) _ h4 λ _ h5.
                let same = goes_on-injective _ b h5 in
                let planned = ap (λ (c : Budget). c.planned_spend) same in
                let kept : interest ≡ (b.interest_in_position, b.harvested_unspent) =
                  ap (λ (c : Budget). (c.interest_in_position, c.harvested_unspent)) same in
                (
                  record {
                    interest = interest;
                    contribution = contribution;
                    remaining = remaining;
                    interest_read = interest_read;
                    contribution_read = contribution_read;
                    remaining_read = remaining_read;
                    within_funds = ground (arith, planned);
                    within_remaining = ground (arith, planned);
                  },
                  ground (arith, planned),
                  interest_read ∙ ap goes_on kept,
                )

-- What is planned stays within every limit, and so does anything less.
pub record WithinLimits (input : CycleInput) (regular : Bool) (spend : ℕ) : Type 0 where
  pub buy_limits : BuyLimits input regular spend
  pub funds : Funds input spend

BuyLimits-le :
    (input : CycleInput) (regular : Bool) (m n : ℕ)
    → m ≤ n
    → BuyLimits input regular n
    → BuyLimits input regular m
BuyLimits-le input regular m n h l = record {
  own_limit = l.own_limit;
  cap = l.cap;
  own_limit_read = l.own_limit_read;
  cap_read = l.cap_read;
  within_own_limit = le_trans h l.within_own_limit;
  within_cap = le_trans h l.within_cap;
}

Funds-le : (input : CycleInput) (m n : ℕ) → m ≤ n → Funds input n → Funds input m
Funds-le input m n h f = record {
  interest = f.interest;
  contribution = f.contribution;
  remaining = f.remaining;
  interest_read = f.interest_read;
  contribution_read = f.contribution_read;
  remaining_read = f.remaining_read;
  within_funds = le_trans h f.within_funds;
  within_remaining = le_trans h f.within_remaining;
}

pub WithinLimits-le :
    (input : CycleInput) (regular : Bool) (m n : ℕ)
    → m ≤ n
    → WithinLimits input regular n
    → WithinLimits input regular m
WithinLimits-le input regular m n h w = record {
  buy_limits = BuyLimits-le input regular m n h w.buy_limits;
  funds = Funds-le input m n h w.funds;
}

-- The planned spend of a budget is within the limits.
pub budget_stage-WithinLimits :
    (input : CycleInput) (regular : Bool) (b : Budget)
    → budget_stage input regular ≡ goes_on b
    → WithinLimits input regular b.planned_spend
unfolding budget_stage
budget_stage-WithinLimits input regular b h =
    bind_goes_on (limit_stage input) _ h λ limits limits_read h1.
      let max_per_buy = if regular then limits.1 else limits.1 / 2 in
      then_goes_on (wait_for_open_if (ltb max_per_buy limits.0) input.now _) _ h1 λ _ h2.
        let (funds, below, _) = spend_stage-Funds input limits.0 limits.1 max_per_buy b h2 in
        record {
          buy_limits =
              BuyLimits-le input regular b.planned_spend max_per_buy below
                (limit_stage-BuyLimits input limits limits_read regular);
          funds = funds;
        }

-- The interest that a budget counts is the position's.
pub budget_stage-interest :
    (input : CycleInput) (regular : Bool) (b : Budget)
    → budget_stage input regular ≡ goes_on b
    → interest_of input.plan input.plan.mode input.position
      ≡ goes_on (b.interest_in_position, b.harvested_unspent)
unfolding budget_stage
budget_stage-interest input regular b h = bind_goes_on (limit_stage input) _ h λ limits _ h1.
    let max_per_buy = if regular then limits.1 else limits.1 / 2 in
    then_goes_on (wait_for_open_if (ltb max_per_buy limits.0) input.now _) _ h1
      λ _ h2. (spend_stage-Funds input limits.0 limits.1 max_per_buy b h2).2
