-- ===== src/Decide/QuietStages.antt =====
-- BUDGET, ASSET and PRICE of `decideCycle` ask for no quote.
use new_bnbhack.Common.{
  ℕ, ◌+◌, ◌/◌, refl, ◌==◌, no_principal, Bool, true, false, ltb, leb, if◌then◌else◌, List, [], ◌∷◌,
  Option, none, some, arith, Option-cases, inl, inr,
}
use new_bnbhack.Common.Text.{Text, codes}
use new_bnbhack.Amounts.{to_units}
use new_bnbhack.Domain.{Plan, PlanMode, safe, yield}
use new_bnbhack.Platform.{Platform}
use new_bnbhack.Decide.Quiet.{
  IsQuiet, IsQuiet-bind, IsQuiet-lift, IsQuiet-answer_if, IsQuiet-throw_if,
  wait_for_open_if-IsQuiet,
}
use new_bnbhack.Decide.{
  CycleInput, InstrumentMarket, Position, Flow, goes_on, ◌>>=◌, units, answer_if, throw_if, Budget,
  interest_of, limit_stage, spend_stage, daily_cap_stop, daily_cap_if, wait_for_open_if,
  budget_stage, Search, Look, chosen, rejected, nothing_found, halted, below_venue, look_at,
  after_look, choose, cap_limit, venue_minimum_stop, nothing_chosen, asset_stage, price_stage,
}

IsQuiet-units {κ} :
    {B : Type κ} (t : Text) (f : ℕ → Flow B) → ((n : ℕ) → IsQuiet (f n)) → IsQuiet (units t >>= f)
IsQuiet-units t f k = IsQuiet-bind (units t) f (IsQuiet-lift (to_units t 18)) k

limit_stage-IsQuiet : (input : CycleInput) → IsQuiet (limit_stage input)
unfolding limit_stage
limit_stage-IsQuiet input = IsQuiet-units input.caps.min_buy_usd _ λ min_buy.
    IsQuiet-units input.plan.limits.max_per_buy_usd _
      λ own_limit. IsQuiet-units input.caps.max_per_tx_usd _ λ cap. ground arith

interest_of-IsQuiet :
    (plan : Plan) (mode : PlanMode) (position : Option Position)
    → IsQuiet (interest_of plan mode position)
unfolding interest_of
interest_of-IsQuiet plan safe position = tt
interest_of-IsQuiet plan yield none = tt
interest_of-IsQuiet plan yield (some position) = IsQuiet-units plan.principal_usd _ λ principal.
    IsQuiet-bind (throw_if (principal == 0) (no_principal plan.id)) _
      (IsQuiet-throw_if (principal == 0) (no_principal plan.id))
      λ _.
        IsQuiet-units position.underlying_usd _
          λ underlying. IsQuiet-units position.harvested_unspent_usd _ λ harvested. tt

daily_cap_stop-IsQuiet {ℓ} :
    (A : Type ℓ) (input : CycleInput) (detail : Option Text)
    → IsQuiet (daily_cap_stop {A = A} input detail)
unfolding daily_cap_stop
daily_cap_stop-IsQuiet A input detail = IsQuiet-units input.daily_limit_usd _ λ n. refl

daily_cap_if-IsQuiet :
    (test : Bool) (input : CycleInput) (detail : Option Text)
    → IsQuiet (daily_cap_if test input detail)
unfolding daily_cap_if
daily_cap_if-IsQuiet true input detail = daily_cap_stop-IsQuiet Unit input detail
daily_cap_if-IsQuiet false input detail = tt

spend_stage-IsQuiet :
    (input : CycleInput) (min_buy per_buy_limit max_per_buy : ℕ)
    → IsQuiet (spend_stage input min_buy per_buy_limit max_per_buy)
unfolding spend_stage
spend_stage-IsQuiet input min_buy per_buy_limit max_per_buy =
    IsQuiet-bind (interest_of input.plan input.plan.mode input.position) _
      (interest_of-IsQuiet input.plan input.plan.mode input.position)
      λ interest. IsQuiet-units input.plan.contribution_usd _ λ contribution.
        IsQuiet-bind (answer_if (ltb (interest.0 + interest.1 + contribution) min_buy) _) _
          (IsQuiet-answer_if _ _ refl)
          λ _. IsQuiet-units input.daily_remaining_usd _ λ remaining.
            IsQuiet-bind (daily_cap_if (ltb remaining min_buy) input none) _
              (daily_cap_if-IsQuiet _ input none) λ _. tt

pub budget_stage-IsQuiet :
    (input : CycleInput) (regular : Bool) → IsQuiet (budget_stage input regular)
unfolding budget_stage
budget_stage-IsQuiet input regular =
    IsQuiet-bind (limit_stage input) _ (limit_stage-IsQuiet input) λ limits.
      let max_per_buy = if regular then limits.1 else limits.1 / 2 in
      IsQuiet-bind (wait_for_open_if (ltb max_per_buy limits.0) input.now _) _
        (wait_for_open_if-IsQuiet _ input.now _)
        λ _. spend_stage-IsQuiet input limits.0 limits.1 max_per_buy

below_venue-IsQuiet :
    (planned : ℕ) (m : InstrumentMarket) (s : Search) → IsQuiet (below_venue planned m s)
unfolding below_venue
below_venue-IsQuiet planned m s = ground arith

halted-IsQuiet : (ticker : Text) (m : InstrumentMarket) (s : Search) → IsQuiet (halted ticker m s)
unfolding halted
halted-IsQuiet ticker m s = ground arith

look_at-IsQuiet :
    (ticker : Text) (excluded : List (Text × Text)) (planned : ℕ) (m : InstrumentMarket)
    (s : Search)
    → IsQuiet (look_at ticker excluded planned m s)
unfolding look_at
look_at-IsQuiet ticker excluded planned m s =
    ground (arith, halted-IsQuiet ticker m s, below_venue-IsQuiet planned m s)

after_look-IsQuiet :
    (m : InstrumentMarket) (s : Search) (rest : Search → Flow (Option InstrumentMarket × Search))
    (look : Look)
    → ((s' : Search) → IsQuiet (rest s'))
    → IsQuiet (after_look m s rest look)
unfolding after_look
after_look-IsQuiet m s rest chosen h = tt
after_look-IsQuiet m s rest (rejected s') h = h s'

choose-IsQuiet :
    (ticker : Text) (excluded : List (Text × Text)) (planned : ℕ) (ms : List InstrumentMarket)
    (s : Search)
    → IsQuiet (choose ticker excluded planned ms s)
unfolding choose
choose-IsQuiet ticker excluded planned [] s = tt
choose-IsQuiet ticker excluded planned (m ∷ ms) s =
    IsQuiet-bind (look_at ticker excluded planned m s) _
      (look_at-IsQuiet ticker excluded planned m s)
      λ look.
        after_look-IsQuiet m s (choose ticker excluded planned ms) look
          (choose-IsQuiet ticker excluded planned ms)

cap_limit-IsQuiet : (input : CycleInput) (limit : ℕ) → IsQuiet (cap_limit input limit)
unfolding cap_limit
cap_limit-IsQuiet input limit = ground arith

venue_minimum_stop-IsQuiet :
    (input : CycleInput) (ticker : Text) (b : Budget) (v : ℕ)
    → IsQuiet (venue_minimum_stop input ticker b v)
unfolding venue_minimum_stop
venue_minimum_stop-IsQuiet input ticker b v =
    IsQuiet-bind (cap_limit input b.max_per_buy) _ (cap_limit-IsQuiet input b.max_per_buy)
      λ now_cap.
        IsQuiet-bind (cap_limit input b.per_buy_limit) _ (cap_limit-IsQuiet input b.per_buy_limit)
          λ full_cap. ground (
            arith,
            wait_for_open_if-IsQuiet (if ltb now_cap v then leb v full_cap else false) input.now
                (some (codes "half_limit_below_venue_min")),
            daily_cap_stop-IsQuiet InstrumentMarket input (some (codes "venue_minimum")),
          )

nothing_chosen-IsQuiet :
    (input : CycleInput) (ticker : Text) (b : Budget) (s : Search)
    → IsQuiet (nothing_chosen input ticker b s)
unfolding nothing_chosen
nothing_chosen-IsQuiet input ticker b s = elim (Option-cases s.venue_minimum) [
  | inl e ↦ ground arith
  | inr (v, e) ↦ ground (arith, venue_minimum_stop-IsQuiet input ticker b v)
]

pub asset_stage-IsQuiet :
    (input : CycleInput) (ticker : Text) (b : Budget) → IsQuiet (asset_stage input ticker b)
unfolding asset_stage
asset_stage-IsQuiet input ticker b =
    IsQuiet-bind (choose ticker _ b.planned_spend _ nothing_found) _
      (choose-IsQuiet ticker _ b.planned_spend _ nothing_found) λ (found, s). picked found s
  where
    picked :
        (found : Option InstrumentMarket) (s : Search)
        → IsQuiet (elim found [ some m ↦ goes_on m | none ↦ nothing_chosen input ticker b s ])
    picked none s = nothing_chosen-IsQuiet input ticker b s
    picked (some m) s = tt

pub price_stage-IsQuiet :
    {F : Type 0} (p : Platform F) (input : CycleInput) (regular : Bool) (m : InstrumentMarket)
    → IsQuiet (price_stage p input regular m)
unfolding price_stage
price_stage-IsQuiet p input regular m = ground arith
