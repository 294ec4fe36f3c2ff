-- ===== src/Decide/Bought.antt =====
-- `boughtOutcome`: the outcome and the reason once the receipt of the swap is in.
pub mod Outcome
pub mod Tests
use new_bnbhack.Common.{
  ℕ, ◌==◌, ◌++◌, Bool, true, false, not, Option, none, some, List, [], ◌∷◌, if◌then◌else◌, Result,
  ok, err, ◌>>=◌,
}
use new_bnbhack.Common.Int.{pos}
use new_bnbhack.Common.Text.{Text, codes, big_int}
use new_bnbhack.Amounts.{to_units}
use new_bnbhack.Domain.{Instrument, BoughtOutcome}
use new_bnbhack.Holdings.{shares_from_tokens}
use new_bnbhack.Why.{
  Why, WhyKey, format_usd, format_shares, bought_interest, bought_anytime, bought_regular,
}
use new_bnbhack.Decide.{ExecuteDecision, why}

-- whether interest is used and pays for the whole spend; off hours it is not asked
unfoldable pub interest_pays_all : Bool → Option Text → ℕ → Result Bool
interest_pays_all true interest spend = ok false
interest_pays_all false none spend = ok false
interest_pays_all false (some interest) spend = do paid ← to_units interest 18; ok (paid == spend)

abbrev pub gap_param : Option Text → List (Text × Text)
gap_param none = []
gap_param (some gap) = (codes "gap", gap) ∷ []

abbrev pub bought_key : Bool → WhyKey
bought_key off_hours = if off_hours then bought_anytime else bought_regular

-- the reason, with what it shows
unfoldable pub bought_why : ExecuteDecision → Text → Text → ℕ → Bool → Why
bought_why d ticker shown spend true = why bought_interest (
    (codes "interest", format_usd (pos spend))
    ∷ (codes "ticker", ticker)
    ∷ (codes "shares", shown)
    ∷ [])
bought_why d ticker shown spend false = why (bought_key d.off_hours) (
    ((codes "ticker", ticker)
      ∷ (codes "shares", shown)
      ∷ (codes "usd", format_usd (pos spend))
      ∷ [])
    ++ gap_param d.ref_gap_pct)

abbrev pub bought_record : ExecuteDecision → Text → Text → BoughtOutcome
bought_record d received shares = record {
  spend_usd = d.spend_usd;
  tokens = received;
  shares = shares;
  interest_usd = d.interest_usd;
  ref_gap_pct = d.ref_gap_pct;
}

-- `boughtOutcome`
unfoldable pub bought_outcome : ExecuteDecision → Instrument → Text → Result (BoughtOutcome × Why)
bought_outcome d instrument received_tokens = do
  tokens ← big_int received_tokens
  shares ← shares_from_tokens tokens instrument.decimals instrument.multiplier
  share_units ← to_units shares 18
  spend ← to_units d.spend_usd 18
  by_interest ← interest_pays_all d.off_hours d.interest_usd spend
  ok (
    bought_record d received_tokens shares,
    bought_why d instrument.ticker (format_shares share_units) spend by_interest,
  )
