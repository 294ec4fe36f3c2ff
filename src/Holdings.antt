-- ===== src/Holdings.antt =====
-- Holdings of packages/core/src/holdings.ts: shares are tokens times the token's multiplier.
pub mod Shares
pub mod Tests
use new_bnbhack.Common.{
  ℕ, ◌*◌, ◌/◌, ◌^◌, ◌==◌, ◌||◌, leb, not, Bool, Option, none, some, if◌then◌else◌, Result, ok, err,
  ◌>>=◌,
}
use new_bnbhack.Common.Int.{pos}
use new_bnbhack.Common.Text.{Text, big_int}
use new_bnbhack.Amounts.{to_units, from_units, truncate_decimal}
use new_bnbhack.Calendar.{iso}

abbrev pub multiplier_decimals : ℕ
multiplier_decimals = 18

-- `multiplierUnits`
unfoldable pub multiplier_units : Text → Result ℕ
multiplier_units multiplier = do
  text ← truncate_decimal multiplier multiplier_decimals
  to_units text multiplier_decimals

-- `sharesFromTokens`
unfoldable pub shares_from_tokens : ℕ → ℕ → Text → Result Text
shares_from_tokens token_units decimals multiplier = do
  m ← multiplier_units multiplier
  ok (from_units (pos (token_units * m / 10 ^ 18)) decimals)

-- `sameMultiplier`
unfoldable pub same_multiplier : Text → Text → Result Bool
same_multiplier a b = do m ← multiplier_units a; n ← multiplier_units b; ok (m == n)

pub record HoldingSnapshot : Type 0 where
  pub tokens : Text
  pub decimals : ℕ
  pub multiplier_at_last_update : Text

pub record Revalued : Type 0 where
  pub shares : Text
  pub multiplier_changed : Bool

-- `revalueHolding`
unfoldable pub revalue_holding : HoldingSnapshot → Text → Result Revalued
revalue_holding holding current = do
  tokens ← big_int holding.tokens
  shares ← shares_from_tokens tokens holding.decimals current
  same ← same_multiplier holding.multiplier_at_last_update current
  ok (record { shares = shares; multiplier_changed = not same })

pub record PendingMultiplierChange : Type 0 where
  pub from_ : Text
  pub to : Text
  pub effective_at : Text

-- nothing is pending when the two multipliers are the same number
unfoldable pub pending_change : Text → Text → ℕ → Bool → Option PendingMultiplierChange
pending_change current next sec same =
    if same
    then none
    else some (record { from_ = current; to = next; effective_at = iso (sec * 1000) })

-- `upcomingMultiplierChange`, of a whole second; 0 means none is scheduled
unfoldable pub upcoming_multiplier_change :
    Text → Text → ℕ → ℕ → Result (Option PendingMultiplierChange)
upcoming_multiplier_change current next sec now =
    if (sec == 0) || leb (sec * 1000) now
    then ok none
    else (do same ← same_multiplier current next; ok (pending_change current next sec same))
