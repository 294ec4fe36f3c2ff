-- ===== src/Why.antt =====
-- The one-line reasons of packages/core/src/why.ts: the copy keys and the display texts.
use new_bnbhack.Common.{
  ℕ, suc, ◌+◌, ◌-◌, ◌*◌, ◌/◌, ◌%◌, ◌^◌, Bool, true, false, ltb, ◌==◌, ◌&&◌, not, if◌then◌else◌,
  List, [], ◌∷◌, ◌++◌,
}
use new_bnbhack.Common.Int.{ℤ, pos, negsuc}
use new_bnbhack.Common.Text.{Text, codes, eq_text, to_string, pad_start}
use new_bnbhack.Amounts.{from_units}
use new_bnbhack.Platform.{Platform}
pub mod Formats
pub mod Tests

-- `WHY_KEYS`, in its order
pub data WhyKey : Type 0 where
  bought_regular bought_anytime bought_interest : WhyKey
  deferred_market_closed deferred_price_gap deferred_quote_impact : WhyKey
  skipped_below_min : WhyKey
  skipped_earnings skipped_cash_dividend skipped_stock_split : WhyKey
  skipped_daily_cap skipped_guardian skipped_no_liquidity : WhyKey
  failed_simulation failed_onchain : WhyKey
  data_stale data_unavailable : WhyKey
  skipped_guardian_hold skipped_venue_minimum : WhyKey
  closed_review : WhyKey

pub record Why : Type 0 where
  pub key : WhyKey
  pub params : List (Text × Text)

-- `USD_SCALE`: 18-decimal units in a cent
abbrev pub usd_scale : ℕ
usd_scale = 10 ^ 16

-- `${abs / 100n}.${(abs % 100n)}` with two digits
unfoldable pub cents_text : ℕ → Text
cents_text abs = to_string (abs / 100) ++ b'.' ∷ pad_start (to_string (abs % 100)) 2 b'0'

-- `formatUsd`: truncates towards zero; less than a cent below zero shows no sign
unfoldable pub format_usd : ℤ → Text
format_usd (pos n) = cents_text (n / usd_scale)
format_usd (negsuc n) =
    let abs = suc n / usd_scale in if abs == 0 then cents_text abs else b'-' ∷ cents_text abs

-- `formatShares`
unfoldable pub format_shares : ℕ → Text
format_shares units =
    let six = units - units % 10 ^ 12 in
    if (six == 0) && not (units == 0) then from_units (pos units) 18 else from_units (pos six) 18

-- `formatPct`
unfoldable pub format_pct : {F : Type 0} (p : Platform F) → F → Text
format_pct p x =
    let text = p.to_fixed x 2 in if eq_text text (codes "-0.00") then codes "0.00" else text
