-- ===== src/PlanLimits/Dollars.antt =====
-- What `USD_AMOUNT` of packages/core/src/limits.ts lets through.
use new_bnbhack.Common.{
  ◌≤◌, ◌≡◌, ◌≢◌, ◌⊎◌, inl, inr, ◌++◌, [], arith, All, Option-cases, true, length,
}
use new_bnbhack.Common.Text.{Text}
use new_bnbhack.Common.Text.Digits.{IsDigit}
use new_bnbhack.Amounts.{match_decimal, with_fraction}
use new_bnbhack.Amounts.Truncate.{match_decimal-IsDecimal, match_decimal-text}
use new_bnbhack.PlanLimits.{is_usd_amount}

-- digits, and behind a point no more than two
abbrev pub IsDollars : Text → Type 0
IsDollars text =
    (whole : Text) × (cents : Text) × (text ≡ whole ++ with_fraction cents)
    × (whole ≢ [])
    × All IsDigit whole
    × All IsDigit cents
    × (length cents ≤ 2)

-- the plan's own setting, or dollars
abbrev pub IsOwnOrDollars : Text → Text → Type 0
IsOwnOrDollars own new = (new ≡ own) ⊎ IsDollars new

pub is_usd_amount-IsDollars : (text : Text) → is_usd_amount text ≡ true → IsDollars text
unfolding is_usd_amount
is_usd_amount-IsDollars text h = elim (Option-cases (match_decimal text)) [
  | inl missing ↦ absurd (cc (rw missing at h))
  | inr (parts, there) ↦
      let digits = match_decimal-IsDecimal text parts there in
      (
        parts.0,
        parts.1,
        match_decimal-text text parts there,
        digits.whole,
        digits.whole_digits,
        digits.frac_digits,
        ground (arith, rw there at h),
      )
]
