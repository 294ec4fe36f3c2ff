-- ===== src/Amounts.antt =====
-- Amount maths of packages/core/src/amounts.ts: exact integers, decimal text at the edges.
-- A token amount is a bigint; it is a natural number where the source never makes it negative, and
-- ℤ where it can be. `throw` is `err`.
pub mod RoundTrip
pub mod Truncate
pub mod Bounds
pub mod Tests
use native.Mathlib.Nat.{sub-zero}
use new_bnbhack.Common.{
  ℕ, zero, suc, ◌+◌, ◌-◌, ◌*◌, ◌/◌, ◌%◌, ◌^◌, ◌≡◌, refl, Bool, true, false, ◌&&◌, ◌||◌, not, Option,
  none, some, List, [], ◌∷◌, ◌++◌, arith, ltb, leb, ◌==◌, if◌then◌else◌, length, take, Error,
  not_decimal, too_many_decimals, rate_not_positive, Result, ok, err, ◌>>=◌, ◌>>◌, throw_if,
}
use new_bnbhack.Common.Int.{ℤ, pos, negsuc, pos_part, neg_part, ◌+ℤ◌, ◌-ℤ◌, ltb_ℤ, sub_ℕ}
use new_bnbhack.Common.Text.{
  Text, codes, trim, value, to_string, span_digits, pad_start, pad_end, drop_end_while,
}

-- The groups of `/^(\d+)(?:\.(\d+))?$/`: the whole part, and the fraction or nothing.
closed_fraction : Text → Text × Text → Option (Text × Text)
closed_fraction whole (d ∷ ds, []) = some (whole, d ∷ ds)
closed_fraction whole _ = none

fraction : Text → Text → Option (Text × Text)
fraction whole [] = some (whole, [])
fraction whole (c ∷ rest) = if c == b'.' then closed_fraction whole (span_digits rest) else none

groups : Text × Text → Option (Text × Text)
groups ([], rest) = none
groups (d ∷ ds, rest) = fraction (d ∷ ds) rest

unfoldable pub match_decimal : Text → Option (Text × Text)
unfolding groups fraction closed_fraction
match_decimal s = groups (span_digits s)

-- `BigInt(x || '0')`: the empty text counts as 0, which `value` gives it too
units_of : Text → ℕ → Option (Text × Text) → Result ℕ
units_of amount decimals none = err (not_decimal amount)
units_of amount decimals (some (whole, frac)) =
    if ltb decimals (length frac)
    then err (too_many_decimals amount decimals)
    else ok (value whole * 10 ^ decimals + value (pad_end frac decimals b'0'))

-- `toUnits`
unfoldable pub to_units : Text → ℕ → Result ℕ
unfolding units_of
to_units amount decimals = units_of amount decimals (match_decimal (trim amount))

-- the fraction behind its point, or nothing
unfoldable pub with_fraction : Text → Text
with_fraction [] = []
with_fraction (d ∷ frac) = b'.' ∷ d ∷ frac

unfoldable pub from_magnitude : ℕ → ℕ → Text
from_magnitude abs decimals =
    let base = 10 ^ decimals in
    let whole = to_string (abs / base) in
    let frac = drop_end_while (λ c. c == b'0') (pad_start (to_string (abs % base)) decimals b'0') in
    whole ++ with_fraction frac

-- `fromUnits`
unfoldable pub from_units : ℤ → ℕ → Text
from_units (pos n) decimals = from_magnitude n decimals
from_units (negsuc n) decimals = b'-' ∷ from_magnitude (suc n) decimals

-- `underlyingFromVTokens`
unfoldable pub underlying_from_v_tokens : ℕ → ℕ → ℕ
underlying_from_v_tokens v_tokens exchange_rate = v_tokens * exchange_rate / 10 ^ 18

-- `vTokensForUnderlying`
unfoldable pub v_tokens_for_underlying : ℕ → ℤ → Result ℕ
v_tokens_for_underlying underlying exchange_rate =
    if ltb_ℤ (pos 0) exchange_rate
    then ok (underlying * 10 ^ 18 / pos_part exchange_rate)
    else err rate_not_positive

-- `utilizationBps`
unfoldable pub utilization_bps : ℕ → ℕ → ℕ → ℕ
utilization_bps cash borrows reserves =
    let supplied = sub_ℕ (cash + borrows) reserves in
    if (borrows == 0) || not (ltb_ℤ (pos 0) supplied)
    then 0
    else (borrows * 10_000 + pos_part supplied - 1) / pos_part supplied

truncated : Text → ℕ → Option (Text × Text) → Result Text
truncated input decimals none = err (not_decimal input)
truncated input decimals (some (whole, frac)) = ok (whole ++ with_fraction (take decimals frac))

-- `truncateDecimal`
unfoldable pub truncate_decimal : Text → ℕ → Result Text
unfolding truncated
truncate_decimal input decimals = truncated input decimals (match_decimal (trim input))

-- `interestUnits`: a position below the principal has no interest
unfoldable pub interest_units : ℕ → ℕ → ℕ → ℕ
interest_units position principal harvested =
    let interest = pos position -ℤ pos principal -ℤ pos harvested in
    if ltb_ℤ (pos 0) interest then pos_part interest else 0
