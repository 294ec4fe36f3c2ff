-- ===== src/Holdings/Tests.antt =====
-- A holding before and after a split.
use new_bnbhack.Common.{◌*◌, ◌/◌, ◌^◌, ◌≡◌, ◌⊎◌, refl, true, [], ok}
use new_bnbhack.Common.Text.{
  codes, big_int, trim, drop_while, drop_end_while, is_space, span_digits, pad_start, pad_end,
  to_string,
}
use new_bnbhack.Amounts.{
  to_units, from_units, match_decimal, truncate_decimal, from_magnitude, with_fraction,
}
use new_bnbhack.Amounts.Truncate.{cut_value}
use new_bnbhack.Holdings.{
  multiplier_units, shares_from_tokens, same_multiplier, HoldingSnapshot, Revalued, revalue_holding,
}
use new_bnbhack.Holdings.Shares.{revalue_holding-shares}

abbrev held : HoldingSnapshot
held = record {
  tokens = codes "1500000000000000000";
  decimals = 18;
  multiplier_at_last_update = codes "1.0";
}

split_shares :
    revalue_holding held (codes "4") ≡ ok (record { shares = codes "6"; multiplier_changed = true })
unfolding revalue_holding shares_from_tokens same_multiplier multiplier_units big_int trim
    drop_while drop_end_while is_space span_digits pad_start pad_end to_string to_units from_units
    match_decimal truncate_decimal from_magnitude with_fraction
split_shares = refl

revalue_holding-shares_example :
    (r : Revalued) × (revalue_holding held (codes "4") ≡ ok r)
    × (to_units r.shares 18
        ≡ ok (1_500_000_000_000_000_000 * cut_value (codes "4", []) 18 / 10 ^ 18))
    × ((r.multiplier_changed ≡ true)
        ⊎ (shares_from_tokens 1_500_000_000_000_000_000 18 (codes "1.0") ≡ ok r.shares))
unfolding big_int trim drop_while drop_end_while is_space span_digits match_decimal
revalue_holding-shares_example =
    revalue_holding-shares held (codes "4") 1_500_000_000_000_000_000 (codes "1", codes "0")
      (codes "4", []) refl refl refl
