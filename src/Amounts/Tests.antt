-- ===== src/Amounts/Tests.antt =====
-- Runs of the amount maths, and the theorems at concrete amounts.
use new_bnbhack.Common.{
  ◌+◌, ◌-◌, ◌*◌, ◌^◌, ◌<◌, ◌≤◌, ◌≡◌, ◌↔◌, refl, arith, ok, err, not_decimal, too_many_decimals,
}
use new_bnbhack.Common.Int.{pos, negsuc}
use new_bnbhack.Common.Text.{
  codes, trim, drop_while, drop_end_while, is_space, span_digits, pad_end, pad_start, to_string,
}
use new_bnbhack.Amounts.{
  match_decimal, to_units, with_fraction, from_magnitude, from_units, truncate_decimal,
  underlying_from_v_tokens, v_tokens_for_underlying, utilization_bps,
}
use new_bnbhack.Amounts.RoundTrip.{to_units-from_units}
use new_bnbhack.Amounts.Bounds.{deposit_rounds_down, utilization_bps_limit}

to_units_padded : to_units (codes " 12.345 ") 18 ≡ ok 12_345_000_000_000_000_000
unfolding to_units match_decimal trim drop_while drop_end_while is_space span_digits pad_end
to_units_padded = refl

to_units_too_many : to_units (codes "1.234") 2 ≡ err (too_many_decimals (codes "1.234") 2)
unfolding to_units match_decimal trim drop_while drop_end_while is_space span_digits pad_end
to_units_too_many = refl

to_units_bare_point : to_units (codes "1.") 2 ≡ err (not_decimal (codes "1."))
unfolding to_units match_decimal trim drop_while drop_end_while is_space span_digits pad_end
to_units_bare_point = refl

from_units_negative : from_units (negsuc 1_249) 3 ≡ codes "-1.25"
unfolding from_units from_magnitude with_fraction to_string pad_start drop_end_while
from_units_negative = refl

truncate_decimal_cut : truncate_decimal (codes "1.00077") 3 ≡ ok (codes "1.000")
unfolding truncate_decimal match_decimal with_fraction trim drop_while drop_end_while is_space
    span_digits
truncate_decimal_cut = refl

to_units-from_units_example :
    to_units (from_units (pos 12_345_000_000_000_000_000) 18) 18 ≡ ok 12_345_000_000_000_000_000
to_units-from_units_example = to_units-from_units 12_345_000_000_000_000_000 18

deposit_rounds_down_example :
    (underlying_from_v_tokens 333 (3 * 10 ^ 18) ≤ 1_000)
    × (1_000 * 10 ^ 18 < 333 * (3 * 10 ^ 18) + 3 * 10 ^ 18)
    × (333 * (3 * 10 ^ 18) ≤ 1_000 * 10 ^ 18)
unfolding v_tokens_for_underlying
deposit_rounds_down_example = deposit_rounds_down 1_000 (3 * 10 ^ 18) 333 refl

utilization_bps_limit_example :
    (9_500 < utilization_bps 5 95 0) ↔ (9_500 * (5 + 95 - 0) < 95 * 10_000)
utilization_bps_limit_example = utilization_bps_limit 5 95 0 9_500 (omega arith)
