-- ===== src/Holdings/Shares.antt =====
-- What a holding's shares are worth, and when they move.
use new_bnbhack.Common.{
  ℕ, ◌*◌, ◌/◌, ◌^◌, ◌≡◌, ◌⊎◌, inl, inr, refl, true, not, some, ◌==◌, ==_iff, Bool-cases, ok,
}
use new_bnbhack.Common.Int.{pos}
use new_bnbhack.Common.Text.{Text, trim, big_int}
use new_bnbhack.Amounts.{to_units, from_units, match_decimal}
use new_bnbhack.Amounts.RoundTrip.{to_units-from_units}
use new_bnbhack.Amounts.Truncate.{cut_value, to_units-truncate_decimal}
use new_bnbhack.Holdings.{
  multiplier_units, shares_from_tokens, same_multiplier, HoldingSnapshot, Revalued, revalue_holding,
}

-- A decimal multiplier is always read, whatever its number of decimals.
pub multiplier_units-eq-ok :
    (s : Text) (parts : Text × Text)
    → match_decimal (trim s) ≡ some parts
    → multiplier_units s ≡ ok (cut_value parts 18)
unfolding multiplier_units
multiplier_units-eq-ok s parts h = to_units-truncate_decimal s 18 parts h

pub shares_from_tokens-eq-ok :
    (tokens decimals : ℕ) (s : Text) (parts : Text × Text)
    → match_decimal (trim s) ≡ some parts
    → shares_from_tokens tokens decimals s
      ≡ ok (from_units (pos (tokens * cut_value parts 18 / 10 ^ 18)) decimals)
unfolding shares_from_tokens
shares_from_tokens-eq-ok tokens decimals s parts h = rw (multiplier_units-eq-ok s parts h) refl

-- A holding of a decimal number of tokens is always revalued: its shares read back as tokens times
-- the current multiplier, rounded down, and where the multiplier is reported as unchanged they are
-- the shares at the multiplier of the last update.
pub revalue_holding-shares :
    (holding : HoldingSnapshot) (current : Text) (tokens : ℕ) (before after : Text × Text)
    → big_int holding.tokens ≡ ok tokens
    → match_decimal (trim holding.multiplier_at_last_update) ≡ some before
    → match_decimal (trim current) ≡ some after
    → (r : Revalued) × (revalue_holding holding current ≡ ok r)
      × (to_units r.shares holding.decimals ≡ ok (tokens * cut_value after 18 / 10 ^ 18))
      × ((r.multiplier_changed ≡ true)
          ⊎ (shares_from_tokens tokens holding.decimals holding.multiplier_at_last_update
              ≡ ok r.shares))
unfolding revalue_holding same_multiplier
revalue_holding-shares holding current tokens before after read last now =
    let old = cut_value before 18 in
    let new_ = cut_value after 18 in
    (
      record {
        shares = from_units (pos (tokens * new_ / 10 ^ 18)) holding.decimals;
        multiplier_changed = not (old == new_);
      },
      rw
          (
            read,
            shares_from_tokens-eq-ok tokens holding.decimals current after now,
            multiplier_units-eq-ok holding.multiplier_at_last_update before last,
            multiplier_units-eq-ok current after now,
          )
          refl,
      to_units-from_units (tokens * new_ / 10 ^ 18) holding.decimals,
      elim (Bool-cases (old == new_)) [
        | inl same ↦ inr (
            rw
              (
                shares_from_tokens-eq-ok tokens holding.decimals holding.multiplier_at_last_update
                    before last,
                (==_iff old new_).0 same,
              )
              refl)
        | inr other ↦ inl (rw other refl)
      ],
    )
