-- ===== src/Why/Formats.antt =====
-- Display texts never show more than there is.
use new_bnbhack.Common.{
  ◌&&◌, ◌==◌, not, if◌then◌else◌, ℕ, ◌+◌, ◌-◌, ◌*◌, ◌/◌, ◌%◌, ◌^◌, ◌≤◌, ◌<◌, ◌≡◌, ◌↔◌, refl, [],
  ◌∙◌, ap, arith, ◌++◌, ◌∷◌, length, ok, All, All-append, All-replicate, replicate,
}
use new_bnbhack.Common.Int.{pos}
use new_bnbhack.Common.Text.{Text, to_string, pad_start, value}
use new_bnbhack.Common.Text.Digits.{
  IsDigit, to_string-All, to_string-ne-nil, length-to_string, length-pad_start, value-pad_start,
  value-to_string, value-pad_end,
}
use new_bnbhack.Amounts.{from_units, to_units, with_fraction}
use new_bnbhack.Amounts.RoundTrip.{to_units-with_fraction, to_units-from_units}
use new_bnbhack.Why.{usd_scale, cents_text, format_usd, format_shares}

-- the two digits of the cents
cent_digits : ℕ → Text
cent_digits abs = pad_start (to_string (abs % 100)) 2 b'0'

length-cent_digits : (abs : ℕ) → length (cent_digits abs) ≡ 2
unfolding cent_digits
length-cent_digits abs =
    length-pad_start (to_string (abs % 100)) 2 b'0' (length-to_string (abs % 100) 1 (omega arith))

with_fraction_long : (s : Text) → length s ≡ 2 → b'.' ∷ s ≡ with_fraction s
unfolding with_fraction
with_fraction_long [] h = absurd (omega arith)
with_fraction_long (d ∷ s) h = refl

cents_text-with_fraction :
    (abs : ℕ) → cents_text abs ≡ to_string (abs / 100) ++ with_fraction (cent_digits abs)
unfolding cents_text cent_digits
cents_text-with_fraction abs =
    ap (λ t. to_string (abs / 100) ++ t)
      (with_fraction_long (cent_digits abs) (length-cent_digits abs))

cent_digits-All : (abs : ℕ) → All IsDigit (cent_digits abs)
unfolding cent_digits pad_start
cent_digits-All abs =
    let shown = to_string (abs % 100) in
    All-append IsDigit (replicate (2 - length shown) b'0') shown
      (All-replicate IsDigit (2 - length shown) b'0' refl) (to_string-All (abs % 100))

value-cent_digits : (abs : ℕ) → value (cent_digits abs) ≡ abs % 100
unfolding cent_digits
value-cent_digits abs = value-pad_start (to_string (abs % 100)) 2 ∙ value-to_string (abs % 100)

-- A text of cents reads back as that many cents.
to_units-cents_text : (abs : ℕ) → to_units (cents_text abs) 18 ≡ ok (abs * usd_scale)
to_units-cents_text abs = rw cents_text-with_fraction (
    to_units-with_fraction (to_string (abs / 100)) (cent_digits abs) 18
      (to_string-ne-nil (abs / 100)) (to_string-All (abs / 100)) (cent_digits-All abs)
      (omega (arith, length-cent_digits abs))
    ∙ rw (value-pad_end, length-cent_digits, value-to_string, value-cent_digits)
        (ap ok (omega arith)))

-- The dollar text of an amount that is not negative reads back as at most the amount, and less
-- than a cent below it.
pub format_usd_truncates :
    (n : ℕ)
    → (shown : ℕ) × (to_units (format_usd (pos n)) 18 ≡ ok shown)
      × (shown ≤ n)
      × (n < shown + usd_scale)
unfolding format_usd
format_usd_truncates n =
    (n / usd_scale * usd_scale, to_units-cents_text (n / usd_scale), omega arith, omega arith)

six_of : ℕ → ℕ
six_of n = if (n - n % 10 ^ 12 == 0) && not (n == 0) then n else n - n % 10 ^ 12

format_shares-from_units : (n : ℕ) → format_shares n ≡ from_units (pos (six_of n)) 18
unfolding format_shares six_of
format_shares-from_units n = ground arith

-- A share text reads back as at most the shares, less than a millionth below them, and as zero only
-- for no shares at all.
format_shares_truncates :
    (n : ℕ)
    → (shown : ℕ) × (to_units (format_shares n) 18 ≡ ok shown)
      × (shown ≤ n)
      × (n < shown + 10 ^ 12)
      × ((shown ≡ 0) ↔ (n ≡ 0))
unfolding six_of
format_shares_truncates n = (
  six_of n,
  rw format_shares-from_units (to_units-from_units (six_of n) 18),
  ground arith,
  ground arith,
  ground arith,
)
