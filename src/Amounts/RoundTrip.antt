-- ===== src/Amounts/RoundTrip.antt =====
-- `toUnits` reads back every amount that `fromUnits` prints.
use native.Mathlib.Nat.{div-add-mod', mod-lt, one-le-pow}
use new_bnbhack.Common.{
  ℕ, zero, suc, ◌+◌, ◌-◌, ◌*◌, ◌/◌, ◌%◌, ◌^◌, ◌≤◌, ◌<◌, ◌≡◌, ◌≢◌, refl, sym, ◌∙◌, ap, ap₂, some, [],
  ◌∷◌, ◌++◌, append-nil, arith, ltb-eq-false, ◌==◌, length, replicate, All, All-append,
  All-replicate, ok,
}
use new_bnbhack.Common.Int.{pos}
use new_bnbhack.Common.Text.{Text, is_space, pad_start, pad_end, value, to_string, drop_end_while}
use new_bnbhack.Common.Text.Digits.{
  IsDigit, IsInk, value-to_string, to_string-All, to_string-ne-nil, length-to_string,
  span_digits-append, span_digits_all, All-digit-IsInk, trim_ink, drop_end_while-All,
  pad_end-drop_end_while, length-drop_end_while, value-pad_start, length-pad_start,
}
use new_bnbhack.Amounts.{match_decimal, to_units, with_fraction, from_magnitude, from_units}

-- Digits, a point and digits are split at the point.
match_decimal-with_fraction :
    (whole frac : Text)
    → whole ≢ []
    → All IsDigit whole
    → All IsDigit frac
    → match_decimal (whole ++ with_fraction frac) ≡ some (whole, frac)
unfolding match_decimal with_fraction
match_decimal-with_fraction [] frac h _ _ = absurd (h refl)
match_decimal-with_fraction (w ∷ ws) [] _ hw _ = rw (append-nil, span_digits_all (w ∷ ws) hw)
match_decimal-with_fraction (w ∷ ws) (d ∷ ds) _ hw hd =
    rw (span_digits-append (w ∷ ws) b'.' (d ∷ ds) hw refl, span_digits_all (d ∷ ds) hd)

with_fraction-All-IsInk : (frac : Text) → All IsDigit frac → All IsInk (with_fraction frac)
unfolding with_fraction is_space
with_fraction-All-IsInk [] _ = tt
with_fraction-All-IsInk (d ∷ ds) h = (refl, All-digit-IsInk (d ∷ ds) h)

-- A printed amount is read digit by digit, whatever its two parts are.
pub to_units-with_fraction :
    (whole frac : Text) (decimals : ℕ)
    → whole ≢ []
    → All IsDigit whole
    → All IsDigit frac
    → length frac ≤ decimals
    → to_units (whole ++ with_fraction frac) decimals
      ≡ ok (value whole * 10 ^ decimals + value (pad_end frac decimals b'0'))
unfolding to_units
to_units-with_fraction whole frac decimals ne hw hf fits = rw (
  trim_ink _ (All-append _ whole _ (All-digit-IsInk whole hw) (with_fraction-All-IsInk frac hf)),
  match_decimal-with_fraction whole frac ne hw hf,
  ltb-eq-false _ _ fits,
)

-- The digits of the fraction that `fromUnits` prints.
frac_digits : ℕ → ℕ → Text
frac_digits n decimals = drop_end_while (λ c. c == b'0') (pad_start (to_string n) decimals b'0')

frac_digits_zero : (length (frac_digits 0 0) ≤ 0) × (value (pad_end (frac_digits 0 0) 0 b'0') ≡ 0)
unfolding frac_digits drop_end_while pad_start pad_end to_string
frac_digits_zero = (omega arith, refl)

-- Padding the printed fraction back gives the number that it stands for.
value-frac_digits :
    (n decimals : ℕ)
    → n < 10 ^ decimals
    → (length (frac_digits n decimals) ≤ decimals)
      × (value (pad_end (frac_digits n decimals) decimals b'0') ≡ n)
unfolding frac_digits
value-frac_digits n zero h = let e : n ≡ 0 = omega arith in rw e frac_digits_zero
value-frac_digits n (suc k) h =
    let full = pad_start (to_string n) (suc k) b'0' in
    let size : length full ≡ suc k =
      length-pad_start (to_string n) (suc k) b'0' (length-to_string n k h) in
    (
      omega (arith, length-drop_end_while (λ c. c == b'0') full, size),
      ap (λ m. value (pad_end (drop_end_while (λ c. c == b'0') full) m b'0')) (sym size)
          ∙ ap value (pad_end-drop_end_while b'0' full)
          ∙ value-pad_start (to_string n) (suc k)
          ∙ value-to_string n,
    )

frac_digits-All : (n decimals : ℕ) → All IsDigit (frac_digits n decimals)
unfolding frac_digits pad_start
frac_digits-All n decimals = drop_end_while-All IsDigit _ (pad_start (to_string n) decimals b'0') (
    All-append IsDigit (replicate (decimals - length (to_string n)) b'0') (to_string n)
      (All-replicate IsDigit (decimals - length (to_string n)) b'0' refl) (to_string-All n))

-- Every amount that is not negative is read back by toUnits from what fromUnits prints, at the
-- same number of decimals.
pub to_units-from_units : (n decimals : ℕ) → to_units (from_units (pos n) decimals) decimals ≡ ok n
unfolding from_units from_magnitude frac_digits
to_units-from_units n decimals =
    let base = 10 ^ decimals in
    let small : n % base < base = mod-lt n (one-le-pow decimals 10 (omega arith)) in
    let (fits, exact) = value-frac_digits (n % base) decimals small in
    to_units-with_fraction (to_string (n / base)) (frac_digits (n % base) decimals) decimals
      (to_string-ne-nil (n / base)) (to_string-All (n / base)) (frac_digits-All (n % base) decimals)
      fits
    ∙ ap ok (ap₂ (λ a b. a * base + b) (value-to_string (n / base)) exact ∙ div-add-mod' n base)

-- An amount is read at more decimals than it was printed at, too.
pub to_units-from_units_wider :
    (n decimals more : ℕ)
    → decimals ≤ more
    → (m : ℕ) × (to_units (from_units (pos n) decimals) more ≡ ok m)
unfolding from_units from_magnitude frac_digits
to_units-from_units_wider n decimals more h =
    let base = 10 ^ decimals in
    let (fits, exact) =
      value-frac_digits (n % base) decimals (mod-lt n (one-le-pow decimals 10 (omega arith))) in
    (
      _,
      to_units-with_fraction (to_string (n / base)) (frac_digits (n % base) decimals) more
          (to_string-ne-nil (n / base)) (to_string-All (n / base))
          (frac_digits-All (n % base) decimals) (omega (arith, fits)),
    )
