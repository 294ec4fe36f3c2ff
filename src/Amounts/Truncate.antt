-- ===== src/Amounts/Truncate.antt =====
-- `truncateDecimal` leaves text that `toUnits` reads.
use mathlib.Core.Path.{subst}
use new_bnbhack.Common.{
  refl, sym, ap, ◌∙◌, ◌==◌, ◌++◌, append-nil, Bool-cases, inl, inr, ℕ, ◌+◌, ◌*◌, ◌^◌, ◌≡◌, ◌≢◌,
  arith, some, [], ◌∷◌, take, All, ◌>>=◌, ok,
}
use new_bnbhack.Common.Text.{Text, trim, value, pad_end, span_digits}
use new_bnbhack.Common.Text.Digits.{IsDigit, span_digits-All, All-take, length-take}
use new_bnbhack.Amounts.{
  match_decimal, groups, fraction, closed_fraction, to_units, truncated, truncate_decimal,
  with_fraction,
}
use new_bnbhack.Amounts.RoundTrip.{to_units-with_fraction}

-- Digits, and digits or nothing behind the point.
pub record IsDecimal (parts : Text × Text) : Type 0 where
  pub whole : parts.0 ≢ []
  pub whole_digits : All IsDigit parts.0
  pub frac_digits : All IsDigit parts.1

closed_fraction-IsDecimal :
    (whole run rest : Text) (parts : Text × Text)
    → whole ≢ []
    → All IsDigit whole
    → All IsDigit run
    → closed_fraction whole (run, rest) ≡ some parts
    → IsDecimal parts
unfolding closed_fraction
closed_fraction-IsDecimal whole [] rest parts ne hw hr h = absurd (cc)
closed_fraction-IsDecimal whole (d ∷ ds) (c ∷ rest) parts ne hw hr h = absurd (cc)
closed_fraction-IsDecimal whole (d ∷ ds) [] parts ne hw hr h =
    let same : (whole, d ∷ ds) ≡ parts = ground arith in
    subst IsDecimal same (record { whole = ne; whole_digits = hw; frac_digits = hr })

fraction-IsDecimal :
    (whole rest : Text) (parts : Text × Text)
    → whole ≢ []
    → All IsDigit whole
    → fraction whole rest ≡ some parts
    → IsDecimal parts
unfolding fraction
fraction-IsDecimal whole [] parts ne hw h =
    let same : (whole, []) ≡ parts = ground arith in
    subst IsDecimal same (record { whole = ne; whole_digits = hw; frac_digits = tt })
fraction-IsDecimal whole (c ∷ rest) parts ne hw h =
    let (run, after) = span_digits rest in
    closed_fraction-IsDecimal whole (span_digits rest).0 (span_digits rest).1 parts ne hw
      (span_digits-All rest) (ground (arith, h))

groups-IsDecimal :
    (run rest : Text) (parts : Text × Text)
    → All IsDigit run
    → groups (run, rest) ≡ some parts
    → IsDecimal parts
unfolding groups
groups-IsDecimal [] rest parts hr h = absurd (cc)
groups-IsDecimal (d ∷ ds) rest parts hr h =
    fraction-IsDecimal (d ∷ ds) rest parts (λ e. absurd (cc)) hr h

pub match_decimal-IsDecimal :
    (s : Text) (parts : Text × Text) → match_decimal s ≡ some parts → IsDecimal parts
unfolding match_decimal
match_decimal-IsDecimal s parts h =
    groups-IsDecimal (span_digits s).0 (span_digits s).1 parts (span_digits-All s) h

span_digits-both : (s : Text) → (span_digits s).0 ++ (span_digits s).1 ≡ s
unfolding span_digits
span_digits-both [] = refl
span_digits-both (c ∷ s) = ground (arith, span_digits-both s)

closed_fraction-text :
    (whole run rest : Text) (parts : Text × Text)
    → closed_fraction whole (run, rest) ≡ some parts
    → whole ++ (b'.' ∷ (run ++ rest)) ≡ parts.0 ++ with_fraction parts.1
unfolding closed_fraction with_fraction
closed_fraction-text whole [] rest parts h = absurd (cc)
closed_fraction-text whole (d ∷ ds) (c ∷ rest) parts h = absurd (cc)
closed_fraction-text whole (d ∷ ds) [] parts h =
    let same : (whole, d ∷ ds) ≡ parts = ground arith in
    ap (λ t. whole ++ (b'.' ∷ t)) (append-nil (d ∷ ds))
    ∙ ap (λ (q : Text × Text). q.0 ++ with_fraction q.1) same

fraction-text :
    (whole rest : Text) (parts : Text × Text)
    → fraction whole rest ≡ some parts
    → whole ++ rest ≡ parts.0 ++ with_fraction parts.1
unfolding fraction with_fraction
fraction-text whole [] parts h =
    let same : (whole, []) ≡ parts = ground arith in
    ap (λ (q : Text × Text). q.0 ++ with_fraction q.1) same
fraction-text whole (c ∷ rest) parts h = elim (Bool-cases (c == b'.')) [
  | inl point ↦
      let dot : c ≡ b'.' = ground (arith, point) in
      ap (λ d. whole ++ (d ∷ rest)) dot
      ∙ ap (λ t. whole ++ (b'.' ∷ t)) (sym (span_digits-both rest))
      ∙ closed_fraction-text whole (span_digits rest).0 (span_digits rest).1 parts (rw point at h)
  | inr other ↦ absurd (cc (rw other at h))
]

groups-text :
    (run rest : Text) (parts : Text × Text)
    → groups (run, rest) ≡ some parts
    → run ++ rest ≡ parts.0 ++ with_fraction parts.1
unfolding groups
groups-text [] rest parts h = absurd (cc)
groups-text (d ∷ ds) rest parts h = fraction-text (d ∷ ds) rest parts h

pub match_decimal-text :
    (s : Text) (parts : Text × Text)
    → match_decimal s ≡ some parts
    → s ≡ parts.0 ++ with_fraction parts.1
unfolding match_decimal
match_decimal-text s parts h =
    sym (span_digits-both s) ∙ groups-text (span_digits s).0 (span_digits s).1 parts h

-- The exact value of a decimal text, cut to `decimals` digits behind the point.
abbrev pub cut_value : Text × Text → ℕ → ℕ
cut_value parts decimals =
    value parts.0 * 10 ^ decimals + value (pad_end (take decimals parts.1) decimals b'0')

-- Extra decimals are cut, and then the text is always read.
pub to_units-truncate_decimal :
    (s : Text) (decimals : ℕ) (parts : Text × Text)
    → match_decimal (trim s) ≡ some parts
    → (truncate_decimal s decimals >>= λ t. to_units t decimals) ≡ ok (cut_value parts decimals)
unfolding truncate_decimal truncated
to_units-truncate_decimal s decimals (whole, frac) h =
    let d = match_decimal-IsDecimal (trim s) (whole, frac) h in
    rw h (
      to_units-with_fraction whole (take decimals frac) decimals d.whole d.whole_digits
        (All-take IsDigit decimals frac d.frac_digits) (length-take decimals frac))
