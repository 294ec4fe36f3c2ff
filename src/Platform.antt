-- ===== src/Platform.antt =====
-- What the source takes from its runtime and no exact model can give: double-precision numbers and
-- `Date.parse`. `Platform F` names the operations that are used, `F` standing for the doubles.
-- `scaled_platform` is a concrete one for the runs: decimals scaled by 10^18, `none` for NaN, and
-- instants written as their milliseconds.
use new_bnbhack.Common.{
  ℕ, suc, ◌*◌, ◌/◌, ◌^◌, Bool, true, false, if◌then◌else◌, Option, none, some, ok, err,
}
use new_bnbhack.Common.Int.{ℤ, pos, pos_part, neg_part, sub_ℕ, ◌-ℤ◌, ◌*ℤ◌, ltb_ℤ}
use new_bnbhack.Common.Text.{Text, codes}
use new_bnbhack.Amounts.{to_units, from_units}

pub record Platform (F : Type 0) : Type 0 where
  pub nan : F
  -- `Number(text)`
  pub number : Text → F
  -- a numeric literal of the source, `n / 100`
  pub hundredths : ℕ → F
  pub is_finite : F → Bool
  -- `a < b`; false when either is NaN
  pub lt : F → F → Bool
  -- `a <= b`
  pub le : F → F → Bool
  pub sub : F → F → F
  pub mul : F → F → F
  pub div : F → F → F
  pub negate : F → F
  -- `x.toFixed(digits)`
  pub to_fixed : F → ℕ → Text
  -- `String(x)`
  pub show : F → Text
  -- `Date.parse(text)`, `none` for NaN
  pub date_parse : Text → Option ℕ

abbrev pub Scaled : Type 0
Scaled = Option ℤ

abbrev pub unit : ℕ
unit = 10 ^ 18

abbrev pub on_two : (ℤ → ℤ → Scaled) → Scaled → Scaled → Scaled
on_two f (some a) (some b) = f a b
on_two f _ _ = none

abbrev pub test_two : (ℤ → ℤ → Bool) → Scaled → Scaled → Bool
test_two f (some a) (some b) = f a b
test_two f _ _ = false

-- truncating division by a positive number; anything else is NaN here
abbrev pub div_ℤ : ℤ → ℤ → Scaled
div_ℤ a (pos (suc b)) = some (sub_ℕ (pos_part a / suc b) (neg_part a / suc b))
div_ℤ a _ = none

abbrev pub read_number : Text → Scaled
unfolding to_units
read_number s = elim (to_units s 18) [ ok n ↦ some (pos n) | err e ↦ none ]

abbrev pub read_time : Text → Option ℕ
unfolding to_units
read_time s = elim (to_units s 0) [ ok n ↦ some n | err e ↦ none ]

abbrev pub print_scaled : Scaled → Text
unfolding from_units
print_scaled none = codes "NaN"
print_scaled (some x) = from_units x 18

abbrev pub scaled_platform : Platform Scaled
scaled_platform = record {
  nan = none;
  number = read_number;
  hundredths = λ n. some (pos (n * 10 ^ 16));
  is_finite = λ x. elim x [ none ↦ false | some _ ↦ true ];
  lt = test_two ltb_ℤ;
  le = test_two (λ a b. if ltb_ℤ b a then false else true);
  sub = on_two (λ a b. some (a -ℤ b));
  mul = on_two (λ a b. div_ℤ (a *ℤ b) (pos unit));
  div = on_two (λ a b. div_ℤ (a *ℤ pos unit) b);
  negate = λ x. on_two (λ a b. some (a -ℤ b)) (some (pos 0)) x;
  to_fixed = λ x digits. print_scaled x;
  show = print_scaled;
  date_parse = read_time;
}
