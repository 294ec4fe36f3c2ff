-- ===== src/Common/Text.antt =====
-- Text as the list of its code points, and what the source does with it by the language's library:
-- `trim`, `padStart`, `padEnd`, `slice`, `BigInt(text)`, `n.toString()` and the pattern `\d+`.
pub mod Digits
use Prim.Native.Char.{code}
use Prim.Native.String.{String}
use new_bnbhack.Common.{
  ℕ, zero, suc, ◌+◌, ◌-◌, ◌*◌, ◌/◌, ◌%◌, ◌≡◌, refl, ◌↔◌, Bool, true, false, ◌&&◌, ◌||◌, List, [],
  ◌∷◌, ◌++◌, arith, ltb, leb, ◌==◌, if◌then◌else◌, length, replicate, Result, ok, err, not_a_number,
}

abbrev pub Text : Type 0
Text = List ℕ

abbrev pub codes : String → Text
codes String.[] = []
codes (String.◌∷◌ c s) = code c ∷ codes s

-- `a === b` on strings
unfoldable pub eq_text : Text → Text → Bool
eq_text [] [] = true
eq_text (a ∷ s) (b ∷ t) = (a == b) && eq_text s t
eq_text _ _ = false

pub eq_text_iff : (s t : Text) → (eq_text s t ≡ true) ↔ (s ≡ t)
unfolding eq_text
eq_text_iff [] [] = ground arith
eq_text_iff [] (b ∷ t) = ground arith
eq_text_iff (a ∷ s) [] = ground arith
eq_text_iff (a ∷ s) (b ∷ t) = ground (arith, eq_text_iff s t)

pub eq_text_refl : (s : Text) → eq_text s s ≡ true
eq_text_refl s = (eq_text_iff s s).1 refl

abbrev pub is_digit : ℕ → Bool
is_digit c = leb b'0' c && leb c b'9'

-- white space and line terminators, as `String.prototype.trim` has them
unfoldable pub is_space : ℕ → Bool
is_space c =
    (leb 9 c && leb c 13)
    || (c == 32)
    || (c == 160)
    || (c == 5760)
    || (leb 8192 c && leb c 8202)
    || (c == 8232)
    || (c == 8233)
    || (c == 8239)
    || (c == 8287)
    || (c == 12288)
    || (c == 65279)

unfoldable pub drop_while : (ℕ → Bool) → Text → Text
drop_while p [] = []
drop_while p (c ∷ s) = elim (p c) [ true ↦ drop_while p s | false ↦ c ∷ s ]

-- cuts the longest end whose characters all satisfy `p`
unfoldable pub drop_end_while : (ℕ → Bool) → Text → Text
drop_end_while p [] = []
drop_end_while p (c ∷ s) = elim (drop_end_while p s) [
  | [] ↦ (if p c then [] else c ∷ [])
  | d ∷ t ↦ c ∷ d ∷ t
]

unfoldable pub trim : Text → Text
trim s = drop_end_while is_space (drop_while is_space s)

unfoldable pub pad_start : Text → ℕ → ℕ → Text
pad_start s n c = replicate (n - length s) c ++ s

unfoldable pub pad_end : Text → ℕ → ℕ → Text
pad_end s n c = s ++ replicate (n - length s) c

-- the number that decimal digits spell, read behind `n`
abbrev pub value_from : ℕ → Text → ℕ
value_from n [] = n
value_from n (c ∷ s) = value_from (n * 10 + (c - b'0')) s

-- `BigInt(digits)`, which is 0 on the empty text
abbrev pub value : Text → ℕ
value = value_from 0

-- The digits of `n` in front of `out`. More fuel than `n` is always enough: see `digits_from-step`.
digits_from : ℕ → ℕ → Text → Text
digits_from zero n out = out
digits_from (suc fuel) n out = elim (ltb n 10) [
  | true ↦ (b'0' + n) ∷ out
  | false ↦ digits_from fuel (n / 10) ((b'0' + n % 10) ∷ out)
]

-- `n.toString()`
unfoldable pub to_string : ℕ → Text
unfolding digits_from
to_string n = digits_from (suc n) n []

-- the longest run of digits at the front, and what follows
unfoldable pub span_digits : Text → Text × Text
span_digits [] = ([], [])
span_digits (c ∷ s) =
    let (run, rest) = span_digits s in if is_digit c then (c ∷ run, rest) else ([], c ∷ s)

-- `BigInt(text)` of the decimal digits that the source records its amounts as, which is 0 on the
-- empty text; a sign or another base, which it never records, counts as no number here
digits_only : Text → Text × Text → Result ℕ
digits_only text (run, []) = ok (value run)
digits_only text (run, c ∷ rest) = err (not_a_number text)

unfoldable pub big_int : Text → Result ℕ
unfolding digits_only
big_int text = digits_only text (span_digits (trim text))

to_string_example : to_string 120450 ≡ codes "120450"
unfolding to_string
to_string_example = refl

trim_example : trim (codes "  1.5 \n") ≡ codes "1.5"
unfolding trim drop_while drop_end_while is_space
trim_example = refl

span_digits_example : span_digits (codes "12.5") ≡ (codes "12", codes ".5")
unfolding span_digits
span_digits_example = refl

-- `toLowerCase` and SQL's `lower`, on the letters of ASCII; hashes and addresses have no others
abbrev pub lower_code : ℕ → ℕ
lower_code c = if leb b'A' c && leb c b'Z' then c + 32 else c

unfoldable pub to_lower : Text → Text
to_lower [] = []
to_lower (c ∷ s) = lower_code c ∷ to_lower s

pub to_lower_idempotent : (s : Text) → to_lower (to_lower s) ≡ to_lower s
unfolding to_lower
to_lower_idempotent [] = refl
to_lower_idempotent (c ∷ s) = ground (arith, to_lower_idempotent s)
