-- ===== src/Common/Text/Digits.antt =====
-- Laws of decimal digits, of padding and of trimming.
use native.Mathlib.Nat.{pow-suc, pow-zero, mul-one, mul_comm, mul_assoc, sub-zero, suc-sub-suc}
use native.Mathlib.Decide.{dec_lt}
use new_bnbhack.Common.{
  ℕ, zero, suc, ◌+◌, ◌-◌, ◌*◌, ◌/◌, ◌%◌, ◌^◌, ◌≤◌, ◌<◌, ◌≡◌, ◌≢◌, refl, ◌∙◌, ap, Bool, true, false,
  [], ◌∷◌, ◌++◌, arith, ◌==◌, ==_iff, if◌then◌else◌, length, replicate, take, All, Bool-cases, inl,
  inr, length-append, length-replicate,
}
use new_bnbhack.Common.Text.{
  Text, is_digit, is_space, drop_while, drop_end_while, trim, pad_start, pad_end, value_from, value,
  digits_from, to_string, span_digits,
}

abbrev pub IsDigit : ℕ → Type 0
IsDigit c = is_digit c ≡ true

abbrev pub IsInk : ℕ → Type 0
IsInk c = is_space c ≡ false

pub value_from-append : (n : ℕ) (s t : Text) → value_from n (s ++ t) ≡ value_from (value_from n s) t
value_from-append n [] t = refl
value_from-append n (c ∷ s) t = value_from-append (n * 10 + (c - b'0')) s t

digits_from_small :
    (fuel n : ℕ) (out : Text) → n < 10 → digits_from (suc fuel) n out ≡ (b'0' + n) ∷ out
unfolding digits_from
digits_from_small fuel n out h = ground arith

digits_from_large :
    (fuel n : ℕ) (out : Text)
    → 10 ≤ n
    → digits_from (suc fuel) n out ≡ digits_from fuel (n / 10) ((b'0' + n % 10) ∷ out)
unfolding digits_from
digits_from_large fuel n out h = ground arith

-- The fuel never runs out when it is above the number.
value-digits_from :
    (fuel n : ℕ) (out : Text) → n < fuel → value (digits_from fuel n out) ≡ value_from n out
value-digits_from zero n out h = elim h [ ]
value-digits_from (suc fuel) n out h = elim (dec_lt n 10) [
  | yes small ↦ rw (digits_from_small fuel n out small) (ap (λ m. value_from m out) (omega arith))
  | no large ↦ rw (digits_from_large fuel n out (omega arith)) (
      value-digits_from fuel (n / 10) ((b'0' + n % 10) ∷ out) (omega arith)
      ∙ ap (λ m. value_from m out) (omega arith))
]

-- Printing a number in decimal and reading the digits gives the number.
pub value-to_string : (n : ℕ) → value (to_string n) ≡ n
unfolding to_string
value-to_string n = value-digits_from (suc n) n [] (omega arith)

digits_from-All : (fuel n : ℕ) (out : Text) → All IsDigit out → All IsDigit (digits_from fuel n out)
digits_from-All zero n out h = unfold digits_from in h
digits_from-All (suc fuel) n out h = elim (dec_lt n 10) [
  | yes small ↦ rw (digits_from_small fuel n out small) (ground arith, h)
  | no large ↦
      rw (digits_from_large fuel n out (omega arith))
        (digits_from-All fuel (n / 10) ((b'0' + n % 10) ∷ out) (ground arith, h))
]

pub to_string-All : (n : ℕ) → All IsDigit (to_string n)
unfolding to_string
to_string-All n = digits_from-All (suc n) n [] tt

length-digits_from :
    (fuel k n : ℕ) (out : Text)
    → n < 10 ^ suc k
    → length (digits_from fuel n out) ≤ suc k + length out
length-digits_from zero k n out h = unfold digits_from in omega arith
length-digits_from (suc fuel) zero n out h = rw (digits_from_small fuel n out h) (omega arith)
length-digits_from (suc fuel) (suc k) n out h = elim (dec_lt n 10) [
  | yes small ↦ rw (digits_from_small fuel n out small) (omega arith)
  | no large ↦ rw (digits_from_large fuel n out (omega arith)) (
      omega (
        arith,
        length-digits_from fuel k (n / 10) ((b'0' + n % 10) ∷ out)
            (omega (arith, pow-suc 10 (suc k))),
      ))
]

pub length-to_string : (n k : ℕ) → n < 10 ^ suc k → length (to_string n) ≤ suc k
unfolding to_string
length-to_string n k h = omega (arith, length-digits_from (suc n) k n [] h)

digits_from-ne-nil : (fuel n : ℕ) (out : Text) → out ≢ [] → digits_from fuel n out ≢ []
unfolding digits_from
digits_from-ne-nil zero n out h = h
digits_from-ne-nil (suc fuel) n out h =
    ground (arith, digits_from-ne-nil fuel (n / 10) ((b'0' + n % 10) ∷ out))

pub to_string-ne-nil : (n : ℕ) → to_string n ≢ []
unfolding to_string digits_from
to_string-ne-nil n = ground (arith, digits_from-ne-nil n (n / 10) ((b'0' + n % 10) ∷ []))

-- A run of digits is read whole, up to what follows.
pub span_digits-append :
    (s : Text) (c : ℕ) (t : Text)
    → All IsDigit s
    → is_digit c ≡ false
    → span_digits (s ++ c ∷ t) ≡ (s, c ∷ t)
unfolding span_digits
span_digits-append [] c t _ hc = rw hc
span_digits-append (d ∷ s) c t (hd, hs) hc = rw (span_digits-append s c t hs hc, hd)

pub span_digits_all : (s : Text) → All IsDigit s → span_digits s ≡ (s, [])
unfolding span_digits
span_digits_all [] _ = refl
span_digits_all (d ∷ s) (hd, hs) = rw (span_digits_all s hs, hd)

-- The run at the front has digits only.
pub span_digits-All : (s : Text) → All IsDigit (span_digits s).0
unfolding span_digits
span_digits-All [] = tt
span_digits-All (c ∷ s) = elim (Bool-cases (is_digit c)) [
  | inl digit ↦ rw digit (digit, span_digits-All s)
  | inr other ↦ rw other tt
]

pub All-take {κ} : (P : ℕ → Type κ) (n : ℕ) (s : Text) → All P s → All P (take n s)
All-take P zero s h = tt
All-take P (suc n) [] h = tt
All-take P (suc n) (c ∷ s) (h, hs) = (h, All-take P n s hs)

pub length-take : (n : ℕ) (s : Text) → length (take n s) ≤ n
length-take zero s = omega arith
length-take (suc n) [] = omega arith
length-take (suc n) (c ∷ s) = omega (arith, length-take n s)

digit-IsInk : (c : ℕ) → IsDigit c → IsInk c
unfolding is_space
digit-IsInk c h = ground arith

pub All-digit-IsInk : (s : Text) → All IsDigit s → All IsInk s
All-digit-IsInk [] _ = tt
All-digit-IsInk (c ∷ s) (h, hs) = (digit-IsInk c h, All-digit-IsInk s hs)

drop_while_none : (p : ℕ → Bool) (c : ℕ) (s : Text) → p c ≡ false → drop_while p (c ∷ s) ≡ c ∷ s
unfolding drop_while
drop_while_none p c s h = ground arith

drop_end_while_none : (p : ℕ → Bool) (s : Text) → All (λ c. p c ≡ false) s → drop_end_while p s ≡ s
unfolding drop_end_while
drop_end_while_none p [] _ = refl
drop_end_while_none p (c ∷ []) (h, _) = rw h
drop_end_while_none p (c ∷ d ∷ s) (h, hs) = rw (drop_end_while_none p (d ∷ s) hs, drop_end_while)

-- Text without white space is its own trim.
pub trim_ink : (s : Text) → All IsInk s → trim s ≡ s
unfolding trim
trim_ink [] _ = unfold drop_while drop_end_while in refl
trim_ink (c ∷ s) (h, hs) =
    ap (drop_end_while is_space) (drop_while_none is_space c s h)
    ∙ drop_end_while_none is_space (c ∷ s) (h, hs)

pub drop_end_while-All {κ} :
    (P : ℕ → Type κ) (p : ℕ → Bool) (s : Text) → All P s → All P (drop_end_while p s)
unfolding drop_end_while
drop_end_while-All P p [] h = tt
drop_end_while-All P p (c ∷ s) (h, hs) = keep (drop_end_while p s) (drop_end_while-All P p s hs)
  where
    keep :
        (t : Text)
        → All P t
        → All P (elim t [ [] ↦ (if p c then [] else c ∷ []) | d ∷ u ↦ c ∷ d ∷ u ])
    keep [] _ = elim (p c) as (λ b. All P (if b then [] else c ∷ [])) [
      | true ↦ tt
      | false ↦ (h, tt)
    ]
    keep (d ∷ u) k = (h, k)

pub length-drop_end_while : (p : ℕ → Bool) (s : Text) → length (drop_end_while p s) ≤ length s
unfolding drop_end_while
length-drop_end_while p [] = omega arith
length-drop_end_while p (c ∷ s) = kept (drop_end_while p s) (length-drop_end_while p s)
  where
    kept :
        (t : Text)
        → length t ≤ length s
        → length (elim t [ [] ↦ (if p c then [] else c ∷ []) | d ∷ u ↦ c ∷ d ∷ u ]) ≤ suc (length s)
    kept [] h = ground arith
    kept (d ∷ u) h = omega arith

-- Cutting zeros off the end and padding back to the old length restores the text.
pub pad_end-drop_end_while :
    (c : ℕ) (s : Text) → pad_end (drop_end_while (λ d. d == c) s) (length s) c ≡ s
unfolding pad_end drop_end_while
pad_end-drop_end_while c [] = refl
pad_end-drop_end_while c (a ∷ s) =
    restore (drop_end_while (λ d. d == c) s) (pad_end-drop_end_while c s)
  where
    restore :
        (t : Text)
        → pad_end t (length s) c ≡ s
        → pad_end
            (elim t [ [] ↦ (if a == c then [] else a ∷ []) | d ∷ u ↦ a ∷ d ∷ u ])
            (suc (length s))
            c
          ≡ a ∷ s
    restore [] e = elim (Bool-cases (a == c)) [
      | inl same ↦ rw (same, sub-zero, (==_iff a c).0 same) (ap (λ u. c ∷ u) (rw sub-zero at e))
      | inr other ↦ rw (other, suc-sub-suc) (ap (λ u. a ∷ u) e)
    ]
    restore (d ∷ u) e = rw suc-sub-suc (ap (λ w. a ∷ w) e)

pub value-pad_start : (s : Text) (n : ℕ) → value (pad_start s n b'0') ≡ value s
unfolding pad_start
value-pad_start s n = zeros (n - length s)
  where
    zeros : (k : ℕ) → value (replicate k b'0' ++ s) ≡ value s
    zeros zero = refl
    zeros (suc k) = zeros k

pub length-pad_start : (s : Text) (n c : ℕ) → length s ≤ n → length (pad_start s n c) ≡ n
unfolding pad_start
length-pad_start s n c h =
    omega (arith, length-append (replicate (n - length s) c) s, length-replicate (n - length s) c)

value_from-zeros : (n k : ℕ) → value_from n (replicate k b'0') ≡ n * 10 ^ k
value_from-zeros n zero = rw (pow-zero, mul-one)
value_from-zeros n (suc k) =
    value_from-zeros (n * 10 + (b'0' - b'0')) k
    ∙ let e : n * 10 + (b'0' - b'0') ≡ n * 10 = omega arith in
      rw (e, pow-suc, mul_comm (10 ^ k) 10, mul_assoc)

-- Zeros behind the digits multiply by a power of ten.
pub value-pad_end : (s : Text) (n : ℕ) → value (pad_end s n b'0') ≡ value s * 10 ^ (n - length s)
unfolding pad_end
value-pad_end s n =
    value_from-append 0 s (replicate (n - length s) b'0')
    ∙ value_from-zeros (value s) (n - length s)
