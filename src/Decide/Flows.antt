-- ===== src/Decide/Flows.antt =====
-- A stage that goes on: each step of it went on. The continuation gets what the step gave.
use new_bnbhack.Common.{ℕ, ◌≡◌, refl, Bool, true, false, Error, Result, ok, err, arith}
use new_bnbhack.Common.Text.{Text}
use new_bnbhack.Amounts.{to_units}
use new_bnbhack.Decide.{
  Flow, throws, answers, goes_on, Answer, ◌>>=◌, ◌>>◌, lift, units, answer_if, throw_if,
}

module _ {ℓ κ μ} {A : Type ℓ} {B : Type κ} {C : Type μ} where
  pub bind_goes_on :
      (m : Flow A) (f : A → Flow B) {b : B}
      → (m >>= f) ≡ goes_on b
      → ((a : A) → m ≡ goes_on a → f a ≡ goes_on b → C)
      → C
  bind_goes_on (goes_on a) f h k = k a refl h
  bind_goes_on (throws e) f h k = absurd (cc)
  bind_goes_on (answers d) f h k = absurd (cc)

module _ {ℓ} {A : Type ℓ} where
  pub lift-eq-goes_on : (r : Result A) {a : A} → lift r ≡ goes_on a → r ≡ ok a
  lift-eq-goes_on (ok a) h = ground arith
  lift-eq-goes_on (err e) h = absurd (cc)

  pub goes_on-injective : (a b : A) → ◌≡◌ {A = Flow A} (goes_on a) (goes_on b) → a ≡ b
  goes_on-injective a b h = ground arith

module _ {κ μ} {B : Type κ} {C : Type μ} where
  pub units_goes_on :
      (t : Text) (f : ℕ → Flow B) {b : B}
      → (units t >>= f) ≡ goes_on b
      → ((n : ℕ) → to_units t 18 ≡ ok n → f n ≡ goes_on b → C)
      → C
  units_goes_on t f h k =
      bind_goes_on (units t) f h λ n read rest. k n (lift-eq-goes_on (to_units t 18) read) rest

  pub answer_goes_on :
      (test : Bool) (d : Answer) (rest : Flow B) {b : B}
      → (answer_if test d >> rest) ≡ goes_on b
      → (test ≡ false → rest ≡ goes_on b → C)
      → C
  answer_goes_on true d rest h k = absurd (cc)
  answer_goes_on false d rest h k = k refl h

  pub throw_goes_on :
      (test : Bool) (e : Error) (rest : Flow B) {b : B}
      → (throw_if test e >> rest) ≡ goes_on b
      → (test ≡ false → rest ≡ goes_on b → C)
      → C
  throw_goes_on true e rest h k = absurd (cc)
  throw_goes_on false e rest h k = k refl h

  pub then_goes_on :
      (m : Flow (Unit {0})) (rest : Flow B) {b : B}
      → (m >> rest) ≡ goes_on b
      → (m ≡ goes_on tt → rest ≡ goes_on b → C)
      → C
  then_goes_on (goes_on a) rest h k = k refl h
  then_goes_on (throws e) rest h k = absurd (cc)
  then_goes_on (answers d) rest h k = absurd (cc)
