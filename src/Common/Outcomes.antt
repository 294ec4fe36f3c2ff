-- ===== src/Common/Outcomes.antt =====
-- Calls that may throw: the value, or the thrown error. The error carries what its message names.
use Prim.Native.Nat.{ℕ}
use mathlib.Core.Path.{◌≡◌, refl}
use mathlib.Core.List.{List}
use mathlib.Core.Bool.{Bool, true, false}

pub data Error : Type 0 where
  not_decimal : List ℕ → Error
  too_many_decimals : List ℕ → ℕ → Error
  rate_not_positive : Error
  sector_target : List ℕ → Error
  limit_below_minimum : List ℕ → List ℕ → List ℕ → Error
  no_position : List ℕ → Error
  no_principal : List ℕ → Error
  no_wall_time : ℕ → Error
  no_session : ℕ → Error
  unknown_group : Error
  spec_not_positive : Error
  not_a_number : List ℕ → Error

pub data Result {κ} (T : Type κ) : Type κ where
  err : Error → Result T
  ok : T → Result T

-- `if (bad) throw error`
abbrev pub throw_if : Bool → Error → Result (Unit {0})
throw_if false e = ok tt
throw_if true e = err e

-- what follows a call is skipped once it has thrown
infixl 5 ◌>>=◌
abbrev pub ◌>>=◌ {κ μ} : {T : Type κ} {U : Type μ} → Result T → (T → Result U) → Result U
err thrown >>= next = err thrown
ok value >>= next = next value

infixl 5 ◌>>◌
abbrev pub ◌>>◌ {μ} : {U : Type μ} → Result (Unit {0}) → Result U → Result U
call >> rest = call >>= λ _. rest

pub >>=-eq-ok {κ μ} :
    {T : Type κ} {U : Type μ} (call : Result T) (next : T → Result U) {u : U}
    → (call >>= next) ≡ ok u
    → (value : T) × (call ≡ ok value) × (next value ≡ ok u)
>>=-eq-ok (err thrown) next h = cc
>>=-eq-ok (ok value) next h = (value, refl, h)

-- The same for a long chain of calls: what follows gets the value.
pub when_ok {κ μ ν} :
    {T : Type κ} {U : Type μ} {V : Type ν} (call : Result T) (next : T → Result U) {u : U}
    → (call >>= next) ≡ ok u
    → ((value : T) → call ≡ ok value → next value ≡ ok u → V)
    → V
when_ok (err thrown) next h k = absurd (cc)
when_ok (ok value) next h k = k value refl h

pub ok-injective {κ} : {T : Type κ} (a b : T) → ◌≡◌ {A = Result T} (ok a) (ok b) → a ≡ b
ok-injective a b h = cc

pub throw_if-eq-ok :
    (test : Bool) (e : Error) {u : Unit {0}} → throw_if test e ≡ ok u → test ≡ false
throw_if-eq-ok true e h = absurd (cc)
throw_if-eq-ok false e h = refl
