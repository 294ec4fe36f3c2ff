-- ===== src/Trade/Steps.antt =====
-- Code that may throw, return early or go on, and the answers of the API: apps/agent/src/executor/trade.ts.
use new_bnbhack.Common.{
  ℕ, zero, suc, ◌-◌, leb, ◌≡◌, refl, Bool, true, false, not, ◌&&◌, if◌then◌else◌, List, [], ◌∷◌,
  ◌++◌, Option, none, some,
}
use new_bnbhack.Common.Text.{Text, codes}
use new_bnbhack.Taxonomy.{ClassifiableError}
use new_bnbhack.Sending.{
  SendResult, confirms, reverts, pends, not_sent, matches, code_or_kind, kind_text, is_empty,
}
use new_bnbhack.Domain.{FundsMoved, nothing, gas_only}

-- `R` is what the function returns
pub data Step {κ} (R : Type 0) (A : Type κ) : Type κ where
  threw : (message : Text) → Step R A
  returns : R → Step R A
  goes_on : A → Step R A

infixl 5 ◌>>=◌
abbrev pub ◌>>=◌ {κ μ} :
    {R : Type 0} {A : Type κ} {B : Type μ} → Step R A → (A → Step R B) → Step R B
threw message >>= after = threw message
returns r >>= after = returns r
goes_on a >>= after = after a

-- `if (bad) return r`
abbrev pub return_if : {R : Type 0} → Bool → R → Step R (Unit {0})
return_if true r = returns r
return_if false r = goes_on tt

-- where a step goes on, what follows gets its value
pub when_on {κ μ ν} :
    {R : Type 0} {A : Type κ} {B : Type μ} {C : Type ν} (s : Step R A) (after : A → Step R B)
    {b : B}
    → (s >>= after) ≡ goes_on b
    → ((a : A) → s ≡ goes_on a → after a ≡ goes_on b → C)
    → C
when_on (threw message) after h k = absurd (cc)
when_on (returns r) after h k = absurd (cc)
when_on (goes_on a) after h k = k a refl h

pub goes_on-injective {κ} :
    {R : Type 0} {A : Type κ} {a b : A} → ◌≡◌ {A = Step R A} (goes_on a) (goes_on b) → a ≡ b
goes_on-injective h = cc

-- `value ? …`: an empty text counts as absent
abbrev pub filled : Option Text → Option Text
filled none = none
filled (some text) = if is_empty text then none else some text

-- a call of the API: an answer, a BinanceApiError, or any other error
pub data Reply (A : Type 0) : Type 0 where
  replied : A → Reply A
  api_error : ClassifiableError → (msg : Text) → Reply A
  call_threw : (message : Text) → Reply A

pub record Failure : Type 0 where
  pub code : Text
  pub message : Text
  pub funds_moved : FundsMoved

-- `fail`, where nothing moved
abbrev pub fail : Text → Text → Failure
fail code message = record { code = code; message = message; funds_moved = nothing }

-- `apiFailure`
abbrev pub api_failure : Text → ClassifiableError → Text → Failure
api_failure step e msg = fail (code_or_kind e (kind_text e.kind)) (step ++ (codes ": " ++ msg))

-- `catch (error) { if (error instanceof BinanceApiError) return … }`
abbrev pub from_reply : {R A : Type 0} → (ClassifiableError → Text → R) → Reply A → Step R A
from_reply on_error (replied a) = goes_on a
from_reply on_error (api_error e msg) = returns (on_error e msg)
from_reply on_error (call_threw message) = threw message

pub data SimStatus : Type 0 where
  sim_success sim_failed : SimStatus

pub record SimulationResult : Type 0 where
  pub status : SimStatus
  pub fail_reason : Text

abbrev pub sim_ok : SimulationResult → Bool
sim_ok result = elim result.status [ sim_success ↦ true | sim_failed ↦ false ]

abbrev pub status_text : SimStatus → Text
status_text sim_success = codes "SUCCESS"
status_text sim_failed = codes "FAILED"

-- `RESIMULATIONS`
abbrev pub resimulations : ℕ
resimulations = 2

-- `ALLOWANCE_REVERT`
abbrev pub allowance_revert : List Text
allowance_revert = codes "allowance" ∷ []

abbrev pub runs_again : Bool → SimulationResult → Bool
runs_again just_approved result =
    just_approved && not (sim_ok result) && matches allowance_revert result.fail_reason

-- the loop, with the attempts that are left; `run` answers each attempt
unfoldable pub resimulate :
    Bool → (ℕ → Reply SimulationResult) → ℕ → ℕ → SimulationResult → Reply SimulationResult
resimulate just_approved run zero attempt result = replied result
resimulate just_approved run (suc left) attempt result =
    if runs_again just_approved result
    then elim (run attempt) [
      | replied again ↦ resimulate just_approved run left (suc attempt) again
      | api_error e msg ↦ api_error e msg
      | call_threw message ↦ call_threw message
    ]
    else replied result

-- `simulateAfterApproval`
unfoldable pub simulate_after_approval :
    Bool → (ℕ → Reply SimulationResult) → Reply SimulationResult
simulate_after_approval just_approved run = elim (run 0) [
  | replied result ↦ resimulate just_approved run resimulations 1 result
  | api_error e msg ↦ api_error e msg
  | call_threw message ↦ call_threw message
]

abbrev pub upper_code : ℕ → ℕ
upper_code c = if leb b'a' c && leb c b'z' then c - 32 else c

-- `toUpperCase`, on the letters of ASCII
unfoldable pub to_upper : Text → Text
to_upper [] = []
to_upper (c ∷ text) = upper_code c ∷ to_upper text

-- what a send result says: it went out, is pending, or is a failure
pub data Settled : Type 0 where
  went_out : (tx_hash broadcast_via : Text) → Settled
  still_pending : (tx_hash : Text) → Settled
  came_to_nothing : Failure → Settled

-- `sentOrFailure`
unfoldable pub sent_or_failure : Text → SendResult → Settled
sent_or_failure kind (confirms tx_hash via) = went_out tx_hash via
sent_or_failure kind (pends tx_hash via) = still_pending tx_hash
sent_or_failure kind (reverts tx_hash via) = came_to_nothing record {
  code = to_upper kind ++ codes "_REVERTED";
  message = kind ++ (codes " " ++ (tx_hash ++ codes " reverted on chain"));
  funds_moved = gas_only;
}
sent_or_failure kind (not_sent tx_hash reason) =
    came_to_nothing (fail (to_upper kind ++ codes "_NOT_SENT") reason)
