-- ===== src/Trade/Past.antt =====
-- Where the code of apps/agent/src/executor/trade.ts goes on, none of its early returns and errors happened.
use new_bnbhack.Common.{
  ◌≡◌, refl, ap, ◌∙◌, Bool, true, false, not, Option, none, some, Bool-cases, Option-cases, ◌⊎◌,
  inl, inr,
}
use new_bnbhack.Common.Text.{Text, codes}
use new_bnbhack.Taxonomy.{ClassifiableError}
use new_bnbhack.Trade.{
  Step, goes_on, ◌>>=◌, return_if, Reply, replied, api_error, call_threw, from_reply, Viem,
  or_throws, TradeMode, is_live, simulate, live, TradeDeps, require_signer, return_on,
}

pub not-false : (b : Bool) → not b ≡ false → b ≡ true
not-false true h = refl
not-false false h = absurd (cc)

-- where a chain of steps goes on, each of its steps did
module _ {ℓ} {R : Type 0} {B : Type 0} {C : Type ℓ} {b : B} where
  pub past_throw :
      {A : Type 0} (message : Text) (o : Option A) (after : A → Step R B)
      → (or_throws message o >>= after) ≡ goes_on b
      → ((a : A) → o ≡ some a → after a ≡ goes_on b → C)
      → C
  past_throw message none after h k = absurd (cc)
  past_throw message (some a) after h k = k a refl h

  pub past_return :
      (bad : Bool) (r : R) (after : Unit {0} → Step R B)
      → (return_if bad r >>= after) ≡ goes_on b
      → (bad ≡ false → after tt ≡ goes_on b → C)
      → C
  past_return true r after h k = absurd (cc)
  past_return false r after h k = k refl h

  pub past_return_on :
      (text : Option Text) (r : Text → R) (after : Unit {0} → Step R B)
      → (return_on text r >>= after) ≡ goes_on b
      → (text ≡ none → after tt ≡ goes_on b → C)
      → C
  past_return_on none r after h k = k refl h
  past_return_on (some text) r after h k = absurd (cc)

  pub past_reply :
      {A : Type 0} (on_error : ClassifiableError → Text → R) (reply : Reply A)
      (after : A → Step R B)
      → (from_reply on_error reply >>= after) ≡ goes_on b
      → ((a : A) → reply ≡ replied a → after a ≡ goes_on b → C)
      → C
  past_reply on_error (replied a) after h k = k a refl h
  past_reply on_error (api_error e msg) after h k = absurd (cc)
  past_reply on_error (call_threw message) after h k = absurd (cc)

-- the house wallet's own signer, in live mode
abbrev pub Signs : Viem → TradeDeps → Type 0
Signs v deps =
    (is_live deps.mode ≡ true)
    × ((signer : Text) × (deps.signer ≡ some signer)
        × (v.is_address_equal signer deps.house ≡ some true))

TradeMode-cases : (mode : TradeMode) → (mode ≡ simulate) ⊎ (mode ≡ live)
TradeMode-cases simulate = inl refl
TradeMode-cases live = inr refl

pub require_signer-Signs :
    {R : Type 0} (v : Viem) (deps : TradeDeps) {signer : Text}
    → ◌≡◌ {A = Step R Text} (require_signer v deps) (goes_on signer)
    → Signs v deps
unfolding require_signer
require_signer-Signs v deps h = elim (TradeMode-cases deps.mode) [
  | inl mode ↦ absurd (cc (rw mode at h))
  | inr mode ↦ elim (Option-cases deps.signer) [
    | inl missing ↦ absurd (cc (rw (mode, missing) at h))
    | inr (signer, there) ↦
        past_throw (codes "invalid address") (v.is_address_equal signer deps.house) _
          (rw (mode, there) at h)
          λ same e rest. elim (Bool-cases same) [
            | inl equal ↦ (rw mode refl, (signer, there, e ∙ ap some equal))
            | inr other ↦ absurd (cc (rw other at rest))
          ]
  ]
]
