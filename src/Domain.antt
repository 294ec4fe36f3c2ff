-- ===== src/Domain.antt =====
-- The domain types of packages/core/src/types.ts. Money is decimal text at these edges. A field that
-- may be absent or null is an Option.
use new_bnbhack.Common.{ℕ, Bool, true, false, List, Option}
use new_bnbhack.Common.Text.{Text}

pub data Issuer : Type 0 where
  bstocks ondo xstocks : Issuer

abbrev pub same_issuer : Issuer → Issuer → Bool
same_issuer bstocks bstocks = true
same_issuer ondo ondo = true
same_issuer xstocks xstocks = true
same_issuer _ _ = false

pub data PlanOwner : Type 0 where
  house : PlanOwner
  judge : Text → PlanOwner
  skill : Text → PlanOwner

pub data PlanMode : Type 0 where
  safe yield : PlanMode

pub data PlanWindow : Type 0 where
  regular_session anytime : PlanWindow

pub data Cadence : Type 0 where
  weekly daily once : Cadence

pub data PlanStatus : Type 0 where
  active paused stopped : PlanStatus

pub data Target : Type 0 where
  ticker : Text → Target
  sector : Text → Target

-- a registry row; the chain id is always 56
pub record Instrument : Type 0 where
  pub id : Text
  pub ticker : Text
  pub issuer : Issuer
  pub address : Text
  pub symbol : Text
  pub decimals : ℕ
  pub multiplier : Text
  pub verified_at : Text

pub record PlanLimits : Type 0 where
  pub max_per_buy_usd : Text
  pub max_daily_usd : Text

pub record Plan : Type 0 where
  pub id : Text
  pub owner : PlanOwner
  pub mode : PlanMode
  pub target : Target
  pub issuer_preference : List Issuer
  pub principal_usd : Text
  pub contribution_usd : Text
  pub cadence : Cadence
  pub window : PlanWindow
  pub limits : PlanLimits
  pub status : PlanStatus
  pub paused_reason : Option Text
  pub created_at : Text
  pub next_due_at : Text
  pub expires_at : Option Text

pub data DeferredReason : Type 0 where
  market_closed price_gap session_expiring quote_impact data_unavailable : DeferredReason

pub data SkippedReason : Type 0 where
  below_min corporate_action daily_cap guardian no_instrument : SkippedReason

pub data FundsMoved : Type 0 where
  nothing gas_only : FundsMoved

-- `Exclude<CycleOutcome, { kind: 'BOUGHT' }>`
pub data TerminalOutcome : Type 0 where
  deferred : DeferredReason → (retry_at : Text) → (detail : Option Text) → TerminalOutcome
  skipped : SkippedReason → (detail : Option Text) → TerminalOutcome
  failed : (code message : Text) → FundsMoved → TerminalOutcome

-- the BOUGHT outcome
pub record BoughtOutcome : Type 0 where
  pub spend_usd : Text
  pub tokens : Text
  pub shares : Text
  pub interest_usd : Option Text
  pub ref_gap_pct : Option Text
