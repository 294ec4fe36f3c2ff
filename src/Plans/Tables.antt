-- ===== src/Plans/Tables.antt =====
-- The `plans` table of packages/db/src/schema.ts, and the writes that packages/db/src/plans.ts makes
-- to one of its rows.
use new_bnbhack.Common.{
  ℕ, Bool, true, false, ◌&&◌, ◌||◌, not, ltb, leb, List, Option, none, some, find,
}
use new_bnbhack.Common.Text.{Text, eq_text}
use new_bnbhack.Domain.{
  PlanMode, safe, yield, PlanWindow, Cadence, PlanStatus, active, paused, stopped,
}
use new_bnbhack.Ledger.{OwnerKind}

pub record PlanRow : Type 0 where
  pub id : Text
  pub owner_kind : OwnerKind
  pub owner_ref : Option Text
  pub wallet_address : Option Text
  pub mode : PlanMode
  pub ticker : Text
  pub issuer_preference : List Text
  pub principal_usd : ℕ
  pub contribution_usd : ℕ
  pub harvested_unspent_usd : ℕ
  pub vtoken_units : ℕ
  pub cadence : Cadence
  pub window : PlanWindow
  pub max_per_buy_usd : ℕ
  pub max_daily_usd : ℕ
  pub status : PlanStatus
  pub paused_reason : Option Text
  pub created_at : ℕ
  pub next_due_at : ℕ
  pub expires_at : Option ℕ
  pub lock_until : Option ℕ

abbrev pub is_yield : PlanMode → Bool
is_yield yield = true
is_yield safe = false

abbrev pub same_plan_status : PlanStatus → PlanStatus → Bool
same_plan_status active active = true
same_plan_status paused paused = true
same_plan_status stopped stopped = true
same_plan_status _ _ = false

abbrev pub is_active : PlanStatus → Bool
is_active status = same_plan_status status active

-- `plans_amounts_ck` and `plans_yield_principal_ck`; no amount here is negative
unfoldable pub plan_allowed : PlanRow → Bool
plan_allowed row =
    ltb 0 row.max_per_buy_usd
    && leb row.max_per_buy_usd row.max_daily_usd
    && (not (is_yield row.mode) || not (is_active row.status) || ltb 0 row.principal_usd)

-- a missing field is left as it is, and a nullable one may be set to null
pub record PlanPatch : Type 0 where
  pub status : Option PlanStatus
  pub paused_reason : Option (Option Text)
  pub next_due_at : Option ℕ
  pub harvested_unspent_usd : Option ℕ
  pub principal_usd : Option ℕ
  pub vtoken_units : Option ℕ
  pub expires_at : Option (Option ℕ)
  pub contribution_usd : Option ℕ
  pub max_per_buy_usd : Option ℕ
  pub max_daily_usd : Option ℕ
  pub cadence : Option Cadence
  pub window : Option PlanWindow

abbrev pub or_else {ℓ} : {A : Type ℓ} → Option A → A → A
or_else none old = old
or_else (some new) old = new

-- `{}`
abbrev pub no_patch : PlanPatch
no_patch = record {
  status = none;
  paused_reason = none;
  next_due_at = none;
  harvested_unspent_usd = none;
  principal_usd = none;
  vtoken_units = none;
  expires_at = none;
  contribution_usd = none;
  max_per_buy_usd = none;
  max_daily_usd = none;
  cadence = none;
  window = none;
}

-- `set(patch)`
abbrev pub with_patch : PlanPatch → PlanRow → PlanRow
with_patch patch row = record row {
  status = or_else patch.status row.status;
  paused_reason = or_else patch.paused_reason row.paused_reason;
  next_due_at = or_else patch.next_due_at row.next_due_at;
  harvested_unspent_usd = or_else patch.harvested_unspent_usd row.harvested_unspent_usd;
  principal_usd = or_else patch.principal_usd row.principal_usd;
  vtoken_units = or_else patch.vtoken_units row.vtoken_units;
  expires_at = or_else patch.expires_at row.expires_at;
  contribution_usd = or_else patch.contribution_usd row.contribution_usd;
  max_per_buy_usd = or_else patch.max_per_buy_usd row.max_per_buy_usd;
  max_daily_usd = or_else patch.max_daily_usd row.max_daily_usd;
  cadence = or_else patch.cadence row.cadence;
  window = or_else patch.window row.window;
}

abbrev pub of_plan : Text → PlanRow → Bool
of_plan id row = eq_text row.id id

-- `getPlan`
unfoldable pub get_plan : Text → List PlanRow → Option PlanRow
get_plan id rows = find (of_plan id) rows
