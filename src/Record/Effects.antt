-- ===== src/Record/Effects.antt =====
-- `withReceipt`, `addToHolding` and the effects of the worker's receipts in packages/db/src/record.ts.
use new_bnbhack.Common.{
  ℕ, ◌+◌, ◌-◌, ◌*◌, ◌/◌, ◌^◌, Bool, true, false, ◌&&◌, ◌||◌, ltb, leb, if◌then◌else◌, ◌∷◌, Option,
  none, some,
}
use new_bnbhack.Common.Text.{Text}
use new_bnbhack.Domain.{paused, Instrument}
use new_bnbhack.Holdings.{shares_from_tokens, same_multiplier}
use new_bnbhack.Ledger.{spends, settled_rows}
use new_bnbhack.Common.Text.{codes}
use new_bnbhack.Plans.{PlanRow, PlanPatch, no_patch, or_else, is_active, is_yield, get_plan}
use new_bnbhack.Record.Tables.{
  ReceiptKind, deposit, ReceiptFacts, HoldingRow, Db, receipt_row, insert_receipt_row, get_holding,
  upsert_holding, update_plan_tx, of_result,
}

-- calls that may throw inside a transaction
infixl 5 ◌>>?◌
abbrev pub ◌>>?◌ {ℓ κ} : {A : Type ℓ} {B : Type κ} → Option A → (A → Option B) → Option B
none >>? next = none
some a >>? next = next a

abbrev pub is_deposit : ReceiptKind → Bool
is_deposit deposit = true
is_deposit _ = false

-- the transaction once it has the plan's row
unfoldable pub claim :
    {A : Type 0} → Db → Text → Option ℕ → ReceiptFacts → (Db → Option A) → Option (Option A)
claim db plan_id cycle_id facts apply =
    let (rows, fresh) = insert_receipt_row (receipt_row plan_id cycle_id facts) db.receipts in
    if fresh then (apply (record db { receipts = rows }) >>? λ a. some (some a)) else some none

-- the answer of a claim: a receipt that was recorded before changes nothing
abbrev pub answered : Db → Option (Option Db) → Option (Db × Bool)
answered db none = none
answered db (some none) = some (db, false)
answered db (some (some db')) = some (db', true)

-- `withReceipt`
unfoldable pub with_receipt :
    Text → Option ℕ → ReceiptFacts → (Db → PlanRow → Option Db) → Db → Option (Db × Bool)
with_receipt plan_id cycle_id facts apply db = get_plan plan_id db.plans >>? λ row.
    answered db (claim db plan_id cycle_id facts (λ db'. apply db' row))

-- the event of a multiplier that is no longer the holding's
abbrev pub with_event : Text → Instrument → HoldingRow → Bool → Db → Db
with_event plan_id instrument existing same db = if same then db else record db {
  events =
      record {
        plan_id = plan_id;
        instrument_id = instrument.id;
        from_ = existing.multiplier_at_last_update;
        to = instrument.multiplier;
      }
      ∷ db.events;
}

unfoldable pub warn_of_change : Text → Instrument → Option HoldingRow → Db → Option Db
warn_of_change plan_id instrument none db = some db
warn_of_change plan_id instrument (some existing) db =
    of_result (same_multiplier existing.multiplier_at_last_update instrument.multiplier) >>? λ same.
    some (with_event plan_id instrument existing same db)

abbrev pub tokens_of : Option HoldingRow → ℕ
tokens_of none = 0
tokens_of (some row) = row.tokens

abbrev pub cost_of : Option HoldingRow → ℕ
cost_of none = 0
cost_of (some row) = row.cost_usd

abbrev pub new_holding : Text → Instrument → ℕ → ℕ → Text → HoldingRow
new_holding plan_id instrument tokens cost shares = record {
  plan_id = plan_id;
  instrument_id = instrument.id;
  tokens = tokens;
  decimals = instrument.decimals;
  multiplier_at_last_update = instrument.multiplier;
  shares = shares;
  cost_usd = cost;
}

-- `addToHoldingTx`
unfoldable pub add_to_holding_tx : Text → Instrument → ℕ → ℕ → Db → Option Db
add_to_holding_tx plan_id instrument received spent_usd db =
    let existing = get_holding plan_id instrument.id db.holdings in
    let tokens = tokens_of existing + received in
    let cost = cost_of existing + spent_usd in
    warn_of_change plan_id instrument existing db >>? λ db'.
    of_result (shares_from_tokens tokens instrument.decimals instrument.multiplier) >>? λ shares.
    some (record db' {
      holdings = upsert_holding (new_holding plan_id instrument tokens cost shares) db'.holdings;
    })

-- `applyDeposit`
unfoldable pub apply_deposit : Text → ReceiptFacts → ℕ → ℕ → Db → Option (Db × Bool)
apply_deposit plan_id facts v_tokens usdt_spent = with_receipt plan_id none facts λ db row.
    if is_deposit facts.kind
    then update_plan_tx plan_id
        (record no_patch {
          principal_usd = some (row.principal_usd + usdt_spent);
          vtoken_units = some (row.vtoken_units + v_tokens);
        })
        db
    else some db

-- the reason in the patch, unless it is missing or null
abbrev pub reason_or : Option (Option Text) → Text → Text
reason_or (some (some reason)) other = reason
reason_or _ other = other

-- `{ ...patch, ...(status === 'active' ? paused : {}), ... }`
abbrev pub position_patch : PlanPatch → PlanRow → ℕ → ℕ → PlanPatch
position_patch patch row usdt_received v_tokens_burned =
    let pauses = is_active (or_else patch.status row.status) in
    record patch {
      status = if pauses then some paused else patch.status;
      paused_reason =
          if pauses
          then some (some (reason_or patch.paused_reason (codes "redeemed")))
          else patch.paused_reason;
      principal_usd = some 0;
      vtoken_units = some (row.vtoken_units - v_tokens_burned);
      harvested_unspent_usd =
          some (row.harvested_unspent_usd + (usdt_received - row.principal_usd));
    }

-- `applyPositionRedeem`
unfoldable pub apply_position_redeem :
    Text → ReceiptFacts → ℕ → ℕ → PlanPatch → Db → Option (Db × Bool)
apply_position_redeem plan_id facts usdt_received v_tokens_burned patch =
    with_receipt plan_id none facts
      λ db row. update_plan_tx plan_id (position_patch patch row usdt_received v_tokens_burned) db

-- `applyInterestRedeem`
unfoldable pub apply_interest_redeem :
    Text → Option ℕ → ReceiptFacts → ℕ → ℕ → Db → Option (Db × Bool)
apply_interest_redeem plan_id cycle_id facts usdt_received v_tokens_burned =
    with_receipt plan_id cycle_id facts λ db row.
      update_plan_tx plan_id
        (record no_patch {
          harvested_unspent_usd = some (row.harvested_unspent_usd + usdt_received);
          vtoken_units = some (row.vtoken_units - v_tokens_burned);
        })
        db

-- the cycle's reservation settled as spent
abbrev pub settle_cycle : Option ℕ → ℕ → Db → Db
settle_cycle none spent_usd db = db
settle_cycle (some cycle) spent_usd db = record db {
  spend_ledger = settled_rows spends cycle (some spent_usd) db.spend_ledger;
}

-- the interest that a buy used, out of harvested
unfoldable pub use_interest : Text → PlanRow → Option ℕ → Db → Option Db
use_interest plan_id row none db = some db
use_interest plan_id row (some interest) db =
    update_plan_tx plan_id
      (record no_patch { harvested_unspent_usd = some (row.harvested_unspent_usd - interest) }) db

-- `applySwap`
unfoldable pub apply_swap :
    Text → Option ℕ → ReceiptFacts → Instrument → ℕ → ℕ → Option ℕ → Db → Option (Db × Bool)
apply_swap plan_id cycle_id facts instrument received_tokens spent_usd interest_usd =
    with_receipt plan_id cycle_id facts λ db row.
      add_to_holding_tx plan_id instrument received_tokens spent_usd
        (settle_cycle cycle_id spent_usd db)
      >>? use_interest plan_id row interest_usd

-- `DUST_PRINCIPAL`
abbrev pub dust_principal : ℕ
dust_principal = 10 ^ 16

-- how a reported redeem splits
pub record RedeemSplit : Type 0 where
  pub to_harvested : ℕ
  pub principal_left : ℕ
  pub v_tokens_left : ℕ

-- the plan's position before a redeem, at the redeem's own rate
unfoldable pub position_before : ℕ → ℕ → ℕ → ℕ → ℕ
position_before v_tokens principal received burned =
    if ltb 0 burned then v_tokens * received / burned else principal + received

unfoldable pub split_redeem : ℕ → ℕ → ℕ → ℕ → RedeemSplit
split_redeem v_tokens principal received burned =
    let interest = position_before v_tokens principal received burned - principal in
    let harvests = if ltb received interest then received else interest in
    record {
      to_harvested = harvests;
      principal_left = principal - (received - harvests);
      v_tokens_left = v_tokens - burned;
    }

abbrev pub is_exit : RedeemSplit → Bool
is_exit split = ltb split.principal_left dust_principal || leb split.v_tokens_left 1

abbrev pub reported_patch : PlanRow → RedeemSplit → PlanPatch
reported_patch row split =
    let pauses = is_exit split && is_yield row.mode && is_active row.status in
    record no_patch {
      principal_usd = some (if is_exit split then 0 else split.principal_left);
      vtoken_units = some split.v_tokens_left;
      harvested_unspent_usd = some (row.harvested_unspent_usd + split.to_harvested);
      status = if pauses then some paused else none;
      paused_reason = if pauses then some (some (codes "redeemed")) else none;
    }

-- `applyReportedRedeem`
unfoldable pub apply_reported_redeem : Text → ReceiptFacts → ℕ → ℕ → Db → Option (Db × Bool)
apply_reported_redeem plan_id facts usdt_received v_tokens_burned =
    with_receipt plan_id none facts λ db row.
      update_plan_tx plan_id
        (reported_patch row
          (split_redeem row.vtoken_units row.principal_usd usdt_received v_tokens_burned))
        db

-- `addToHolding`
unfoldable pub add_to_holding : Text → Instrument → ℕ → ℕ → Db → Option Db
add_to_holding plan_id instrument received spent_usd db =
    add_to_holding_tx plan_id instrument received spent_usd db
