-- ===== src/Record/Tables.antt =====
-- The tables that packages/db/src/record.ts writes, and `insertReceipt`, `receiptByHash`,
-- `getHolding` and `upsertHolding` of packages/db/src/plans.ts. Serial ids and times that nothing here
-- reads are left out.
use new_bnbhack.Common.{
  ℕ, Bool, true, false, ◌&&◌, if◌then◌else◌, List, ◌∷◌, ◌++◌, Option, none, some, any, find, Result,
  ok, err, update_first,
}
use new_bnbhack.Common.Text.{Text, codes, eq_text, to_lower}
use new_bnbhack.Ledger.{LedgerRow}
use new_bnbhack.Plans.{PlanRow, PlanPatch, CycleTable, with_patch, write_plan}

pub data ReceiptKind : Type 0 where
  approve swap deposit redeem : ReceiptKind

pub data ReceiptStatus : Type 0 where
  success failed : ReceiptStatus

-- the amounts are an opaque JSON text
pub record ReceiptFacts : Type 0 where
  pub kind : ReceiptKind
  pub tx_hash : Text
  pub broadcast_via : Text
  pub block_number : Text
  pub status : ReceiptStatus
  pub simulated_at : Option Text
  pub amounts : Text

pub record ReceiptRow : Type 0 where
  pub cycle_id : Option ℕ
  pub plan_id : Text
  pub kind : ReceiptKind
  pub tx_hash : Text
  pub explorer_url : Text
  pub chain_id : ℕ
  pub amounts : Text
  pub broadcast_via : Text
  pub simulated_at : Option Text
  pub block_number : Text
  pub status : ReceiptStatus

pub record HoldingRow : Type 0 where
  pub plan_id : Text
  pub instrument_id : Text
  pub tokens : ℕ
  pub decimals : ℕ
  pub multiplier_at_last_update : Text
  pub shares : Text
  pub cost_usd : ℕ

-- the one event that is written here: `multiplier_changed`, a warning
pub record MultiplierEvent : Type 0 where
  pub plan_id : Text
  pub instrument_id : Text
  pub from_ : Text
  pub to : Text

pub record Db : Type 0 where
  pub plans : List PlanRow
  pub cycles : CycleTable
  pub receipts : List ReceiptRow
  pub holdings : List HoldingRow
  pub events : List MultiplierEvent
  pub spend_ledger : List LedgerRow
  pub next_ledger_id : ℕ

-- `receiptRow`
unfoldable pub receipt_row : Text → Option ℕ → ReceiptFacts → ReceiptRow
receipt_row plan_id cycle_id facts = record {
  cycle_id = cycle_id;
  plan_id = plan_id;
  kind = facts.kind;
  tx_hash = to_lower facts.tx_hash;
  explorer_url = codes "https://bscscan.com/tx/" ++ to_lower facts.tx_hash;
  chain_id = 56;
  amounts = facts.amounts;
  broadcast_via = facts.broadcast_via;
  simulated_at = facts.simulated_at;
  block_number = facts.block_number;
  status = facts.status;
}

abbrev pub of_hash : Text → ReceiptRow → Bool
of_hash tx_hash row = eq_text row.tx_hash tx_hash

-- `insert ... on conflict (tx_hash) do nothing`
unfoldable pub insert_receipt_row : ReceiptRow → List ReceiptRow → List ReceiptRow × Bool
insert_receipt_row row rows =
    if any (of_hash row.tx_hash) rows then (rows, false) else (row ∷ rows, true)

-- `insertReceipt`
unfoldable pub insert_receipt : ReceiptRow → List ReceiptRow → List ReceiptRow × Bool
insert_receipt row rows = insert_receipt_row (record row { tx_hash = to_lower row.tx_hash }) rows

-- `receiptByHash`
unfoldable pub receipt_by_hash : Text → List ReceiptRow → Option ReceiptRow
receipt_by_hash tx_hash rows = find (of_hash (to_lower tx_hash)) rows

-- `recordReceiptFacts`
unfoldable pub record_receipt_facts : Text → Option ℕ → ReceiptFacts → Db → Db × Bool
record_receipt_facts plan_id cycle_id facts db =
    let (rows, fresh) = insert_receipt (receipt_row plan_id cycle_id facts) db.receipts in
    (record db { receipts = rows }, fresh)

abbrev pub of_holding : Text → Text → HoldingRow → Bool
of_holding plan_id instrument_id row =
    eq_text row.plan_id plan_id && eq_text row.instrument_id instrument_id

-- `getHolding`
unfoldable pub get_holding : Text → Text → List HoldingRow → Option HoldingRow
get_holding plan_id instrument_id rows = find (of_holding plan_id instrument_id) rows

-- `upsertHolding`
unfoldable pub upsert_holding : HoldingRow → List HoldingRow → List HoldingRow
upsert_holding row rows =
    if any (of_holding row.plan_id row.instrument_id) rows
    then update_first (of_holding row.plan_id row.instrument_id) (λ old. row) rows
    else row ∷ rows

abbrev is_left {ℓ} : {A : Type ℓ} → Option A → Bool
is_left none = true
is_left (some a) = false

-- `Object.keys(patch).length === 0`
abbrev pub is_empty_patch : PlanPatch → Bool
is_empty_patch patch =
    is_left patch.status
    && is_left patch.paused_reason
    && is_left patch.next_due_at
    && is_left patch.harvested_unspent_usd
    && is_left patch.principal_usd
    && is_left patch.vtoken_units
    && is_left patch.expires_at
    && is_left patch.contribution_usd
    && is_left patch.max_per_buy_usd
    && is_left patch.max_daily_usd
    && is_left patch.cadence
    && is_left patch.window

abbrev pub with_plans : Db → Option (List PlanRow × Bool) → Option Db
with_plans db none = none
with_plans db (some (rows, found)) = some (record db { plans = rows })

-- `updatePlanTx`
unfoldable pub update_plan_tx : Text → PlanPatch → Db → Option Db
update_plan_tx plan_id patch db =
    if is_empty_patch patch
    then some db
    else with_plans db (write_plan plan_id (λ row. true) (with_patch patch) db.plans)

abbrev pub of_result {ℓ} : {A : Type ℓ} → Result A → Option A
of_result (ok a) = some a
of_result (err e) = none
