-- ===== src/Record/Once/Claims.antt =====
-- Every effect claims its receipt: it is applied where the hash is new, and changes nothing otherwise.
use mathlib.Core.Option.{some-injective}
use new_bnbhack.Common.{
  ℕ, ◌+◌, ◌≡◌, refl, sym, ap, ◌∙◌, Bool, true, false, ◌||◌, List, Option, none, some, Bool-cases,
  ◌⊎◌, inl, inr,
}
use new_bnbhack.Common.Text.{Text, eq_text, to_lower}
use new_bnbhack.Domain.{Instrument}
use new_bnbhack.Holdings.{same_multiplier, shares_from_tokens}
use new_bnbhack.Plans.{PlanRow, PlanPatch}
use new_bnbhack.Record.Tables.{
  ReceiptFacts, HoldingRow, get_holding, Db, receipt_row, record_receipt_facts, is_empty_patch,
  with_plans, update_plan_tx, of_result,
}
use new_bnbhack.Record.Effects.{
  tokens_of, with_receipt, with_event, warn_of_change, add_to_holding_tx, apply_deposit,
  apply_position_redeem, apply_interest_redeem, settle_cycle, use_interest, apply_swap,
  apply_reported_redeem,
}
use new_bnbhack.Record.Skill.{SkillSwap, record_skill_swap}
use new_bnbhack.Record.Applied.{when_some, is_recorded, with_receipt_row, with_receipt-IsApplied}

-- calls that do not touch the receipts
same_receipts :
    (db : Db) {db' : Db} → ◌≡◌ {A = Option Db} (some db) (some db') → db'.receipts ≡ db.receipts
same_receipts db {db'} h = ap (λ (d : Db). d.receipts) (sym (some-injective db db' h))

with_plans-receipts :
    (db : Db) (rows : Option (List PlanRow × Bool)) {db' : Db}
    → with_plans db rows ≡ some db'
    → db'.receipts ≡ db.receipts
with_plans-receipts db none h = absurd (cc)
with_plans-receipts db (some (rows, found)) h = same_receipts (record db { plans = rows }) h

pub update_plan_tx-receipts :
    (plan_id : Text) (patch : PlanPatch) (db : Db) {db' : Db}
    → update_plan_tx plan_id patch db ≡ some db'
    → db'.receipts ≡ db.receipts
unfolding update_plan_tx
update_plan_tx-receipts plan_id patch db h = elim (Bool-cases (is_empty_patch patch)) [
  | inl empty ↦ same_receipts db (rw empty at h)
  | inr full ↦ with_plans-receipts db _ (rw full at h)
]

with_event-receipts :
    (plan_id : Text) (instrument : Instrument) (row : HoldingRow) (same : Bool) (db : Db)
    → (with_event plan_id instrument row same db).receipts ≡ db.receipts
with_event-receipts plan_id instrument row true db = refl
with_event-receipts plan_id instrument row false db = refl

warn_of_change-receipts :
    (plan_id : Text) (instrument : Instrument) (existing : Option HoldingRow) (db : Db) {db' : Db}
    → warn_of_change plan_id instrument existing db ≡ some db'
    → db'.receipts ≡ db.receipts
unfolding warn_of_change
warn_of_change-receipts plan_id instrument none db h = same_receipts db h
warn_of_change-receipts plan_id instrument (some row) db h =
    when_some (of_result (same_multiplier row.multiplier_at_last_update instrument.multiplier)) _ h
      λ same e rest.
        same_receipts (with_event plan_id instrument row same db) rest
        ∙ with_event-receipts plan_id instrument row same db

pub add_to_holding_tx-receipts :
    (plan_id : Text) (instrument : Instrument) (received spent_usd : ℕ) (db : Db) {db' : Db}
    → add_to_holding_tx plan_id instrument received spent_usd db ≡ some db'
    → db'.receipts ≡ db.receipts
unfolding add_to_holding_tx
add_to_holding_tx-receipts plan_id instrument received spent_usd db h =
    when_some (warn_of_change plan_id instrument (get_holding plan_id instrument.id db.holdings) db)
      _ h
      λ db1 warned rest.
        when_some
          (of_result (
            shares_from_tokens
              (tokens_of (get_holding plan_id instrument.id db.holdings) + received)
              instrument.decimals instrument.multiplier))
          _ rest
          λ shares priced last.
            same_receipts _ last
            ∙ warn_of_change-receipts plan_id instrument
                (get_holding plan_id instrument.id db.holdings) db warned

pub settle_cycle-receipts :
    (cycle : Option ℕ) (spent : ℕ) (db : Db) → (settle_cycle cycle spent db).receipts ≡ db.receipts
settle_cycle-receipts none spent db = refl
settle_cycle-receipts (some cycle) spent db = refl

pub use_interest-receipts :
    (plan_id : Text) (row : PlanRow) (interest : Option ℕ) (db : Db) {db' : Db}
    → use_interest plan_id row interest db ≡ some db'
    → db'.receipts ≡ db.receipts
unfolding use_interest
use_interest-receipts plan_id row none db h = same_receipts db h
use_interest-receipts plan_id row (some interest) db h = update_plan_tx-receipts plan_id _ db h

-- A call claims its receipt: the receipts gain its hash, or it changes nothing.
abbrev pub Claims : Text → Db → Db → Bool → Type 0
Claims tx_hash db db' fresh =
    ((fresh ≡ true)
      × (is_recorded tx_hash db.receipts ≡ false)
      × ((h : Text)
          → is_recorded h db'.receipts
            ≡ (eq_text (to_lower tx_hash) (to_lower h) || is_recorded h db.receipts)))
    ⊎ ((fresh ≡ false) × (is_recorded tx_hash db.receipts ≡ true) × (db' ≡ db))

pub with_receipt-Claims :
    (plan_id : Text) (cycle_id : Option ℕ) (facts : ReceiptFacts) (apply : Db → PlanRow → Option Db)
    (db : Db)
    → ((row : PlanRow) (before after : Db)
        → apply before row ≡ some after
        → after.receipts ≡ before.receipts)
    → (db' : Db) (fresh : Bool) → with_receipt plan_id cycle_id facts apply db ≡ some (db', fresh)
    → Claims facts.tx_hash db db' fresh
unfolding receipt_row
with_receipt-Claims plan_id cycle_id facts apply db keeps db' fresh h =
    let (row, found, done) = with_receipt-IsApplied plan_id cycle_id facts apply db h in
    elim done [
      | inl (new, unknown, call) ↦ inl (
        new,
        unknown,
        λ tx_hash.
            ap (λ r. is_recorded tx_hash r)
              (keeps row (with_receipt_row plan_id cycle_id facts db) db' call),
      )
      | inr old ↦ inr old
    ]

-- every way in which a transaction is written down
pub data Effect : Type 0 where
  approves : (plan_id : Text) (cycle_id : Option ℕ) (facts : ReceiptFacts) → Effect
  deposits : (plan_id : Text) (facts : ReceiptFacts) (v_tokens usdt_spent : ℕ) → Effect
  redeems_position :
      (plan_id : Text) (facts : ReceiptFacts) (received burned : ℕ) (patch : PlanPatch) → Effect
  redeems_interest :
      (plan_id : Text) (cycle_id : Option ℕ) (facts : ReceiptFacts) (received burned : ℕ) → Effect
  swaps :
      (plan_id : Text) (cycle_id : Option ℕ) (facts : ReceiptFacts) (instrument : Instrument)
      (received spent_usd : ℕ) (interest_usd : Option ℕ)
      → Effect
  reports_redeem : (plan_id : Text) (facts : ReceiptFacts) (received burned : ℕ) → Effect
  reports_swap : (swap : SkillSwap) (now : ℕ) → Effect

abbrev pub hash_of : Effect → Text
hash_of (approves plan_id cycle_id facts) = facts.tx_hash
hash_of (deposits plan_id facts v_tokens usdt_spent) = facts.tx_hash
hash_of (redeems_position plan_id facts received burned patch) = facts.tx_hash
hash_of (redeems_interest plan_id cycle_id facts received burned) = facts.tx_hash
hash_of (swaps plan_id cycle_id facts instrument received spent_usd interest_usd) = facts.tx_hash
hash_of (reports_redeem plan_id facts received burned) = facts.tx_hash
hash_of (reports_swap swap now) = swap.facts.tx_hash

-- whether the answer of a reported swap is not `undefined`
abbrev pub was_fresh : Option (Db × Option (ℕ × ℕ)) → Option (Db × Bool)
was_fresh none = none
was_fresh (some (db, none)) = some (db, false)
was_fresh (some (db, some answer)) = some (db, true)

abbrev pub apply_effect : Effect → Db → Option (Db × Bool)
apply_effect (approves plan_id cycle_id facts) db =
    some (record_receipt_facts plan_id cycle_id facts db)
apply_effect (deposits plan_id facts v_tokens usdt_spent) db =
    apply_deposit plan_id facts v_tokens usdt_spent db
apply_effect (redeems_position plan_id facts received burned patch) db =
    apply_position_redeem plan_id facts received burned patch db
apply_effect (redeems_interest plan_id cycle_id facts received burned) db =
    apply_interest_redeem plan_id cycle_id facts received burned db
apply_effect (swaps plan_id cycle_id facts instrument received spent_usd interest_usd) db =
    apply_swap plan_id cycle_id facts instrument received spent_usd interest_usd db
apply_effect (reports_redeem plan_id facts received burned) db =
    apply_reported_redeem plan_id facts received burned db
apply_effect (reports_swap swap now) db = was_fresh (record_skill_swap swap now db)
