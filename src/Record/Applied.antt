-- ===== src/Record/Applied.antt =====
-- Transactions of packages/db/src/record.ts, taken apart: the receipt and the plan's row.
use mathlib.Core.Option.{some-injective}
use new_bnbhack.Common.{
  ℕ, ◌≡◌, refl, sym, Bool, true, false, List, ◌∷◌, Option, none, some, any, arith, Bool-cases, ◌⊎◌,
  inl, inr, update_first, touched_if,
}
use new_bnbhack.Common.Text.{Text, to_lower}
use new_bnbhack.Plans.{PlanRow, PlanPatch, plan_allowed, with_patch, get_plan, write_plan, of_plan}
use new_bnbhack.Plans.Exclusion.{write_plan-rows, get_plan-update_first}
use new_bnbhack.Record.Tables.{
  ReceiptFacts, ReceiptRow, Db, receipt_row, of_hash, insert_receipt_row, is_empty_patch,
  with_plans, update_plan_tx,
}
use new_bnbhack.Record.Effects.{◌>>?◌, claim, answered, with_receipt}

pub when_some {ℓ κ μ} :
    {A : Type ℓ} {B : Type κ} {C : Type μ} (call : Option A) (next : A → Option B) {b : B}
    → (call >>? next) ≡ some b
    → ((a : A) → call ≡ some a → next a ≡ some b → C)
    → C
when_some none next h k = absurd (cc)
when_some (some a) next h k = k a refl h

-- whether a hash has a receipt, in any spelling
abbrev pub is_recorded : Text → List ReceiptRow → Bool
is_recorded tx_hash rows = any (of_hash (to_lower tx_hash)) rows

-- the tables once the receipt is in
abbrev pub with_receipt_row : Text → Option ℕ → ReceiptFacts → Db → Db
with_receipt_row plan_id cycle_id facts db = record db {
  receipts = receipt_row plan_id cycle_id facts ∷ db.receipts;
}

module _ {A : Type 0} (plan_id : Text) (cycle_id : Option ℕ) (facts : ReceiptFacts)
    (apply : Db → Option A) (db : Db) where
  pub claim-fresh :
      is_recorded facts.tx_hash db.receipts ≡ false
      → claim db plan_id cycle_id facts apply
        ≡ (apply (with_receipt_row plan_id cycle_id facts db) >>? λ a. some (some a))
  unfolding claim insert_receipt_row receipt_row
  claim-fresh fresh = rw fresh refl

  pub claim-recorded :
      is_recorded facts.tx_hash db.receipts ≡ true
      → claim db plan_id cycle_id facts apply ≡ some none
  unfolding claim insert_receipt_row receipt_row
  claim-recorded old = rw old refl

answered-some :
    (db : Db) (call : Option Db) {db' : Db}
    → call ≡ some db'
    → answered db (call >>? λ a. some (some a)) ≡ some (db', true)
answered-some db call h = rw h refl

answered-inv :
    (db : Db) (call : Option Db) {db' : Db} {fresh : Bool}
    → answered db (call >>? λ a. some (some a)) ≡ some (db', fresh)
    → (call ≡ some db') × (fresh ≡ true)
answered-inv db none h = absurd (cc)
answered-inv db (some a) h = (cc, cc)

module _ (plan_id : Text) (cycle_id : Option ℕ) (facts : ReceiptFacts)
    (apply : Db → PlanRow → Option Db) (db : Db) where
  -- what a transaction that goes through has done
  abbrev pub IsApplied : Db → PlanRow → Bool → Type 0
  IsApplied db' row fresh =
      ((fresh ≡ true)
        × (is_recorded facts.tx_hash db.receipts ≡ false)
        × (apply (with_receipt_row plan_id cycle_id facts db) row ≡ some db'))
      ⊎ ((fresh ≡ false) × (is_recorded facts.tx_hash db.receipts ≡ true) × (db' ≡ db))

  answered-IsApplied :
      (row : PlanRow) {db' : Db} {fresh : Bool}
      → answered db (claim db plan_id cycle_id facts (λ db'. apply db' row)) ≡ some (db', fresh)
      → IsApplied db' row fresh
  answered-IsApplied row h = elim (Bool-cases (is_recorded facts.tx_hash db.receipts)) [
    | inl old ↦
        let e = rw (claim-recorded plan_id cycle_id facts (λ db'. apply db' row) db old) at h in
        inr (cc, old, cc)
    | inr new ↦
        let (call, fresh) =
          answered-inv db _
            (rw (claim-fresh plan_id cycle_id facts (λ db'. apply db' row) db new) at h) in
        inl (fresh, new, call)
  ]

  pub with_receipt-IsApplied :
      {db' : Db} {fresh : Bool}
      → with_receipt plan_id cycle_id facts apply db ≡ some (db', fresh)
      → (row : PlanRow) × (get_plan plan_id db.plans ≡ some row) × IsApplied db' row fresh
  unfolding with_receipt
  with_receipt-IsApplied h =
      when_some (get_plan plan_id db.plans) _ h
        λ row found rest. (row, found, answered-IsApplied row rest)

  pub with_receipt-fresh :
      (row : PlanRow) {db' : Db}
      → get_plan plan_id db.plans ≡ some row
      → is_recorded facts.tx_hash db.receipts ≡ false
      → apply (with_receipt_row plan_id cycle_id facts db) row ≡ some db'
      → with_receipt plan_id cycle_id facts apply db ≡ some (db', true)
  unfolding with_receipt
  with_receipt-fresh row found new call = rw found (
      rw (claim-fresh plan_id cycle_id facts (λ db'. apply db' row) db new)
        (answered-some db _ call))

  pub with_receipt-recorded :
      (row : PlanRow)
      → get_plan plan_id db.plans ≡ some row
      → is_recorded facts.tx_hash db.receipts ≡ true
      → with_receipt plan_id cycle_id facts apply db ≡ some (db, false)
  unfolding with_receipt
  with_receipt-recorded row found old =
      rw found (rw (claim-recorded plan_id cycle_id facts (λ db'. apply db' row) db old) refl)

pub writes_principal :
    (patch : PlanPatch) {n : ℕ} → patch.principal_usd ≡ some n → is_empty_patch patch ≡ false
writes_principal patch h = ground arith

-- a patch of the plan that keeps the checks goes through
module _ (plan_id : Text) (patch : PlanPatch) (db : Db) where
  with_plans-inv :
      (call : Option (List PlanRow × Bool)) {db' : Db}
      → with_plans db call ≡ some db'
      → (rows : List PlanRow) × (found : Bool) × (call ≡ some (rows, found))
        × (db' ≡ record db { plans = rows })
  with_plans-inv none h = absurd (cc)
  with_plans-inv (some (rows, found)) h = (rows, found, refl, sym (some-injective _ _ h))

  pub update_plan_tx-inv :
      {db' : Db}
      → update_plan_tx plan_id patch db ≡ some db'
      → is_empty_patch patch ≡ false
      → db' ≡ record db {
        plans = update_first (of_plan plan_id) (touched_if (λ _. true) (with_patch patch)) db.plans;
      }
  unfolding update_plan_tx
  update_plan_tx-inv h full =
      let (rows, found, call, frame) =
        with_plans-inv (write_plan plan_id (λ _. true) (with_patch patch) db.plans)
          (rw full at h) in
      rw (← write_plan-rows plan_id (λ _. true) (with_patch patch) db.plans call) frame

  pub update_plan_tx-goes_through :
      (row : PlanRow)
      → get_plan plan_id db.plans ≡ some row
      → is_empty_patch patch ≡ false
      → plan_allowed (with_patch patch row) ≡ true
      → (db' : Db) × (update_plan_tx plan_id patch db ≡ some db')
        × (get_plan plan_id db'.plans ≡ some (with_patch patch row))
  unfolding update_plan_tx write_plan
  update_plan_tx-goes_through row found full allowed = (
    record db {
      plans = update_first (of_plan plan_id) (touched_if (λ _. true) (with_patch patch)) db.plans;
    },
    rw (full, found) (rw allowed refl),
    rw (get_plan-update_first (λ _. true) (with_patch patch) (λ r. refl) plan_id db.plans)
        (rw found refl),
  )
