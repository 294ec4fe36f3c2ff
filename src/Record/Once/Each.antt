-- ===== src/Record/Once/Each.antt =====
-- Each effect of packages/db/src/record.ts claims its receipt.
use mathlib.Core.Path.{subst}
use mathlib.Core.Option.{some-injective}
use new_bnbhack.Common.{
  ℕ, ◌≡◌, refl, sym, ap, ◌∙◌, Bool, true, ◌==◌, Option, none, some, any, Bool-cases, Option-cases,
  inl, inr, update_first, any-update_first,
}
use new_bnbhack.Common.Text.{Text, to_lower, to_lower_idempotent}
use new_bnbhack.Domain.{Instrument}
use new_bnbhack.Ledger.{LedgerRow}
use new_bnbhack.Plans.{PlanRow, get_plan}
use new_bnbhack.Record.Tables.{
  ReceiptFacts, Db, receipt_row, of_hash, insert_receipt_row, insert_receipt, record_receipt_facts,
  update_plan_tx,
}
use new_bnbhack.Record.Effects.{
  ◌>>?◌, claim, is_deposit, apply_deposit, apply_position_redeem, apply_interest_redeem,
  add_to_holding_tx, settle_cycle, apply_swap, apply_reported_redeem,
}
use new_bnbhack.Record.Skill.{
  SkillSwap, find_slot, with_cycle, insert_spent, skill_patch, write_skill_swap, reported,
  record_skill_swap,
}
use new_bnbhack.Record.Applied.{
  when_some, is_recorded, with_receipt_row, claim-fresh, claim-recorded,
}
use new_bnbhack.Record.Once.Claims.{
  update_plan_tx-receipts, add_to_holding_tx-receipts, settle_cycle-receipts, use_interest-receipts,
  Claims, with_receipt-Claims, Effect, approves, deposits, redeems_position, redeems_interest,
  swaps, reports_redeem, reports_swap, hash_of, was_fresh, apply_effect,
}

approves-Claims :
    (plan_id : Text) (cycle_id : Option ℕ) (facts : ReceiptFacts) (db : Db)
    → Claims facts.tx_hash db
        (record_receipt_facts plan_id cycle_id facts db).0
        (record_receipt_facts plan_id cycle_id facts db).1
unfolding record_receipt_facts insert_receipt insert_receipt_row receipt_row
approves-Claims plan_id cycle_id facts db =
    elim (Bool-cases (is_recorded facts.tx_hash db.receipts)) [
      | inl old ↦ rw (to_lower_idempotent facts.tx_hash, old) (inr (refl, refl, refl))
      | inr new ↦ rw (to_lower_idempotent facts.tx_hash, new) (inl (refl, refl, λ h. refl))
    ]

deposits-Claims :
    (plan_id : Text) (facts : ReceiptFacts) (v_tokens usdt_spent : ℕ) (db db' : Db) (fresh : Bool)
    → apply_deposit plan_id facts v_tokens usdt_spent db ≡ some (db', fresh)
    → Claims facts.tx_hash db db' fresh
unfolding apply_deposit
deposits-Claims plan_id facts v_tokens usdt_spent db db' fresh h =
    with_receipt-Claims plan_id none facts _ db
      (λ row before after call. elim (Bool-cases (is_deposit facts.kind)) [
        | inl yes_ ↦ update_plan_tx-receipts plan_id _ before (rw yes_ at call)
        | inr no_ ↦ ap (λ (d : Db). d.receipts) (sym (some-injective before after (rw no_ at call)))
      ])
      db' fresh h

swaps-Claims :
    (plan_id : Text) (cycle_id : Option ℕ) (facts : ReceiptFacts) (instrument : Instrument)
    (received spent_usd : ℕ) (interest_usd : Option ℕ) (db db' : Db) (fresh : Bool)
    → apply_swap plan_id cycle_id facts instrument received spent_usd interest_usd db
      ≡ some (db', fresh)
    → Claims facts.tx_hash db db' fresh
unfolding apply_swap
swaps-Claims plan_id cycle_id facts instrument received spent_usd interest_usd db db' fresh h =
    with_receipt-Claims plan_id cycle_id facts _ db
      (λ row before after call.
        when_some
          (add_to_holding_tx plan_id instrument received spent_usd
            (settle_cycle cycle_id spent_usd before))
          _ call
          λ middle held rest.
            use_interest-receipts plan_id row interest_usd middle rest
            ∙ add_to_holding_tx-receipts plan_id instrument received spent_usd
                (settle_cycle cycle_id spent_usd before) held
            ∙ settle_cycle-receipts cycle_id spent_usd before)
      db' fresh h

insert_spent-receipts :
    (swap : SkillSwap) (row : PlanRow) (cycle_id : ℕ) (db : Db) {db' : Db}
    → insert_spent swap row cycle_id db ≡ some db'
    → db'.receipts ≡ db.receipts
unfolding insert_spent
insert_spent-receipts swap row cycle_id db h =
    elim (Bool-cases (any (λ (r : LedgerRow). r.cycle_id == cycle_id) db.spend_ledger)) [
      | inl taken ↦ absurd (cc (rw taken at h))
      | inr free ↦ ap (λ (d : Db). d.receipts) (sym (some-injective _ _ (rw free at h)))
    ]

-- a reported swap fills in the receipt's cycle
write_skill_swap-is_recorded :
    (swap : SkillSwap) (now : ℕ) (row : PlanRow) (db db' : Db) (cycle_id day_spent : ℕ)
    → write_skill_swap swap now row db ≡ some (db', cycle_id, day_spent)
    → (h : Text) → is_recorded h db'.receipts ≡ is_recorded h db.receipts
unfolding write_skill_swap
write_skill_swap-is_recorded swap now row db db' cycle_id day_spent h tx_hash =
    when_some (find_slot 10 swap now swap.cycle.due_at db.cycles) _ h λ slot found h1.
      let start = record db {
        cycles = slot.0;
        receipts =
            update_first (of_hash (to_lower swap.facts.tx_hash)) (with_cycle slot.1) db.receipts;
      } in
      let spend = insert_spent swap row slot.1 start in
      let hold =
        spend
        >>? add_to_holding_tx swap.plan_id swap.instrument swap.received_tokens swap.spent_usd in
      when_some (hold >>? update_plan_tx swap.plan_id (skill_patch swap row)) _ h1 λ db3 c3 h2.
        when_some hold _ c3 λ db2 c2 h3. when_some spend _ c2 λ db1 c1 h4.
          ap (λ r. is_recorded tx_hash r)
            (ap (λ (x : Db × ℕ × ℕ). x.0.receipts) (sym (some-injective _ _ h2))
              ∙ update_plan_tx-receipts swap.plan_id (skill_patch swap row) db2 h3
              ∙ add_to_holding_tx-receipts swap.plan_id swap.instrument swap.received_tokens
                  swap.spent_usd db1 h4
              ∙ insert_spent-receipts swap row slot.1 start c1)
          ∙ any-update_first (of_hash (to_lower tx_hash)) (of_hash (to_lower swap.facts.tx_hash))
              (with_cycle slot.1) db.receipts (λ r. refl)

reported-inv :
    (db : Db) (call : Option (Db × ℕ × ℕ)) {db' : Db} {fresh : Bool}
    → was_fresh (reported db (call >>? λ a. some (some a))) ≡ some (db', fresh)
    → (cycle_id : ℕ) × (day_spent : ℕ) × (call ≡ some (db', cycle_id, day_spent)) × (fresh ≡ true)
reported-inv db none h = absurd (cc)
reported-inv db (some (d, cycle_id, day_spent)) h = (cycle_id, day_spent, cc, cc)

reported-Claims :
    (swap : SkillSwap) (now : ℕ) (row : PlanRow) (db db' : Db) (fresh : Bool)
    → was_fresh
        (reported db (claim db swap.plan_id none swap.facts (write_skill_swap swap now row)))
      ≡ some (db', fresh)
    → Claims swap.facts.tx_hash db db' fresh
unfolding receipt_row
reported-Claims swap now row db db' fresh h =
    elim (Bool-cases (is_recorded swap.facts.tx_hash db.receipts)) [
      | inl old ↦
          let e =
            rw (claim-recorded swap.plan_id none swap.facts (write_skill_swap swap now row) db old)
              at h in
          inr (cc, old, cc)
      | inr new ↦
          let e =
            rw (claim-fresh swap.plan_id none swap.facts (write_skill_swap swap now row) db new) at
              h in
          let (cycle_id, day_spent, call, fresh_) = reported-inv db _ e in
          inl (
            fresh_,
            new,
            write_skill_swap-is_recorded swap now row
                (with_receipt_row swap.plan_id none swap.facts db) db' cycle_id day_spent call,
          )
    ]

reports_swap-Claims :
    (swap : SkillSwap) (now : ℕ) (db db' : Db) (fresh : Bool)
    → was_fresh (record_skill_swap swap now db) ≡ some (db', fresh)
    → Claims swap.facts.tx_hash db db' fresh
unfolding record_skill_swap
reports_swap-Claims swap now db db' fresh h = elim (Option-cases (get_plan swap.plan_id db.plans)) [
  | inl missing ↦ absurd (cc (rw missing at h))
  | inr (row, found) ↦ reported-Claims swap now row db db' fresh (rw found at h)
]

pub apply_effect-Claims :
    (e : Effect) (db db' : Db) (fresh : Bool)
    → apply_effect e db ≡ some (db', fresh)
    → Claims (hash_of e) db db' fresh
unfolding apply_position_redeem apply_interest_redeem apply_reported_redeem
apply_effect-Claims (approves plan_id cycle_id facts) db db' fresh h =
    subst (λ (x : Db × Bool). Claims facts.tx_hash db x.0 x.1) (some-injective _ _ h)
      (approves-Claims plan_id cycle_id facts db)
apply_effect-Claims (deposits plan_id facts v_tokens usdt_spent) db db' fresh h =
    deposits-Claims plan_id facts v_tokens usdt_spent db db' fresh h
apply_effect-Claims (redeems_position plan_id facts received burned patch) db db' fresh h =
    with_receipt-Claims plan_id none facts _ db
      (λ row before after call. update_plan_tx-receipts plan_id _ before call) db' fresh h
apply_effect-Claims (redeems_interest plan_id cycle_id facts received burned) db db' fresh h =
    with_receipt-Claims plan_id cycle_id facts _ db
      (λ row before after call. update_plan_tx-receipts plan_id _ before call) db' fresh h
apply_effect-Claims (swaps plan_id cycle_id facts instrument received spent_usd interest_usd) db db'
      fresh h =
    swaps-Claims plan_id cycle_id facts instrument received spent_usd interest_usd db db' fresh h
apply_effect-Claims (reports_redeem plan_id facts received burned) db db' fresh h =
    with_receipt-Claims plan_id none facts _ db
      (λ row before after call. update_plan_tx-receipts plan_id _ before call) db' fresh h
apply_effect-Claims (reports_swap swap now) db db' fresh h =
    reports_swap-Claims swap now db db' fresh h
