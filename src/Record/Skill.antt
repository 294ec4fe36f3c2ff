-- ===== src/Record/Skill.antt =====
-- `recordSkillSwap` of packages/db/src/record.ts.
use new_bnbhack.Common.{
  ℕ, zero, suc, ◌-◌, ltb, ◌==◌, if◌then◌else◌, [], ◌∷◌, Option, none, some, any, update_first,
}
use new_bnbhack.Common.Text.{Text, to_lower}
use new_bnbhack.Domain.{Instrument}
use new_bnbhack.Ledger.{LedgerRow, spent, total, on_day}
use new_bnbhack.Plans.{
  PlanRow, PlanPatch, is_yield, get_plan, CycleRow, CycleTable, done, bought, live, insert_cycle,
}
use new_bnbhack.Record.Tables.{ReceiptFacts, ReceiptRow, Db, of_hash, update_plan_tx}
use new_bnbhack.Record.Effects.{◌>>?◌, claim, add_to_holding_tx}

-- the cycle of a report; its outcome and reason are opaque texts
pub record SkillCycle : Type 0 where
  pub due_at : ℕ
  pub outcome : Text
  pub why_key : Text
  pub why_params : Text
  pub interest_usd : Option ℕ
  pub finished_at : ℕ

pub record SkillSwap : Type 0 where
  pub plan_id : Text
  pub facts : ReceiptFacts
  pub instrument : Instrument
  pub received_tokens : ℕ
  pub spent_usd : ℕ
  pub day : Text
  pub cycle : SkillCycle
  pub plan_patch : PlanPatch

abbrev pub skill_cycle : SkillSwap → ℕ → ℕ → ℕ → CycleRow
skill_cycle swap now id due_at = record {
  id = id;
  plan_id = swap.plan_id;
  due_at = due_at;
  started_at = now;
  finished_at = some swap.cycle.finished_at;
  state = done;
  outcome_kind = some bought;
  outcome = some swap.cycle.outcome;
  why_key = some swap.cycle.why_key;
  why_params = some swap.cycle.why_params;
  steps = [];
  instrument_id = some swap.instrument.id;
  spend_usd = some swap.spent_usd;
  interest_usd = swap.cycle.interest_usd;
  retry_at = none;
  execution_mode = live;
}

-- the loop over `bump`, with the tries that are left: the table and the cycle's id
unfoldable pub find_slot : ℕ → SkillSwap → ℕ → ℕ → CycleTable → Option (CycleTable × ℕ)
find_slot zero swap now due_at t = none
find_slot (suc left) swap now due_at t =
    let (t', created) = insert_cycle (skill_cycle swap now t.next_id due_at) t in
    let next = find_slot left swap now (suc due_at) t' in
    if created then some (t', t.next_id) else next

abbrev pub with_cycle : ℕ → ReceiptRow → ReceiptRow
with_cycle cycle_id row = record row { cycle_id = some cycle_id }

abbrev pub spent_row : Db → SkillSwap → PlanRow → ℕ → LedgerRow
spent_row db swap row cycle_id = record {
  id = db.next_ledger_id;
  plan_id = swap.plan_id;
  cycle_id = cycle_id;
  owner_kind = row.owner_kind;
  day = swap.day;
  amount_usd = swap.spent_usd;
  status = spent;
}

-- the insert into the ledger, where a cycle has one row at most
unfoldable pub insert_spent : SkillSwap → PlanRow → ℕ → Db → Option Db
insert_spent swap row cycle_id db =
    if any (λ (r : LedgerRow). r.cycle_id == cycle_id) db.spend_ledger
    then none
    else some (record db {
      spend_ledger = spent_row db swap row cycle_id ∷ db.spend_ledger;
      next_ledger_id = suc db.next_ledger_id;
    })

-- the caller's patch, with the interest that a yield plan paid with taken out of harvested
abbrev pub skill_patch : SkillSwap → PlanRow → PlanPatch
skill_patch swap row =
    let used = if is_yield row.mode then swap.spent_usd else 0 in
    record swap.plan_patch {
      harvested_unspent_usd =
          if ltb 0 used
          then some (row.harvested_unspent_usd - used)
          else swap.plan_patch.harvested_unspent_usd;
    }

-- the transaction after the receipt, with the plan's spend of the day
unfoldable pub write_skill_swap : SkillSwap → ℕ → PlanRow → Db → Option (Db × ℕ × ℕ)
write_skill_swap swap now row db = find_slot 10 swap now swap.cycle.due_at db.cycles >>? λ slot.
    insert_spent swap row slot.1 (record db {
      cycles = slot.0;
      receipts =
          update_first (of_hash (to_lower swap.facts.tx_hash)) (with_cycle slot.1) db.receipts;
    })
    >>? add_to_holding_tx swap.plan_id swap.instrument swap.received_tokens swap.spent_usd
    >>? update_plan_tx swap.plan_id (skill_patch swap row)
    >>? λ db'. some (db', slot.1, total (on_day swap.plan_id swap.day) db'.spend_ledger)

-- the answer of a claim: what is written, with the cycle and the day's spend
abbrev pub reported : Db → Option (Option (Db × ℕ × ℕ)) → Option (Db × Option (ℕ × ℕ))
reported db none = none
reported db (some none) = some (db, none)
reported db (some (some (db', cycle_id, day_spent))) = some (db', some (cycle_id, day_spent))

-- `recordSkillSwap`
unfoldable pub record_skill_swap : SkillSwap → ℕ → Db → Option (Db × Option (ℕ × ℕ))
record_skill_swap swap now db = get_plan swap.plan_id db.plans >>? λ row.
    reported db (claim db swap.plan_id none swap.facts (write_skill_swap swap now row))
