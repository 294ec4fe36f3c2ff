-- ===== src/Record/Redeems.antt =====
-- Redemptions of packages/db/src/record.ts always go through, and split what comes back.
use new_bnbhack.Common.{
  ℕ, ◌+◌, ◌-◌, ◌≤◌, ◌<◌, ◌≡◌, refl, Bool, true, false, ◌&&◌, if◌then◌else◌, Option, none, some,
  arith, ◌⊎◌, ◌*◌, ◌/◌,
}
use new_bnbhack.Common.Text.{Text}
use new_bnbhack.Domain.{PlanMode, PlanStatus, active, paused, stopped}
use new_bnbhack.Plans.{
  PlanRow, PlanPatch, no_patch, plan_allowed, with_patch, or_else, is_active, is_yield, get_plan,
}
use new_bnbhack.Record.Tables.{ReceiptFacts, Db}
use new_bnbhack.Record.Effects.{position_patch, apply_position_redeem, RedeemSplit}
use new_bnbhack.Record.Applied.{
  is_recorded, with_receipt_row, with_receipt-fresh, writes_principal, update_plan_tx-goes_through,
}

-- the patch of a stop, a guardian pause or an operator
abbrev pub status_patch : Option PlanStatus → Option (Option Text) → PlanPatch
status_patch status reason = record no_patch { status = status; paused_reason = reason }

allowed_inactive :
    (row row' : PlanRow)
    → plan_allowed row ≡ true
    → row'.max_per_buy_usd ≡ row.max_per_buy_usd
    → row'.max_daily_usd ≡ row.max_daily_usd
    → is_active row'.status ≡ false
    → plan_allowed row' ≡ true
unfolding plan_allowed
allowed_inactive row row' allowed per_buy per_day idle = ground arith

paused_if_active :
    (status : PlanStatus)
    → is_active (or_else (if is_active status then some paused else none) status) ≡ false
paused_if_active active = refl
paused_if_active paused = refl
paused_if_active stopped = refl

position_patch-idle :
    (status : Option PlanStatus) (reason : Option (Option Text)) (row : PlanRow)
    (received burned : ℕ)
    → is_active
        (with_patch (position_patch (status_patch status reason) row received burned) row).status
      ≡ false
position_patch-idle (some active) reason row received burned = refl
position_patch-idle (some paused) reason row received burned = refl
position_patch-idle (some stopped) reason row received burned = refl
position_patch-idle none reason row received burned = paused_if_active row.status

-- what a redemption of the whole position leaves of a plan
pub record IsRedeemed (row row' : PlanRow) (received burned : ℕ) : Type 0 where
  pub idle : is_active row'.status ≡ false
  pub no_principal : row'.principal_usd ≡ 0
  pub burns : row'.vtoken_units ≡ row.vtoken_units - burned
  pub harvests :
      row'.harvested_unspent_usd ≡ row.harvested_unspent_usd + (received - row.principal_usd)

-- The redemption of a whole position, of a plan within the table's checks and a transaction not
-- recorded yet, always goes through whatever status is asked for, and leaves the plan inactive,
-- without principal, its vTokens less those burned, and what came back above the principal added
-- to the interest.
pub apply_position_redeem-IsRedeemed :
    (plan_id : Text) (facts : ReceiptFacts) (received burned : ℕ) (status : Option PlanStatus)
    (reason : Option (Option Text)) (db : Db) (row : PlanRow)
    → get_plan plan_id db.plans ≡ some row
    → plan_allowed row ≡ true
    → is_recorded facts.tx_hash db.receipts ≡ false
    → (db' : Db) × (row' : PlanRow) × (apply_position_redeem plan_id facts received burned
          (status_patch status reason)
          db
        ≡ some (db', true))
      × (get_plan plan_id db'.plans ≡ some row')
      × IsRedeemed row row' received burned
unfolding apply_position_redeem
apply_position_redeem-IsRedeemed plan_id facts received burned status reason db row found allowed
      new =
    let patch = position_patch (status_patch status reason) row received burned in
    let idle = position_patch-idle status reason row received burned in
    let (db', call, there) =
      update_plan_tx-goes_through plan_id patch (with_receipt_row plan_id none facts db) row found
        (writes_principal patch refl)
        (allowed_inactive row (with_patch patch row) allowed refl refl idle) in
    (
      db',
      with_patch patch row,
      with_receipt-fresh plan_id none facts _ db row found new call,
      there,
      record { idle = idle; no_principal = refl; burns = refl; harvests = refl },
    )

-- A reported redeem takes interest first: the principal is touched only once all the interest, at the
-- redeem's own rate, has been taken.
pub record IsSplit (v_tokens principal received burned : ℕ) (split : RedeemSplit) : Type 0 where
  pub balances : split.principal_left + received ≡ principal + split.to_harvested
  pub interest_first :
      (split.to_harvested ≡ v_tokens * received / burned - principal)
      ⊎ (split.principal_left ≡ principal)
  pub burns : split.v_tokens_left ≡ v_tokens - burned

abbrev status_after : PlanMode → PlanStatus → Bool → PlanStatus
status_after mode status exit =
    or_else (if exit && is_yield mode && is_active status then some paused else none) status

-- What a redeem of a part of the position leaves of a plan: from a cent of principal and two vTokens on
-- the principal that is left and the status are kept, and less is an exit, which leaves no principal on
-- record and no active yield plan.
abbrev pub IsKept : PlanRow → PlanRow → RedeemSplit → Type 0
IsKept row row' split =
    ((10_000_000_000_000_000 ≤ split.principal_left)
      × (2 ≤ split.v_tokens_left)
      × (row'.principal_usd ≡ split.principal_left)
      × (row'.status ≡ row.status))
    ⊎ (((split.principal_left < 10_000_000_000_000_000) ⊎ (split.v_tokens_left < 2))
        × (row'.principal_usd ≡ 0)
        × ((is_yield row'.mode ≡ false) ⊎ (is_active row'.status ≡ false)))

pub record IsReported (row row' : PlanRow) (received burned : ℕ) : Type 0 where
  pub split : RedeemSplit
  pub splits : IsSplit row.vtoken_units row.principal_usd received burned split
  pub harvests : row'.harvested_unspent_usd ≡ row.harvested_unspent_usd + split.to_harvested
  pub burns : row'.vtoken_units ≡ split.v_tokens_left
  pub keeps : IsKept row row' split
