-- ===== src/Ledger/Tables.antt =====
-- The tables of the ledger, and what is used of each cap.
use new_bnbhack.Common.{
  ℕ, ◌+◌, Bool, true, false, ◌&&◌, if◌then◌else◌, take, any, List, [], ◌∷◌, Option, none, some,
}
use new_bnbhack.Common.Text.{Text, eq_text}
use new_bnbhack.Calendar.{iso}

pub data OwnerKind : Type 0 where
  house judge skill : OwnerKind

pub data SpendStatus : Type 0 where
  reserved spent released : SpendStatus

-- the columns of `plans` that the ledger reads
pub record PlanRow : Type 0 where
  pub id : Text
  pub owner_kind : OwnerKind
  pub owner_ref : Option Text
  pub principal_usd : ℕ

pub record LedgerRow : Type 0 where
  pub id : ℕ
  pub plan_id : Text
  pub cycle_id : ℕ
  pub owner_kind : OwnerKind
  pub day : Text
  pub amount_usd : ℕ
  pub status : SpendStatus

pub record Store : Type 0 where
  pub plans : List PlanRow
  pub spend_ledger : List LedgerRow
  pub next_id : ℕ

pub record SpendCaps : Type 0 where
  pub global_daily_usd : ℕ
  pub plan_daily_usd : ℕ
  pub judge_total_usd : Option ℕ

pub record SpendScope : Type 0 where
  pub plan_id : Text
  pub owner_kind : OwnerKind
  pub owner_ref : Option Text
  pub day : Text
  pub caps : SpendCaps

pub data CapReason : Type 0 where
  global_daily plan_daily judge_total : CapReason

-- `violation` is the exception of a constraint of the table
pub data ReserveResult : Type 0 where
  accepted : (ledger_id : ℕ) → ReserveResult
  refused : CapReason → ReserveResult
  violation : ReserveResult

-- `utcDay`
abbrev pub utc_day : ℕ → Text
utc_day at = take 10 (iso at)

-- `status in ('reserved', 'spent')`
abbrev pub counts : SpendStatus → Bool
counts reserved = true
counts spent = true
counts released = false

abbrev pub is_reserved : SpendStatus → Bool
is_reserved reserved = true
is_reserved _ = false

-- `owner_kind in ('house', 'judge')`
abbrev pub house_wallet : OwnerKind → Bool
house_wallet house = true
house_wallet judge = true
house_wallet skill = false

-- the sum of the counted amounts whose plan and day pass the filter
abbrev pub total : (Text → Text → Bool) → List LedgerRow → ℕ
total p [] = 0
total p (row ∷ rows) =
    if counts row.status && p row.plan_id row.day
    then row.amount_usd + total p rows
    else total p rows

abbrev pub is_text : Option Text → Text → Bool
is_text none t = false
is_text (some s) t = eq_text s t

abbrev pub is_judge : OwnerKind → Bool
is_judge judge = true
is_judge _ = false

-- `owner_kind = 'judge' and owner_ref = code`
abbrev pub of_judge : Text → PlanRow → Bool
of_judge code plan = is_judge plan.owner_kind && is_text plan.owner_ref code

-- `plan_id in (select id from plans where ...)`
abbrev pub plan_in : (PlanRow → Bool) → List PlanRow → Text → Bool
plan_in p plans id = any (λ plan. eq_text plan.id id && p plan) plans

abbrev pub house_plan : List PlanRow → Text → Bool
house_plan plans id = plan_in (λ plan. house_wallet plan.owner_kind) plans id

-- `judgePrincipal`
abbrev pub judge_principal : List PlanRow → Text → ℕ
judge_principal [] code = 0
judge_principal (plan ∷ plans) code =
    if of_judge code plan
    then plan.principal_usd + judge_principal plans code
    else judge_principal plans code

abbrev pub on_day : Text → Text → Text → Text → Bool
on_day plan_id day id d = eq_text d day && eq_text id plan_id

abbrev pub house_day : List PlanRow → Text → Text → Text → Bool
house_day plans day id d = eq_text d day && house_plan plans id

-- `planSpendOnDay`
unfoldable pub plan_spend_on_day : Store → Text → Text → ℕ
plan_spend_on_day s plan_id day = total (on_day plan_id day) s.spend_ledger

-- what the house wallet has reserved or spent on a day
unfoldable pub house_spend_on_day : Store → Text → ℕ
house_spend_on_day s day = total (house_day s.plans day) s.spend_ledger

-- `judgeExposureUsd`
unfoldable pub judge_exposure_usd : Store → Text → ℕ
judge_exposure_usd s code =
    total (λ id d. plan_in (of_judge code) s.plans id) s.spend_ledger + judge_principal s.plans code

pub record Usage : Type 0 where
  pub global_day : ℕ
  pub plan_day : ℕ
  pub judge_total : ℕ

-- what a judge's code has used; nothing for other owners
unfoldable pub judge_used : Store → OwnerKind → Option Text → ℕ
judge_used s judge (some code) = judge_exposure_usd s code
judge_used s _ _ = 0

-- `usageQuery`
unfoldable pub usage : Store → SpendScope → Usage
usage s scope = record {
  global_day =
      if house_wallet scope.owner_kind
      then house_spend_on_day s scope.day
      else plan_spend_on_day s scope.plan_id scope.day;
  plan_day = plan_spend_on_day s scope.plan_id scope.day;
  judge_total = judge_used s scope.owner_kind scope.owner_ref;
}
