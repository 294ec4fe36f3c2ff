-- ===== src/Ledger/Ops.antt =====
-- `remainingSpend`, `reserveSpend` and `settleSpend`.
use new_bnbhack.Common.{
  ℕ, suc, ◌+◌, ◌-◌, Bool, true, ◌&&◌, not, leb, ◌==◌, smaller, if◌then◌else◌, any, List, [], ◌∷◌,
  Option, none, some,
}
use new_bnbhack.Common.Text.{Text}
use new_bnbhack.Ledger.Tables.{
  SpendStatus, reserved, spent, released, LedgerRow, Store, SpendScope, CapReason, global_daily,
  plan_daily, judge_total, ReserveResult, accepted, refused, violation, is_reserved, is_judge,
  plan_in, usage,
}

-- `scope.ownerKind === 'judge' ? scope.caps.judgeTotalUsd : undefined`
abbrev pub judge_cap : SpendScope → Option ℕ
judge_cap scope = if is_judge scope.owner_kind then scope.caps.judge_total_usd else none

-- `least` with a cap that may be missing, which is infinite
abbrev pub least_with : ℕ → Option ℕ → ℕ → ℕ
least_with n none used = n
least_with n (some cap) used = smaller n (cap - used)

-- `remainingSpend`; subtraction on ℕ is its `greatest(..., 0)`
unfoldable pub remaining_spend : Store → SpendScope → ℕ
remaining_spend s scope =
    let u = usage s scope in
    least_with
      (smaller (scope.caps.global_daily_usd - u.global_day)
        (scope.caps.plan_daily_usd - u.plan_day))
      (judge_cap scope) u.judge_total

abbrev pub cap_allows : Option ℕ → ℕ → Bool
cap_allows none amount = true
cap_allows (some cap) amount = leb amount cap

-- the first cap that a new amount would break
unfoldable pub broken_cap : Store → SpendScope → ℕ → Option CapReason
broken_cap s scope amount =
    let u = usage s scope in
    if not (leb (u.global_day + amount) scope.caps.global_daily_usd)
    then some global_daily
    else if not (leb (u.plan_day + amount) scope.caps.plan_daily_usd)
    then some plan_daily
    else if not (cap_allows (judge_cap scope) (u.judge_total + amount))
    then some judge_total
    else none

-- the constraints of an insert: the plan is known, and the cycle, which the caller has opened, has no
-- row yet
unfoldable pub insertable : Store → Text → ℕ → Bool
insertable s plan_id cycle =
    plan_in (λ plan. true) s.plans plan_id
    && not (any (λ row. row.cycle_id == cycle) s.spend_ledger)

abbrev pub new_row : Store → SpendScope → ℕ → ℕ → LedgerRow
new_row s scope cycle amount = record {
  id = s.next_id;
  plan_id = scope.plan_id;
  cycle_id = cycle;
  owner_kind = scope.owner_kind;
  day = scope.day;
  amount_usd = amount;
  status = reserved;
}

abbrev pub with_row : Store → LedgerRow → Store
with_row s row = record s { spend_ledger = row ∷ s.spend_ledger; next_id = suc s.next_id }

-- the sequence moves on even where the insert is refused
unfoldable pub insert_row : Store → SpendScope → ℕ → ℕ → Store × ReserveResult
insert_row s scope cycle amount =
    if insertable s scope.plan_id cycle
    then (with_row s (new_row s scope cycle amount), accepted s.next_id)
    else (record s { next_id = suc s.next_id }, violation)

unfoldable pub reserve_unless :
    Option CapReason → Store → SpendScope → ℕ → ℕ → Store × ReserveResult
reserve_unless (some reason) s scope cycle amount = (s, refused reason)
reserve_unless none s scope cycle amount = insert_row s scope cycle amount

-- `reserveSpend`
unfoldable pub reserve_spend : Store → SpendScope → ℕ → ℕ → Store × ReserveResult
reserve_spend s scope cycle amount = reserve_unless (broken_cap s scope amount) s scope cycle amount

-- the two ends of a reservation: 'spent' and 'released'
pub data Settlement : Type 0 where
  spends frees : Settlement

abbrev pub status_of : Settlement → SpendStatus
status_of spends = spent
status_of frees = released

-- whether the update takes the row: freeing only ever frees a reservation
abbrev pub takes : Settlement → ℕ → LedgerRow → Bool
takes spends cycle row = row.cycle_id == cycle
takes frees cycle row = row.cycle_id == cycle && is_reserved row.status

abbrev pub or_amount : Option ℕ → ℕ → ℕ
or_amount none old = old
or_amount (some n) old = n

unfoldable pub settled_row : Settlement → ℕ → Option ℕ → LedgerRow → LedgerRow
settled_row end_ cycle amount row =
    if takes end_ cycle row
    then record row { status = status_of end_; amount_usd = or_amount amount row.amount_usd }
    else row

unfoldable pub settled_rows : Settlement → ℕ → Option ℕ → List LedgerRow → List LedgerRow
settled_rows end_ cycle amount [] = []
settled_rows end_ cycle amount (row ∷ rows) =
    settled_row end_ cycle amount row ∷ settled_rows end_ cycle amount rows

-- `settleSpend`
unfoldable pub settle_spend : Store → ℕ → Settlement → Option ℕ → Store
settle_spend s cycle end_ amount = record s {
  spend_ledger = settled_rows end_ cycle amount s.spend_ledger;
}
