-- ===== src/Plans/Locks.antt =====
-- `duePlans`, the plan lock and the patches of packages/db/src/plans.ts, and `planLease` of
-- apps/agent/src/plan-lock.ts.
use new_bnbhack.Common.{
  ℕ, ◌+◌, ◌*◌, Bool, true, false, ◌&&◌, ltb, leb, ◌==◌, if◌then◌else◌, List, [], ◌∷◌, Option, none,
  some, filter, update_first, touched_if, map_option, is_some, only_if,
}
use new_bnbhack.Common.Text.{Text, eq_text}
use new_bnbhack.Domain.{PlanStatus}
use new_bnbhack.Plans.Tables.{
  PlanRow, PlanPatch, is_active, same_plan_status, plan_allowed, with_patch, of_plan, get_plan,
}

-- `or(isNull(lock_until), lt(lock_until, now))`
abbrev pub is_free : ℕ → Option ℕ → Bool
is_free now none = true
is_free now (some until) = ltb until now

-- `eq(lock_until, $value)`
abbrev pub is_held : ℕ → Option ℕ → Bool
is_held value none = false
is_held value (some until) = until == value

-- `orderBy(asc(next_due_at))`
unfoldable pub insert_due : PlanRow → List PlanRow → List PlanRow
insert_due row [] = row ∷ []
insert_due row (other ∷ rows) =
    if leb row.next_due_at other.next_due_at
    then row ∷ other ∷ rows
    else other ∷ insert_due row rows

unfoldable pub by_due : List PlanRow → List PlanRow
by_due [] = []
by_due (row ∷ rows) = insert_due row (by_due rows)

abbrev pub is_due : ℕ → PlanRow → Bool
is_due now row = is_active row.status && leb row.next_due_at now && is_free now row.lock_until

-- `duePlans`
unfoldable pub due_plans : ℕ → List PlanRow → List PlanRow
due_plans now rows = by_due (filter (is_due now) rows)

abbrev pub with_lock : Option ℕ → PlanRow → PlanRow
with_lock until row = record row { lock_until = until }

abbrev pub free_at : ℕ → PlanRow → Bool
free_at now row = is_free now row.lock_until

abbrev pub held_with : ℕ → PlanRow → Bool
held_with value row = is_held value row.lock_until

-- `acquirePlanLock`, with the row that the update returns
unfoldable pub acquire_plan_lock : Text → ℕ → ℕ → List PlanRow → List PlanRow × Option PlanRow
acquire_plan_lock id now ttl rows = (
  update_first (of_plan id) (touched_if (free_at now) (with_lock (some (now + ttl)))) rows,
  map_option (with_lock (some (now + ttl))) (only_if (free_at now) (get_plan id rows)),
)

-- `renewPlanLock`, with the lock's new value
unfoldable pub renew_plan_lock : Text → ℕ → ℕ → ℕ → List PlanRow → List PlanRow × Option ℕ
renew_plan_lock id value now ttl rows = (
  update_first (of_plan id) (touched_if (held_with value) (with_lock (some (now + ttl)))) rows,
  map_option (λ _. now + ttl) (only_if (held_with value) (get_plan id rows)),
)

-- whether an update of the plan's row, where the condition holds, keeps the table's checks
abbrev pub stays_allowed : (PlanRow → PlanRow) → Option PlanRow → Bool
stays_allowed f none = true
stays_allowed f (some row) = plan_allowed (f row)

-- an update of one plan that a check may refuse, with whether a row was updated
unfoldable pub write_plan :
    Text → (PlanRow → Bool) → (PlanRow → PlanRow) → List PlanRow → Option (List PlanRow × Bool)
write_plan id p f rows =
    let found = only_if p (get_plan id rows) in
    if stays_allowed f found
    then some (update_first (of_plan id) (touched_if p f) rows, is_some found)
    else none

-- `{ ...patch, lockUntil: null }`
abbrev pub release_with : PlanPatch → PlanRow → PlanRow
release_with patch row = with_lock none (with_patch patch row)

-- `releasePlanLock`
unfoldable pub release_plan_lock :
    Text → Option ℕ → PlanPatch → List PlanRow → Option (List PlanRow × Bool)
release_plan_lock id none patch rows = some (rows, false)
release_plan_lock id (some value) patch rows =
    write_plan id (held_with value) (release_with patch) rows

-- `updatePlan`
unfoldable pub update_plan : Text → PlanPatch → List PlanRow → Option (List PlanRow × Bool)
update_plan id patch rows = write_plan id (λ row. true) (with_patch patch) rows

-- `isNull` or `eq` on the paused reason
abbrev pub same_reason : Option Text → Option Text → Bool
same_reason none none = true
same_reason (some a) (some b) = eq_text a b
same_reason _ _ = false

abbrev pub as_expected : PlanStatus → Option Text → PlanRow → Bool
as_expected status reason row =
    same_plan_status row.status status && same_reason reason row.paused_reason

-- `updatePlanIf`
unfoldable pub update_plan_if :
    Text → PlanStatus → Option Text → PlanPatch → List PlanRow → Option (List PlanRow × Bool)
update_plan_if id status reason patch rows =
    write_plan id (as_expected status reason) (with_patch patch) rows

-- `LOCK_TTL_MS`
abbrev pub lock_ttl_ms : ℕ
lock_ttl_ms = 12 * 60000

-- `PlanLease.hold`: the table and the lease's new value, where nothing means that it was lost
unfoldable pub hold : Text → ℕ → List PlanRow → Option ℕ → List PlanRow × Option ℕ
hold id now rows none = (rows, none)
hold id now rows (some value) = renew_plan_lock id value now lock_ttl_ms rows
