-- ===== src/Plans/Cycles.antt =====
-- Cycles of packages/db/src/plans.ts.
use new_bnbhack.Common.{
  ℕ, suc, Bool, true, false, ◌&&◌, not, leb, ◌==◌, if◌then◌else◌, List, [], ◌∷◌, ◌++◌, Option, none,
  some, any, filter, find, update_first, map_option,
}
use new_bnbhack.Common.Text.{Text, eq_text}
use new_bnbhack.Plans.Tables.{or_else, PlanRow, of_plan}

pub data CycleState : Type 0 where
  running awaiting_tx done : CycleState

abbrev pub same_state : CycleState → CycleState → Bool
same_state running running = true
same_state awaiting_tx awaiting_tx = true
same_state done done = true
same_state _ _ = false

pub data OutcomeKind : Type 0 where
  bought deferred skipped failed : OutcomeKind

pub data ExecutionMode : Type 0 where
  simulate live : ExecutionMode

-- JSON columns are opaque texts; a step log is the list of its entries
pub record CycleRow : Type 0 where
  pub id : ℕ
  pub plan_id : Text
  pub due_at : ℕ
  pub started_at : ℕ
  pub finished_at : Option ℕ
  pub state : CycleState
  pub outcome_kind : Option OutcomeKind
  pub outcome : Option Text
  pub why_key : Option Text
  pub why_params : Option Text
  pub steps : List Text
  pub instrument_id : Option Text
  pub spend_usd : Option ℕ
  pub interest_usd : Option ℕ
  pub retry_at : Option ℕ
  pub execution_mode : ExecutionMode

-- the table with its sequence
pub record CycleTable : Type 0 where
  pub rows : List CycleRow
  pub next_id : ℕ

abbrev pub of_slot : Text → ℕ → CycleRow → Bool
of_slot plan_id due_at row = eq_text row.plan_id plan_id && (row.due_at == due_at)

abbrev pub has_cycle_id : ℕ → CycleRow → Bool
has_cycle_id id row = row.id == id

-- the columns that the caller of an insert does not give have their defaults
abbrev pub new_cycle : ℕ → Text → ℕ → ExecutionMode → ℕ → CycleRow
new_cycle id plan_id due_at mode now = record {
  id = id;
  plan_id = plan_id;
  due_at = due_at;
  started_at = now;
  finished_at = none;
  state = running;
  outcome_kind = none;
  outcome = none;
  why_key = none;
  why_params = none;
  steps = [];
  instrument_id = none;
  spend_usd = none;
  interest_usd = none;
  retry_at = none;
  execution_mode = mode;
}

-- `insert ... on conflict (plan_id, due_at) do nothing`, which uses up an id in any case,
-- of a plan that is known
unfoldable pub insert_cycle : CycleRow → CycleTable → CycleTable × Bool
insert_cycle row t =
    if any (of_slot row.plan_id row.due_at) t.rows
    then (record t { next_id = suc t.next_id }, false)
    else (record t { rows = row ∷ t.rows; next_id = suc t.next_id }, true)

-- the row that `openCycle` answers, with whether it was created
abbrev pub opened : CycleRow → CycleTable → Bool → Option (CycleRow × Bool)
opened row t true = some (row, true)
opened row t false = map_option (λ r. (r, false)) (find (of_slot row.plan_id row.due_at) t.rows)

-- a plan that the foreign key of a cycle may name
abbrev pub is_known : Text → List PlanRow → Bool
is_known plan_id plans = any (of_plan plan_id) plans

-- `openCycle`; where it throws, for a new cycle of a plan that is not known, only the sequence moves on
unfoldable pub open_cycle :
    List PlanRow → Text → ℕ → ExecutionMode → ℕ → CycleTable → CycleTable × Option (CycleRow × Bool)
open_cycle plans plan_id due_at mode now t =
    let row = new_cycle t.next_id plan_id due_at mode now in
    let (t', created) = insert_cycle row t in
    if created && not (is_known plan_id plans)
    then (record t { next_id = suc t.next_id }, none)
    else (t', opened row t' created)

unfoldable pub update_cycle_row : ℕ → (CycleRow → CycleRow) → CycleTable → CycleTable
update_cycle_row id f t = record t { rows = update_first (has_cycle_id id) f t.rows }

-- `appendCycleStep`
unfoldable pub append_cycle_step : ℕ → Text → CycleTable → CycleTable
append_cycle_step id step t =
    update_cycle_row id (λ row. record row { steps = row.steps ++ step ∷ [] }) t

-- a missing field is left as it is, and a nullable one may be set to null
pub record CyclePatch : Type 0 where
  pub state : Option CycleState
  pub outcome_kind : Option (Option OutcomeKind)
  pub outcome : Option (Option Text)
  pub why_key : Option (Option Text)
  pub why_params : Option (Option Text)
  pub instrument_id : Option (Option Text)
  pub spend_usd : Option (Option ℕ)
  pub interest_usd : Option (Option ℕ)
  pub retry_at : Option (Option ℕ)
  pub finished_at : Option (Option ℕ)

abbrev pub with_cycle_patch : CyclePatch → CycleRow → CycleRow
with_cycle_patch patch row = record row {
  state = or_else patch.state row.state;
  outcome_kind = or_else patch.outcome_kind row.outcome_kind;
  outcome = or_else patch.outcome row.outcome;
  why_key = or_else patch.why_key row.why_key;
  why_params = or_else patch.why_params row.why_params;
  instrument_id = or_else patch.instrument_id row.instrument_id;
  spend_usd = or_else patch.spend_usd row.spend_usd;
  interest_usd = or_else patch.interest_usd row.interest_usd;
  retry_at = or_else patch.retry_at row.retry_at;
  finished_at = or_else patch.finished_at row.finished_at;
}

-- `updateCycle`
unfoldable pub update_cycle : ℕ → CyclePatch → CycleTable → CycleTable
update_cycle id patch t = update_cycle_row id (with_cycle_patch patch) t

-- `getCycle`
unfoldable pub get_cycle : ℕ → CycleTable → Option CycleRow
get_cycle id t = find (has_cycle_id id) t.rows

-- `orderBy(asc(id))`
unfoldable pub insert_by_id : CycleRow → List CycleRow → List CycleRow
insert_by_id row [] = row ∷ []
insert_by_id row (other ∷ rows) =
    if leb row.id other.id then row ∷ other ∷ rows else other ∷ insert_by_id row rows

unfoldable pub by_id : List CycleRow → List CycleRow
by_id [] = []
by_id (row ∷ rows) = insert_by_id row (by_id rows)

-- `cyclesOfPlan`
unfoldable pub cycles_of_plan : Text → List CycleState → CycleTable → List CycleRow
cycles_of_plan plan_id states t =
    by_id (filter (λ row. eq_text row.plan_id plan_id && any (same_state row.state) states) t.rows)

-- `cyclesAwaitingTx`
unfoldable pub cycles_awaiting_tx : CycleTable → List CycleRow
cycles_awaiting_tx t = by_id (filter (λ row. same_state row.state awaiting_tx) t.rows)

-- `cyclesRunning`
unfoldable pub cycles_running : CycleTable → List CycleRow
cycles_running t = by_id (filter (λ row. same_state row.state running) t.rows)
