-- ===== src/Plans/Once.antt =====
-- `openCycle` of packages/db/src/plans.ts opens a slot once.
use new_bnbhack.Common.{ℕ, ◌≡◌, Bool, Option, some, find}
use new_bnbhack.Common.Text.{Text}
use new_bnbhack.Plans.Cycles.{CycleRow, CycleTable, of_slot}

-- the table's cycle of a slot, answered with the flag that `openCycle` gives
abbrev pub IsOpened : Text → ℕ → CycleTable → Option (CycleRow × Bool) → Bool → Type 0
IsOpened plan_id due_at t answer created =
    (row : CycleRow) × (answer ≡ some (row, created))
    × (find (of_slot plan_id due_at) t.rows ≡ some row)
