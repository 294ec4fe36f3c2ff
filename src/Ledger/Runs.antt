-- ===== src/Ledger/Runs.antt =====
-- Every run of reservations and settlements stays within the daily caps.
use native.Mathlib.Nat.{le_trans}
use new_bnbhack.Common.{
  ℕ, suc, ◌+◌, ◌≤◌, ◌≡◌, refl, sym, ◌∙◌, Bool, true, false, ◌&&◌, ltb, ◌==◌, leb, if◌then◌else◌,
  arith, List, [], ◌∷◌, All, Option, none, some, Bool-cases, inl, inr,
}
use new_bnbhack.Common.Text.{Text, eq_text_iff}
use new_bnbhack.Ledger.{
  counts, PlanRow, LedgerRow, Store, SpendScope, CapReason, house_wallet, house_plan, total, on_day,
  house_day, plan_spend_on_day, house_spend_on_day, usage, broken_cap, insertable, with_row,
  new_row, insert_row, reserve_unless, reserve_spend, Settlement, spends, frees, or_amount,
  settled_row, settled_rows, settle_spend,
}
use new_bnbhack.Ledger.Caps.{
  IsWithin, raised, broken_cap-none, plan_spend-with_row, house_spend-with_row,
}

-- The receipt's amount is no more than the row counts for.
abbrev pub covers : Settlement → ℕ → Option ℕ → LedgerRow → Bool
covers frees cycle amount row = true
covers spends cycle amount row =
    if row.cycle_id == cycle
    then counts row.status && leb (or_amount amount row.amount_usd) row.amount_usd
    else true

-- Settling never raises a sum.
total-settled_rows :
    (p : Text → Text → Bool) (end_ : Settlement) (cycle : ℕ) (amount : Option ℕ)
    (rows : List LedgerRow)
    → All (λ row. covers end_ cycle amount row ≡ true) rows
    → total p (settled_rows end_ cycle amount rows) ≤ total p rows
unfolding settled_rows settled_row
total-settled_rows p end_ cycle amount [] h = omega arith
total-settled_rows p frees cycle amount (row ∷ rows) (h, hs) =
    let rest = total-settled_rows p frees cycle amount rows hs in ground (arith, rest)
total-settled_rows p spends cycle amount (row ∷ rows) (h, hs) =
    let rest = total-settled_rows p spends cycle amount rows hs in ground (arith, rest, h)

on_day-same :
    (plan_id day id d : Text) → on_day plan_id day id d ≡ true → (d ≡ day) × (id ≡ plan_id)
on_day-same plan_id day id d h =
    ((eq_text_iff d day).0 (ground (arith, h)), (eq_text_iff id plan_id).0 (ground (arith, h)))

house_day-same :
    (plans : List PlanRow) (day id d : Text)
    → house_day plans day id d ≡ true
    → (d ≡ day) × (house_plan plans id ≡ true)
house_day-same plans day id d h = ((eq_text_iff d day).0 (ground (arith, h)), ground (arith, h))

-- A row of another plan or day changes no sum.
plan_spend-other :
    (s : Store) (row : LedgerRow) (plan_id day : Text)
    → on_day plan_id day row.plan_id row.day ≡ false
    → plan_spend_on_day (with_row s row) plan_id day ≡ plan_spend_on_day s plan_id day
unfolding plan_spend_on_day
plan_spend-other s row plan_id day h = ground (arith, h)

house_spend-other :
    (s : Store) (row : LedgerRow) (day : Text)
    → house_day s.plans day row.plan_id row.day ≡ false
    → house_spend_on_day (with_row s row) day ≡ house_spend_on_day s day
unfolding house_spend_on_day
house_spend-other s row day h = ground (arith, h)

global_day-house :
    (s : Store) (scope : SpendScope)
    → house_wallet scope.owner_kind ≡ true
    → (usage s scope).global_day ≡ house_spend_on_day s scope.day
unfolding usage
global_day-house s scope h = rw h refl

-- A daily cap for each plan, and one for the house wallet.
module _ (plan_cap : Text → Text → ℕ) (house_cap : Text → ℕ) where
  -- A reservation states the caps, and the kind of owner that the plan has.
  pub record Honours (s : Store) (scope : SpendScope) : Type 0 where
    pub plan_kept : scope.caps.plan_daily_usd ≤ plan_cap scope.plan_id scope.day
    pub kind_kept : house_plan s.plans scope.plan_id ≡ house_wallet scope.owner_kind
    pub house_kept :
        (house_wallet scope.owner_kind && ltb (house_cap scope.day) scope.caps.global_daily_usd)
        ≡ false

  pub data Step : Store → Store → Type 0 where
    reserves :
        (s : Store) (scope : SpendScope) (cycle amount : ℕ)
        → Honours s scope
        → Step s (reserve_spend s scope cycle amount).0
    settles :
        (s : Store) (end_ : Settlement) (cycle : ℕ) (amount : Option ℕ)
        → All (λ row. covers end_ cycle amount row ≡ true) s.spend_ledger
        → Step s (settle_spend s cycle end_ amount)

  pub data Run (s : Store) : Store → Type 0 where
    here : Run s s
    next : {t u : Store} → Run s t → Step t u → Run s u

  -- The reserved and spent amounts of every day are within its caps.
  pub record WithinDaily (s : Store) : Type 0 where
    pub of_plans : (plan_id day : Text) → plan_spend_on_day s plan_id day ≤ plan_cap plan_id day
    pub of_house : (day : Text) → house_spend_on_day s day ≤ house_cap day

  same_sums : (s : Store) (n : ℕ) → WithinDaily s → WithinDaily (record s { next_id = n })
  unfolding plan_spend_on_day house_spend_on_day
  same_sums s n w = record { of_plans = w.of_plans; of_house = w.of_house }

  with_row-of_plans :
      (s : Store) (scope : SpendScope) (cycle amount : ℕ)
      → Honours s scope
      → WithinDaily s
      → IsWithin scope (raised amount (usage s scope))
      → (plan_id day : Text)
      → plan_spend_on_day (with_row s (new_row s scope cycle amount)) plan_id day
        ≤ plan_cap plan_id day
  with_row-of_plans s scope cycle amount kept w fits plan_id day =
      let row = new_row s scope cycle amount in
      elim (Bool-cases (on_day plan_id day scope.plan_id scope.day)) [
        | inl mine ↦
            let (same_day, same_plan) = on_day-same plan_id day scope.plan_id scope.day mine in
            let room : plan_spend_on_day s scope.plan_id scope.day + amount
                ≤ scope.caps.plan_daily_usd =
              unfold usage in fits.plan_ok in
            rw (sym same_day, sym same_plan)
              (omega
                (arith, plan_spend-with_row s row scope.plan_id scope.day, room, kept.plan_kept))
        | inr other ↦ rw (plan_spend-other s row plan_id day other) (w.of_plans plan_id day)
      ]

  with_row-of_house :
      (s : Store) (scope : SpendScope) (cycle amount : ℕ)
      → Honours s scope
      → WithinDaily s
      → IsWithin scope (raised amount (usage s scope))
      → (day : Text)
      → house_spend_on_day (with_row s (new_row s scope cycle amount)) day ≤ house_cap day
  with_row-of_house s scope cycle amount kept w fits day =
      let row = new_row s scope cycle amount in
      elim (Bool-cases (house_day s.plans day scope.plan_id scope.day)) [
        | inl mine ↦
            let (same_day, house_paid) = house_day-same s.plans day scope.plan_id scope.day mine in
            let house : house_wallet scope.owner_kind ≡ true = sym kept.kind_kept ∙ house_paid in
            let room = fits.global_ok in
            let cap = kept.house_kept in
            let known = global_day-house s scope house in
            rw (sym same_day)
              (ground (arith, house_spend-with_row s row scope.day, rw known at room, cap, house))
        | inr other ↦ rw (house_spend-other s row day other) (w.of_house day)
      ]

  reserve_unless-WithinDaily :
      (o : Option CapReason) (s : Store) (scope : SpendScope) (cycle amount : ℕ)
      → broken_cap s scope amount ≡ o
      → Honours s scope
      → WithinDaily s
      → WithinDaily (reserve_unless o s scope cycle amount).0
  unfolding reserve_unless insert_row
  reserve_unless-WithinDaily (some reason) s scope cycle amount e kept w = w
  reserve_unless-WithinDaily none s scope cycle amount e kept w =
      let fits = broken_cap-none s scope amount e in
      elim (Bool-cases (insertable s scope.plan_id cycle)) [
        | inl free ↦ rw free (record {
          of_plans = with_row-of_plans s scope cycle amount kept w fits;
          of_house = with_row-of_house s scope cycle amount kept w fits;
        })
        | inr taken ↦ rw taken (same_sums s (suc s.next_id) w)
      ]

  settle_spend-WithinDaily :
      (s : Store) (end_ : Settlement) (cycle : ℕ) (amount : Option ℕ)
      → All (λ row. covers end_ cycle amount row ≡ true) s.spend_ledger
      → WithinDaily s
      → WithinDaily (settle_spend s cycle end_ amount)
  unfolding settle_spend plan_spend_on_day house_spend_on_day
  settle_spend-WithinDaily s end_ cycle amount h w = record {
    of_plans = λ plan_id day.
        le_trans (total-settled_rows (on_day plan_id day) end_ cycle amount s.spend_ledger h)
          (w.of_plans plan_id day);
    of_house = λ day.
        le_trans (total-settled_rows (house_day s.plans day) end_ cycle amount s.spend_ledger h)
          (w.of_house day);
  }

  Step-WithinDaily : {s t : Store} → Step s t → WithinDaily s → WithinDaily t
  unfolding reserve_spend
  Step-WithinDaily (reserves s scope cycle amount kept) w =
      reserve_unless-WithinDaily (broken_cap s scope amount) s scope cycle amount refl kept w
  Step-WithinDaily (settles s end_ cycle amount h) w =
      settle_spend-WithinDaily s end_ cycle amount h w

  -- However reservations and settlements are interleaved, as long as each reservation states the
  -- caps and no receipt is for more than its reserved row, the reserved and spent amounts of each
  -- plan's day and of the house wallet's day stay within the daily caps.
  pub Run-WithinDaily : {s t : Store} → WithinDaily s → Run s t → WithinDaily t
  Run-WithinDaily w here = w
  Run-WithinDaily w (next run step) = Step-WithinDaily step (Run-WithinDaily w run)
