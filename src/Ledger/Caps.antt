-- ===== src/Ledger/Caps.antt =====
-- A reservation is made exactly where every cap allows it.
use mathlib.Core.Path.{subst}
use new_bnbhack.Common.{
  ℕ, ◌+◌, ◌-◌, ◌≤◌, ◌<◌, ◌≡◌, ◌↔◌, refl, Bool, true, smaller, arith, List, ◌∷◌, Option, none, some,
}
use new_bnbhack.Common.Text.{Text, eq_text_refl}
use new_bnbhack.Ledger.{
  CapReason, OwnerKind, house, judge, skill, counts, LedgerRow, Store, SpendScope, accepted, total,
  Usage, on_day, plan_spend_on_day, house_spend_on_day, judge_exposure_usd, judge_used, usage,
  judge_cap, least_with, remaining_spend, cap_allows, broken_cap, insertable, new_row, insert_row,
  reserve_unless, reserve_spend, with_row, of_judge, plan_in, house_day,
}

-- A new row adds at most its amount to a sum, and all of it where the filter takes it.
pub total-cons-le :
    (p : Text → Text → Bool) (row : LedgerRow) (rows : List LedgerRow)
    → total p (row ∷ rows) ≤ row.amount_usd + total p rows
total-cons-le p row rows = ground arith

total-cons :
    (p : Text → Text → Bool) (row : LedgerRow) (rows : List LedgerRow)
    → counts row.status ≡ true
    → p row.plan_id row.day ≡ true
    → total p (row ∷ rows) ≡ row.amount_usd + total p rows
total-cons p row rows c h = ground arith

judge_used-with_row :
    (s : Store) (row : LedgerRow) (kind : OwnerKind) (ref : Option Text)
    → judge_used (with_row s row) kind ref ≤ row.amount_usd + judge_used s kind ref
unfolding judge_used judge_exposure_usd
judge_used-with_row s row judge (some code) =
    omega (arith, total-cons-le (λ id d. plan_in (of_judge code) s.plans id) row s.spend_ledger)
judge_used-with_row s row judge none = omega arith
judge_used-with_row s row house ref = omega arith
judge_used-with_row s row skill ref = omega arith

pub plan_spend-with_row :
    (s : Store) (row : LedgerRow) (plan_id day : Text)
    → plan_spend_on_day (with_row s row) plan_id day
      ≤ row.amount_usd + plan_spend_on_day s plan_id day
unfolding plan_spend_on_day
plan_spend-with_row s row plan_id day = total-cons-le (on_day plan_id day) row s.spend_ledger

pub house_spend-with_row :
    (s : Store) (row : LedgerRow) (day : Text)
    → house_spend_on_day (with_row s row) day ≤ row.amount_usd + house_spend_on_day s day
unfolding house_spend_on_day
house_spend-with_row s row day = total-cons-le (house_day s.plans day) row s.spend_ledger

global_day-with_row :
    (s : Store) (row : LedgerRow) (scope : SpendScope)
    → (usage (with_row s row) scope).global_day ≤ row.amount_usd + (usage s scope).global_day
unfolding usage
global_day-with_row s row scope =
    ground (
      arith,
      plan_spend-with_row s row scope.plan_id scope.day,
      house_spend-with_row s row scope.day,
    )

-- a usage within the caps of its scope
pub record IsWithin (scope : SpendScope) (u : Usage) : Type 0 where
  pub global_ok : u.global_day ≤ scope.caps.global_daily_usd
  pub plan_ok : u.plan_day ≤ scope.caps.plan_daily_usd
  pub judge_ok : cap_allows (judge_cap scope) u.judge_total ≡ true

-- what a new amount would make of a usage
abbrev pub raised : ℕ → Usage → Usage
raised amount u = record {
  global_day = u.global_day + amount;
  plan_day = u.plan_day + amount;
  judge_total = u.judge_total + amount;
}

pub broken_cap-none :
    (s : Store) (scope : SpendScope) (amount : ℕ)
    → broken_cap s scope amount ≡ none
    → IsWithin scope (raised amount (usage s scope))
unfolding broken_cap
broken_cap-none s scope amount h = record {
  global_ok = ground arith;
  plan_ok = ground arith;
  judge_ok = ground arith;
}

IsWithin-broken_cap :
    (s : Store) (scope : SpendScope) (amount : ℕ)
    → IsWithin scope (raised amount (usage s scope))
    → broken_cap s scope amount ≡ none
unfolding broken_cap
IsWithin-broken_cap s scope amount h =
    let g = h.global_ok in let k = h.plan_ok in let j = h.judge_ok in ground (arith, g, k, j)

cap_allows-le :
    (cap : Option ℕ) (m n : ℕ) → m ≤ n → cap_allows cap n ≡ true → cap_allows cap m ≡ true
cap_allows-le none m n le h = refl
cap_allows-le (some c) m n le h = ground (arith, le, h)

reserve_unless-accepted :
    (o : Option CapReason) (s s' : Store) (scope : SpendScope) (cycle amount id : ℕ)
    → reserve_unless o s scope cycle amount ≡ (s', accepted id)
    → (o ≡ none) × (with_row s (new_row s scope cycle amount) ≡ s')
unfolding reserve_unless insert_row
reserve_unless-accepted (some reason) s s' scope cycle amount id h = absurd (cc)
reserve_unless-accepted none s s' scope cycle amount id h = (refl, ground arith)

with_row-IsWithin :
    (s : Store) (row : LedgerRow) (scope : SpendScope)
    → IsWithin scope (raised row.amount_usd (usage s scope))
    → IsWithin scope (usage (with_row s row) scope)
with_row-IsWithin s row scope h =
    let g = h.global_ok in
    let k = h.plan_ok in
    record {
      global_ok = omega (arith, global_day-with_row s row scope, g);
      plan_ok = unfold usage in omega (arith, plan_spend-with_row s row scope.plan_id scope.day, k);
      judge_ok =
          cap_allows-le (judge_cap scope) (usage (with_row s row) scope).judge_total
            ((usage s scope).judge_total + row.amount_usd)
            (unfold usage in
              omega (arith, judge_used-with_row s row scope.owner_kind scope.owner_ref))
            h.judge_ok;
    }

pub reserve_spend-usage :
    (s s' : Store) (scope : SpendScope) (cycle amount id : ℕ)
    → reserve_spend s scope cycle amount ≡ (s', accepted id)
    → IsWithin scope (usage s' scope)
      × (plan_spend_on_day s' scope.plan_id scope.day
          ≡ amount + plan_spend_on_day s scope.plan_id scope.day)
unfolding reserve_spend
reserve_spend-usage s s' scope cycle amount id h =
    let row = new_row s scope cycle amount in
    let (free, same) =
      reserve_unless-accepted (broken_cap s scope amount) s s' scope cycle amount id h in
    subst
      (λ t.
        IsWithin scope (usage t scope)
        × (plan_spend_on_day t scope.plan_id scope.day
            ≡ amount + plan_spend_on_day s scope.plan_id scope.day))
      same
      (
        with_row-IsWithin s row scope (broken_cap-none s scope amount free),
        unfold plan_spend_on_day in
            total-cons (on_day scope.plan_id scope.day) row s.spend_ledger refl
              (rw (eq_text_refl scope.day, eq_text_refl scope.plan_id) refl),
      )

least_with-le :
    (room : ℕ) (cap : Option ℕ) (used amount : ℕ)
    → 0 < amount
    → (amount ≤ least_with room cap used)
      ↔ ((amount ≤ room) × (cap_allows cap (used + amount) ≡ true))
least_with-le room none used amount h = ground arith
least_with-le room (some cap) used amount h = ground arith

remaining-IsWithin :
    (s : Store) (scope : SpendScope) (amount : ℕ)
    → 0 < amount
    → (amount ≤ remaining_spend s scope) ↔ IsWithin scope (raised amount (usage s scope))
unfolding remaining_spend
remaining-IsWithin s scope amount h =
    let u = usage s scope in
    let room =
      smaller (scope.caps.global_daily_usd - u.global_day)
        (scope.caps.plan_daily_usd - u.plan_day) in
    let (down, up) = least_with-le room (judge_cap scope) u.judge_total amount h in
    (
      λ fits.
          let (in_room, judged) = down fits in
          record {
            global_ok = ground (arith, in_room);
            plan_ok = ground (arith, in_room);
            judge_ok = judged;
          },
      λ w.
          let g = w.global_ok in
          let k = w.plan_ok in let j = w.judge_ok in up (ground (arith, g, k), j),
    )

-- A reservation of a positive amount for a known plan and a cycle without one is made exactly when
-- the amount is at most what `remainingSpend` shows.
pub reserve_spend-iff-remaining :
    (s : Store) (scope : SpendScope) (cycle amount : ℕ)
    → 0 < amount
    → insertable s scope.plan_id cycle ≡ true
    → (reserve_spend s scope cycle amount
        ≡ (with_row s (new_row s scope cycle amount), accepted s.next_id))
      ↔ (amount ≤ remaining_spend s scope)
unfolding reserve_spend
reserve_spend-iff-remaining s scope cycle amount h free =
    let (down, up) = remaining-IsWithin s scope amount h in
    (
      λ e. up (
          broken_cap-none s scope amount
            (reserve_unless-accepted (broken_cap s scope amount) s
              (with_row s (new_row s scope cycle amount)) scope cycle amount s.next_id e).0),
      λ fits.
          rw (IsWithin-broken_cap s scope amount (down fits))
            (unfold reserve_unless insert_row in rw free refl),
    )
