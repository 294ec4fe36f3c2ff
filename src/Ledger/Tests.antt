-- ===== src/Ledger/Tests.antt =====
-- Two plans of the house wallet on one day.
use new_bnbhack.Common.{ℕ, ◌+◌, ◌≤◌, ◌≡◌, ◌↔◌, refl, [], ◌∷◌, none, some, arith}
use new_bnbhack.Common.Text.{Text, codes, eq_text}
use new_bnbhack.Ledger.{
  PlanRow, house, Store, SpendScope, accepted, refused, global_daily, usage, judge_used,
  plan_spend_on_day, house_spend_on_day, remaining_spend, broken_cap, insertable, with_row, new_row,
  insert_row, reserve_unless, reserve_spend, spends, settle_spend,
}
use new_bnbhack.Ledger.Caps.{reserve_spend-iff-remaining}
use new_bnbhack.Ledger.Held.{KeepsCaps, plan_held, reserve_spend-IsWithin}
use new_bnbhack.Ledger.Runs.{Run, here, next, reserves, settles, WithinDaily, Run-WithinDaily}

abbrev house_plan_row : Text → PlanRow
house_plan_row id = record { id = id; owner_kind = house; owner_ref = none; principal_usd = 0 }

abbrev empty : Store
empty = record {
  plans = house_plan_row (codes "a") ∷ house_plan_row (codes "b") ∷ [];
  spend_ledger = [];
  next_id = 1;
}

abbrev scope : Text → SpendScope
scope id = record {
  plan_id = id;
  owner_kind = house;
  owner_ref = none;
  day = codes "2026-11-26";
  caps = record { global_daily_usd = 10; plan_daily_usd = 8; judge_total_usd = none };
}

abbrev one : Store
one = with_row empty (new_row empty (scope (codes "a")) 1 7)

first_buy : reserve_spend empty (scope (codes "a")) 1 7 ≡ (one, accepted 1)
unfolding reserve_spend reserve_unless broken_cap insert_row insertable usage judge_used
    plan_spend_on_day house_spend_on_day eq_text
first_buy = refl

second_buy : reserve_spend one (scope (codes "b")) 2 4 ≡ (one, refused global_daily)
unfolding reserve_spend reserve_unless broken_cap insert_row insertable usage judge_used
    plan_spend_on_day house_spend_on_day eq_text
second_buy = refl

left : remaining_spend one (scope (codes "b")) ≡ 3
unfolding remaining_spend usage judge_used plan_spend_on_day house_spend_on_day eq_text
left = refl

reserve_spend-IsWithin_example :
    KeepsCaps (scope (codes "a")) one
    × (plan_held one (codes "a") (codes "2026-11-26")
        ≡ 7 + plan_held empty (codes "a") (codes "2026-11-26"))
reserve_spend-IsWithin_example =
    reserve_spend-IsWithin empty one (scope (codes "a")) 1 7 1 first_buy

reserve_spend-iff-remaining_example :
    (reserve_spend one (scope (codes "b")) 2 3
      ≡ (with_row one (new_row one (scope (codes "b")) 2 3), accepted 2))
    ↔ (3 ≤ remaining_spend one (scope (codes "b")))
unfolding insertable eq_text
reserve_spend-iff-remaining_example =
    reserve_spend-iff-remaining one (scope (codes "b")) 2 3 (omega arith) refl

plan_cap : Text → Text → ℕ
plan_cap id day = 8

house_cap : Text → ℕ
house_cap day = 10

nothing_yet : WithinDaily plan_cap house_cap empty
unfolding plan_cap house_cap plan_spend_on_day house_spend_on_day
nothing_yet = record { of_plans = λ id day. omega arith; of_house = λ day. omega arith }

abbrev after_all : Store
after_all =
    settle_spend
      (reserve_spend (reserve_spend empty (scope (codes "a")) 1 7).0 (scope (codes "b")) 2 3).0 1
      spends (some 6)

a_day : Run plan_cap house_cap empty after_all
unfolding plan_cap house_cap reserve_spend reserve_unless broken_cap insert_row insertable usage
    judge_used plan_spend_on_day house_spend_on_day eq_text
a_day =
    next
      (next
        (next here (
          reserves empty (scope (codes "a")) 1 7
            (record { plan_kept = omega arith; kind_kept = refl; house_kept = refl })))
        (reserves (reserve_spend empty (scope (codes "a")) 1 7).0 (scope (codes "b")) 2 3
          (record { plan_kept = omega arith; kind_kept = refl; house_kept = refl })))
      (settles
        (reserve_spend (reserve_spend empty (scope (codes "a")) 1 7).0 (scope (codes "b")) 2 3).0
        spends 1 (some 6) (refl, (refl, tt)))

Run-WithinDaily_example : WithinDaily plan_cap house_cap after_all
Run-WithinDaily_example = Run-WithinDaily plan_cap house_cap nothing_yet a_day
