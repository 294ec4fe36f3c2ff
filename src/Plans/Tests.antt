-- ===== src/Plans/Tests.antt =====
-- Runs of packages/db/src/plans.ts on a small table.
use new_bnbhack.Common.{ℕ, ◌≤◌, ◌≡◌, refl, false, update_first, List, [], ◌∷◌, none, some}
use new_bnbhack.Common.Text.{codes, eq_text, to_lower}
use new_bnbhack.Domain.{safe, weekly, anytime, active, stopped}
use new_bnbhack.Ledger.{judge, skill}
use new_bnbhack.Plans.{
  PlanRow, no_patch, plan_allowed, get_plan, acquire_plan_lock, renew_plan_lock, hold, write_plan,
  update_plan_if, due_plans, by_due, insert_due, CycleTable, live, insert_cycle, open_cycle,
  insert_plan, made_lately, insert_judge_plan, judge_plan, new_skill_token, open_plans,
  insert_skill_plan,
}
use new_bnbhack.Plans.Exclusion.{System, Step, start, later, takes, updated, Reach-held_once}
use new_bnbhack.Plans.Hourly.{empty, makes, made_in_hour, Requests-made_in_hour}

abbrev plan_a : PlanRow
plan_a = record {
  id = codes "a";
  owner_kind = judge;
  owner_ref = some (codes "c1");
  wallet_address = none;
  mode = safe;
  ticker = codes "AAPL";
  issuer_preference = [];
  principal_usd = 0;
  contribution_usd = 5;
  harvested_unspent_usd = 0;
  vtoken_units = 0;
  cadence = weekly;
  window = anytime;
  max_per_buy_usd = 5;
  max_daily_usd = 10;
  status = active;
  paused_reason = none;
  created_at = 0;
  next_due_at = 100;
  expires_at = none;
  lock_until = none;
}

abbrev plan_b : PlanRow
plan_b = record plan_a { id = codes "b"; next_due_at = 50 }

abbrev table : List PlanRow
table = plan_a ∷ plan_b ∷ []

-- the plan that is due first comes first
due_order : due_plans 100 table ≡ plan_b ∷ plan_a ∷ []
unfolding due_plans by_due insert_due
due_order = refl

-- a lock that is not over is not taken
busy_lock :
    (acquire_plan_lock (codes "a") 200 60 (record plan_a { lock_until = some 200 } ∷ [])).1 ≡ none
unfolding acquire_plan_lock get_plan eq_text
busy_lock = refl

abbrev at_start : System
at_start = record { rows = table; clock = 1000; lease = λ _. none }

-- worker 0 has the lock of plan a
took_lock :
    (acquire_plan_lock (codes "a") 1000 60 table).1
    ≡ some (record plan_a { lock_until = some 1060 })
unfolding acquire_plan_lock get_plan eq_text
took_lock = refl

abbrev after_take : System
after_take = record {
  rows = (acquire_plan_lock (codes "a") 1000 60 table).0;
  clock = 1000;
  lease = updated (λ _. none) 0 (some 1060);
}

first_step : Step (codes "a") at_start after_take
first_step = takes 0 60 took_lock

Reach-held_once_example : ◌≡◌ {A = ℕ} 0 0
unfolding acquire_plan_lock renew_plan_lock hold get_plan eq_text update_first
Reach-held_once_example =
    Reach-held_once {s = after_take} (later (start table 1000) first_step) 0 0 refl refl

-- a stop that was written in between is not overwritten
stop_wins :
    update_plan_if
      (codes "a")
      active
      none
      (record no_patch { next_due_at = some 9 })
      (record plan_a { status = stopped } ∷ [])
    ≡ some (record plan_a { status = stopped } ∷ [], false)
unfolding update_plan_if write_plan get_plan eq_text update_first
stop_wins = refl

abbrev one_made : List PlanRow
one_made = judge_plan plan_a (codes "c1") 0 ∷ []

first_request :
    insert_judge_plan plan_a (codes "c1") 1 0 []
    ≡ some (one_made, some (judge_plan plan_a (codes "c1") 0))
unfolding insert_judge_plan made_lately insert_plan plan_allowed
first_request = refl

-- the second request within the hour is refused
second_request : insert_judge_plan plan_b (codes "c1") 1 0 one_made ≡ some (one_made, none)
unfolding insert_judge_plan made_lately eq_text
second_request = refl

Requests-made_in_hour_example : made_in_hour (codes "c1") 7 one_made ≤ 1
Requests-made_in_hour_example =
    Requests-made_in_hour
      (makes (makes empty plan_a (codes "c1") first_request) plan_b (codes "c1") second_request)
      (codes "c1") 7

abbrev no_cycles : CycleTable
no_cycles = record { rows = []; next_id = 1 }

-- a plan that is not there
unknown_plan : (open_cycle [] (codes "a") 100 live 7 no_cycles).1 ≡ none
unfolding open_cycle insert_cycle
unknown_plan = refl

abbrev skill_plan : PlanRow
skill_plan = record plan_a {
  owner_kind = skill;
  owner_ref = some (codes "old");
  wallet_address = some (codes "0xab");
}

-- a wallet in another spelling has the same plans
wallet_full :
    insert_skill_plan plan_b
      (codes "0xAB")
      1
      (new_skill_token (codes "t") (codes "h") (codes "0xAB"))
      (record { plans = skill_plan ∷ []; skill_tokens = [] })
    ≡ some (record { plans = skill_plan ∷ []; skill_tokens = [] }, none)
unfolding insert_skill_plan open_plans to_lower eq_text
wallet_full = refl
