-- ===== src/Plans/Inserts.antt =====
-- The inserts and listings of packages/db/src/plans.ts.
use new_bnbhack.Common.{
  ℕ, ◌+◌, ◌*◌, Bool, true, false, ◌&&◌, ◌||◌, not, ltb, leb, if◌then◌else◌, List, ◌∷◌, Option, none,
  some, any, length, filter,
}
use new_bnbhack.Common.Text.{Text, eq_text, to_lower}
use new_bnbhack.Domain.{stopped}
use new_bnbhack.Ledger.{OwnerKind, skill, is_judge, is_text}
use new_bnbhack.Plans.Tables.{PlanRow, same_plan_status, plan_allowed, of_plan}

-- `insertPlan`: the id is new and the checks hold
unfoldable pub insert_plan : PlanRow → List PlanRow → Option (List PlanRow)
insert_plan row rows =
    if not (any (of_plan row.id) rows) && plan_allowed row then some (row ∷ rows) else none

-- `insertPlanIfMissing`, with whether a row was inserted; the checks come before the conflict
unfoldable pub insert_plan_if_missing : PlanRow → List PlanRow → Option (List PlanRow × Bool)
insert_plan_if_missing row rows =
    if not (plan_allowed row)
    then none
    else if any (of_plan row.id) rows
    then some (rows, false)
    else some (row ∷ rows, true)

abbrev pub hour_ms : ℕ
hour_ms = 60 * 60000

-- `created_at > now() - interval '1 hour'`, of a judge's code
abbrev pub is_recent : Text → ℕ → PlanRow → Bool
is_recent code now row =
    is_judge row.owner_kind && is_text row.owner_ref code && ltb now (row.created_at + hour_ms)

-- what the code has made in the last hour
unfoldable pub made_lately : Text → ℕ → List PlanRow → ℕ
made_lately code now rows = length (filter (is_recent code now) rows)

-- the insert of a plan, with the plan where one was made
abbrev pub inserted : PlanRow → Option (List PlanRow) → Option (List PlanRow × Option PlanRow)
inserted row none = none
inserted row (some rows) = some (rows, some row)

-- the plan that a code's request inserts
abbrev pub judge_plan : PlanRow → Text → ℕ → PlanRow
judge_plan row code now = record row { owner_ref = some code; created_at = now }

-- `insertJudgePlan` under its lock, at the database's time
unfoldable pub insert_judge_plan :
    PlanRow → Text → ℕ → ℕ → List PlanRow → Option (List PlanRow × Option PlanRow)
insert_judge_plan row code max_per_hour now rows =
    if leb max_per_hour (made_lately code now rows)
    then some (rows, none)
    else inserted (judge_plan row code now) (insert_plan (judge_plan row code now) rows)

abbrev pub is_skill : OwnerKind → Bool
is_skill skill = true
is_skill _ = false

-- `lower(wallet_address) = lower($wallet)`
abbrev pub of_wallet : Text → Option Text → Bool
of_wallet wallet none = false
of_wallet wallet (some address) = eq_text (to_lower address) (to_lower wallet)

abbrev pub is_open_skill : Text → PlanRow → Bool
is_open_skill wallet row =
    is_skill row.owner_kind
    && of_wallet wallet row.wallet_address
    && not (same_plan_status row.status stopped)

-- the wallet's plans that are not stopped
unfoldable pub open_plans : Text → List PlanRow → ℕ
open_plans wallet rows = length (filter (is_open_skill wallet) rows)

-- `skill_tokens`: the hash of a token, never the token
pub record SkillTokenRow : Type 0 where
  pub id : Text
  pub token_hash : Text
  pub wallet_address : Text
  pub last_used_at : Option ℕ
  pub revoked_at : Option ℕ

pub record SkillDb : Type 0 where
  pub plans : List PlanRow
  pub skill_tokens : List SkillTokenRow

-- the id and the hash of a token are unique
abbrev pub is_token : SkillTokenRow → SkillTokenRow → Bool
is_token token row = eq_text row.id token.id || eq_text row.token_hash token.token_hash

unfoldable pub insert_token : SkillTokenRow → List SkillTokenRow → Option (List SkillTokenRow)
insert_token token rows = if any (is_token token) rows then none else some (token ∷ rows)

-- the plan of an inserted token
abbrev pub plan_for : PlanRow → Text → SkillTokenRow → PlanRow
plan_for row wallet token = record row {
  owner_kind = skill;
  owner_ref = some token.id;
  wallet_address = some wallet;
}

abbrev pub with_token :
    Option (List SkillTokenRow)
    → Option (List PlanRow × Option PlanRow)
    → Option (SkillDb × Option PlanRow)
with_token (some tokens) (some (plans, made)) =
    some (record { plans = plans; skill_tokens = tokens }, made)
with_token _ _ = none

-- `newSkillToken`, of the id and hash that were drawn
abbrev pub new_skill_token : Text → Text → Text → SkillTokenRow
new_skill_token id token_hash wallet = record {
  id = id;
  token_hash = token_hash;
  wallet_address = wallet;
  last_used_at = none;
  revoked_at = none;
}

-- `insertSkillPlan` under its lock
unfoldable pub insert_skill_plan :
    PlanRow → Text → ℕ → SkillTokenRow → SkillDb → Option (SkillDb × Option PlanRow)
insert_skill_plan row wallet max_open token db =
    if leb max_open (open_plans wallet db.plans)
    then some (db, none)
    else with_token (insert_token token db.skill_tokens)
        (inserted (plan_for row wallet token) (insert_plan (plan_for row wallet token) db.plans))
