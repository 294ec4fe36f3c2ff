-- ===== src/Ledger/Held.antt =====
-- What is held against each cap after `reserveSpend` of packages/db/src/ledger.ts, summed over the rows themselves.
use new_bnbhack.Common.{
  ℕ, ◌+◌, ◌≤◌, ◌≡◌, refl, sym, ap, ap₂, ◌∙◌, Bool, true, false, ◌&&◌, if◌then◌else◌, any, arith,
  List, [], ◌∷◌, Option, none, some,
}
use new_bnbhack.Common.Text.{Text, eq_text}
use new_bnbhack.Ledger.{
  SpendStatus, reserved, spent, released, PlanRow, OwnerKind, house, judge, skill, counts,
  LedgerRow, Store, SpendScope, accepted, total, house_wallet, is_judge, is_text, plan_in,
  judge_principal, on_day, house_day, plan_spend_on_day, house_spend_on_day, judge_exposure_usd,
  judge_used, usage, cap_allows, reserve_spend, of_judge,
}
use new_bnbhack.Ledger.Caps.{reserve_spend-usage}

-- a row whose amount is not given back
abbrev pub is_held : SpendStatus → Bool
is_held reserved = true
is_held spent = true
is_held released = false

-- the sum of the amounts of the rows that pass a test
abbrev pub held : (LedgerRow → Bool) → List LedgerRow → ℕ
held test [] = 0
held test (row ∷ rows) = (if test row then row.amount_usd else 0) + held test rows

-- what a plan holds on a day
abbrev pub plan_held : Store → Text → Text → ℕ
plan_held s plan_id day =
    held (λ row. is_held row.status && (eq_text row.day day && eq_text row.plan_id plan_id))
      s.spend_ledger

-- what the plans that pass a test hold on a day
abbrev pub plans_held : (PlanRow → Bool) → Store → Text → ℕ
plans_held test s day =
    held
      (λ row.
        is_held row.status
        && (eq_text row.day day && any (λ plan. eq_text plan.id row.plan_id && test plan) s.plans))
      s.spend_ledger

-- a plan that the house wallet pays for, and one of a judge's code
abbrev pub is_paid_by_house : PlanRow → Bool
is_paid_by_house plan = elim plan.owner_kind [ house ↦ true | judge ↦ true | skill ↦ false ]

abbrev pub has_code : Text → PlanRow → Bool
has_code code plan =
    (elim plan.owner_kind [ house ↦ false | judge ↦ true | skill ↦ false ])
    && (elim plan.owner_ref [ none ↦ false | some ref ↦ eq_text ref code ])

abbrev pub principal_held : (PlanRow → Bool) → List PlanRow → ℕ
principal_held test [] = 0
principal_held test (plan ∷ plans) =
    (if test plan then plan.principal_usd else 0) + principal_held test plans

-- what a judge's code holds: the buys of its plans on all days, and the principal in their positions
abbrev pub code_held : Store → Text → ℕ
code_held s code =
    held
      (λ row.
        is_held row.status
        && any (λ plan. eq_text plan.id row.plan_id && has_code code plan) s.plans)
      s.spend_ledger
    + principal_held (has_code code) s.plans

held-total :
    (test : LedgerRow → Bool) (p : Text → Text → Bool) (rows : List LedgerRow)
    → ((row : LedgerRow) → test row ≡ (counts row.status && p row.plan_id row.day))
    → held test rows ≡ total p rows
held-total test p [] same = refl
held-total test p (row ∷ rows) same = ground (arith, same row, held-total test p rows same)

is_held-counts : (status : SpendStatus) → is_held status ≡ counts status
is_held-counts reserved = refl
is_held-counts spent = refl
is_held-counts released = refl

any-same {ℓ} :
    {A : Type ℓ} (p q : A → Bool) (xs : List A) → ((x : A) → p x ≡ q x) → any p xs ≡ any q xs
any-same p q [] same = refl
any-same p q (x ∷ xs) same = rw (same x, any-same p q xs same) refl

is_paid_by_house-lem : (plan : PlanRow) → is_paid_by_house plan ≡ house_wallet plan.owner_kind
is_paid_by_house-lem plan = by_kind plan.owner_kind
  where
    by_kind :
        (kind : OwnerKind)
        → (elim kind [ house ↦ true | judge ↦ true | skill ↦ false ]) ≡ house_wallet kind
    by_kind house = refl
    by_kind judge = refl
    by_kind skill = refl

has_code-of_judge : (code : Text) (plan : PlanRow) → has_code code plan ≡ of_judge code plan
has_code-of_judge code plan = by plan.owner_kind plan.owner_ref
  where
    by :
        (kind : OwnerKind) (ref : Option Text)
        → ((elim kind [ house ↦ false | judge ↦ true | skill ↦ false ])
            && (elim ref [ none ↦ false | some r ↦ eq_text r code ]))
          ≡ (is_judge kind && is_text ref code)
    by house ref = refl
    by skill ref = refl
    by judge none = refl
    by judge (some r) = refl

principal_held-lem :
    (code : Text) (plans : List PlanRow)
    → principal_held (has_code code) plans ≡ judge_principal plans code
principal_held-lem code [] = refl
principal_held-lem code (plan ∷ plans) =
    ground (arith, has_code-of_judge code plan, principal_held-lem code plans)

plan_held-lem :
    (s : Store) (plan_id day : Text) → plan_held s plan_id day ≡ plan_spend_on_day s plan_id day
unfolding plan_spend_on_day
plan_held-lem s plan_id day =
    held-total _ (on_day plan_id day) s.spend_ledger (λ row. rw (is_held-counts row.status) refl)

house_held-lem :
    (s : Store) (day : Text) → plans_held is_paid_by_house s day ≡ house_spend_on_day s day
unfolding house_spend_on_day
house_held-lem s day = held-total _ (house_day s.plans day) s.spend_ledger λ row.
    rw
      (
        is_held-counts row.status,
        any-same (λ (plan : PlanRow). eq_text plan.id row.plan_id && is_paid_by_house plan)
            (λ (plan : PlanRow). eq_text plan.id row.plan_id && house_wallet plan.owner_kind)
            s.plans
            (λ plan. ap (λ b. eq_text plan.id row.plan_id && b) (is_paid_by_house-lem plan)),
      )
      refl

code_held-lem : (s : Store) (code : Text) → code_held s code ≡ judge_exposure_usd s code
unfolding judge_exposure_usd
code_held-lem s code =
    ap₂ (λ m n. m + n)
      (held-total _ (λ id d. plan_in (of_judge code) s.plans id) s.spend_ledger
        λ row.
          rw
            (
              is_held-counts row.status,
              any-same (λ (plan : PlanRow). eq_text plan.id row.plan_id && has_code code plan)
                  (λ (plan : PlanRow). eq_text plan.id row.plan_id && of_judge code plan) s.plans
                  (λ plan.
                    ap (λ b. eq_text plan.id row.plan_id && b) (has_code-of_judge code plan)),
            )
            refl)
      (principal_held-lem code s.plans)

-- the daily cap over all plans is that of the house wallet; a skill wallet's plan has it for itself
abbrev pub wallet_held : OwnerKind → Store → SpendScope → ℕ
wallet_held house s scope = plans_held is_paid_by_house s scope.day
wallet_held judge s scope = plans_held is_paid_by_house s scope.day
wallet_held skill s scope = plan_held s scope.plan_id scope.day

-- a judge's code is within its own cap, where it has one
abbrev pub KeepsCode : OwnerKind → Option Text → Option ℕ → Store → Type 0
KeepsCode judge (some code) (some cap) s = code_held s code ≤ cap
KeepsCode _ _ _ s = Unit

pub record KeepsCaps (scope : SpendScope) (s : Store) : Type 0 where
  pub plan_kept : plan_held s scope.plan_id scope.day ≤ scope.caps.plan_daily_usd
  pub wallet_kept : wallet_held scope.owner_kind s scope ≤ scope.caps.global_daily_usd
  pub code_kept : KeepsCode scope.owner_kind scope.owner_ref scope.caps.judge_total_usd s

wallet_held-lem :
    (kind : OwnerKind) (s : Store) (scope : SpendScope)
    → wallet_held kind s scope ≡ (
        if house_wallet kind
        then house_spend_on_day s scope.day
        else plan_spend_on_day s scope.plan_id scope.day)
wallet_held-lem house s scope = house_held-lem s scope.day
wallet_held-lem judge s scope = house_held-lem s scope.day
wallet_held-lem skill s scope = plan_held-lem s scope.plan_id scope.day

KeepsCode-allowed :
    (kind : OwnerKind) (ref : Option Text) (cap : Option ℕ) (s : Store)
    → cap_allows (if is_judge kind then cap else none) (judge_used s kind ref) ≡ true
    → KeepsCode kind ref cap s
unfolding judge_used
KeepsCode-allowed judge (some code) (some cap) s h = rw (code_held-lem s code) (ground (arith, h))
KeepsCode-allowed judge (some code) none s h = tt
KeepsCode-allowed judge none cap s h = tt
KeepsCode-allowed house ref cap s h = tt
KeepsCode-allowed skill ref cap s h = tt

-- After an accepted reservation the rows of the plan on that day, the rows of all plans that
-- the house wallet pays for on that day (for a skill wallet's plan, its own), and the rows and
-- principal of a judge's code each sum up to at most their cap, where a code has one, released
-- rows left out, and the plan's day has grown by exactly the amount.
pub reserve_spend-IsWithin :
    (s s' : Store) (scope : SpendScope) (cycle amount id : ℕ)
    → reserve_spend s scope cycle amount ≡ (s', accepted id)
    → KeepsCaps scope s'
      × (plan_held s' scope.plan_id scope.day ≡ amount + plan_held s scope.plan_id scope.day)
unfolding usage
reserve_spend-IsWithin s s' scope cycle amount id h =
    let (within, grown) = reserve_spend-usage s s' scope cycle amount id h in
    (
      record {
        plan_kept = rw (plan_held-lem s' scope.plan_id scope.day) within.plan_ok;
        wallet_kept = rw (wallet_held-lem scope.owner_kind s' scope) within.global_ok;
        code_kept =
            KeepsCode-allowed scope.owner_kind scope.owner_ref scope.caps.judge_total_usd s'
              within.judge_ok;
      },
      plan_held-lem s' scope.plan_id scope.day
          ∙ grown
          ∙ ap (λ n. amount + n) (sym (plan_held-lem s scope.plan_id scope.day)),
    )
