-- ===== src/Plans/Hourly.antt =====
-- The limits that inserts of packages/db/src/plans.ts put on a judge's code and on a wallet.
use mathlib.Core.Path.{subst}
use new_bnbhack.Common.{
  ℕ, ◌+◌, ◌≤◌, ◌<◌, ◌≡◌, refl, Bool, true, ◌&&◌, leb, List, [], ◌∷◌, Option, none, some, length,
  filter, All, arith, Bool-cases, ◌⊎◌, inl, inr, update_first, touched_if,
  length-filter-update_first,
}
use new_bnbhack.Common.Text.{Text, eq_text_iff}
use new_bnbhack.Plans.Tables.{PlanRow, PlanPatch, with_patch, of_plan}
use new_bnbhack.Plans.Locks.{update_plan}
use new_bnbhack.Plans.Inserts.{
  insert_plan, is_recent, made_lately, inserted, judge_plan, insert_judge_plan,
}
use new_bnbhack.Plans.Exclusion.{update_plan-rows}

-- made by the code in the hour that ends at `at`
abbrev pub in_hour : Text → ℕ → PlanRow → Bool
in_hour code at row = is_recent code at row && leb row.created_at at

abbrev pub made_in_hour : Text → ℕ → List PlanRow → ℕ
made_in_hour code at rows = length (filter (in_hour code at) rows)

-- requests with any codes, interleaved with patches of plans and the passing of time
pub data Requests (max : ℕ) : List PlanRow → ℕ → Type 0 where
  empty : Requests max [] 0
  waits :
      {rows : List PlanRow} {now : ℕ}
      → Requests max rows now
      → (d : ℕ) → Requests max rows (now + d)
  makes :
      {rows rows' : List PlanRow} {now : ℕ} {made : Option PlanRow}
      → Requests max rows now
      → (row : PlanRow) (code : Text) → insert_judge_plan row code max now rows ≡ some (rows', made)
      → Requests max rows' now
  patches :
      {rows rows' : List PlanRow} {now : ℕ} {done : Bool}
      → Requests max rows now
      → (id : Text) (patch : PlanPatch) → update_plan id patch rows ≡ some (rows', done)
      → Requests max rows' now

abbrev NoneLater : ℕ → List PlanRow → Type 0
NoneLater now = All (λ row. row.created_at ≤ now)

NoneLater-waits : (now d : ℕ) (rows : List PlanRow) → NoneLater now rows → NoneLater (now + d) rows
NoneLater-waits now d [] h = tt
NoneLater-waits now d (row ∷ rows) (h, hs) = (omega arith, NoneLater-waits now d rows hs)

NoneLater-patches :
    (now : ℕ) (id : Text) (patch : PlanPatch) (rows : List PlanRow)
    → NoneLater now rows
    → NoneLater now (update_first (of_plan id) (touched_if (λ row. true) (with_patch patch)) rows)
unfolding update_first
NoneLater-patches now id patch [] h = tt
NoneLater-patches now id patch (row ∷ rows) (h, hs) = elim (Bool-cases (of_plan id row)) [
  | inl hit ↦ rw hit (h, hs)
  | inr miss ↦ rw miss (h, NoneLater-patches now id patch rows hs)
]

-- every hour that ends after the last insert is within what the insert counted
made_in_hour-le :
    (code : Text) (now at : ℕ) (rows : List PlanRow)
    → now ≤ at
    → made_in_hour code at rows ≤ made_lately code now rows
unfolding made_lately
made_in_hour-le code now at [] h = omega arith
made_in_hour-le code now at (row ∷ rows) h = ground (arith, made_in_hour-le code now at rows h)

-- what an insert of a plan leaves: the table with the plan first, or no answer
insert_plan-rows :
    (row : PlanRow) (rows : List PlanRow) {rows' : List PlanRow} {made : Option PlanRow}
    → inserted row (insert_plan row rows) ≡ some (rows', made)
    → (rows' ≡ row ∷ rows) × (made ≡ some row)
unfolding insert_plan
insert_plan-rows row rows h = ground (arith, h)

-- a request is refused, or inserts its plan where the code has made fewer than it may
insert_judge_plan-rows :
    (row : PlanRow) (code : Text) (max now : ℕ) (rows : List PlanRow) {rows' : List PlanRow}
    {made : Option PlanRow}
    → insert_judge_plan row code max now rows ≡ some (rows', made)
    → (rows' ≡ rows)
      ⊎ ((rows' ≡ judge_plan row code now ∷ rows) × (made_lately code now rows < max))
unfolding insert_judge_plan
insert_judge_plan-rows row code max now rows {rows'} {made} h =
    elim (Bool-cases (leb max (made_lately code now rows))) [
      | inl full ↦ inl (unchanged (rw full at h))
      | inr room ↦
          inr (
            (insert_plan-rows (judge_plan row code now) rows (rw room at h)).0,
            ground (arith, room),
          )
    ]
  where
    unchanged :
        ◌≡◌ {A = Option (List PlanRow × Option PlanRow)} (some (rows, none)) (some (rows', made))
        → rows' ≡ rows
    unchanged e = cc

Requests-NoneLater :
    {max : ℕ} {rows : List PlanRow} {now : ℕ} → Requests max rows now → NoneLater now rows
Requests-NoneLater empty = tt
Requests-NoneLater (waits {rows} {now} r d) = NoneLater-waits now d rows (Requests-NoneLater r)
Requests-NoneLater {max} (makes {rows} {rows'} {now} r row code h) =
    elim (insert_judge_plan-rows row code max now rows h) [
      | inl same ↦ rw same (Requests-NoneLater r)
      | inr (more, room) ↦ rw more (omega arith, Requests-NoneLater r)
    ]
Requests-NoneLater (patches {rows} {rows'} {now} r id patch h) =
    rw (update_plan-rows id patch rows h)
      (NoneLater-patches now id patch rows (Requests-NoneLater r))

in_hour-judge_plan :
    (row : PlanRow) (code code' : Text) (now at : ℕ)
    → in_hour code at (judge_plan row code' now) ≡ true
    → (code' ≡ code) × (now ≤ at)
in_hour-judge_plan row code code' now at h = ground (arith, eq_text_iff code' code)

-- a plan that was just made, seen in an hour that ends earlier or later
made_in_hour-cons :
    (row : PlanRow) (code code' : Text) (max now at : ℕ) (rows : List PlanRow)
    → made_lately code' now rows < max
    → ((code'' : Text) → made_in_hour code'' at rows ≤ max)
    → made_in_hour code at (judge_plan row code' now ∷ rows) ≤ max
made_in_hour-cons row code code' max now at rows room before =
    elim (Bool-cases (in_hour code at (judge_plan row code' now))) [
      | inl here ↦
          let (same, ended) = in_hour-judge_plan row code code' now at here in
          let counted =
            subst (λ c. made_in_hour c at rows ≤ made_lately code' now rows) same
              (made_in_hour-le code' now at rows ended) in
          rw here (omega (arith, counted))
      | inr missing ↦ rw missing (before code)
    ]

-- Whatever requests come with whatever codes, patches in between, in every hour a judge's code
-- makes at most the plans that insertJudgePlan allows per hour.
pub Requests-made_in_hour :
    {max : ℕ} {rows : List PlanRow} {now : ℕ}
    → Requests max rows now
    → (code : Text) (at : ℕ) → made_in_hour code at rows ≤ max
Requests-made_in_hour empty code at = omega arith
Requests-made_in_hour (waits r d) code at = Requests-made_in_hour r code at
Requests-made_in_hour {max} (makes {rows} {rows'} {now} r row code' h) code at =
    elim (insert_judge_plan-rows row code' max now rows h) [
      | inl same ↦ rw same (Requests-made_in_hour r code at)
      | inr (more, room) ↦ rw more (
          made_in_hour-cons row code code' max now at rows room (λ c. Requests-made_in_hour r c at))
    ]
Requests-made_in_hour (patches {rows} {rows'} {now} r id patch h) code at =
    rw (update_plan-rows id patch rows h) (
      rw
        (length-filter-update_first (in_hour code at) (of_plan id)
          (touched_if (λ row. true) (with_patch patch)) rows (λ row. refl))
        (Requests-made_in_hour r code at))
