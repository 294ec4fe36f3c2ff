-- ===== src/Record/Swaps.antt =====
-- What `applySwap` of packages/db/src/record.ts leaves of the plan, its holding and its reservation.
use mathlib.Core.Path.{subst}
use mathlib.Core.Option.{some-injective}
use new_bnbhack.Common.{
  ℕ, ◌+◌, ◌-◌, ◌≡◌, refl, sym, ap, ◌∙◌, Bool, true, false, ◌==◌, List, [], ◌∷◌, Option, none, some,
  find, Result, ok, err, arith, Bool-cases, Option-cases, ◌⊎◌, inl, inr, map_option,
  find-update_first, any-find,
}
use new_bnbhack.Common.Text.{Text, eq_text_iff}
use new_bnbhack.Domain.{Instrument}
use new_bnbhack.Holdings.{shares_from_tokens, same_multiplier}
use new_bnbhack.Ledger.{LedgerRow, spends, settled_row, settled_rows, spent}
use new_bnbhack.Plans.{PlanRow, no_patch, with_patch, get_plan}
use new_bnbhack.Plans.Exclusion.{get_plan-update_first}
use new_bnbhack.Record.Tables.{
  ReceiptFacts, HoldingRow, Db, of_holding, get_holding, upsert_holding, of_result,
}
use new_bnbhack.Record.Effects.{
  ◌>>?◌, tokens_of, cost_of, new_holding, with_event, warn_of_change, add_to_holding_tx,
  settle_cycle, use_interest, apply_swap,
}
use new_bnbhack.Record.Applied.{
  when_some, with_receipt_row, with_receipt-IsApplied, update_plan_tx-inv,
}

of_holding_self :
    (plan_id instrument_id : Text) (row : HoldingRow)
    → row.plan_id ≡ plan_id
    → row.instrument_id ≡ instrument_id
    → of_holding plan_id instrument_id row ≡ true
of_holding_self plan_id instrument_id row p q =
    ground (arith, eq_text_iff row.plan_id plan_id, eq_text_iff row.instrument_id instrument_id)

-- the holding that is read after an upsert is the one that was written
get_holding-upsert_holding :
    (row : HoldingRow) (rows : List HoldingRow)
    → get_holding row.plan_id row.instrument_id (upsert_holding row rows) ≡ some row
unfolding get_holding upsert_holding
get_holding-upsert_holding row rows =
    rw (any-find (of_holding row.plan_id row.instrument_id) rows)
      (elim (Option-cases (find (of_holding row.plan_id row.instrument_id) rows)) [
        | inl missing ↦
            rw missing (rw (of_holding_self row.plan_id row.instrument_id row refl refl) refl)
        | inr (old, found) ↦ rw found (
            rw
              (find-update_first (of_holding row.plan_id row.instrument_id) (λ _. row) rows
                (λ _ _. of_holding_self row.plan_id row.instrument_id row refl refl))
              (rw found refl))
      ])

of_result-eq-some : {A : Type 0} (r : Result A) {a : A} → of_result r ≡ some a → r ≡ ok a
of_result-eq-some (ok a) h = cc
of_result-eq-some (err e) h = absurd (cc)

-- tokens and cost grow by what was bought, and the shares are all the tokens at the new multiplier
pub record IsAdded (plan_id : Text) (instrument : Instrument) (received spent_usd : ℕ) (db db' : Db)
    : Type 0 where
  pub shares : Text
  pub priced :
      shares_from_tokens
        (tokens_of (get_holding plan_id instrument.id db.holdings) + received)
        instrument.decimals
        instrument.multiplier
      ≡ ok shares
  pub held :
      get_holding plan_id instrument.id db'.holdings
      ≡ some (
          new_holding plan_id instrument
            (tokens_of (get_holding plan_id instrument.id db.holdings) + received)
            (cost_of (get_holding plan_id instrument.id db.holdings) + spent_usd)
            shares)

add_to_holding_tx-IsAdded :
    (plan_id : Text) (instrument : Instrument) (received spent_usd : ℕ) (db : Db) {db' : Db}
    → add_to_holding_tx plan_id instrument received spent_usd db ≡ some db'
    → IsAdded plan_id instrument received spent_usd db db'
unfolding add_to_holding_tx
add_to_holding_tx-IsAdded plan_id instrument received spent_usd db h =
    let existing = get_holding plan_id instrument.id db.holdings in
    when_some (warn_of_change plan_id instrument existing db) _ h λ db1 warned h1.
      when_some
        (of_result (
          shares_from_tokens (tokens_of existing + received) instrument.decimals
            instrument.multiplier))
        _ h1
        λ shares priced h2.
          let row =
            new_holding plan_id instrument (tokens_of existing + received)
              (cost_of existing + spent_usd) shares in
          record {
            shares = shares;
            priced = of_result-eq-some _ priced;
            held =
                ap (λ (d : Db). get_holding plan_id instrument.id d.holdings)
                  (sym (some-injective _ _ h2))
                ∙ get_holding-upsert_holding row db1.holdings;
          }

-- an effect on a plan's holding writes holdings and events alone
warn_of_change-frame :
    (plan_id : Text) (instrument : Instrument) (existing : Option HoldingRow) (db : Db) {db' : Db}
    → warn_of_change plan_id instrument existing db ≡ some db'
    → db' ≡ record db { events = db'.events }
unfolding warn_of_change
warn_of_change-frame plan_id instrument none db h = ground (arith, h)
warn_of_change-frame plan_id instrument (some row) db {db'} h =
    when_some (of_result (same_multiplier row.multiplier_at_last_update instrument.multiplier)) _ h
      λ same e rest. framed same rest
  where
    framed :
        (same : Bool)
        → some (with_event plan_id instrument row same db) ≡ some db'
        → db' ≡ record db { events = db'.events }
    framed true e = ground (arith, e)
    framed false e = ground (arith, e)

add_to_holding_tx-frame :
    (plan_id : Text) (instrument : Instrument) (received spent_usd : ℕ) (db : Db) {db' : Db}
    → add_to_holding_tx plan_id instrument received spent_usd db ≡ some db'
    → (db'.plans ≡ db.plans) × (db'.spend_ledger ≡ db.spend_ledger)
unfolding add_to_holding_tx
add_to_holding_tx-frame plan_id instrument received spent_usd db {db'} h =
    let existing = get_holding plan_id instrument.id db.holdings in
    when_some (warn_of_change plan_id instrument existing db) _ h λ db1 warned h1.
      when_some
        (of_result (
          shares_from_tokens (tokens_of existing + received) instrument.decimals
            instrument.multiplier))
        _ h1
        λ shares priced h2.
          let frame = warn_of_change-frame plan_id instrument existing db warned in
          (
            ap (λ (d : Db). d.plans) (sym (some-injective _ _ h2)) ∙ ap (λ (d : Db). d.plans) frame,
            ap (λ (d : Db). d.spend_ledger) (sym (some-injective _ _ h2))
                ∙ ap (λ (d : Db). d.spend_ledger) frame,
          )

abbrev pub interest_or_zero : Option ℕ → ℕ
interest_or_zero none = 0
interest_or_zero (some interest) = interest

use_interest-inv :
    (plan_id : Text) (row : PlanRow) (interest : Option ℕ) (db : Db) {db' : Db}
    → use_interest plan_id row interest db ≡ some db'
    → get_plan plan_id db.plans ≡ some row
    → (row' : PlanRow) × (get_plan plan_id db'.plans ≡ some row')
      × (row'.harvested_unspent_usd ≡ row.harvested_unspent_usd - interest_or_zero interest)
      × (db'.holdings ≡ db.holdings)
      × (db'.spend_ledger ≡ db.spend_ledger)
unfolding use_interest
use_interest-inv plan_id row none db h found =
    let same = sym (some-injective _ _ h) in
    (
      row,
      ap (λ (d : Db). get_plan plan_id d.plans) same ∙ found,
      omega arith,
      ap (λ (d : Db). d.holdings) same,
      ap (λ (d : Db). d.spend_ledger) same,
    )
use_interest-inv plan_id row (some interest) db h found =
    let patch = record no_patch {
      harvested_unspent_usd = some (row.harvested_unspent_usd - interest);
    } in
    let frame = update_plan_tx-inv plan_id patch db h refl in
    (
      with_patch patch row,
      ap (λ (d : Db). get_plan plan_id d.plans) frame
          ∙ get_plan-update_first (λ _. true) (with_patch patch) (λ r. refl) plan_id db.plans
          ∙ ap (map_option (with_patch patch)) found,
      refl,
      ap (λ (d : Db). d.holdings) frame,
      ap (λ (d : Db). d.spend_ledger) frame,
    )

-- the cycle's rows are spent with what left the wallet, and the others are as they were
abbrev pub AreSettled : Option ℕ → ℕ → List LedgerRow → List LedgerRow → Type 0
AreSettled none spent_usd rows rows' = rows' ≡ rows
AreSettled (some cycle) spent_usd [] [] = Unit
AreSettled (some cycle) spent_usd (row ∷ rows) (row' ∷ rows') =
    ((((row.cycle_id == cycle) ≡ false) × (row' ≡ row))
      ⊎ (((row.cycle_id == cycle) ≡ true)
          × (row' ≡ record row { status = spent; amount_usd = spent_usd })))
    × AreSettled (some cycle) spent_usd rows rows'
AreSettled (some cycle) spent_usd _ _ = ⊥

settled_rows-AreSettled :
    (cycle spent_usd : ℕ) (rows : List LedgerRow)
    → AreSettled (some cycle) spent_usd rows (settled_rows spends cycle (some spent_usd) rows)
unfolding settled_rows settled_row
settled_rows-AreSettled cycle spent_usd [] = tt
settled_rows-AreSettled cycle spent_usd (row ∷ rows) = (
  elim (Bool-cases (row.cycle_id == cycle)) [
    | inl hit ↦ rw hit (inr (refl, refl))
    | inr miss ↦ rw miss (inl (refl, refl))
  ],
  settled_rows-AreSettled cycle spent_usd rows,
)

settle_cycle-AreSettled :
    (cycle_id : Option ℕ) (spent_usd : ℕ) (db : Db)
    → AreSettled cycle_id spent_usd db.spend_ledger
        (settle_cycle cycle_id spent_usd db).spend_ledger
settle_cycle-AreSettled none spent_usd db = refl
settle_cycle-AreSettled (some cycle) spent_usd db =
    settled_rows-AreSettled cycle spent_usd db.spend_ledger

-- what a swap that was applied leaves of the plan, its holding and the cycle's reservation
pub record IsSwapped (plan_id : Text) (cycle_id : Option ℕ) (instrument : Instrument)
    (received spent_usd : ℕ) (interest : Option ℕ) (db db' : Db) : Type 0 where
  pub row : PlanRow
  pub row' : PlanRow
  pub found : get_plan plan_id db.plans ≡ some row
  pub left : get_plan plan_id db'.plans ≡ some row'
  pub pays : row'.harvested_unspent_usd ≡ row.harvested_unspent_usd - interest_or_zero interest
  pub adds : IsAdded plan_id instrument received spent_usd db db'
  pub settles : AreSettled cycle_id spent_usd db.spend_ledger db'.spend_ledger

settle_cycle-frame :
    (cycle_id : Option ℕ) (spent_usd : ℕ) (db : Db)
    → ((settle_cycle cycle_id spent_usd db).plans ≡ db.plans)
      × ((settle_cycle cycle_id spent_usd db).holdings ≡ db.holdings)
settle_cycle-frame none spent_usd db = (refl, refl)
settle_cycle-frame (some cycle) spent_usd db = (refl, refl)

module _ (plan_id : Text) (cycle_id : Option ℕ) (instrument : Instrument) (received spent_usd : ℕ)
    (interest : Option ℕ) (db : Db) where
  -- the effect itself, once the receipt is in
  swap_effect-IsSwapped :
      (row : PlanRow) {db' : Db}
      → get_plan plan_id db.plans ≡ some row
      → (add_to_holding_tx plan_id instrument received spent_usd
            (settle_cycle cycle_id spent_usd db)
          >>? use_interest plan_id row interest)
        ≡ some db'
      → IsSwapped plan_id cycle_id instrument received spent_usd interest db db'
  swap_effect-IsSwapped row {db'} found h =
      let start = settle_cycle cycle_id spent_usd db in
      let (plans0, holdings0) = settle_cycle-frame cycle_id spent_usd db in
      when_some (add_to_holding_tx plan_id instrument received spent_usd start) _ h λ db1 held h1.
        let (plans1, ledger1) =
          add_to_holding_tx-frame plan_id instrument received spent_usd start held in
        let added = add_to_holding_tx-IsAdded plan_id instrument received spent_usd start held in
        let (row', left, pays, holdings2, ledger2) =
          use_interest-inv plan_id row interest db1 h1
            (ap (get_plan plan_id) (plans1 ∙ plans0) ∙ found) in
        record {
          row = row;
          row' = row';
          found = found;
          left = left;
          pays = pays;
          adds = record {
            shares = added.shares;
            priced = rw (← holdings0) added.priced;
            held = ap (get_holding plan_id instrument.id) holdings2 ∙ rw (← holdings0) added.held;
          };
          settles =
              subst (AreSettled cycle_id spent_usd db.spend_ledger) (sym (ledger2 ∙ ledger1))
                (settle_cycle-AreSettled cycle_id spent_usd db);
        }

-- A swap that is applied settles the reservation rows of its cycle as spent with what left the
-- wallet and no others, adds the tokens and the cost to the holding, whose shares are all its
-- tokens at the current multiplier, and takes the interest used out of harvested, never below
-- zero.
pub apply_swap-IsSwapped :
    (plan_id : Text) (cycle_id : Option ℕ) (facts : ReceiptFacts) (instrument : Instrument)
    (received spent_usd : ℕ) (interest : Option ℕ) (db db' : Db)
    → apply_swap plan_id cycle_id facts instrument received spent_usd interest db ≡ some (db', true)
    → IsSwapped plan_id cycle_id instrument received spent_usd interest db db'
unfolding apply_swap
apply_swap-IsSwapped plan_id cycle_id facts instrument received spent_usd interest db db' h =
    let (row, found, done) = with_receipt-IsApplied plan_id cycle_id facts _ db h in
    elim done [
      | inl (_, _, call) ↦
          let start = with_receipt_row plan_id cycle_id facts db in
          let e =
            swap_effect-IsSwapped plan_id cycle_id instrument received spent_usd interest start row
              found call in
          record {
            row = e.row;
            row' = e.row';
            found = e.found;
            left = e.left;
            pays = e.pays;
            adds = record { shares = e.adds.shares; priced = e.adds.priced; held = e.adds.held };
            settles = e.settles;
          }
      | inr (stale, _, _) ↦ absurd (cc)
    ]
