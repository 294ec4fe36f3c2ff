-- ===== src/Queue/Selection.antt =====
-- The jobs table between statements, and the row that a claim selects.
use mathlib.Core.Path.{subst}
use mathlib.Core.Option.{some-injective}
use new_bnbhack.Common.{
  ℕ, ◌≡◌, refl, Bool, true, false, ◌&&◌, not, if◌then◌else◌, any, List, [], ◌∷◌, Option, none, some,
  All, arith, Bool-cases, inl, inr,
}
use new_bnbhack.Common.Text.{Text, eq_text, eq_text_iff, eq_text_refl}
use new_bnbhack.Queue.{
  JobStatus, queued, JobRow, is_queued, is_running, has_id, claimable, comes_first, first_of,
  oldest, touched, update_jobs, JobOutcome, succeeded, broke, finished,
}

-- how often a job in a given state was claimed
abbrev pub claims : JobStatus → ℕ
claims queued = 0
claims _ = 1

-- ids are unique, and each row was claimed as often as its state says
abbrev pub IsFresh : Text → List JobRow → Type 0
IsFresh id = All (λ row. eq_text row.id id ≡ false)

abbrev pub IsTable : List JobRow → Type 0
IsTable [] = Unit
IsTable (row ∷ rows) = IsFresh row.id rows × (row.attempts ≡ claims row.status) × IsTable rows

abbrev pub IsCounted : JobRow → Type 0
IsCounted row = row.attempts ≡ claims row.status

-- an update of a row that keeps its id and counts its claims
abbrev pub IsKept : (JobRow → JobRow) → JobRow → Type 0
IsKept g row = ((g row).id ≡ row.id) × IsCounted (g row)

update_jobs-IsFresh :
    (p : JobRow → Bool) (f : JobRow → JobRow) (id : Text) (rows : List JobRow)
    → All (IsKept (touched p f)) rows
    → IsFresh id rows
    → IsFresh id (update_jobs p f rows)
unfolding update_jobs
update_jobs-IsFresh p f id [] k h = tt
update_jobs-IsFresh p f id (row ∷ rows) ((same, counted), k) (h, hs) =
    (rw same h, update_jobs-IsFresh p f id rows k hs)

pub update_jobs-IsTable :
    (p : JobRow → Bool) (f : JobRow → JobRow) (rows : List JobRow)
    → All (IsKept (touched p f)) rows
    → IsTable rows
    → IsTable (update_jobs p f rows)
unfolding update_jobs
update_jobs-IsTable p f [] k h = tt
update_jobs-IsTable p f (row ∷ rows) ((same, counted), k) (fresh, old, h) = (
  rw same (update_jobs-IsFresh p f row.id rows k fresh),
  counted,
  update_jobs-IsTable p f rows k h,
)

pub IsKept-everywhere :
    (g : JobRow → JobRow) (rows : List JobRow)
    → ((row : JobRow) → IsCounted row → IsKept g row)
    → IsTable rows
    → All (IsKept g) rows
IsKept-everywhere g [] k h = tt
IsKept-everywhere g (row ∷ rows) k (fresh, counted, h) =
    (k row counted, IsKept-everywhere g rows k h)

finished-IsKept :
    (now : ℕ) (outcome : JobOutcome) (row : JobRow)
    → is_running row.status ≡ true
    → IsCounted row
    → IsKept (finished now outcome) row
finished-IsKept now (succeeded r) row h c = (refl, ground (arith, h, c))
finished-IsKept now (broke e) row h c = (refl, ground (arith, h, c))

pub finished-touched-IsKept :
    (p : JobRow → Bool) (now : ℕ) (outcome : JobOutcome)
    → ((row : JobRow) → p row ≡ true → is_running row.status ≡ true)
    → (row : JobRow) → IsCounted row
    → IsKept (touched p (finished now outcome)) row
finished-touched-IsKept p now outcome runs row c = elim (Bool-cases (p row)) [
  | inl hit ↦ rw hit (finished-IsKept now outcome row (runs row hit) c)
  | inr miss ↦ rw miss (refl, c)
]

-- every row of an id is queued
abbrev pub IsQueuedAt : Text → JobRow → Type 0
IsQueuedAt id row = (eq_text row.id id && not (is_queued row.status)) ≡ false

other_rows : (id : Text) (rows : List JobRow) → IsFresh id rows → All (IsQueuedAt id) rows
other_rows id [] h = tt
other_rows id (row ∷ rows) (h, hs) = (ground (arith, h), other_rows id rows hs)

fresh_other : (id : Text) (rows : List JobRow) → IsFresh id rows → any (has_id id) rows ≡ false
fresh_other id [] h = refl
fresh_other id (row ∷ rows) (h, hs) = ground (arith, h, fresh_other id rows hs)

other_id :
    (row : JobRow) (id : Text) (rows : List JobRow)
    → IsFresh row.id rows
    → any (has_id id) rows ≡ true
    → eq_text row.id id ≡ false
other_id row id rows fresh there = elim (Bool-cases (eq_text row.id id)) [
  | inl same ↦
      let e : row.id ≡ id = (eq_text_iff row.id id).0 same in
      absurd (ground (arith, there, fresh_other id rows (rw e at fresh)))
  | inr other ↦ other
]

-- the selected row is one of the table's, queued, and the only one with its id
abbrev pub IsSelected : List Text → List JobRow → JobRow → Type 0
IsSelected kinds rows r =
    (claimable kinds r ≡ true) × (any (has_id r.id) rows ≡ true) × All (IsQueuedAt r.id) rows

first-IsSelected :
    (kinds : List Text) (row : JobRow) (rows : List JobRow)
    → IsFresh row.id rows
    → claimable kinds row ≡ true
    → IsSelected kinds (row ∷ rows) row
first-IsSelected kinds row rows fresh h =
    (h, ground (arith, eq_text_refl row.id), (ground (arith, h), other_rows row.id rows fresh))

rest-IsSelected :
    (kinds : List Text) (row r : JobRow) (rows : List JobRow)
    → IsQueuedAt r.id row
    → IsSelected kinds rows r
    → IsSelected kinds (row ∷ rows) r
rest-IsSelected kinds row r rows q (c, there, all) = (c, ground (arith, there), (q, all))

module _ (before : Text → Text → Bool) where
  pub oldest-IsSelected :
      (kinds : List Text) (rows : List JobRow) (r : JobRow)
      → IsTable rows
      → oldest before kinds rows ≡ some r
      → IsSelected kinds rows r
  unfolding oldest
  oldest-IsSelected kinds [] r h e = absurd (cc)
  oldest-IsSelected kinds (row ∷ rows) r (fresh, counted, h) e =
      pick (claimable kinds row) (oldest before kinds rows) refl
        (λ o found. oldest-IsSelected kinds rows o h found) e
    where
      pick :
          (b : Bool) (rest : Option JobRow)
          → claimable kinds row ≡ b
          → ((o : JobRow) → rest ≡ some o → IsSelected kinds rows o)
          → (if b then some (first_of before row rest) else rest) ≡ some r
          → IsSelected kinds (row ∷ rows) r
      pick false rest c k e =
          let s = k r e in
          rest-IsSelected kinds row r rows (ground (arith, other_id row r.id rows fresh s.1)) s
      pick true none c k e =
          subst (IsSelected kinds (row ∷ rows)) (some-injective row r e)
            (first-IsSelected kinds row rows fresh c)
      pick true (some o) c k e = elim (Bool-cases (comes_first before o row)) [
        | inl earlier ↦
            subst (IsSelected kinds (row ∷ rows)) (some-injective o r (rw earlier at e))
              (rest-IsSelected kinds row o rows (ground (arith, c)) (k o refl))
        | inr later ↦
            subst (IsSelected kinds (row ∷ rows)) (some-injective row r (rw later at e))
              (first-IsSelected kinds row rows fresh c)
      ]
