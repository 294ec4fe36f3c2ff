-- ===== src/Queue/Claims.antt =====
-- Every job is claimed at most once.
use mathlib.Core.Path.{subst}
use new_bnbhack.Common.{
  ℕ, ◌≤◌, ◌≡◌, refl, Bool, false, ◌&&◌, any, List, [], ◌∷◌, Option, none, some, All, arith,
  Bool-cases, inl, inr,
}
use new_bnbhack.Common.Text.{Text, eq_text}
use new_bnbhack.Queue.{
  JobRow, is_running, has_id, queued_job, payload_of, enqueue_job, oldest, started, touched,
  job_allowed, claim_found, claim_job, JobOutcome, broke, finished, finish_job, is_left,
  abandon_running_jobs,
}
use new_bnbhack.Queue.Selection.{
  IsCounted, IsFresh, IsTable, IsKept, update_jobs-IsTable, IsKept-everywhere,
  finished-touched-IsKept, IsQueuedAt, oldest-IsSelected,
}

started-IsKept :
    (now : ℕ) (id : Text) (row : JobRow)
    → IsQueuedAt id row
    → IsCounted row
    → IsKept (touched (has_id id) (started now)) row
started-IsKept now id row q c = elim (Bool-cases (eq_text row.id id)) [
  | inl hit ↦ rw hit (refl, ground (arith, hit, q, c))
  | inr miss ↦ rw miss (refl, c)
]

started_everywhere :
    (now : ℕ) (id : Text) (rows : List JobRow)
    → All (IsQueuedAt id) rows
    → IsTable rows
    → All (IsKept (touched (has_id id) (started now))) rows
started_everywhere now id [] q h = tt
started_everywhere now id (row ∷ rows) (q, qs) (fresh, counted, h) =
    (started-IsKept now id row q counted, started_everywhere now id rows qs h)

claim_found-IsTable :
    (before : Text → Text → Bool) (kinds : List Text) (rows : List JobRow) (now : ℕ)
    (found : Option JobRow)
    → oldest before kinds rows ≡ found
    → IsTable rows
    → IsTable (claim_found rows now found).0
unfolding claim_found
claim_found-IsTable before kinds rows now none e h = h
claim_found-IsTable before kinds rows now (some r) e h =
    update_jobs-IsTable (has_id r.id) (started now) rows
      (started_everywhere now r.id rows (oldest-IsSelected before kinds rows r h e).2 h) h

IsFresh-new : (id : Text) (rows : List JobRow) → any (has_id id) rows ≡ false → IsFresh id rows
IsFresh-new id [] h = tt
IsFresh-new id (row ∷ rows) h = (ground (arith, h), IsFresh-new id rows (ground (arith, h)))

enqueue_job-IsTable :
    (rows rows' : List JobRow) (plans : List Text) (now : ℕ) (id kind plan_id : Text)
    (payload : Option Text)
    → enqueue_job rows plans now id kind plan_id payload ≡ some rows'
    → IsTable rows
    → IsTable rows'
unfolding enqueue_job job_allowed
enqueue_job-IsTable rows rows' plans now id kind plan_id payload e h =
    elim (Bool-cases (any (has_id id) rows)) [
      | inl taken ↦ absurd (ground (arith, taken, e))
      | inr free ↦
          let same : queued_job id kind plan_id (payload_of payload) now ∷ rows ≡ rows' =
            ground (arith, free, e) in
          subst IsTable same (IsFresh-new id rows free, refl, h)
    ]

-- A statement of the queue.
pub data Step (before : Text → Text → Bool) : List JobRow → List JobRow → Type 0 where
  enqueues :
      (rows rows' : List JobRow) (plans : List Text) (now : ℕ) (id kind plan_id : Text)
      (payload : Option Text)
      → enqueue_job rows plans now id kind plan_id payload ≡ some rows'
      → Step before rows rows'
  claims_one :
      (rows : List JobRow) (now : ℕ) (kinds : List Text)
      → Step before rows (claim_job before rows now kinds).0
  finishes :
      (rows : List JobRow) (now : ℕ) (id : Text) (outcome : JobOutcome)
      → Step before rows (finish_job rows now id outcome)
  abandons :
      (rows : List JobRow) (now : ℕ) (reason : Text)
      → Step before rows (abandon_running_jobs rows now reason).0

pub data Run (before : Text → Text → Bool) : List JobRow → Type 0 where
  empty : Run before []
  next : {rows rows' : List JobRow} → Run before rows → Step before rows rows' → Run before rows'

Step-IsTable :
    {before : Text → Text → Bool} {rows rows' : List JobRow}
    → Step before rows rows'
    → IsTable rows
    → IsTable rows'
unfolding claim_job finish_job abandon_running_jobs
Step-IsTable (enqueues rows rows' plans now id kind plan_id payload e) h =
    enqueue_job-IsTable rows rows' plans now id kind plan_id payload e h
Step-IsTable {before} (claims_one rows now kinds) h =
    claim_found-IsTable before kinds rows now (oldest before kinds rows) refl h
Step-IsTable (finishes rows now id outcome) h =
    let p = λ (row : JobRow). eq_text row.id id && is_running row.status in
    update_jobs-IsTable p (finished now outcome) rows
      (IsKept-everywhere (touched p (finished now outcome)) rows
        (finished-touched-IsKept p now outcome (λ row e. ground (arith, e))) h)
      h
Step-IsTable (abandons rows now reason) h =
    let f = finished now (broke reason) in
    update_jobs-IsTable (is_left now) f rows
      (IsKept-everywhere (touched (is_left now) f) rows
        (finished-touched-IsKept (is_left now) now (broke reason) (λ row e. ground (arith, e))) h)
      h

Run-IsTable : {before : Text → Text → Bool} {rows : List JobRow} → Run before rows → IsTable rows
Run-IsTable empty = tt
Run-IsTable (next run step) = Step-IsTable step (Run-IsTable run)

counted_once : (rows : List JobRow) → IsTable rows → All (λ row. row.attempts ≤ 1) rows
counted_once [] h = tt
counted_once (row ∷ rows) (fresh, counted, h) = (ground (arith, counted), counted_once rows h)

-- Whatever is enqueued, claimed, finished and abandoned, and in whatever order, every job has been
-- claimed at most once: a job is never run again.
pub Run-claimed_once :
    {before : Text → Text → Bool} {rows : List JobRow}
    → Run before rows
    → All (λ row. row.attempts ≤ 1) rows
Run-claimed_once run = counted_once _ (Run-IsTable run)
