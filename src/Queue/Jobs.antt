-- ===== src/Queue/Jobs.antt =====
-- `jobs`: what the web asks the worker to do.
use new_bnbhack.Common.{
  ℕ, suc, Bool, true, false, ◌&&◌, ◌||◌, not, leb, ltb, ◌==◌, if◌then◌else◌, any, List, [], ◌∷◌,
  Option, none, some, find,
}
use new_bnbhack.Common.Text.{Text, codes, eq_text}

pub data JobStatus : Type 0 where
  queued running done failed : JobStatus

pub record JobRow : Type 0 where
  pub id : Text
  pub kind : Text
  pub plan_id : Text
  pub payload : Text
  pub status : JobStatus
  pub result : Option Text
  pub error : Option Text
  pub attempts : ℕ
  pub created_at : ℕ
  pub started_at : Option ℕ
  pub finished_at : Option ℕ

abbrev pub is_queued : JobStatus → Bool
is_queued queued = true
is_queued _ = false

abbrev pub is_running : JobStatus → Bool
is_running running = true
is_running _ = false

abbrev pub has_id : Text → JobRow → Bool
has_id id row = eq_text row.id id

abbrev pub queued_job : Text → Text → Text → Text → ℕ → JobRow
queued_job id kind plan_id payload now = record {
  id = id;
  kind = kind;
  plan_id = plan_id;
  payload = payload;
  status = queued;
  result = none;
  error = none;
  attempts = 0;
  created_at = now;
  started_at = none;
  finished_at = none;
}

-- the constraints of the table: the primary key, the kinds and the known plans
unfoldable pub job_allowed : List JobRow → List Text → Text → Text → Text → Bool
job_allowed rows plans id kind plan_id =
    not (any (has_id id) rows)
    && any (eq_text kind) (codes "preview" ∷ codes "run" ∷ codes "stop" ∷ [])
    && any (eq_text plan_id) plans

abbrev pub payload_of : Option Text → Text
payload_of none = codes "{}"
payload_of (some payload) = payload

-- `enqueueJob`: `none` where a constraint refuses the row
unfoldable pub enqueue_job :
    List JobRow → List Text → ℕ → Text → Text → Text → Option Text → Option (List JobRow)
enqueue_job rows plans now id kind plan_id payload =
    if job_allowed rows plans id kind plan_id
    then some (queued_job id kind plan_id (payload_of payload) now ∷ rows)
    else none

-- `status = 'queued' and kind in (...)`
abbrev pub claimable : List Text → JobRow → Bool
claimable kinds row = is_queued row.status && any (eq_text row.kind) kinds

module _ (before : Text → Text → Bool) where
  -- `order by created_at, id`
  abbrev pub comes_first : JobRow → JobRow → Bool
  comes_first a b =
      ltb a.created_at b.created_at || ((a.created_at == b.created_at) && before a.id b.id)

  abbrev pub first_of : JobRow → Option JobRow → JobRow
  first_of row none = row
  first_of row (some other) = if comes_first other row then other else row

  -- the row that the subquery of `claimJob` selects
  unfoldable pub oldest : List Text → List JobRow → Option JobRow
  oldest kinds [] = none
  oldest kinds (row ∷ rows) =
      let rest = oldest kinds rows in if claimable kinds row then some (first_of row rest) else rest

-- `set status = 'running', started_at = now(), attempts = attempts + 1`
abbrev pub started : ℕ → JobRow → JobRow
started now row = record row {
  status = running;
  started_at = some now;
  attempts = suc row.attempts;
}

abbrev pub touched : (JobRow → Bool) → (JobRow → JobRow) → JobRow → JobRow
touched p f row = if p row then f row else row

unfoldable pub update_jobs : (JobRow → Bool) → (JobRow → JobRow) → List JobRow → List JobRow
update_jobs p f [] = []
update_jobs p f (row ∷ rows) = touched p f row ∷ update_jobs p f rows

unfoldable pub claim_found : List JobRow → ℕ → Option JobRow → List JobRow × Option JobRow
claim_found rows now none = (rows, none)
claim_found rows now (some row) =
    (update_jobs (has_id row.id) (started now) rows, some (started now row))

-- `claimJob`
unfoldable pub claim_job :
    (before : Text → Text → Bool) → List JobRow → ℕ → List Text → List JobRow × Option JobRow
claim_job before rows now kinds = claim_found rows now (oldest before kinds rows)

pub data JobOutcome : Type 0 where
  succeeded : (result : Text) → JobOutcome
  broke : (error : Text) → JobOutcome

abbrev pub finished : ℕ → JobOutcome → JobRow → JobRow
finished now (succeeded r) row = record row {
  status = done;
  result = some r;
  finished_at = some now;
}
finished now (broke e) row = record row { status = failed; error = some e; finished_at = some now }

-- `finishJob`: only a job that is still running
unfoldable pub finish_job : List JobRow → ℕ → Text → JobOutcome → List JobRow
finish_job rows now id outcome =
    update_jobs (λ row. eq_text row.id id && is_running row.status) (finished now outcome) rows

-- `getJob`
unfoldable pub get_job : List JobRow → Text → Option JobRow
get_job rows id = find (has_id id) rows

abbrev pub started_by : ℕ → Option ℕ → Bool
started_by now none = false
started_by now (some t) = leb t now

abbrev pub is_left : ℕ → JobRow → Bool
is_left now row = is_running row.status && started_by now row.started_at

abbrev pub count_left : ℕ → List JobRow → ℕ
count_left now [] = 0
count_left now (row ∷ rows) =
    if is_left now row then suc (count_left now rows) else count_left now rows

-- `abandonRunningJobs`: the table, and the number of jobs that were closed
unfoldable pub abandon_running_jobs : List JobRow → ℕ → Text → List JobRow × ℕ
abandon_running_jobs rows now reason =
    (update_jobs (is_left now) (finished now (broke reason)) rows, count_left now rows)
