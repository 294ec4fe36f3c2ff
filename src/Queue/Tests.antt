-- ===== src/Queue/Tests.antt =====
-- A job from request to result, and a transaction that two processes mark.
use new_bnbhack.Common.{
  ◌≤◌, ◌≡◌, refl, Bool, true, false, ltb, find, All, List, [], ◌∷◌, none, some,
}
use new_bnbhack.Common.Text.{Text, codes, eq_text, to_lower}
use new_bnbhack.Queue.{
  running, JobRow, job_allowed, enqueue_job, queued_job, oldest, update_jobs, claim_found,
  claim_job, succeeded, finish_job, pending, confirmed, OutboxRow, is_unique, OutboxPatch,
  mark_rows, mark_outbox, last_outbox_nonce,
}
use new_bnbhack.Queue.Marked.{IsMarked, mark_outbox-compare_and_set}
use new_bnbhack.Queue.Claims.{Run, empty, next, enqueues, claims_one, finishes, Run-claimed_once}
use new_bnbhack.Queue.Settled.{has_hash, only_open, NotAbove, last_outbox_nonce-NotAbove}

-- an order on ids for the runs: by their first code
before : Text → Text → Bool
before [] t = true
before s [] = false
before (a ∷ s) (b ∷ t) = ltb a b

abbrev requested : List JobRow
requested = queued_job (codes "j1") (codes "run") (codes "p1") (codes "{}") 5 ∷ []

abbrev kinds : List Text
kinds = codes "run" ∷ []

abbrev claimed : List JobRow
claimed =
    record (queued_job (codes "j1") (codes "run") (codes "p1") (codes "{}") 5) {
      status = running;
      attempts = 1;
      started_at = some 6;
    }
    ∷ []

claim : (claim_job before requested 6 kinds).0 ≡ claimed
unfolding claim_job claim_found oldest update_jobs eq_text before
claim = refl

claim_again : (claim_job before claimed 7 kinds).0 ≡ claimed
unfolding claim_job claim_found oldest update_jobs eq_text before
claim_again = refl

a_run :
    Run before
      (finish_job (claim_job before requested 6 kinds).0 8 (codes "j1") (succeeded (codes "ok")))
unfolding enqueue_job job_allowed eq_text
a_run =
    next
      (next
        (next empty (
          enqueues [] requested (codes "p1" ∷ []) 5 (codes "j1") (codes "run") (codes "p1") none
            refl))
        (claims_one requested 6 kinds))
      (finishes (claim_job before requested 6 kinds).0 8 (codes "j1") (succeeded (codes "ok")))

Run-claimed_once_example :
    All
      (λ row. row.attempts ≤ 1)
      (finish_job (claim_job before requested 6 kinds).0 8 (codes "j1") (succeeded (codes "ok")))
Run-claimed_once_example = Run-claimed_once a_run

abbrev sent : OutboxRow
sent = record {
  id = 1;
  plan_id = codes "p1";
  cycle_id = some 3;
  kind = codes "swap";
  chain_id = 56;
  from_address = codes "0xAb";
  nonce = 7;
  raw_tx = codes "0x02";
  tx_hash = codes "0xH1";
  status = confirmed;
  broadcast_via = some (codes "rpc");
  attempts = 1;
  error = none;
}

abbrev to_pending : OutboxPatch
to_pending = record { status = some pending; broadcast_via = none; error = none; attempted = true }

-- a process that read the row before it was confirmed
late_mark : mark_outbox (sent ∷ []) (codes "0xH1") to_pending only_open ≡ some (sent ∷ [], false)
unfolding mark_outbox mark_rows is_unique eq_text
late_mark = refl

mark_outbox-compare_and_set_example :
    (row' : OutboxRow) × (find (has_hash (codes "0xH1")) (sent ∷ []) ≡ some row')
    × IsMarked to_pending only_open sent row' false
    × (is_unique (sent ∷ []) ≡ true)
unfolding is_unique eq_text
mark_outbox-compare_and_set_example =
    mark_outbox-compare_and_set (sent ∷ []) (sent ∷ []) (codes "0xH1") to_pending only_open sent
      false refl refl late_mark

last_nonce : last_outbox_nonce (sent ∷ []) 56 (codes "0xaB") ≡ some 7
unfolding last_outbox_nonce eq_text to_lower
last_nonce = refl

last_outbox_nonce-NotAbove_example :
    All (NotAbove 56 (codes "0xaB") (last_outbox_nonce (sent ∷ []) 56 (codes "0xaB"))) (sent ∷ [])
last_outbox_nonce-NotAbove_example = last_outbox_nonce-NotAbove (sent ∷ []) 56 (codes "0xaB")
