-- ===== src/Sending/Reconcile.antt =====
-- `reconcileOutbox` of apps/agent/src/executor/send.ts, one row at a time.
use new_bnbhack.Common.{
  ℕ, ◌*◌, ◌/◌, Bool, true, false, ◌&&◌, leb, ltb, if◌then◌else◌, List, [], ◌∷◌, Option, none, some,
  filter,
}
use new_bnbhack.Common.Text.{Text, codes, eq_text}
use new_bnbhack.Plans.{PlanRow, get_plan}
use new_bnbhack.Queue.{
  signed, pending, same_status, OutboxRow, OutboxPatch, mark_outbox, unsettled_outbox,
}
use new_bnbhack.Sending.Broadcast.{
  RpcAnswer, taken, refused, already_known, matches, first_line, rpc, unknown_path,
}
use new_bnbhack.Sending.Send.{
  Mined, success, reverted, Waited, SendResult, confirms, reverts, pends, not_sent, unsettled,
  to_status, mined_patch, answering, settle, is_from,
}

-- `HUMAN_CHECK_AFTER_MS`
abbrev pub human_check_after_ms : ℕ
human_check_after_ms = 30 * 60000

-- `SWAP_REBROADCAST_MAX_MS`
abbrev pub swap_rebroadcast_max_ms : ℕ
swap_rebroadcast_max_ms = 10 * 60000

-- what the chain answers while a row is reconciled, in the order of the calls
pub record ChainReads : Type 0 where
  pub receipt : Option Mined
  pub mined_nonce : ℕ
  pub late : Option Mined
  pub pending_nonce : ℕ
  pub resend : RpcAnswer
  pub wait : Waited

-- the list that a row's hash goes to
pub data Fate : Type 0 where
  confirms_row fails_row leaves_pending : Fate

-- why a person has to look
pub data HumanReason : Type 0 where
  nonce_used : HumanReason
  quote_too_old : HumanReason
  not_held : (minutes : ℕ) → (refusal : Option Text) → HumanReason
  not_mined : (minutes : ℕ) → HumanReason

pub record Reconciled : Type 0 where
  pub fate : Fate
  pub rebroadcast : Bool
  pub needs_human : Option HumanReason

abbrev pub reconciled : Fate → Bool → Option HumanReason → Reconciled
reconciled fate sent_again human = record {
  fate = fate;
  rebroadcast = sent_again;
  needs_human = human;
}

-- `plan?.lockUntil && lockUntil > now`
abbrev pub holds_lock : ℕ → Option PlanRow → Bool
holds_lock now none = false
holds_lock now (some plan) = elim plan.lock_until [ none ↦ false | some until ↦ ltb now until ]

abbrev pub fate_of : Mined → Fate
fate_of success = confirms_row
fate_of reverted = fails_row

-- a receipt that is there
unfoldable pub with_mined : List OutboxRow → Text → Mined → Option (List OutboxRow × Reconciled)
with_mined rows tx_hash status =
    answering (reconciled (fate_of status) false none)
      (mark_outbox rows tx_hash (mined_patch status) unsettled)

abbrev pub when_old {ℓ} : {A : Type ℓ} → ℕ → A → Option A
when_old age a = if leb human_check_after_ms age then some a else none

-- the nonce is used, by ours or by another transaction
unfoldable pub with_used_nonce :
    List OutboxRow → Text → ℕ → Option Mined → Option (List OutboxRow × Reconciled)
with_used_nonce rows tx_hash age (some status) = with_mined rows tx_hash status
with_used_nonce rows tx_hash age none =
    some (rows, reconciled leaves_pending false (when_old age nonce_used))

abbrev pub is_swap : OutboxRow → Bool
is_swap row = eq_text row.kind (codes "swap")

abbrev pub via_or : Option Text → Text → Text
via_or none other = other
via_or (some via) other = via

-- the first line of a refusal that is not about bytes the node has
abbrev pub refusal_of : RpcAnswer → Option Text
refusal_of taken = none
refusal_of (refused message) =
    if matches already_known message then none else some (first_line message)

abbrev pub resent_patch : OutboxRow → OutboxPatch
resent_patch row = record {
  status = some pending;
  broadcast_via = some (some (via_or row.broadcast_via rpc));
  error = none;
  attempted = true;
}

abbrev pub known_patch : OutboxPatch
known_patch = record (to_status pending) { broadcast_via = some (some unknown_path) }

-- the write before the wait
unfoldable pub before_wait : OutboxRow → Bool → List OutboxRow → Option (List OutboxRow × Bool)
before_wait row unknown_to_node rows =
    if unknown_to_node
    then mark_outbox rows row.tx_hash (resent_patch row) unsettled
    else if same_status row.status signed
    then mark_outbox rows row.tx_hash known_patch unsettled
    else some (rows, false)

abbrev pub human_after : ℕ → Bool → RpcAnswer → HumanReason
human_after age unknown_to_node resend =
    if unknown_to_node then not_held (age / 60000) (refusal_of resend) else not_mined (age / 60000)

-- the lists that the wait's result goes to
abbrev pub after_wait :
    ℕ
    → Bool
    → RpcAnswer
    → Option (List OutboxRow × SendResult)
    → Option (List OutboxRow × Reconciled)
after_wait age unknown_to_node resend none = none
after_wait age unknown_to_node resend (some (rows, confirms _ _)) =
    some (rows, reconciled confirms_row unknown_to_node none)
after_wait age unknown_to_node resend (some (rows, reverts _ _)) =
    some (rows, reconciled fails_row unknown_to_node none)
after_wait age unknown_to_node resend (some (rows, pends _ _)) = some (
  rows,
  reconciled leaves_pending unknown_to_node (when_old age (human_after age unknown_to_node resend)),
)
after_wait age unknown_to_node resend (some (rows, not_sent _ _)) = some (
  rows,
  reconciled leaves_pending unknown_to_node (when_old age (human_after age unknown_to_node resend)),
)

abbrev pub waits_after :
    OutboxRow
    → Waited
    → (List OutboxRow → List OutboxRow)
    → Option (List OutboxRow × Bool)
    → Option (List OutboxRow × SendResult)
waits_after row wait meanwhile none = none
waits_after row wait meanwhile (some (rows, changed)) =
    settle (meanwhile rows) row.tx_hash (via_or row.broadcast_via rpc) wait

-- the nonce is free: sent again if the node does not know it, and waited for
unfoldable pub with_free_nonce :
    OutboxRow
    → ChainReads
    → ℕ
    → (List OutboxRow → List OutboxRow)
    → List OutboxRow
    → Option (List OutboxRow × Reconciled)
with_free_nonce row reads age meanwhile rows =
    let unknown_to_node = leb reads.pending_nonce row.nonce in
    if unknown_to_node && is_swap row && ltb swap_rebroadcast_max_ms age
    then some (rows, reconciled leaves_pending false (some quote_too_old))
    else after_wait age unknown_to_node reads.resend
        (waits_after row reads.wait meanwhile (before_wait row unknown_to_node rows))

unfoldable pub without_receipt :
    OutboxRow
    → ChainReads
    → ℕ
    → (List OutboxRow → List OutboxRow)
    → List OutboxRow
    → Option (List OutboxRow × Reconciled)
without_receipt row reads age meanwhile rows =
    if ltb row.nonce reads.mined_nonce
    then with_used_nonce rows row.tx_hash age reads.late
    else with_free_nonce row reads age meanwhile rows

-- one turn of the loop of `reconcileOutbox`, of a row as it was read, on the outbox as it is now
unfoldable pub reconcile_row :
    OutboxRow
    → Option PlanRow
    → ChainReads
    → ℕ
    → ℕ
    → (List OutboxRow → List OutboxRow)
    → List OutboxRow
    → Option (List OutboxRow × Reconciled)
reconcile_row row plan reads now age meanwhile rows =
    if holds_lock now plan
    then some (rows, reconciled leaves_pending false none)
    else elim reads.receipt [
      | none ↦ without_receipt row reads age meanwhile rows
      | some status ↦ with_mined rows row.tx_hash status
    ]

-- the rows of the loop
unfoldable pub own_unsettled : Text → List OutboxRow → List OutboxRow
own_unsettled from_ rows = filter (is_from from_) (unsettled_outbox rows)

-- The loop of `reconcileOutbox`: for each row the plan's lock, the chain's answers, the clock, the age
-- and what other processes write meanwhile.
pub record Turn : Type 0 where
  pub plans : List PlanRow
  pub reads : ChainReads
  pub now : ℕ
  pub age : ℕ
  pub meanwhile : List OutboxRow → List OutboxRow

abbrev pub then_result :
    Text
    → Reconciled
    → Option (List OutboxRow × List (Text × Reconciled))
    → Option (List OutboxRow × List (Text × Reconciled))
then_result tx_hash r none = none
then_result tx_hash r (some (rows, results)) = some (rows, (tx_hash, r) ∷ results)

unfoldable pub reconcile_rows :
    (OutboxRow → Turn)
    → List OutboxRow
    → List OutboxRow
    → Option (List OutboxRow × List (Text × Reconciled))
reconcile_rows turn [] rows = some (rows, [])
reconcile_rows turn (row ∷ own) rows =
    let t = turn row in
    elim (reconcile_row row (get_plan row.plan_id t.plans) t.reads t.now t.age t.meanwhile rows) [
      | none ↦ none
      | some (rows', r) ↦ then_result row.tx_hash r (reconcile_rows turn own rows')
    ]

-- `reconcileOutbox`, with what becomes of each row; nothing where it throws
unfoldable pub reconcile_outbox :
    Text → (OutboxRow → Turn) → List OutboxRow → Option (List OutboxRow × List (Text × Reconciled))
reconcile_outbox from_ turn rows = reconcile_rows turn (own_unsettled from_ rows) rows
