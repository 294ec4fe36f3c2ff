-- ===== src/Sending/Tests.antt =====
-- A wallet that signs, sends and reconciles one transaction.
use new_bnbhack.Common.{◌≡◌, refl, true, false, ◌&&◌, not, ltb, leb, List, All, [], ◌∷◌, none, some}
use new_bnbhack.Common.Text.{Text, codes, eq_text, to_lower}
use new_bnbhack.Queue.{
  confirmed, is_open, is_none, OutboxRow, patched, is_unique, mark_rows, mark_outbox, record_signed,
  by_nonce, insert_by_nonce, unsettled_outbox, is_sent_by, last_outbox_nonce,
}
use new_bnbhack.Sending.{
  taken, refused, sent, unsent, broadcast_by_rpc, matches, first_line, rpc, transaction_api,
  success, mined, confirms, settle, SendRequest, SignedTx, bsc_chain_id, is_from, busy_with,
  outbox_row, nonce_reused, outbox_busy, recorded, prepare, after_broadcast, pending_via, to_status,
  ChainReads, reconciled, confirms_row, leaves_pending, quote_too_old, holds_lock, is_swap,
  swap_rebroadcast_max_ms, with_free_nonce, without_receipt, before_wait, resent_patch,
  reconcile_row,
}
use new_bnbhack.Sending.Marks.{IsUnsettled, LeavesAlone}
use new_bnbhack.Sending.Justified.{IsJustified, reconcile_row-IsJustified}
use new_bnbhack.Sending.Resends.{reconcile_row-rebroadcast}
use new_bnbhack.Sending.Nonces.{prepare-IsFresh}
use new_bnbhack.Sending.Tracked.{IsTracked, after_broadcast-IsTracked}

abbrev wallet : Text
wallet = codes "0xAb"

abbrev request : SendRequest
request = record { plan_id = codes "p1"; cycle_id = some 3; kind = codes "swap" }

abbrev bytes : SignedTx
bytes = record { raw = codes "0x02"; tx_hash = codes "0xh1" }

abbrev row : OutboxRow
row = outbox_row request wallet 7 bytes 1

-- an older transaction of the same wallet, settled
abbrev before : OutboxRow
before = record row {
  id = 0;
  nonce = 6;
  tx_hash = codes "0xh0";
  status = confirmed;
  broadcast_via = some rpc;
}

abbrev outbox : List OutboxRow
outbox = row ∷ before ∷ []

recorded_first :
    prepare request wallet 7 bytes 1 false false (before ∷ []) (before ∷ []) (before ∷ [])
    ≡ recorded outbox row
unfolding prepare busy_with unsettled_outbox by_nonce last_outbox_nonce record_signed is_unique
    eq_text to_lower
recorded_first = refl

-- the node has forgotten the older transaction
reused :
    prepare request wallet 6 bytes 1 false false (before ∷ []) (before ∷ []) (before ∷ [])
    ≡ nonce_reused
unfolding prepare busy_with unsettled_outbox by_nonce last_outbox_nonce eq_text to_lower
reused = refl

one_at_a_time :
    prepare request wallet 8 bytes 2 false false outbox outbox outbox
    ≡ outbox_busy (codes "0xh1" ∷ [])
unfolding prepare busy_with unsettled_outbox by_nonce insert_by_nonce eq_text to_lower
one_at_a_time = refl

prepare-IsFresh_example :
    (false ≡ false)
    × (false ≡ false)
    × All (λ (r : OutboxRow). (is_open r.status && is_from wallet r) ≡ false) (before ∷ [])
    × All
        (λ (r : OutboxRow). (is_sent_by bsc_chain_id wallet r && leb 7 r.nonce) ≡ false)
        (before ∷ [])
    × (row ≡ outbox_row request wallet 7 bytes 1)
    × (outbox ≡ row ∷ before ∷ [])
    × (is_unique outbox ≡ true)
prepare-IsFresh_example =
    prepare-IsFresh request wallet 7 bytes 1 false false (before ∷ []) (before ∷ []) (before ∷ [])
      outbox row recorded_first

IsUnsettled-row : IsUnsettled (codes "0xh1") outbox
unfolding is_unique eq_text
IsUnsettled-row = (refl, (row, refl, refl))

LeavesAlone-nothing : LeavesAlone (codes "0xh1") (λ rows. rows)
LeavesAlone-nothing rows = (refl, refl)

abbrev outbox_done : List OutboxRow
outbox_done = patched (to_status confirmed) (patched (pending_via rpc none) row) ∷ before ∷ []

-- the API does not answer in time, and the node takes the bytes
sent_by_rpc :
    after_broadcast (codes "0xh1") (sent rpc) (mined success) (λ rows. rows) outbox
    ≡ some (outbox_done, confirms (codes "0xh1") rpc)
unfolding after_broadcast settle mark_outbox mark_rows is_unique eq_text
sent_by_rpc = refl

after_broadcast-IsTracked_example :
    IsTracked (codes "0xh1") (sent rpc) (mined success) outbox_done (confirms (codes "0xh1") rpc)
after_broadcast-IsTracked_example =
    after_broadcast-IsTracked (codes "0xh1") (sent rpc) (mined success) (λ rows. rows) outbox
      outbox_done (confirms (codes "0xh1") rpc) IsUnsettled-row LeavesAlone-nothing sent_by_rpc

known_by_node : broadcast_by_rpc (refused (codes "Already known")) false ≡ sent transaction_api
unfolding broadcast_by_rpc matches to_lower
known_by_node = refl

-- the node's own policy is definite only where the API answered
underpriced :
    (broadcast_by_rpc (refused (codes "underpriced")) true
      ≡ unsent (codes "RPC refused: underpriced") true)
    × (broadcast_by_rpc (refused (codes "underpriced")) false
        ≡ unsent (codes "RPC refused: underpriced") false)
unfolding broadcast_by_rpc matches to_lower first_line
underpriced = (refl, refl)

abbrev chain : ChainReads
chain = record {
  receipt = none;
  mined_nonce = 7;
  late = none;
  pending_nonce = 7;
  resend = taken;
  wait = mined success;
}

abbrev settled_rows : List OutboxRow
settled_rows = patched (to_status confirmed) (patched (resent_patch row) row) ∷ before ∷ []

-- a worker that died before its broadcast
resent :
    reconcile_row row none chain 100 60000 (λ rows. rows) outbox
    ≡ some (settled_rows, reconciled confirms_row true none)
unfolding reconcile_row without_receipt with_free_nonce before_wait settle mark_outbox mark_rows
    is_unique eq_text
resent = refl

stale_swap :
    reconcile_row row none chain 100 600001 (λ rows. rows) outbox
    ≡ some (outbox, reconciled leaves_pending false (some quote_too_old))
unfolding reconcile_row without_receipt with_free_nonce eq_text
stale_swap = refl

reconcile_row-IsJustified_example : IsJustified (codes "0xh1") chain settled_rows confirms_row
reconcile_row-IsJustified_example =
    reconcile_row-IsJustified row none chain 100 60000 (λ rows. rows) outbox settled_rows
      (reconciled confirms_row true none) IsUnsettled-row LeavesAlone-nothing resent

reconcile_row-rebroadcast_example : true ≡ (
    not (holds_lock 100 none)
    && is_none chain.receipt
    && not (ltb row.nonce chain.mined_nonce)
    && leb chain.pending_nonce row.nonce
    && not (is_swap row && ltb swap_rebroadcast_max_ms 60000))
reconcile_row-rebroadcast_example =
    reconcile_row-rebroadcast row none chain 100 60000 (λ rows. rows) outbox settled_rows
      (reconciled confirms_row true none) resent
