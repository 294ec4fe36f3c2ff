-- ===== src/Sending/Send.antt =====
-- `sendTransaction` and `settle` of apps/agent/src/executor/send.ts.
use new_bnbhack.Common.{
  ℕ, Bool, true, false, leb, if◌then◌else◌, List, [], ◌∷◌, Option, none, some, map, filter,
}
use new_bnbhack.Common.Text.{Text, codes, eq_text, to_lower}
use new_bnbhack.Queue.{
  TxStatus, signed, pending, confirmed, failed_tx, OutboxRow, OutboxPatch, record_signed,
  mark_outbox, unsettled_outbox, last_outbox_nonce,
}
use new_bnbhack.Sending.Broadcast.{Broadcast, sent, unsent, unknown_path}

-- a receipt's status; its logs are read elsewhere
pub data Mined : Type 0 where
  success reverted : Mined

-- `waitForReceipt`: it may throw, and answers nothing in time
pub data Waited : Type 0 where
  wait_failed timed_out : Waited
  mined : Mined → Waited

pub data SendResult : Type 0 where
  confirms : (tx_hash broadcast_via : Text) → SendResult
  reverts : (tx_hash broadcast_via : Text) → SendResult
  pends : (tx_hash broadcast_via : Text) → SendResult
  not_sent : (tx_hash reason : Text) → SendResult

-- `UNSETTLED`
abbrev pub unsettled : Option (List TxStatus)
unsettled = some (signed ∷ pending ∷ [])

abbrev pub only_signed : Option (List TxStatus)
only_signed = some (signed ∷ [])

abbrev pub to_status : TxStatus → OutboxPatch
to_status status = record {
  status = some status;
  broadcast_via = none;
  error = none;
  attempted = false;
}

abbrev pub reverted_patch : OutboxPatch
reverted_patch = record (to_status failed_tx) {
  error = some (some (codes "receipt status 0 (reverted)"));
}

-- the patch that a receipt calls for
abbrev pub mined_patch : Mined → OutboxPatch
mined_patch success = to_status confirmed
mined_patch reverted = reverted_patch

-- a statement of the outbox, and an answer that goes with it
abbrev pub answering {ℓ} :
    {A : Type ℓ} → A → Option (List OutboxRow × Bool) → Option (List OutboxRow × A)
answering a none = none
answering a (some (rows, changed)) = some (rows, a)

-- `settle`
unfoldable pub settle : List OutboxRow → Text → Text → Waited → Option (List OutboxRow × SendResult)
settle rows tx_hash via wait_failed = some (rows, pends tx_hash via)
settle rows tx_hash via timed_out = some (rows, pends tx_hash via)
settle rows tx_hash via (mined success) =
    answering (confirms tx_hash via) (mark_outbox rows tx_hash (to_status confirmed) unsettled)
settle rows tx_hash via (mined reverted) =
    answering (reverts tx_hash via) (mark_outbox rows tx_hash reverted_patch unsettled)

pub record SendRequest : Type 0 where
  pub plan_id : Text
  pub cycle_id : Option ℕ
  pub kind : Text

-- the bytes that the signer made, with their hash
pub record SignedTx : Type 0 where
  pub raw : Text
  pub tx_hash : Text

-- `BSC_CHAIN_ID`
abbrev pub bsc_chain_id : ℕ
bsc_chain_id = 56

abbrev pub is_from : Text → OutboxRow → Bool
is_from from_ row = eq_text (to_lower row.from_address) (to_lower from_)

-- the wallet's transactions that are not settled
unfoldable pub busy_with : Text → List OutboxRow → List Text
busy_with from_ rows =
    map (λ (row : OutboxRow). row.tx_hash) (filter (is_from from_) (unsettled_outbox rows))

-- `recorded !== undefined && nonce <= recorded`
abbrev pub reuses : ℕ → Option ℕ → Bool
reuses nonce none = false
reuses nonce (some recorded) = leb nonce recorded

abbrev pub outbox_row : SendRequest → Text → ℕ → SignedTx → ℕ → OutboxRow
outbox_row req from_ nonce tx id = record {
  id = id;
  plan_id = req.plan_id;
  cycle_id = req.cycle_id;
  kind = req.kind;
  chain_id = bsc_chain_id;
  from_address = from_;
  nonce = nonce;
  raw_tx = tx.raw;
  tx_hash = tx.tx_hash;
  status = signed;
  broadcast_via = none;
  attempts = 0;
  error = none;
}

pub data Prepared : Type 0 where
  outbox_busy : (hashes : List Text) → Prepared
  nonce_reused : Prepared
  lock_lost : Prepared
  constraint : Prepared
  recorded : List OutboxRow → OutboxRow → Prepared

abbrev pub as_recorded : Option (List OutboxRow × OutboxRow) → Prepared
as_recorded none = constraint
as_recorded (some (rows, row)) = recorded rows row

-- the list of hashes, unless it is empty
abbrev pub unless_empty : List Text → Prepared → Prepared
unless_empty [] other = other
unless_empty (h ∷ hashes) other = outbox_busy (h ∷ hashes)

-- `sendTransaction` up to the broadcast, with the outbox as it is found for the unsettled transactions, for
-- the last nonce and for the record, and whether `beforeSign` refuses each time
unfoldable pub prepare :
    SendRequest
    → Text
    → ℕ
    → SignedTx
    → ℕ
    → Bool
    → Bool
    → List OutboxRow
    → List OutboxRow
    → List OutboxRow
    → Prepared
prepare req from_ nonce tx id refuses_first refuses_again checked counted rows =
    if refuses_first
    then lock_lost
    else unless_empty (busy_with from_ checked) (
        if reuses nonce (last_outbox_nonce counted bsc_chain_id from_)
        then nonce_reused
        else if refuses_again
        then lock_lost
        else as_recorded (record_signed rows (outbox_row req from_ nonce tx id)))

abbrev pub pending_via : Text → Option Text → OutboxPatch
pending_via via error = record {
  status = some pending;
  broadcast_via = some (some via);
  error = elim error [ none ↦ none | some e ↦ some (some e) ];
  attempted = true;
}

abbrev pub not_sent_patch : Text → OutboxPatch
not_sent_patch reason = record {
  status = some failed_tx;
  broadcast_via = none;
  error = some (some reason);
  attempted = true;
}

-- the release of bytes that did not go out: only while still SIGNED
abbrev pub released :
    Text → Text → Option (List OutboxRow × Bool) → Option (List OutboxRow × SendResult)
released tx_hash reason none = none
released tx_hash reason (some (rows, true)) = some (rows, not_sent tx_hash reason)
released tx_hash reason (some (rows, false)) = some (rows, pends tx_hash unknown_path)

abbrev pub settle_after :
    Text
    → Text
    → Waited
    → (List OutboxRow → List OutboxRow)
    → Option (List OutboxRow × Bool)
    → Option (List OutboxRow × SendResult)
settle_after tx_hash via wait meanwhile none = none
settle_after tx_hash via wait meanwhile (some (rows, changed)) =
    settle (meanwhile rows) tx_hash via wait

-- `sendTransaction` after the broadcast; other processes may write the outbox while it waits
unfoldable pub after_broadcast :
    Text
    → Broadcast
    → Waited
    → (List OutboxRow → List OutboxRow)
    → List OutboxRow
    → Option (List OutboxRow × SendResult)
after_broadcast tx_hash (unsent reason true) wait meanwhile rows =
    released tx_hash reason (mark_outbox rows tx_hash (not_sent_patch reason) only_signed)
after_broadcast tx_hash (unsent reason false) wait meanwhile rows =
    answering (pends tx_hash unknown_path)
      (mark_outbox rows tx_hash (pending_via unknown_path (some reason)) unsettled)
after_broadcast tx_hash (sent via) wait meanwhile rows =
    settle_after tx_hash via wait meanwhile
      (mark_outbox rows tx_hash (pending_via via none) unsettled)
