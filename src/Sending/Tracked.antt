-- ===== src/Sending/Tracked.antt =====
-- `sendTransaction` of apps/agent/src/executor/send.ts, after the broadcast: a transaction is reported as not
-- sent only where its bytes certainly did not go out, and stays tracked otherwise.
use mathlib.Core.Path.{subst}
use mathlib.Core.Option.{some-injective}
use new_bnbhack.Common.{
  ◌≡◌, refl, sym, ap, Bool, true, false, if◌then◌else◌, List, Option, none, some, find,
}
use new_bnbhack.Common.Text.{Text}
use new_bnbhack.Queue.{confirmed, failed_tx, is_open, OutboxRow, patched, is_unique, mark_outbox}
use new_bnbhack.Queue.Settled.{has_hash, mark_outbox-marks}
use new_bnbhack.Sending.Broadcast.{Broadcast, sent, unsent, unknown_path}
use new_bnbhack.Sending.Send.{
  success, reverted, Waited, wait_failed, timed_out, mined, to_status, reverted_patch, SendResult,
  confirms, reverts, pends, not_sent, unsettled, only_signed, pending_via, not_sent_patch, released,
  settle_after, settle, after_broadcast,
}
use new_bnbhack.Sending.Marks.{
  IsUnsettled, Ended, answering-inv, IsWaited, settle-IsWaited, LeavesAlone,
  LeavesAlone-IsUnsettled, mark_outbox-pending,
}

-- the result of a send, with what the outbox says of it then
abbrev pub IsTracked : Text → Broadcast → Waited → List OutboxRow → SendResult → Type 0
IsTracked tx_hash b wait rows (confirms _ via) =
    Ended tx_hash rows confirmed × (wait ≡ mined success) × (b ≡ sent via)
IsTracked tx_hash b wait rows (reverts _ via) =
    Ended tx_hash rows failed_tx × (wait ≡ mined reverted) × (b ≡ sent via)
IsTracked tx_hash b wait rows (pends _ _) = IsUnsettled tx_hash rows
IsTracked tx_hash b wait rows (not_sent _ reason) =
    Ended tx_hash rows failed_tx × (b ≡ unsent reason true)

released-IsTracked :
    (tx_hash reason : Text) (wait : Waited) (rows rows' : List OutboxRow) (row : OutboxRow)
    (changed : Bool) (result : SendResult)
    → is_open row.status ≡ true
    → is_unique rows ≡ true
    → find (has_hash tx_hash) rows
      ≡ some (if changed then patched (not_sent_patch reason) row else row)
    → released tx_hash reason (some (rows, changed)) ≡ some (rows', result)
    → IsTracked tx_hash (unsent reason true) wait rows' result
released-IsTracked tx_hash reason wait rows rows' row true result o u found h =
    subst (λ (x : List OutboxRow × SendResult). IsTracked tx_hash (unsent reason true) wait x.0 x.1)
      (some-injective _ _ h) ((patched (not_sent_patch reason) row, found, refl), refl)
released-IsTracked tx_hash reason wait rows rows' row false result o u found h =
    subst (λ (x : List OutboxRow × SendResult). IsTracked tx_hash (unsent reason true) wait x.0 x.1)
      (some-injective _ _ h) (u, (row, found, o))

from_wait :
    (tx_hash via : Text) (wait : Waited) (rows rows' : List OutboxRow) (result : SendResult)
    → settle rows tx_hash via wait ≡ some (rows', result)
    → IsWaited tx_hash wait rows' result
    → IsTracked tx_hash (sent via) wait rows' result
unfolding settle
from_wait tx_hash via wait_failed rows rows' result h w =
    let same = sym (ap (λ (x : List OutboxRow × SendResult). x.1) (some-injective _ _ h)) in
    rw same (rw same at w)
from_wait tx_hash via timed_out rows rows' result h w =
    let same = sym (ap (λ (x : List OutboxRow × SendResult). x.1) (some-injective _ _ h)) in
    rw same (rw same at w)
from_wait tx_hash via (mined success) rows rows' result h w =
    let (changed, call, same) =
      answering-inv _ (mark_outbox rows tx_hash (to_status confirmed) unsettled) h in
    let (ended, says) = rw same at w in rw same (ended, says, refl)
from_wait tx_hash via (mined reverted) rows rows' result h w =
    let (changed, call, same) =
      answering-inv _ (mark_outbox rows tx_hash reverted_patch unsettled) h in
    let (ended, says) = rw same at w in rw same (ended, says, refl)

module _ (tx_hash : Text) (wait : Waited) (meanwhile : List OutboxRow → List OutboxRow)
    (rows rows' : List OutboxRow) (result : SendResult) (u : IsUnsettled tx_hash rows) where
  definite-IsTracked :
      (reason : Text) (call : Option (List OutboxRow × Bool))
      → mark_outbox rows tx_hash (not_sent_patch reason) only_signed ≡ call
      → released tx_hash reason call ≡ some (rows', result)
      → IsTracked tx_hash (unsent reason true) wait rows' result
  definite-IsTracked reason none e h = absurd (cc)
  definite-IsTracked reason (some (rows1, changed)) e h =
      let (unique, (row, found, open_)) = u in
      let (told, there, unique1) =
        mark_outbox-marks rows rows1 tx_hash (not_sent_patch reason) only_signed row changed unique
          found e in
      released-IsTracked tx_hash reason wait rows1 rows' row changed result open_ unique1 there h

  sent-IsTracked :
      (via : Text) (call : Option (List OutboxRow × Bool))
      → LeavesAlone tx_hash meanwhile
      → mark_outbox rows tx_hash (pending_via via none) unsettled ≡ call
      → settle_after tx_hash via wait meanwhile call ≡ some (rows', result)
      → IsTracked tx_hash (sent via) wait rows' result
  sent-IsTracked via none alone e h = absurd (cc)
  sent-IsTracked via (some (rows1, changed)) alone e h =
      from_wait tx_hash via wait (meanwhile rows1) rows' result h (
        settle-IsWaited tx_hash via wait (meanwhile rows1) rows' result
          (LeavesAlone-IsUnsettled tx_hash meanwhile rows1 alone
            (mark_outbox-pending tx_hash (pending_via via none) rows rows1 changed refl u e))
          h)

-- A transaction that is not settled after signing, and that no other process writes meanwhile,
-- is reported as not sent only where the broadcast is definitely refused, and is failed in the
-- outbox then; it is reported as confirmed or reverted with a receipt that says so and the path
-- it went out by, and is left unsettled where it is reported as pending.
pub after_broadcast-IsTracked :
    (tx_hash : Text) (b : Broadcast) (wait : Waited) (meanwhile : List OutboxRow → List OutboxRow)
    (rows rows' : List OutboxRow) (result : SendResult)
    → IsUnsettled tx_hash rows
    → LeavesAlone tx_hash meanwhile
    → after_broadcast tx_hash b wait meanwhile rows ≡ some (rows', result)
    → IsTracked tx_hash b wait rows' result
unfolding after_broadcast
after_broadcast-IsTracked tx_hash (sent via) wait meanwhile rows rows' result u alone h =
    sent-IsTracked tx_hash wait meanwhile rows rows' result u via _ alone refl h
after_broadcast-IsTracked tx_hash (unsent reason true) wait meanwhile rows rows' result u alone h =
    definite-IsTracked tx_hash wait meanwhile rows rows' result u reason _ refl h
after_broadcast-IsTracked tx_hash (unsent reason false) wait meanwhile rows rows' result u alone h =
    let (changed, call, same) =
      answering-inv _ (mark_outbox rows tx_hash (pending_via unknown_path (some reason)) unsettled)
        h in
    rw same (
      mark_outbox-pending tx_hash (pending_via unknown_path (some reason)) rows rows' changed refl u
        call)
