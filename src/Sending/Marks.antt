-- ===== src/Sending/Marks.antt =====
-- What the writes of apps/agent/src/executor/send.ts make of a transaction that is not settled.
use mathlib.Core.Path.{subst}
use mathlib.Core.Option.{some-injective}
use new_bnbhack.Common.{◌≡◌, refl, ◌∙◌, Bool, true, List, Option, none, some, find}
use new_bnbhack.Common.Text.{Text}
use new_bnbhack.Queue.{
  TxStatus, signed, pending, confirmed, failed_tx, is_open, passes, OutboxRow, OutboxPatch, patched,
  is_unique, mark_outbox,
}
use new_bnbhack.Queue.Settled.{has_hash, mark_outbox-marks}
use new_bnbhack.Sending.Send.{
  success, reverted, Waited, wait_failed, timed_out, mined, SendResult, confirms, reverts, pends,
  not_sent, unsettled, to_status, reverted_patch, answering, settle,
}

-- the hash's transaction, in a table with unique hashes, is not settled
abbrev pub IsUnsettled : Text → List OutboxRow → Type 0
IsUnsettled tx_hash rows =
    (is_unique rows ≡ true)
    × ((row : OutboxRow) × (find (has_hash tx_hash) rows ≡ some row) × (is_open row.status ≡ true))

abbrev pub Ended : Text → List OutboxRow → TxStatus → Type 0
Ended tx_hash rows status =
    (row : OutboxRow) × (find (has_hash tx_hash) rows ≡ some row) × (row.status ≡ status)

open-passes : (status : TxStatus) → is_open status ≡ true → passes unsettled status ≡ true
open-passes signed h = refl
open-passes pending h = refl
open-passes confirmed h = absurd (cc)
open-passes failed_tx h = absurd (cc)

-- a compare-and-set on a transaction that is not settled
module _ (tx_hash : Text) (patch : OutboxPatch) (rows rows' : List OutboxRow) (changed : Bool) where
  pub mark_outbox-unsettled :
      IsUnsettled tx_hash rows
      → mark_outbox rows tx_hash patch unsettled ≡ some (rows', changed)
      → (is_unique rows' ≡ true)
        × ((row : OutboxRow) × (find (has_hash tx_hash) rows' ≡ some (patched patch row)))
  mark_outbox-unsettled (u, (row, found, open_)) h =
      let (told, there, unique) =
        mark_outbox-marks rows rows' tx_hash patch unsettled row changed u found h in
      (unique, (row, rw (told ∙ open-passes row.status open_) at there))

pub answering-inv {ℓ} :
    {A : Type ℓ} (a : A) (call : Option (List OutboxRow × Bool)) {rows : List OutboxRow} {b : A}
    → answering a call ≡ some (rows, b)
    → (changed : Bool) × (call ≡ some (rows, changed)) × (b ≡ a)
answering-inv a none h = absurd (cc)
answering-inv a (some (rows, changed)) h = (changed, cc, cc)

-- what a wait makes of a transaction that is not settled
abbrev pub IsWaited : Text → Waited → List OutboxRow → SendResult → Type 0
IsWaited tx_hash wait rows (confirms _ _) = Ended tx_hash rows confirmed × (wait ≡ mined success)
IsWaited tx_hash wait rows (reverts _ _) = Ended tx_hash rows failed_tx × (wait ≡ mined reverted)
IsWaited tx_hash wait rows (pends _ _) = IsUnsettled tx_hash rows
IsWaited tx_hash wait rows (not_sent _ _) = ⊥

pub settle-IsWaited :
    (tx_hash via : Text) (wait : Waited) (rows rows' : List OutboxRow) (result : SendResult)
    → IsUnsettled tx_hash rows
    → settle rows tx_hash via wait ≡ some (rows', result)
    → IsWaited tx_hash wait rows' result
unfolding settle
settle-IsWaited tx_hash via wait_failed rows rows' result u h =
    subst (λ (x : List OutboxRow × SendResult). IsWaited tx_hash wait_failed x.0 x.1)
      (some-injective _ _ h) u
settle-IsWaited tx_hash via timed_out rows rows' result u h =
    subst (λ (x : List OutboxRow × SendResult). IsWaited tx_hash timed_out x.0 x.1)
      (some-injective _ _ h) u
settle-IsWaited tx_hash via (mined success) rows rows' result u h =
    let (changed, call, same) =
      answering-inv _ (mark_outbox rows tx_hash (to_status confirmed) unsettled) h in
    let (unique, (row, there)) =
      mark_outbox-unsettled tx_hash (to_status confirmed) rows rows' changed u call in
    rw same ((patched (to_status confirmed) row, there, refl), refl)
settle-IsWaited tx_hash via (mined reverted) rows rows' result u h =
    let (changed, call, same) =
      answering-inv _ (mark_outbox rows tx_hash reverted_patch unsettled) h in
    let (unique, (row, there)) =
      mark_outbox-unsettled tx_hash reverted_patch rows rows' changed u call in
    rw same ((patched reverted_patch row, there, refl), refl)

-- what other processes write leaves the transaction as it is
abbrev pub LeavesAlone : Text → (List OutboxRow → List OutboxRow) → Type 0
LeavesAlone tx_hash meanwhile =
    (rows : List OutboxRow)
    → (find (has_hash tx_hash) (meanwhile rows) ≡ find (has_hash tx_hash) rows)
      × (is_unique (meanwhile rows) ≡ is_unique rows)

pub LeavesAlone-IsUnsettled :
    (tx_hash : Text) (meanwhile : List OutboxRow → List OutboxRow) (rows : List OutboxRow)
    → LeavesAlone tx_hash meanwhile
    → IsUnsettled tx_hash rows
    → IsUnsettled tx_hash (meanwhile rows)
LeavesAlone-IsUnsettled tx_hash meanwhile rows alone (u, (row, found, open_)) =
    let (same, unique) = alone rows in (unique ∙ u, (row, same ∙ found, open_))

-- a patch to PENDING leaves it unsettled
pub mark_outbox-pending :
    (tx_hash : Text) (patch : OutboxPatch) (rows rows' : List OutboxRow) (changed : Bool)
    → patch.status ≡ some pending
    → IsUnsettled tx_hash rows
    → mark_outbox rows tx_hash patch unsettled ≡ some (rows', changed)
    → IsUnsettled tx_hash rows'
mark_outbox-pending tx_hash patch rows rows' changed p u h =
    let (unique, (row, there)) = mark_outbox-unsettled tx_hash patch rows rows' changed u h in
    (unique, (patched patch row, there, rw p refl))
