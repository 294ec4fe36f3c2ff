-- ===== src/Sending/Justified.antt =====
-- `reconcileOutbox` of apps/agent/src/executor/send.ts settles nothing on a guess.
use mathlib.Core.Path.{subst}
use mathlib.Core.Option.{some-injective}
use new_bnbhack.Common.{
  ℕ, ◌≡◌, refl, sym, ap, Bool, true, false, ◌&&◌, ltb, leb, List, Option, none, some, Bool-cases,
  Option-cases, ◌⊎◌, inl, inr,
}
use new_bnbhack.Common.Text.{Text}
use new_bnbhack.Plans.{PlanRow}
use new_bnbhack.Queue.{signed, confirmed, failed_tx, same_status, OutboxRow, patched, mark_outbox}
use new_bnbhack.Sending.Send.{
  Mined, success, reverted, Waited, mined, SendResult, confirms, reverts, pends, not_sent,
  unsettled, to_status, reverted_patch,
}
use new_bnbhack.Sending.Reconcile.{
  ChainReads, Fate, confirms_row, fails_row, leaves_pending, Reconciled, holds_lock, with_mined,
  with_used_nonce, is_swap, swap_rebroadcast_max_ms, resent_patch, known_patch, before_wait,
  after_wait, waits_after, with_free_nonce, without_receipt, reconcile_row, via_or,
}
use new_bnbhack.Sending.Broadcast.{rpc}
use new_bnbhack.Sending.Marks.{
  IsUnsettled, Ended, mark_outbox-unsettled, answering-inv, IsWaited, settle-IsWaited, LeavesAlone,
  LeavesAlone-IsUnsettled, mark_outbox-pending,
}

-- a receipt that says so
abbrev pub Says : ChainReads → Mined → Type 0
Says reads status =
    (reads.receipt ≡ some status) ⊎ ((reads.late ≡ some status) ⊎ (reads.wait ≡ mined status))

abbrev pub IsJustified : Text → ChainReads → List OutboxRow → Fate → Type 0
IsJustified tx_hash reads rows fate =
    ((fate ≡ confirms_row) × Ended tx_hash rows confirmed × Says reads success)
    ⊎ (((fate ≡ fails_row) × Ended tx_hash rows failed_tx × Says reads reverted)
        ⊎ ((fate ≡ leaves_pending) × IsUnsettled tx_hash rows))

with_mined-IsJustified :
    (tx_hash : Text) (reads : ChainReads) (status : Mined) (rows rows' : List OutboxRow)
    (r : Reconciled)
    → IsUnsettled tx_hash rows
    → Says reads status
    → with_mined rows tx_hash status ≡ some (rows', r)
    → IsJustified tx_hash reads rows' r.fate
unfolding with_mined
with_mined-IsJustified tx_hash reads success rows rows' r u says h =
    let (changed, call, same) =
      answering-inv _ (mark_outbox rows tx_hash (to_status confirmed) unsettled) h in
    let (unique, (row, there)) =
      mark_outbox-unsettled tx_hash (to_status confirmed) rows rows' changed u call in
    inl
      (ap (λ (x : Reconciled). x.fate) same, (patched (to_status confirmed) row, there, refl), says)
with_mined-IsJustified tx_hash reads reverted rows rows' r u says h =
    let (changed, call, same) =
      answering-inv _ (mark_outbox rows tx_hash reverted_patch unsettled) h in
    let (unique, (row, there)) =
      mark_outbox-unsettled tx_hash reverted_patch rows rows' changed u call in
    inr
      (inl (ap (λ (x : Reconciled). x.fate) same, (patched reverted_patch row, there, refl), says))

with_used_nonce-IsJustified :
    (tx_hash : Text) (reads : ChainReads) (age : ℕ) (late : Option Mined)
    (rows rows' : List OutboxRow) (r : Reconciled)
    → late ≡ reads.late
    → IsUnsettled tx_hash rows
    → with_used_nonce rows tx_hash age late ≡ some (rows', r)
    → IsJustified tx_hash reads rows' r.fate
unfolding with_used_nonce
with_used_nonce-IsJustified tx_hash reads age (some status) rows rows' r same u h =
    with_mined-IsJustified tx_hash reads status rows rows' r u (inr (inl (sym same))) h
with_used_nonce-IsJustified tx_hash reads age none rows rows' r same u h =
    subst (λ (x : List OutboxRow × Reconciled). IsJustified tx_hash reads x.0 x.1.fate)
      (some-injective _ _ h) (inr (inr (refl, u)))

before_wait-IsUnsettled :
    (row : OutboxRow) (unknown_to_node : Bool) (rows rows' : List OutboxRow) (changed : Bool)
    → IsUnsettled row.tx_hash rows
    → before_wait row unknown_to_node rows ≡ some (rows', changed)
    → IsUnsettled row.tx_hash rows'
unfolding before_wait
before_wait-IsUnsettled row true rows rows' changed u h =
    mark_outbox-pending row.tx_hash (resent_patch row) rows rows' changed refl u h
before_wait-IsUnsettled row false rows rows' changed u h =
    elim (Bool-cases (same_status row.status signed)) [
      | inl fresh ↦
          mark_outbox-pending row.tx_hash known_patch rows rows' changed refl u (rw fresh at h)
      | inr sent_ ↦
          subst (λ (x : List OutboxRow × Bool). IsUnsettled row.tx_hash x.0)
            (some-injective _ _ (rw sent_ at h)) u
    ]

waits_after-IsWaited :
    (row : OutboxRow) (wait : Waited) (meanwhile : List OutboxRow → List OutboxRow)
    (call : Option (List OutboxRow × Bool)) (rows' : List OutboxRow) (result : SendResult)
    → ((rows : List OutboxRow) (changed : Bool)
        → call ≡ some (rows, changed)
        → IsUnsettled row.tx_hash rows)
    → LeavesAlone row.tx_hash meanwhile
    → waits_after row wait meanwhile call ≡ some (rows', result)
    → IsWaited row.tx_hash wait rows' result
waits_after-IsWaited row wait meanwhile none rows' result u alone h = absurd (cc)
waits_after-IsWaited row wait meanwhile (some (rows, changed)) rows' result u alone h =
    settle-IsWaited row.tx_hash (via_or row.broadcast_via rpc) wait (meanwhile rows) rows' result
      (LeavesAlone-IsUnsettled row.tx_hash meanwhile rows alone (u rows changed refl)) h

after_wait-IsJustified :
    (tx_hash : Text) (reads : ChainReads) (age : ℕ) (unknown_to_node : Bool)
    (call : Option (List OutboxRow × SendResult)) (rows' : List OutboxRow) (r : Reconciled)
    → ((rows : List OutboxRow) (result : SendResult)
        → call ≡ some (rows, result)
        → IsWaited tx_hash reads.wait rows result)
    → after_wait age unknown_to_node reads.resend call ≡ some (rows', r)
    → IsJustified tx_hash reads rows' r.fate
after_wait-IsJustified tx_hash reads age unknown none rows' r w h = absurd (cc)
after_wait-IsJustified tx_hash reads age unknown (some (rows, confirms a b)) rows' r w h =
    let (ended, says) = w rows (confirms a b) refl in
    subst (λ (x : List OutboxRow × Reconciled). IsJustified tx_hash reads x.0 x.1.fate)
      (some-injective _ _ h) (inl (refl, ended, inr (inr says)))
after_wait-IsJustified tx_hash reads age unknown (some (rows, reverts a b)) rows' r w h =
    let (ended, says) = w rows (reverts a b) refl in
    subst (λ (x : List OutboxRow × Reconciled). IsJustified tx_hash reads x.0 x.1.fate)
      (some-injective _ _ h) (inr (inl (refl, ended, inr (inr says))))
after_wait-IsJustified tx_hash reads age unknown (some (rows, pends a b)) rows' r w h =
    subst (λ (x : List OutboxRow × Reconciled). IsJustified tx_hash reads x.0 x.1.fate)
      (some-injective _ _ h) (inr (inr (refl, w rows (pends a b) refl)))
after_wait-IsJustified tx_hash reads age unknown (some (rows, not_sent a b)) rows' r w h =
    absurd (w rows (not_sent a b) refl)

module _ (row : OutboxRow) (reads : ChainReads) (age : ℕ)
    (meanwhile : List OutboxRow → List OutboxRow) (rows rows' : List OutboxRow) (r : Reconciled)
    (u : IsUnsettled row.tx_hash rows) (alone : LeavesAlone row.tx_hash meanwhile) where
  left_to_human :
      (human : Reconciled)
      → human.fate ≡ leaves_pending
      → ◌≡◌ {A = Option (List OutboxRow × Reconciled)} (some (rows, human)) (some (rows', r))
      → IsJustified row.tx_hash reads rows' r.fate
  left_to_human human left h =
      subst (λ (x : List OutboxRow × Reconciled). IsJustified row.tx_hash reads x.0 x.1.fate)
        (some-injective _ _ h) (inr (inr (left, u)))

  with_free_nonce-IsJustified :
      with_free_nonce row reads age meanwhile rows ≡ some (rows', r)
      → IsJustified row.tx_hash reads rows' r.fate
  unfolding with_free_nonce
  with_free_nonce-IsJustified h =
      let unknown_to_node = leb reads.pending_nonce row.nonce in
      elim (Bool-cases (unknown_to_node && is_swap row && ltb swap_rebroadcast_max_ms age)) [
        | inl stale ↦ left_to_human _ refl (rw stale at h)
        | inr fresh ↦
            after_wait-IsJustified row.tx_hash reads age unknown_to_node
              (waits_after row reads.wait meanwhile (before_wait row unknown_to_node rows)) rows' r
              (λ rows1 result e.
                waits_after-IsWaited row reads.wait meanwhile (before_wait row unknown_to_node rows)
                  rows1 result
                  (λ rows2 changed f.
                    before_wait-IsUnsettled row unknown_to_node rows rows2 changed u f)
                  alone e)
              (rw fresh at h)
      ]

  without_receipt-IsJustified :
      without_receipt row reads age meanwhile rows ≡ some (rows', r)
      → IsJustified row.tx_hash reads rows' r.fate
  unfolding without_receipt
  without_receipt-IsJustified h = elim (Bool-cases (ltb row.nonce reads.mined_nonce)) [
    | inl used ↦
        with_used_nonce-IsJustified row.tx_hash reads age reads.late rows rows' r refl u
          (rw used at h)
    | inr free ↦ with_free_nonce-IsJustified (rw free at h)
  ]

  reconcile_row-cases :
      (plan : Option PlanRow) (now : ℕ)
      → reconcile_row row plan reads now age meanwhile rows ≡ some (rows', r)
      → IsJustified row.tx_hash reads rows' r.fate
  unfolding reconcile_row
  reconcile_row-cases plan now h = elim (Bool-cases (holds_lock now plan)) [
    | inl held ↦ left_to_human _ refl (rw held at h)
    | inr free ↦ elim (Option-cases reads.receipt) [
      | inl missing ↦ without_receipt-IsJustified (rw (free, missing) at h)
      | inr (status, there) ↦
          with_mined-IsJustified row.tx_hash reads status rows rows' r u (inl there)
            (rw (free, there) at h)
    ]
  ]

-- A transaction that is not settled in the outbox when its turn in reconcileOutbox begins, and
-- that no other process writes meanwhile, is confirmed or failed afterwards only with a receipt
-- that says so, and is reported in that list; otherwise it is left unsettled and reported as
-- pending.
pub reconcile_row-IsJustified :
    (row : OutboxRow) (plan : Option PlanRow) (reads : ChainReads) (now age : ℕ)
    (meanwhile : List OutboxRow → List OutboxRow) (rows rows' : List OutboxRow) (r : Reconciled)
    → IsUnsettled row.tx_hash rows
    → LeavesAlone row.tx_hash meanwhile
    → reconcile_row row plan reads now age meanwhile rows ≡ some (rows', r)
    → IsJustified row.tx_hash reads rows' r.fate
reconcile_row-IsJustified row plan reads now age meanwhile rows rows' r u alone h =
    reconcile_row-cases row reads age meanwhile rows rows' r u alone plan now h
