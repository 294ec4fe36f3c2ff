-- ===== src/Sending/Resends.antt =====
-- `reconcileOutbox` of apps/agent/src/executor/send.ts sends bytes again only where that is safe.
use mathlib.Core.Option.{some-injective}
use new_bnbhack.Common.{
  ℕ, ◌≡◌, refl, sym, ap, ◌∙◌, Bool, true, false, ◌&&◌, not, ltb, leb, List, Option, none, some,
  Bool-cases, Option-cases, inl, inr,
}
use new_bnbhack.Plans.{PlanRow}
use new_bnbhack.Queue.{OutboxRow, is_none}
use new_bnbhack.Sending.Send.{Mined, SendResult, confirms, reverts, pends, not_sent, answering}
use new_bnbhack.Sending.Reconcile.{
  ChainReads, Reconciled, holds_lock, with_mined, with_used_nonce, is_swap, swap_rebroadcast_max_ms,
  before_wait, after_wait, waits_after, with_free_nonce, without_receipt, reconcile_row,
}

after_wait-rebroadcast :
    (age : ℕ) (unknown_to_node : Bool) (reads : ChainReads)
    (call : Option (List OutboxRow × SendResult)) (rows' : List OutboxRow) (r : Reconciled)
    → after_wait age unknown_to_node reads.resend call ≡ some (rows', r)
    → r.rebroadcast ≡ unknown_to_node
after_wait-rebroadcast age unknown_to_node reads none rows' r h = absurd (cc)
after_wait-rebroadcast age unknown_to_node reads (some (rows, confirms _ _)) rows' r h =
    sym (ap (λ (x : List OutboxRow × Reconciled). x.1.rebroadcast) (some-injective _ _ h))
after_wait-rebroadcast age unknown_to_node reads (some (rows, reverts _ _)) rows' r h =
    sym (ap (λ (x : List OutboxRow × Reconciled). x.1.rebroadcast) (some-injective _ _ h))
after_wait-rebroadcast age unknown_to_node reads (some (rows, pends _ _)) rows' r h =
    sym (ap (λ (x : List OutboxRow × Reconciled). x.1.rebroadcast) (some-injective _ _ h))
after_wait-rebroadcast age unknown_to_node reads (some (rows, not_sent _ _)) rows' r h =
    sym (ap (λ (x : List OutboxRow × Reconciled). x.1.rebroadcast) (some-injective _ _ h))

with_mined-rebroadcast :
    (a : Reconciled) (call : Option (List OutboxRow × Bool)) (rows' : List OutboxRow)
    (r : Reconciled)
    → a.rebroadcast ≡ false
    → answering a call ≡ some (rows', r)
    → r.rebroadcast ≡ false
with_mined-rebroadcast a none rows' r f h = absurd (cc)
with_mined-rebroadcast a (some (rows, changed)) rows' r f h =
    sym (ap (λ (x : List OutboxRow × Reconciled). x.1.rebroadcast) (some-injective _ _ h)) ∙ f

module _ (row : OutboxRow) (reads : ChainReads) (age : ℕ)
    (meanwhile : List OutboxRow → List OutboxRow) (rows rows' : List OutboxRow)
    (r : Reconciled) where
  with_used_nonce-rebroadcast :
      (late : Option Mined)
      → with_used_nonce rows row.tx_hash age late ≡ some (rows', r)
      → r.rebroadcast ≡ false
  unfolding with_used_nonce with_mined
  with_used_nonce-rebroadcast none h =
      sym (ap (λ (x : List OutboxRow × Reconciled). x.1.rebroadcast) (some-injective _ _ h))
  with_used_nonce-rebroadcast (some status) h = with_mined-rebroadcast _ _ rows' r refl h

  with_free_nonce-rebroadcast :
      with_free_nonce row reads age meanwhile rows ≡ some (rows', r)
      → r.rebroadcast ≡ (
          leb reads.pending_nonce row.nonce && not (is_swap row && ltb swap_rebroadcast_max_ms age))
  unfolding with_free_nonce
  with_free_nonce-rebroadcast h = elim (Bool-cases (leb reads.pending_nonce row.nonce)) [
    | inl unknown ↦ elim (Bool-cases (is_swap row && ltb swap_rebroadcast_max_ms age)) [
      | inl stale ↦
          rw (unknown, stale)
            (sym (
              ap (λ (x : List OutboxRow × Reconciled). x.1.rebroadcast)
                (some-injective _ _ (rw (unknown, stale) at h))))
      | inr fresh ↦ rw (unknown, fresh) (sent_again true (rw (unknown, fresh) at h))
    ]
    | inr known ↦ rw known (sent_again false (rw known at h))
  ]
    where
      sent_again :
          (unknown_to_node : Bool)
          → after_wait age unknown_to_node reads.resend
              (waits_after row reads.wait meanwhile (before_wait row unknown_to_node rows))
            ≡ some (rows', r)
          → r.rebroadcast ≡ unknown_to_node
      sent_again unknown_to_node e = after_wait-rebroadcast age unknown_to_node reads _ rows' r e

  without_receipt-rebroadcast :
      without_receipt row reads age meanwhile rows ≡ some (rows', r)
      → r.rebroadcast ≡ (
          not (ltb row.nonce reads.mined_nonce)
          && leb reads.pending_nonce row.nonce
          && not (is_swap row && ltb swap_rebroadcast_max_ms age))
  unfolding without_receipt
  without_receipt-rebroadcast h = elim (Bool-cases (ltb row.nonce reads.mined_nonce)) [
    | inl used ↦ rw used (with_used_nonce-rebroadcast reads.late (rw used at h))
    | inr free ↦ rw free (with_free_nonce-rebroadcast (rw free at h))
  ]

-- A turn of reconcileOutbox sends the recorded bytes again exactly where no process holds the
-- plan's lock, the transaction has no receipt, its nonce is not used, the node does not know
-- it, and it is not a swap older than ten minutes.
pub reconcile_row-rebroadcast :
    (row : OutboxRow) (plan : Option PlanRow) (reads : ChainReads) (now age : ℕ)
    (meanwhile : List OutboxRow → List OutboxRow) (rows rows' : List OutboxRow) (r : Reconciled)
    → reconcile_row row plan reads now age meanwhile rows ≡ some (rows', r)
    → r.rebroadcast ≡ (
        not (holds_lock now plan)
        && is_none reads.receipt
        && not (ltb row.nonce reads.mined_nonce)
        && leb reads.pending_nonce row.nonce
        && not (is_swap row && ltb swap_rebroadcast_max_ms age))
unfolding reconcile_row with_mined
reconcile_row-rebroadcast row plan reads now age meanwhile rows rows' r h =
    elim (Bool-cases (holds_lock now plan)) [
      | inl held ↦ rw held (
          sym (
            ap (λ (x : List OutboxRow × Reconciled). x.1.rebroadcast)
              (some-injective _ _ (rw held at h))))
      | inr free ↦ elim (Option-cases reads.receipt) [
        | inl missing ↦
            rw (free, missing)
              (without_receipt-rebroadcast row reads age meanwhile rows rows' r
                (rw (free, missing) at h))
        | inr (status, there) ↦
            rw (free, there) (with_mined-rebroadcast _ _ rows' r refl (rw (free, there) at h))
      ]
    ]
