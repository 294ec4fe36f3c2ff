-- ===== src/Queue/Marked.antt =====
-- The compare-and-set of `markOutbox` in packages/db/src/queue.ts, spelled out.
use new_bnbhack.Common.{
  suc, ◌≡◌, refl, sym, Bool, true, false, ◌||◌, List, [], ◌∷◌, Option, none, some, find, any, ◌⊎◌,
  inl, inr, Bool-cases,
}
use new_bnbhack.Common.Text.{Text}
use new_bnbhack.Queue.{
  TxStatus, signed, pending, confirmed, failed_tx, same_status, OutboxRow, OutboxPatch, or_old,
  patched, passes, is_unique, mark_outbox,
}
use new_bnbhack.Queue.Settled.{has_hash, mark_outbox-marks}

-- one of the given statuses; any status where none are given
abbrev pub IsAmong : TxStatus → List TxStatus → Type 0
IsAmong status [] = ⊥
IsAmong status (s ∷ rest) = (status ≡ s) ⊎ IsAmong status rest

abbrev pub IsFrom : Option (List TxStatus) → TxStatus → Type 0
IsFrom none status = Unit
IsFrom (some only_from) status = IsAmong status only_from

-- a column that the patch sets, or leaves
abbrev pub Sets {ℓ} : {A : Type ℓ} → Option A → A → A → Type ℓ
Sets none old new = new ≡ old
Sets (some a) old new = new ≡ a

pub record IsPatched (patch : OutboxPatch) (row row' : OutboxRow) : Type 0 where
  pub status_set : Sets patch.status row.status row'.status
  pub via_set : Sets patch.broadcast_via row.broadcast_via row'.broadcast_via
  pub error_set : Sets patch.error row.error row'.error
  pub counted :
      ((patch.attempted ≡ true) × (row'.attempts ≡ suc row.attempts))
      ⊎ ((patch.attempted ≡ false) × (row'.attempts ≡ row.attempts))
  pub same_bytes :
      (row'.tx_hash ≡ row.tx_hash)
      × (row'.raw_tx ≡ row.raw_tx)
      × (row'.nonce ≡ row.nonce)
      × (row'.chain_id ≡ row.chain_id)
      × (row'.from_address ≡ row.from_address)
  pub same_use :
      (row'.id ≡ row.id)
      × (row'.plan_id ≡ row.plan_id)
      × (row'.cycle_id ≡ row.cycle_id)
      × (row'.kind ≡ row.kind)

same_status-eq : (s t : TxStatus) → same_status s t ≡ true → s ≡ t
same_status-eq signed signed h = refl
same_status-eq pending pending h = refl
same_status-eq confirmed confirmed h = refl
same_status-eq failed_tx failed_tx h = refl
same_status-eq signed pending h = absurd (cc)
same_status-eq signed confirmed h = absurd (cc)
same_status-eq signed failed_tx h = absurd (cc)
same_status-eq pending signed h = absurd (cc)
same_status-eq pending confirmed h = absurd (cc)
same_status-eq pending failed_tx h = absurd (cc)
same_status-eq confirmed signed h = absurd (cc)
same_status-eq confirmed pending h = absurd (cc)
same_status-eq confirmed failed_tx h = absurd (cc)
same_status-eq failed_tx signed h = absurd (cc)
same_status-eq failed_tx pending h = absurd (cc)
same_status-eq failed_tx confirmed h = absurd (cc)

same_status_refl : (s : TxStatus) → same_status s s ≡ true
same_status_refl signed = refl
same_status_refl pending = refl
same_status_refl confirmed = refl
same_status_refl failed_tx = refl

any-IsAmong :
    (status : TxStatus) (l : List TxStatus) → any (same_status status) l ≡ true → IsAmong status l
any-IsAmong status [] h = absurd (cc)
any-IsAmong status (s ∷ rest) h = elim (Bool-cases (same_status status s)) [
  | inl same ↦ inl (same_status-eq status s same)
  | inr other ↦ inr (any-IsAmong status rest (rw other at h))
]

IsAmong-any :
    (status : TxStatus) (l : List TxStatus) → IsAmong status l → any (same_status status) l ≡ true
IsAmong-any status [] h = elim h [ ]
IsAmong-any status (s ∷ rest) (inl same) = rw (← same) (rw (same_status_refl status) refl)
IsAmong-any status (s ∷ rest) (inr there) =
    or-true (same_status status s) _ (IsAmong-any status rest there)
  where
    or-true : (a b : Bool) → b ≡ true → (a || b) ≡ true
    or-true true b h = refl
    or-true false b h = h

passes-IsFrom :
    (only_from : Option (List TxStatus)) (status : TxStatus)
    → passes only_from status ≡ true
    → IsFrom only_from status
passes-IsFrom none status h = tt
passes-IsFrom (some l) status h = any-IsAmong status l h

IsFrom-passes :
    (only_from : Option (List TxStatus)) (status : TxStatus)
    → IsFrom only_from status
    → passes only_from status ≡ true
IsFrom-passes none status h = refl
IsFrom-passes (some l) status h = IsAmong-any status l h

Sets-or_old {ℓ} : {A : Type ℓ} (o : Option A) (old : A) → Sets o old (or_old o old)
Sets-or_old none old = refl
Sets-or_old (some a) old = refl

patched-IsPatched :
    (patch : OutboxPatch) (row : OutboxRow) → IsPatched patch row (patched patch row)
patched-IsPatched patch row = record {
  status_set = Sets-or_old patch.status row.status;
  via_set = Sets-or_old patch.broadcast_via row.broadcast_via;
  error_set = Sets-or_old patch.error row.error;
  counted = elim (Bool-cases patch.attempted) [
    | inl tried ↦ inl (tried, rw tried refl)
    | inr not_tried ↦ inr (not_tried, rw not_tried refl)
  ];
  same_bytes = (refl, refl, refl, refl, refl);
  same_use = (refl, refl, refl, refl);
}

-- what a mark makes of the row
abbrev pub IsMarked : OutboxPatch → Option (List TxStatus) → OutboxRow → OutboxRow → Bool → Type 0
IsMarked patch only_from row row' changed =
    ((changed ≡ true) × IsFrom only_from row.status × IsPatched patch row row')
    ⊎ ((changed ≡ false) × (¬ IsFrom only_from row.status) × (row' ≡ row))

-- In a table with unique hashes a markOutbox that goes through reports a change, sets the row's
-- columns that are given, counts an attempt where it is one and leaves the bytes and their use
-- as they are, when the row has one of the given states, and reports none and leaves the row as
-- it is when it has not; hashes stay unique.
pub mark_outbox-compare_and_set :
    (rows rows' : List OutboxRow) (tx_hash : Text) (patch : OutboxPatch)
    (only_from : Option (List TxStatus)) (row : OutboxRow) (changed : Bool)
    → is_unique rows ≡ true
    → find (has_hash tx_hash) rows ≡ some row
    → mark_outbox rows tx_hash patch only_from ≡ some (rows', changed)
    → (row' : OutboxRow) × (find (has_hash tx_hash) rows' ≡ some row')
      × IsMarked patch only_from row row' changed
      × (is_unique rows' ≡ true)
mark_outbox-compare_and_set rows rows' tx_hash patch only_from row true u found e =
    let (told, there, unique) =
      mark_outbox-marks rows rows' tx_hash patch only_from row true u found e in
    (
      patched patch row,
      there,
      inl (refl, passes-IsFrom only_from row.status (sym told), patched-IsPatched patch row),
      unique,
    )
mark_outbox-compare_and_set rows rows' tx_hash patch only_from row false u found e =
    let (told, there, unique) =
      mark_outbox-marks rows rows' tx_hash patch only_from row false u found e in
    (
      row,
      there,
      inr (refl, λ from_. absurd (cc (IsFrom-passes only_from row.status from_, told)), refl),
      unique,
    )
