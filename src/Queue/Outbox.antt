-- ===== src/Queue/Outbox.antt =====
-- `tx_outbox`: signed transactions, recorded before they are broadcast.
use new_bnbhack.Common.{
  ℕ, suc, Bool, true, false, ◌&&◌, ◌||◌, not, leb, ltb, ◌==◌, if◌then◌else◌, any, List, [], ◌∷◌,
  Option, none, some, find,
}
use new_bnbhack.Common.Text.{Text, eq_text, to_lower}

pub data TxStatus : Type 0 where
  signed pending confirmed failed_tx : TxStatus

abbrev pub same_status : TxStatus → TxStatus → Bool
same_status signed signed = true
same_status pending pending = true
same_status confirmed confirmed = true
same_status failed_tx failed_tx = true
same_status _ _ = false

pub record OutboxRow : Type 0 where
  pub id : ℕ
  pub plan_id : Text
  pub cycle_id : Option ℕ
  pub kind : Text
  pub chain_id : ℕ
  pub from_address : Text
  pub nonce : ℕ
  pub raw_tx : Text
  pub tx_hash : Text
  pub status : TxStatus
  pub broadcast_via : Option Text
  pub attempts : ℕ
  pub error : Option Text

abbrev pub is_none {ℓ} : {A : Type ℓ} → Option A → Bool
is_none none = true
is_none (some a) = false

-- rows that take up their nonce: `not (status = 'FAILED' and broadcast_via is null)`
abbrev pub takes_nonce : OutboxRow → Bool
takes_nonce row = not (same_status row.status failed_tx && is_none row.broadcast_via)

abbrev pub same_nonce : OutboxRow → OutboxRow → Bool
same_nonce a b =
    takes_nonce a
    && takes_nonce b
    && (a.chain_id == b.chain_id)
    && eq_text a.from_address b.from_address
    && (a.nonce == b.nonce)

-- two rows that a unique index does not let stand together
abbrev pub clashes : OutboxRow → OutboxRow → Bool
clashes a b = eq_text a.tx_hash b.tx_hash || same_nonce a b

unfoldable pub is_unique : List OutboxRow → Bool
is_unique [] = true
is_unique (row ∷ rows) = not (any (clashes row) rows) && is_unique rows

-- A statement that would break an index leaves the table as it was and throws. That the plan and the
-- cycle exist and the kind is a known one is taken for granted here.
abbrev pub if_unique {ℓ} : {A : Type ℓ} → List OutboxRow → A → Option (List OutboxRow × A)
if_unique rows a = if is_unique rows then some (rows, a) else none

-- `recordSigned`: the row as it is inserted, whatever status it had
unfoldable pub record_signed : List OutboxRow → OutboxRow → Option (List OutboxRow × OutboxRow)
record_signed rows row =
    let created = record row { status = signed } in if_unique (created ∷ rows) created

-- what a patch sets; `none` leaves the column
pub record OutboxPatch : Type 0 where
  pub status : Option TxStatus
  pub broadcast_via : Option (Option Text)
  pub error : Option (Option Text)
  pub attempted : Bool

abbrev pub or_old {ℓ} : {A : Type ℓ} → Option A → A → A
or_old none old = old
or_old (some a) old = a

abbrev pub patched : OutboxPatch → OutboxRow → OutboxRow
patched p row = record row {
  status = or_old p.status row.status;
  broadcast_via = or_old p.broadcast_via row.broadcast_via;
  error = or_old p.error row.error;
  attempts = if p.attempted then suc row.attempts else row.attempts;
}

-- the status test of the compare-and-set; without a list every status passes
abbrev pub passes : Option (List TxStatus) → TxStatus → Bool
passes none status = true
passes (some only_from) status = any (same_status status) only_from

abbrev pub is_marked : Text → Option (List TxStatus) → OutboxRow → Bool
is_marked tx_hash only_from row = eq_text row.tx_hash tx_hash && passes only_from row.status

unfoldable pub mark_rows :
    Text → OutboxPatch → Option (List TxStatus) → List OutboxRow → List OutboxRow
mark_rows tx_hash patch only_from [] = []
mark_rows tx_hash patch only_from (row ∷ rows) =
    (if is_marked tx_hash only_from row then patched patch row else row)
    ∷ mark_rows tx_hash patch only_from rows

-- `markOutbox`: the table, and whether a row changed
unfoldable pub mark_outbox :
    List OutboxRow → Text → OutboxPatch → Option (List TxStatus) → Option (List OutboxRow × Bool)
mark_outbox rows tx_hash patch only_from =
    if_unique (mark_rows tx_hash patch only_from rows) (any (is_marked tx_hash only_from) rows)

-- `outboxByHash`
unfoldable pub outbox_by_hash : List OutboxRow → Text → Option OutboxRow
outbox_by_hash rows tx_hash = find (λ row. eq_text (to_lower row.tx_hash) (to_lower tx_hash)) rows

unfoldable pub insert_by_nonce : OutboxRow → List OutboxRow → List OutboxRow
insert_by_nonce row [] = row ∷ []
insert_by_nonce row (other ∷ rows) =
    let rest = insert_by_nonce row rows in
    if leb row.nonce other.nonce then row ∷ other ∷ rows else other ∷ rest

-- `where ... order by nonce`
unfoldable pub by_nonce : (OutboxRow → Bool) → List OutboxRow → List OutboxRow
by_nonce p [] = []
by_nonce p (row ∷ rows) =
    let rest = by_nonce p rows in if p row then insert_by_nonce row rest else rest

abbrev pub is_cycle : ℕ → Option ℕ → Bool
is_cycle cycle none = false
is_cycle cycle (some c) = c == cycle

-- `outboxOfCycle`
abbrev pub outbox_of_cycle : List OutboxRow → ℕ → List OutboxRow
outbox_of_cycle rows cycle = by_nonce (λ row. is_cycle cycle row.cycle_id) rows

abbrev pub is_open : TxStatus → Bool
is_open status = same_status status signed || same_status status pending

abbrev pub of_plan : Option Text → Text → Bool
of_plan none plan_id = true
of_plan (some id) plan_id = eq_text plan_id id

-- still out on chain, or mined with no receipt, given the hashes (in lower case) that have one
abbrev pub is_unfinished : List Text → OutboxRow → Bool
is_unfinished receipts row =
    is_open row.status
    || (same_status row.status confirmed && not (any (eq_text (to_lower row.tx_hash)) receipts))

-- `unfinishedTransactions`
unfoldable pub unfinished_transactions : List OutboxRow → List Text → Option Text → List OutboxRow
unfinished_transactions rows receipts plan_id =
    by_nonce (λ row. is_unfinished receipts row && of_plan plan_id row.plan_id) rows

-- `unsettledOutbox`
unfoldable pub unsettled_outbox : List OutboxRow → List OutboxRow
unsettled_outbox rows = by_nonce (λ row. is_open row.status) rows

abbrev pub is_sent_by : ℕ → Text → OutboxRow → Bool
is_sent_by chain_id from_address row =
    (row.chain_id == chain_id)
    && eq_text (to_lower row.from_address) (to_lower from_address)
    && not (is_none row.broadcast_via)

abbrev pub highest : ℕ → Option ℕ → ℕ
highest n none = n
highest n (some m) = if ltb n m then m else n

-- `lastOutboxNonce`
unfoldable pub last_outbox_nonce : List OutboxRow → ℕ → Text → Option ℕ
last_outbox_nonce [] chain_id from_address = none
last_outbox_nonce (row ∷ rows) chain_id from_address =
    let rest = last_outbox_nonce rows chain_id from_address in
    if is_sent_by chain_id from_address row then some (highest row.nonce rest) else rest
