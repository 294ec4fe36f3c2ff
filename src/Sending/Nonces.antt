-- ===== src/Sending/Nonces.antt =====
-- `sendTransaction` of apps/agent/src/executor/send.ts signs one transaction of a wallet at a time, with a
-- nonce that none of its transactions has used.
use new_bnbhack.Common.{
  ℕ, ◌≡◌, refl, sym, ap, ◌∙◌, Bool, true, false, ◌&&◌, ◌||◌, ltb, leb, if◌then◌else◌, List, [], ◌∷◌,
  Option, none, some, map, filter, any, All, arith, Bool-cases, inl, inr,
}
use new_bnbhack.Common.Text.{Text}
use new_bnbhack.Queue.{
  OutboxRow, is_open, is_unique, if_unique, record_signed, insert_by_nonce, by_nonce,
  unsettled_outbox, is_sent_by, last_outbox_nonce,
}
use new_bnbhack.Queue.Settled.{NotAbove, last_outbox_nonce-NotAbove}
use new_bnbhack.Sending.Send.{
  SendRequest, SignedTx, bsc_chain_id, is_from, busy_with, reuses, outbox_row, Prepared,
  nonce_reused, lock_lost, recorded, as_recorded, unless_empty, prepare,
}

any-insert_by_nonce :
    (p : OutboxRow → Bool) (row : OutboxRow) (rows : List OutboxRow)
    → any p (insert_by_nonce row rows) ≡ (p row || any p rows)
unfolding insert_by_nonce
any-insert_by_nonce p row [] = refl
any-insert_by_nonce p row (other ∷ rows) = elim (Bool-cases (leb row.nonce other.nonce)) [
  | inl first ↦ rw first refl
  | inr later ↦
      rw later
        (ap (λ b. p other || b) (any-insert_by_nonce p row rows) ∙ or_swap (p other) (p row) _)
]
  where
    or_swap : (a b c : Bool) → (a || (b || c)) ≡ (b || (a || c))
    or_swap true true c = refl
    or_swap true false c = refl
    or_swap false b c = refl

-- a row that is not among those selected and sorted passes not both tests
none-by_nonce :
    (q p : OutboxRow → Bool) (rows : List OutboxRow)
    → any p (by_nonce q rows) ≡ false
    → All (λ row. (q row && p row) ≡ false) rows
unfolding by_nonce
none-by_nonce q p [] h = tt
none-by_nonce q p (row ∷ rows) h = elim (Bool-cases (q row)) [
  | inl here ↦
      let both = sym (any-insert_by_nonce p row (by_nonce q rows)) ∙ (rw here at h) in
      let (first, rest) = or-false (p row) _ both in (rw here first, none-by_nonce q p rows rest)
  | inr missing ↦ (rw missing refl, none-by_nonce q p rows (rw missing at h))
]
  where
    or-false : (a b : Bool) → (a || b) ≡ false → (a ≡ false) × (b ≡ false)
    or-false false b e = (refl, e)
    or-false true b e = absurd (cc)

any-of-filter-nil :
    (p : OutboxRow → Bool) (rows : List OutboxRow)
    → map (λ (row : OutboxRow). row.tx_hash) (filter p rows) ≡ []
    → any p rows ≡ false
any-of-filter-nil p [] h = refl
any-of-filter-nil p (row ∷ rows) h = elim (Bool-cases (p row)) [
  | inl hit ↦ absurd (cc (rw hit at h))
  | inr miss ↦ rw miss (any-of-filter-nil p rows (rw miss at h))
]

-- a nonce that is above the highest one is above all
above_all :
    (from_ : Text) (nonce : ℕ) (last : Option ℕ) (rows : List OutboxRow)
    → reuses nonce last ≡ false
    → All (NotAbove bsc_chain_id from_ last) rows
    → All (λ row. (is_sent_by bsc_chain_id from_ row && leb nonce row.nonce) ≡ false) rows
above_all from_ nonce last [] h a = tt
above_all from_ nonce none (row ∷ rows) h (a, as_) =
    (rw a refl, above_all from_ nonce none rows h as_)
above_all from_ nonce (some n) (row ∷ rows) h (a, as_) = (
  below (is_sent_by bsc_chain_id from_ row) nonce n row.nonce h a,
  above_all from_ nonce (some n) rows h as_,
)
  where
    below :
        (mine : Bool) (nonce n other : ℕ)
        → leb nonce n ≡ false
        → (mine && ltb n other) ≡ false
        → (mine && leb nonce other) ≡ false
    below false nonce n other h a = refl
    below true nonce n other h a = ground (arith, h, a)

unless_empty-inv :
    (hashes : List Text) (next : Prepared) {rows : List OutboxRow} {row : OutboxRow}
    → unless_empty hashes next ≡ recorded rows row
    → (hashes ≡ []) × (next ≡ recorded rows row)
unless_empty-inv [] next h = (refl, h)
unless_empty-inv (x ∷ hashes) next h = absurd (cc)

recorded-injective :
    {rows rows' : List OutboxRow} {row row' : OutboxRow}
    → recorded rows row ≡ recorded rows' row'
    → (rows ≡ rows') × (row ≡ row')
recorded-injective h = (cc, cc)

-- the row is inserted as it is given, in a table with unique hashes
as_recorded-inserts :
    (rows rows' : List OutboxRow) (given row : OutboxRow)
    → as_recorded (if_unique (given ∷ rows) given) ≡ recorded rows' row
    → (row ≡ given) × (rows' ≡ given ∷ rows) × (is_unique rows' ≡ true)
as_recorded-inserts rows rows' given row h = elim (Bool-cases (is_unique (given ∷ rows))) [
  | inl unique ↦
      let (same, here) = recorded-injective (rw unique at h) in
      (sym here, sym same, ap is_unique (sym same) ∙ unique)
  | inr twice ↦ absurd (cc (rw twice at h))
]

-- SendTransaction records bytes only where beforeSign lets it both times, no transaction of the
-- wallet is unsettled when it looks, and no broadcast transaction of the wallet has that nonce
-- or a higher one; it adds one SIGNED row for them and hashes stay unique.
pub prepare-IsFresh :
    (req : SendRequest) (from_ : Text) (nonce : ℕ) (tx : SignedTx) (id : ℕ)
    (refuses_first refuses_again : Bool) (checked counted rows rows' : List OutboxRow)
    (row : OutboxRow)
    → prepare req from_ nonce tx id refuses_first refuses_again checked counted rows
      ≡ recorded rows' row
    → (refuses_first ≡ false)
      × (refuses_again ≡ false)
      × All (λ (r : OutboxRow). (is_open r.status && is_from from_ r) ≡ false) checked
      × All
          (λ (r : OutboxRow). (is_sent_by bsc_chain_id from_ r && leb nonce r.nonce) ≡ false)
          counted
      × (row ≡ outbox_row req from_ nonce tx id)
      × (rows' ≡ row ∷ rows)
      × (is_unique rows' ≡ true)
unfolding prepare busy_with unsettled_outbox record_signed
prepare-IsFresh req from_ nonce tx id true again checked counted rows rows' row h = absurd (cc)
prepare-IsFresh req from_ nonce tx id false again checked counted rows rows' row h =
    let (idle, next) =
      unless_empty-inv (busy_with from_ checked)
        (if reuses nonce (last_outbox_nonce counted bsc_chain_id from_)
          then nonce_reused
          else if again
          then lock_lost
          else as_recorded (record_signed rows (outbox_row req from_ nonce tx id)))
        h in
    elim (Bool-cases (reuses nonce (last_outbox_nonce counted bsc_chain_id from_))) [
      | inl used ↦ absurd (cc (rw used at next))
      | inr free ↦
          let (kept, (same, here, unique)) = not_refused again (rw free at next) in
          (
            refl,
            kept,
            none-by_nonce (λ r. is_open r.status) (is_from from_) checked
                (any-of-filter-nil (is_from from_) (by_nonce (λ r. is_open r.status) checked) idle),
            above_all from_ nonce _ counted free
                (last_outbox_nonce-NotAbove counted bsc_chain_id from_),
            same,
            here ∙ ap (λ r. r ∷ rows) (sym same),
            unique,
          )
    ]
  where
    not_refused :
        (again : Bool)
        → (if again
            then lock_lost
            else as_recorded (record_signed rows (outbox_row req from_ nonce tx id)))
          ≡ recorded rows' row
        → (again ≡ false)
          × ((row ≡ outbox_row req from_ nonce tx id)
              × (rows' ≡ outbox_row req from_ nonce tx id ∷ rows)
              × (is_unique rows' ≡ true))
    not_refused true e = absurd (cc)
    not_refused false e =
        (refl, as_recorded-inserts rows rows' (outbox_row req from_ nonce tx id) row e)
