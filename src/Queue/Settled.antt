-- ===== src/Queue/Settled.antt =====
-- A settled transaction stays settled, and a sender's next nonce is above every nonce it used.
use mathlib.Core.Option.{some-injective}
use new_bnbhack.Common.{
  ltb, ◌∙◌, ℕ, ◌≤◌, ◌≡◌, inl, inr, refl, sym, ap, Bool, true, false, ◌&&◌, ◌||◌, if◌then◌else◌, any,
  List, [], ◌∷◌, Option, none, some, find, All, arith, Bool-cases,
}
use new_bnbhack.Common.Text.{Text, eq_text, eq_text_iff}
use new_bnbhack.Queue.{
  TxStatus, signed, pending, OutboxRow, clashes, is_unique, if_unique, OutboxPatch, patched, passes,
  is_marked, mark_rows, mark_outbox, is_sent_by, highest, last_outbox_nonce,
}

abbrev pub has_hash : Text → OutboxRow → Bool
has_hash tx_hash row = eq_text row.tx_hash tx_hash

abbrev pub only_open : Option (List TxStatus)
only_open = some (signed ∷ pending ∷ [])

-- a row after a compare-and-set
abbrev pub marked : OutboxPatch → Option (List TxStatus) → OutboxRow → OutboxRow
marked patch only_from row = if passes only_from row.status then patched patch row else row

find-mark_rows-hit :
    (tx_hash : Text) (patch : OutboxPatch) (only_from : Option (List TxStatus)) (r : OutboxRow)
    (rows : List OutboxRow)
    → has_hash tx_hash r ≡ true
    → find (has_hash tx_hash) (mark_rows tx_hash patch only_from (r ∷ rows))
      ≡ some (marked patch only_from r)
unfolding mark_rows
find-mark_rows-hit tx_hash patch only_from r rows h =
    elim (Bool-cases (passes only_from r.status)) [
      | inl open_ ↦ rw (h, open_, h) refl
      | inr shut ↦ rw (h, shut, h) refl
    ]

find-mark_rows-miss :
    (tx_hash : Text) (patch : OutboxPatch) (only_from : Option (List TxStatus)) (r : OutboxRow)
    (rows : List OutboxRow)
    → has_hash tx_hash r ≡ false
    → find (has_hash tx_hash) (mark_rows tx_hash patch only_from (r ∷ rows))
      ≡ find (has_hash tx_hash) (mark_rows tx_hash patch only_from rows)
unfolding mark_rows
find-mark_rows-miss tx_hash patch only_from r rows h = rw (h, h) refl

find-mark_rows :
    (tx_hash : Text) (patch : OutboxPatch) (only_from : Option (List TxStatus))
    (rows : List OutboxRow) (row : OutboxRow)
    → find (has_hash tx_hash) rows ≡ some row
    → find (has_hash tx_hash) (mark_rows tx_hash patch only_from rows)
      ≡ some (marked patch only_from row)
find-mark_rows tx_hash patch only_from [] row h = absurd (cc)
find-mark_rows tx_hash patch only_from (r ∷ rows) row h = elim (Bool-cases (has_hash tx_hash r)) [
  | inl hit ↦
      find-mark_rows-hit tx_hash patch only_from r rows hit
      ∙ ap (λ x. some (marked patch only_from x)) (some-injective r row (rw hit at h))
  | inr miss ↦
      find-mark_rows-miss tx_hash patch only_from r rows miss
      ∙ find-mark_rows tx_hash patch only_from rows row (rw miss at h)
]

no_other_hash :
    (r : OutboxRow) (rows : List OutboxRow) (only_from : Option (List TxStatus))
    → any (clashes r) rows ≡ false
    → any (is_marked r.tx_hash only_from) rows ≡ false
no_other_hash r [] only_from h = refl
no_other_hash r (x ∷ rows) only_from h =
    let rest = no_other_hash r rows only_from (ground (arith, h)) in
    let apart : eq_text x.tx_hash r.tx_hash ≡ false = not_same x (ground (arith, h)) in
    ground (arith, rest, apart)
  where
    not_same :
        (x : OutboxRow) → eq_text r.tx_hash x.tx_hash ≡ false → eq_text x.tx_hash r.tx_hash ≡ false
    not_same x h = elim (Bool-cases (eq_text x.tx_hash r.tx_hash)) [
      | inl same ↦
          let e = (eq_text_iff x.tx_hash r.tx_hash).0 same in
          absurd (ground (arith, h, (eq_text_iff r.tx_hash x.tx_hash).1 (sym e)))
      | inr other ↦ other
    ]

-- In a table with unique hashes, some row is marked exactly where the row of the hash passes.
any-is_marked :
    (tx_hash : Text) (only_from : Option (List TxStatus)) (rows : List OutboxRow) (row : OutboxRow)
    → is_unique rows ≡ true
    → find (has_hash tx_hash) rows ≡ some row
    → any (is_marked tx_hash only_from) rows ≡ passes only_from row.status
unfolding is_unique
any-is_marked tx_hash only_from [] row u h = absurd (cc)
any-is_marked tx_hash only_from (r ∷ rows) row u h = elim (Bool-cases (has_hash tx_hash r)) [
  | inl hit ↦
      let same = some-injective r row (rw hit at h) in
      let name : r.tx_hash ≡ tx_hash = (eq_text_iff r.tx_hash tx_hash).0 hit in
      let others : any (is_marked tx_hash only_from) rows ≡ false =
        rw name at (no_other_hash r rows only_from (ground (arith, u))) in
      rw (hit, others, sym same) (or_false (passes only_from r.status))
  | inr miss ↦ rw miss (any-is_marked tx_hash only_from rows row (ground (arith, u)) (rw miss at h))
]
  where
    or_false : (b : Bool) → (b || false) ≡ b
    or_false true = refl
    or_false false = refl

-- A compare-and-set that goes through reports a change exactly where the row had one of the states,
-- patches that row then, and leaves it as it was otherwise: a settled transaction stays settled.
pub mark_outbox-marks :
    (rows rows' : List OutboxRow) (tx_hash : Text) (patch : OutboxPatch)
    (only_from : Option (List TxStatus)) (row : OutboxRow) (changed : Bool)
    → is_unique rows ≡ true
    → find (has_hash tx_hash) rows ≡ some row
    → mark_outbox rows tx_hash patch only_from ≡ some (rows', changed)
    → (changed ≡ passes only_from row.status)
      × (find (has_hash tx_hash) rows' ≡ some (if changed then patched patch row else row))
      × (is_unique rows' ≡ true)
unfolding mark_outbox
mark_outbox-marks rows rows' tx_hash patch only_from row changed u found e =
    let after = mark_rows tx_hash patch only_from rows in
    let was = any-is_marked tx_hash only_from rows row u found in
    let (unique, pair) =
      if_unique-some after (any (is_marked tx_hash only_from) rows) (rows', changed) e in
    let said : any (is_marked tx_hash only_from) rows ≡ changed = ap (λ q. q.1) pair in
    let table : after ≡ rows' = ap (λ q. q.0) pair in
    let told : changed ≡ passes only_from row.status = sym said ∙ was in
    (
      told,
      rw (sym table, told) (find-mark_rows tx_hash patch only_from rows row found),
      rw (sym table) unique,
    )
  where
    if_unique-some :
        (after : List OutboxRow) (b : Bool) (q : List OutboxRow × Bool)
        → if_unique after b ≡ some q
        → (is_unique after ≡ true) × ((after, b) ≡ q)
    if_unique-some after b q h = elim (Bool-cases (is_unique after)) [
      | inl ok_ ↦ (ok_, some-injective (after, b) q (rw ok_ at h))
      | inr bad ↦ absurd (ground (arith, bad, h))
    ]

highest-le : (n : ℕ) (o : Option ℕ) → n ≤ highest n o
highest-le n none = omega arith
highest-le n (some m) = ground arith

abbrev pub IsBelow : ℕ → Text → ℕ → OutboxRow → Type 0
IsBelow chain_id from_address last row =
    (is_sent_by chain_id from_address row && ltb last row.nonce) ≡ false

IsBelow-more :
    (chain_id : ℕ) (from_address : Text) (a b : ℕ) (rows : List OutboxRow)
    → a ≤ b
    → All (IsBelow chain_id from_address a) rows
    → All (IsBelow chain_id from_address b) rows
IsBelow-more chain_id from_address a b [] le h = tt
IsBelow-more chain_id from_address a b (row ∷ rows) le (h, hs) =
    (ground (arith, le, h), IsBelow-more chain_id from_address a b rows le hs)

abbrev pub NotAbove : ℕ → Text → Option ℕ → OutboxRow → Type 0
NotAbove chain_id from_address none row = is_sent_by chain_id from_address row ≡ false
NotAbove chain_id from_address (some last) row = IsBelow chain_id from_address last row

raise_last :
    (chain_id : ℕ) (from_address : Text) (n : ℕ) (o : Option ℕ) (rows : List OutboxRow)
    → All (NotAbove chain_id from_address o) rows
    → All (IsBelow chain_id from_address (highest n o)) rows
raise_last chain_id from_address n none [] h = tt
raise_last chain_id from_address n none (row ∷ rows) (h, hs) =
    (ground (arith, h), raise_last chain_id from_address n none rows hs)
raise_last chain_id from_address n (some m) rows h =
    IsBelow-more chain_id from_address m (highest n (some m)) rows (ground arith) h

-- `lastOutboxNonce` is at least every nonce that the sender has broadcast, so the next one is new; and
-- it is missing only where the sender has broadcast nothing.
pub last_outbox_nonce-NotAbove :
    (rows : List OutboxRow) (chain_id : ℕ) (from_address : Text)
    → All (NotAbove chain_id from_address (last_outbox_nonce rows chain_id from_address)) rows
unfolding last_outbox_nonce
last_outbox_nonce-NotAbove [] chain_id from_address = tt
last_outbox_nonce-NotAbove (row ∷ rows) chain_id from_address =
    add (is_sent_by chain_id from_address row) (last_outbox_nonce rows chain_id from_address) refl
      (last_outbox_nonce-NotAbove rows chain_id from_address)
  where
    add :
        (b : Bool) (o : Option ℕ)
        → is_sent_by chain_id from_address row ≡ b
        → All (NotAbove chain_id from_address o) rows
        → All
            (NotAbove chain_id from_address (if b then some (highest row.nonce o) else o))
            (row ∷ rows)
    add true o e h = (
      ground (arith, highest-le row.nonce o),
      raise_last chain_id from_address row.nonce o rows h,
    )
    add false none e h = (e, h)
    add false (some m) e h = (ground (arith, e), h)
