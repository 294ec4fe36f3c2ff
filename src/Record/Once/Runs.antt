-- ===== src/Record/Once/Runs.antt =====
-- Reports of transactions to packages/db/src/record.ts, in any order and any number of times.
use new_bnbhack.Common.{
  ◌≡◌, refl, sym, ap, ◌∙◌, Bool, true, false, ◌||◌, List, [], ◌∷◌, some, any, Bool-cases, ◌⊎◌, inl,
  inr,
}
use new_bnbhack.Common.Text.{Text, eq_text, eq_text_iff, to_lower, to_lower_idempotent}
use new_bnbhack.Record.Tables.{Db, of_hash}
use new_bnbhack.Record.Applied.{is_recorded}
use new_bnbhack.Record.Once.Claims.{Claims, Effect, hash_of, apply_effect}
use new_bnbhack.Record.Once.Each.{apply_effect-Claims}

or-true : (a b : Bool) → b ≡ true → (a || b) ≡ true
or-true true b h = refl
or-true false b h = h

-- the hashes, in lower case, of the reports that were applied; one that throws leaves no trace
pub data Reports (start : Db) : Db → List Text → Type 0 where
  begins : Reports start start []
  applies :
      {db db' : Db} {hashes : List Text}
      → Reports start db hashes
      → (e : Effect) → apply_effect e db ≡ some (db', true)
      → Reports start db' (to_lower (hash_of e) ∷ hashes)
  ignores :
      {db db' : Db} {hashes : List Text}
      → Reports start db hashes
      → (e : Effect) → apply_effect e db ≡ some (db', false)
      → Reports start db' hashes

abbrev pub AreDistinct : List Text → Type 0
AreDistinct [] = Unit
AreDistinct (h ∷ hashes) = (any (eq_text h) hashes ≡ false) × AreDistinct hashes

-- each of the hashes has a receipt
abbrev pub AreRecorded : Db → List Text → Type 0
AreRecorded db [] = Unit
AreRecorded db (h ∷ hashes) = (is_recorded h db.receipts ≡ true) × AreRecorded db hashes

AreRecorded-kept :
    (db db' : Db) (hashes : List Text)
    → ((h : Text) → is_recorded h db.receipts ≡ true → is_recorded h db'.receipts ≡ true)
    → AreRecorded db hashes
    → AreRecorded db' hashes
AreRecorded-kept db db' [] keeps r = tt
AreRecorded-kept db db' (h ∷ hashes) keeps (r, rs) =
    (keeps h r, AreRecorded-kept db db' hashes keeps rs)

-- a hash with no receipt is none of them
AreRecorded-new :
    (db : Db) (h : Text) (hashes : List Text)
    → AreRecorded db hashes
    → is_recorded h db.receipts ≡ false
    → any (eq_text h) hashes ≡ false
AreRecorded-new db h [] r new = refl
AreRecorded-new db h (k ∷ hashes) (r, rs) new = elim (Bool-cases (eq_text h k)) [
  | inl same ↦ absurd (cc (rw ((eq_text_iff h k).0 same) at new))
  | inr apart ↦ rw apart (AreRecorded-new db h hashes rs new)
]

is_recorded-lower :
    (tx_hash : Text) (db : Db)
    → is_recorded (to_lower tx_hash) db.receipts ≡ is_recorded tx_hash db.receipts
is_recorded-lower tx_hash db = ap (λ h. any (of_hash h) db.receipts) (to_lower_idempotent tx_hash)

-- once a claim is through, its hash is recorded in every spelling
Claims-recorded :
    (tx_hash h : Text) (db db' : Db) (fresh : Bool)
    → Claims tx_hash db db' fresh
    → to_lower h ≡ to_lower tx_hash
    → is_recorded h db'.receipts ≡ true
Claims-recorded tx_hash h db db' fresh (inl (_, new, gains)) same =
    gains h ∙ rw ((eq_text_iff (to_lower tx_hash) (to_lower h)).1 (sym same)) refl
Claims-recorded tx_hash h db db' fresh (inr (_, old, unchanged)) same =
    ap (λ (d : Db). is_recorded h d.receipts) unchanged
    ∙ ap (λ k. any (of_hash k) db.receipts) same
    ∙ old

claim-AreRecorded :
    (tx_hash : Text) (db db' : Db) (hashes : List Text)
    → Claims tx_hash db db' true
    → AreRecorded db hashes
    → AreDistinct hashes
    → AreRecorded db' (to_lower tx_hash ∷ hashes) × AreDistinct (to_lower tx_hash ∷ hashes)
claim-AreRecorded tx_hash db db' hashes (inl (f, new, gains)) r d = (
  (
    Claims-recorded tx_hash (to_lower tx_hash) db db' true (inl (f, new, gains))
        (to_lower_idempotent tx_hash),
    AreRecorded-kept db db' hashes
        (λ h known. gains h ∙ or-true (eq_text (to_lower tx_hash) (to_lower h)) _ known) r,
  ),
  (AreRecorded-new db (to_lower tx_hash) hashes r (is_recorded-lower tx_hash db ∙ new), d),
)
claim-AreRecorded tx_hash db db' hashes (inr (stale, _, _)) r d = absurd (cc)

Reports-AreRecorded :
    {start db : Db} {hashes : List Text}
    → Reports start db hashes
    → AreRecorded db hashes × AreDistinct hashes
Reports-AreRecorded begins = (tt, tt)
Reports-AreRecorded (applies {db} {db'} {hashes} r e h) =
    let (recorded, distinct) = Reports-AreRecorded r in
    claim-AreRecorded (hash_of e) db db' hashes (apply_effect-Claims e db db' true h) recorded
      distinct
Reports-AreRecorded (ignores {db} {db'} {hashes} r e h) =
    elim (apply_effect-Claims e db db' false h) [
      | inl (stale, _, _) ↦ absurd (cc)
      | inr (_, _, same) ↦ rw same (Reports-AreRecorded r)
    ]

-- what the next report does: its hash is none of those applied before, or it leaves the tables as they are
abbrev pub IsNewOrIgnored : List Text → Text → Db → Db → Bool → Type 0
IsNewOrIgnored hashes tx_hash db after fresh =
    ((fresh ≡ true) × (any (eq_text (to_lower tx_hash)) hashes ≡ false))
    ⊎ ((fresh ≡ false) × (after ≡ db))

-- In whatever order transactions are written down and reported again, by the worker or by skill
-- wallets, the hashes applied are distinct in any spelling, and whatever is reported next
-- either is answered as applied and has a hash that is none of them, or leaves the tables as
-- they are.
pub Reports-AreDistinct :
    {start db : Db} {hashes : List Text}
    → Reports start db hashes
    → (e : Effect) (after : Db) (fresh : Bool) → apply_effect e db ≡ some (after, fresh)
    → AreDistinct hashes × IsNewOrIgnored hashes (hash_of e) db after fresh
Reports-AreDistinct {start} {db} {hashes} r e after fresh h =
    let (recorded, distinct) = Reports-AreRecorded r in
    (
      distinct,
      elim (apply_effect-Claims e db after fresh h) [
        | inl (told, new, _) ↦ inl (
          told,
          AreRecorded-new db (to_lower (hash_of e)) hashes recorded
              (is_recorded-lower (hash_of e) db ∙ new),
        )
        | inr (told, _, same) ↦ inr (told, same)
      ],
    )

-- A report of a hash that is known changes nothing, whatever it reports.
pub apply_effect_again :
    (e e' : Effect) (db db' db'' : Db) (fresh fresh' : Bool)
    → to_lower (hash_of e') ≡ to_lower (hash_of e)
    → apply_effect e db ≡ some (db', fresh)
    → apply_effect e' db' ≡ some (db'', fresh')
    → (fresh' ≡ false) × (db'' ≡ db')
apply_effect_again e e' db db' db'' fresh fresh' same h h' =
    let known =
      Claims-recorded (hash_of e) (hash_of e') db db' fresh (apply_effect-Claims e db db' fresh h)
        same in
    elim (apply_effect-Claims e' db' db'' fresh' h') [
      | inl (_, new, _) ↦ absurd (cc)
      | inr (stale, _, unchanged) ↦ (stale, unchanged)
    ]
