-- ===== src/Decide/Input.antt =====
-- The inputs and the answers of `decideCycle`, its constants, and the flow of a stage: a stage throws,
-- answers early, or goes on.
use new_bnbhack.Common.{
  ℕ, ◌*◌, Bool, true, false, List, [], ◌∷◌, ◌++◌, Option, none, some, any, Error, Result, ok, err,
}
use new_bnbhack.Common.Int.{pos}
use new_bnbhack.Common.Text.{Text, codes, eq_text}
use new_bnbhack.Amounts.{to_units, from_units}
use new_bnbhack.Calendar.{iso}
use new_bnbhack.Domain.{Instrument, Plan, market_closed, TerminalOutcome, deferred}
use new_bnbhack.Why.{Why, deferred_market_closed}

abbrev pub max_quote_age_ms : ℕ
max_quote_age_ms = 25_000

abbrev pub max_requotes : ℕ
max_requotes = 2

abbrev pub retry_later_ms : ℕ
retry_later_ms = 30 * 60_000

-- `set.has(code)` and `===` on an optional code
abbrev pub has_code : List Text → Text → Bool
has_code set code = any (eq_text code) set

abbrev pub is_code : Text → Option Text → Bool
is_code code none = false
is_code code (some c) = eq_text c code

abbrev pub corporate_action_codes : List Text
corporate_action_codes = codes "ASSET_PAUSED" ∷ codes "ASSET_LIMITED" ∷ []

abbrev pub session_closed_codes : List Text
session_closed_codes =
    codes "MARKET_CLOSED" ∷ codes "MARKET_PAUSED" ∷ codes "MARKET_MAINTENANCE" ∷ []

abbrev pub off_hours_quote_codes : List Text
off_hours_quote_codes = codes "40369" ∷ codes "40367" ∷ []

abbrev pub status_unavailable : Text
status_unavailable = codes "UNAVAILABLE"

abbrev pub no_liquidity_code : Text
no_liquidity_code = codes "40374"

abbrev pub venue_minimum_code : Text
venue_minimum_code = codes "40375"

pub record TokenStatus : Type 0 where
  pub open_state : Option Bool
  pub reason_code : Option Text
  pub reason_msg : Option Text
  pub next_open_time : Option ℕ

pub record InstrumentMarket : Type 0 where
  pub instrument : Instrument
  pub status : TokenStatus
  pub onchain_share_price_usd : Option Text
  pub independent_share_price_usd : Option Text
  pub venue_min_usd : Option Text

pub data ErrorAction : Type 0 where
  next_issuer session_closed : ErrorAction

pub record QuoteObservation : Type 0 where
  pub instrument_id : Text
  pub spend_usd : Text
  pub received_at : Text
  pub quote_id : Option Text
  pub to_token_amount : Option Text
  pub price_impact_pct : Option Text
  pub execution_mode : Option Text
  pub error_code : Option Text
  pub error_msg : Option Text
  pub error_action : Option ErrorAction

pub record Caps : Type 0 where
  pub min_buy_usd : Text
  pub max_per_tx_usd : Text

pub record Position : Type 0 where
  pub underlying_usd : Text
  pub harvested_unspent_usd : Text

-- the verdict: `none` is not blocked, `some rule` is blocked by that rule
pub record CycleInput : Type 0 where
  pub now : ℕ
  pub plan : Plan
  pub caps : Caps
  pub daily_remaining_usd : Text
  pub daily_limit_usd : Text
  pub markets : List InstrumentMarket
  pub position : Option Position
  pub guardian_block : Option Text
  pub quotes : List QuoteObservation

pub record ExecuteDecision : Type 0 where
  pub instrument_id : Text
  pub spend_usd : Text
  pub quote : QuoteObservation
  pub redeem_usd : Text
  pub interest_usd : Option Text
  pub off_hours : Bool
  pub ref_gap_pct : Option Text

-- the answers that ask for no transaction
pub data Answer : Type 0 where
  not_due : Answer
  done : TerminalOutcome → Why → Answer
  quote : (instrument_id spend_usd : Text) → Answer

pub data Decision : Type 0 where
  answer : Answer → Decision
  execute : ExecuteDecision → Decision

-- What a stage ends in: a thrown error, an early answer, or a value for the next stage.
pub data Flow {ℓ} (A : Type ℓ) : Type ℓ where
  throws : Error → Flow A
  answers : Answer → Flow A
  goes_on : A → Flow A

infixl 5 ◌>>=◌ ◌>>◌
abbrev pub ◌>>=◌ {ℓ κ} : {A : Type ℓ} {B : Type κ} → Flow A → (A → Flow B) → Flow B
throws e >>= f = throws e
answers d >>= f = answers d
goes_on a >>= f = f a

abbrev pub ◌>>◌ {ℓ} : {B : Type ℓ} → Flow (Unit {0}) → Flow B → Flow B
m >> k = m >>= λ _. k

abbrev pub lift {ℓ} : {A : Type ℓ} → Result A → Flow A
lift (ok a) = goes_on a
lift (err e) = throws e

-- `if (test) return decision;`
abbrev pub answer_if : Bool → Answer → Flow (Unit {0})
answer_if true d = answers d
answer_if false d = goes_on tt

abbrev pub throw_if : Bool → Error → Flow (Unit {0})
throw_if true e = throws e
throw_if false e = goes_on tt

-- `units` and `decimal`
abbrev pub units : Text → Flow ℕ
units usd = lift (to_units usd 18)

abbrev pub decimal : ℕ → Text
decimal value = from_units (pos value) 18

abbrev pub is_empty : Text → Bool
is_empty [] = true
is_empty (c ∷ s) = false

-- `detail ? { detail } : {}`
abbrev pub detail_of : Option Text → Option Text
detail_of none = none
detail_of (some []) = none
detail_of (some (c ∷ s)) = some (c ∷ s)

-- `notes.join(', ')`
abbrev pub join : List Text → Text
join [] = []
join (s ∷ []) = s
join (s ∷ t ∷ rest) = s ++ (codes ", " ++ join (t ∷ rest))

abbrev pub text_or : Option Text → Text → Text
text_or none d = d
text_or (some t) d = t

-- `marketClosed`
abbrev pub market_closed_at : ℕ → Option Text → Answer
market_closed_at retry_at_ms detail =
    let retry_at = iso retry_at_ms in
    done (deferred market_closed retry_at (detail_of detail))
      (record { key = deferred_market_closed; params = (codes "open", retry_at) ∷ [] })
