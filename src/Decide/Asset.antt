-- ===== src/Decide/Asset.antt =====
-- ASSET of `decideCycle`: the issuers in the plan's order of preference, and what rules one out.
use new_bnbhack.Common.{
  ℕ, Bool, true, false, not, ◌&&◌, ◌||◌, ltb, smaller, if◌then◌else◌, List, [], ◌∷◌, ◌++◌, Option,
  none, some, find,
}
use new_bnbhack.Common.Text.{Text, codes, eq_text}
use new_bnbhack.Domain.{Issuer, same_issuer, corporate_action, skipped}
use new_bnbhack.Why.{
  WhyKey, skipped_earnings, skipped_cash_dividend, skipped_stock_split, skipped_no_liquidity,
}
use new_bnbhack.Decide.Input.{
  has_code, is_code, corporate_action_codes, session_closed_codes, status_unavailable,
  no_liquidity_code, venue_minimum_code, TokenStatus, InstrumentMarket, ErrorAction, next_issuer,
  QuoteObservation, done, Flow, goes_on, ◌>>=◌, ◌>>◌, answer_if, units, is_empty, text_or,
}
use new_bnbhack.Decide.Budgeting.{why}

-- `corporateActionWhy`
unfoldable pub corporate_action_why : TokenStatus → WhyKey
corporate_action_why status =
    let action = text_or status.reason_msg [] in
    if is_code (codes "ASSET_LIMITED") status.reason_code && eq_text action (codes "earnings")
    then skipped_earnings
    else if eq_text action (codes "cash_dividend") || eq_text action (codes "stock_dividend")
    then skipped_cash_dividend
    else if eq_text action (codes "stock_split")
    then skipped_stock_split
    else skipped_no_liquidity

abbrev pub is_next_issuer : Option ErrorAction → Bool
is_next_issuer (some next_issuer) = true
is_next_issuer _ = false

-- `!code`
abbrev pub is_blank : Option Text → Bool
is_blank none = true
is_blank (some t) = is_empty t

abbrev pub is_some {ℓ} : {A : Type ℓ} → Option A → Bool
is_some none = false
is_some (some _) = true

-- `exclusionOf`
unfoldable pub exclusion_of : QuoteObservation → Option Text
exclusion_of q =
    if is_code no_liquidity_code q.error_code
    then some (codes "no_liquidity")
    else if is_code venue_minimum_code q.error_code
    then some (codes "venue_minimum")
    else if is_some q.error_code && is_next_issuer q.error_action
    then q.error_code
    else if is_blank q.error_code && is_code (codes "RFQ") q.execution_mode
    then some (codes "rfq_not_enabled")
    else none

-- The map `excluded`, the latest entry first; an empty reason is not set.
unfoldable pub excluded_by : List (Text × Text) → List QuoteObservation → List (Text × Text)
unfolding exclusion_of
excluded_by map [] = map
excluded_by map (q ∷ quotes) =
    excluded_by
      (elim (exclusion_of q) [
        | none ↦ map
        | some reason ↦ if is_empty reason then map else (q.instrument_id, reason) ∷ map
      ])
      quotes

unfoldable pub excluded_reason : Text → List (Text × Text) → Option Text
excluded_reason id [] = none
excluded_reason id ((key, reason) ∷ map) =
    if eq_text key id then some reason else excluded_reason id map

-- the market of a ticker at an issuer
abbrev pub serves : Text → Issuer → InstrumentMarket → Bool
serves ticker issuer m =
    eq_text m.instrument.ticker ticker && same_issuer m.instrument.issuer issuer

unfoldable pub prepend {ℓ} : {A : Type ℓ} → Option A → List A → List A
prepend none xs = xs
prepend (some x) xs = x ∷ xs

unfoldable pub candidates : Text → List Issuer → List InstrumentMarket → List InstrumentMarket
candidates ticker [] markets = []
candidates ticker (issuer ∷ issuers) markets =
    prepend (find (serves ticker issuer) markets) (candidates ticker issuers markets)

-- what the loop over the candidates has noted so far
pub record Search : Type 0 where
  pub session_closed : Option (Text × Option ℕ)
  pub is_status_unavailable : Bool
  pub venue_minimum : Option ℕ
  pub notes : List Text

abbrev pub nothing_found : Search
nothing_found = record {
  session_closed = none;
  is_status_unavailable = false;
  venue_minimum = none;
  notes = [];
}

abbrev pub noted : Text → Text → Search → Search
noted id what s = record s { notes = s.notes ++ (id ++ b':' ∷ what) ∷ [] }

abbrev pub or_keep : Option (Text × Option ℕ) → Text × Option ℕ → Option (Text × Option ℕ)
or_keep none new = some new
or_keep (some old) new = some old

abbrev pub lower_minimum : Option ℕ → ℕ → ℕ
lower_minimum none venue_min = venue_min
lower_minimum (some old) venue_min = smaller old venue_min

-- What one candidate leads to: it is chosen, or the search goes on with this noted.
pub data Look : Type 0 where
  chosen : Look
  rejected : Search → Look

abbrev pub is_true : Option Bool → Bool
is_true (some true) = true
is_true _ = false

-- a token that is not trading
unfoldable pub halted : Text → InstrumentMarket → Search → Flow Look
halted ticker m s = do
  let code = text_or m.status.reason_code (codes "UNKNOWN")
  answer_if (has_code corporate_action_codes code) (
      done (skipped corporate_action (some (code ++ b':' ∷ text_or m.status.reason_msg [])))
        (why (corporate_action_why m.status) ((codes "ticker", ticker) ∷ [])))
  let s' =
      if has_code session_closed_codes code
      then record s { session_closed = or_keep s.session_closed (code, m.status.next_open_time) }
      else s
  goes_on (rejected (noted m.instrument.id code s'))

-- the venue's minimum against the planned spend
unfoldable pub below_venue : ℕ → InstrumentMarket → Search → Flow Look
below_venue planned_spend m s = elim m.venue_min_usd [
  | none ↦ goes_on chosen
  | some text ↦ do
    venue_min ← units text
    goes_on (
        if ltb planned_spend venue_min
        then rejected (
            noted m.instrument.id (codes "venue_minimum")
              (record s { venue_minimum = some (lower_minimum s.venue_minimum venue_min) }))
        else chosen)
]

-- one round of the loop
unfoldable pub look_at : Text → List (Text × Text) → ℕ → InstrumentMarket → Search → Flow Look
look_at ticker excluded planned_spend m s = elim (excluded_reason m.instrument.id excluded) [
  | some reason ↦ goes_on (rejected (noted m.instrument.id reason s))
  | none ↦
      if is_code status_unavailable m.status.reason_code
      then goes_on (
          rejected (
            noted m.instrument.id (codes "status_unavailable")
              (record s { is_status_unavailable = true })))
      else if not (is_true m.status.open_state)
          || not (is_code (codes "TRADING") m.status.reason_code)
      then halted ticker m s
      else below_venue planned_spend m s
]

-- `break` at a chosen market, or the rest of the loop
unfoldable pub after_look :
    InstrumentMarket
    → Search
    → (Search → Flow (Option InstrumentMarket × Search))
    → Look
    → Flow (Option InstrumentMarket × Search)
after_look m s rest chosen = goes_on (some m, s)
after_look m s rest (rejected s') = rest s'

-- the loop: the chosen market, or what was noted of all of them
unfoldable pub choose :
    Text
    → List (Text × Text)
    → ℕ
    → List InstrumentMarket
    → Search
    → Flow (Option InstrumentMarket × Search)
unfolding after_look
choose ticker excluded planned_spend [] s = goes_on (none, s)
choose ticker excluded planned_spend (m ∷ ms) s =
    look_at ticker excluded planned_spend m s
    >>= after_look m s (choose ticker excluded planned_spend ms)
