-- ===== src/Decide/Bought/Outcome.antt =====
-- What `boughtOutcome` reports for every buy that the engine decided.
use new_bnbhack.Common.{
  ℕ, ◌*◌, ◌/◌, ◌^◌, ◌≤◌, ◌≡◌, ◌↔◌, refl, Bool, true, false, ◌==◌, arith, Option, none, some, ok,
}
use new_bnbhack.Common.Int.{pos}
use new_bnbhack.Common.Text.{Text, trim, big_int}
use new_bnbhack.Amounts.{to_units, from_units, match_decimal}
use new_bnbhack.Amounts.RoundTrip.{to_units-from_units, to_units-from_units_wider}
use new_bnbhack.Amounts.Truncate.{cut_value}
use new_bnbhack.Holdings.Shares.{shares_from_tokens-eq-ok}
use new_bnbhack.Domain.{Instrument, BoughtOutcome}
use new_bnbhack.Why.{format_shares, Why, bought_anytime}
use new_bnbhack.Decide.{ExecuteDecision}
use new_bnbhack.Decide.Bought.{interest_pays_all, bought_why, bought_record, bought_outcome}

-- the interest of a decision is a readable amount
abbrev pub IsReadable : Option Text → Type 0
IsReadable none = Unit
IsReadable (some t) = (n : ℕ) × (to_units t 18 ≡ ok n)

interest_pays_all-eq-ok :
    (off_hours : Bool) (interest : Option Text) (spend : ℕ)
    → IsReadable interest
    → (b : Bool) × (interest_pays_all off_hours interest spend ≡ ok b)
unfolding interest_pays_all
interest_pays_all-eq-ok true interest spend h = (false, refl)
interest_pays_all-eq-ok false none spend h = (false, refl)
interest_pays_all-eq-ok false (some t) spend (n, h) = (n == spend, rw h refl)

paid_by_interest :
    (off_hours : Bool) (interest : Option Text) (spend : ℕ)
    → interest_pays_all off_hours interest spend ≡ ok true
    → off_hours ≡ false
unfolding interest_pays_all
paid_by_interest true interest spend h = absurd (cc)
paid_by_interest false interest spend h = refl

bought_why-anytime :
    (d : ExecuteDecision) (ticker shown : Text) (spend : ℕ) (b : Bool)
    → interest_pays_all d.off_hours d.interest_usd spend ≡ ok b
    → ((bought_why d ticker shown spend b).key ≡ bought_anytime) ↔ (d.off_hours ≡ true)
unfolding bought_why interest_pays_all
bought_why-anytime d ticker shown spend true h =
    let s = paid_by_interest d.off_hours d.interest_usd spend h in
    (λ e. absurd (cc), λ e. absurd (cc))
bought_why-anytime d ticker shown spend false h = ground arith

-- A buy of readable amounts, of a token with at most 18 decimals and a decimal multiplier, always
-- has its outcome: the tokens of the receipt, the shares they are worth rounded down, the decided
-- spend, and the off-hours reason exactly when the buy was off hours.
pub bought_outcome-total :
    (d : ExecuteDecision) (instrument : Instrument) (received : Text) (tokens spend : ℕ)
    (parts : Text × Text)
    → big_int received ≡ ok tokens
    → match_decimal (trim instrument.multiplier) ≡ some parts
    → instrument.decimals ≤ 18
    → to_units d.spend_usd 18 ≡ ok spend
    → IsReadable d.interest_usd
    → (o : BoughtOutcome) × (w : Why) × (bought_outcome d instrument received ≡ ok (o, w))
      × (o.tokens ≡ received)
      × (to_units o.shares instrument.decimals ≡ ok (tokens * cut_value parts 18 / 10 ^ 18))
      × (o.spend_usd ≡ d.spend_usd)
      × ((w.key ≡ bought_anytime) ↔ (d.off_hours ≡ true))
unfolding bought_outcome
bought_outcome-total d instrument received tokens spend parts got mult small paid interest =
    let n = tokens * cut_value parts 18 / 10 ^ 18 in
    let (units, read) = to_units-from_units_wider n instrument.decimals 18 small in
    let (b, by) = interest_pays_all-eq-ok d.off_hours d.interest_usd spend interest in
    (
      bought_record d received (from_units (pos n) instrument.decimals),
      bought_why d instrument.ticker (format_shares units) spend b,
      rw
          (
            got,
            shares_from_tokens-eq-ok tokens instrument.decimals instrument.multiplier parts mult,
            read,
            paid,
            by,
          )
          refl,
      refl,
      to_units-from_units n instrument.decimals,
      refl,
      bought_why-anytime d instrument.ticker _ spend b by,
    )
