-- ===== src/Decide/Unavailable.antt =====
-- The end of ASSET in `decideCycle`: the answer when no candidate was chosen.
use new_bnbhack.Common.{
  ℕ, ◌+◌, false, ltb, leb, smaller, if◌then◌else◌, List, [], ◌∷◌, Option, none, some,
}
use new_bnbhack.Common.Int.{pos}
use new_bnbhack.Common.Text.{Text, codes}
use new_bnbhack.Calendar.{iso}
use new_bnbhack.Domain.{data_unavailable, below_min, no_instrument, deferred, skipped}
use new_bnbhack.Why
use new_bnbhack.Why.{format_usd, skipped_below_min, skipped_no_liquidity, skipped_venue_minimum}
use new_bnbhack.Session.{open_settle_ms}
use new_bnbhack.Decide.Input.{
  retry_later_ms, InstrumentMarket, CycleInput, done, Flow, answers, goes_on, ◌>>=◌, ◌>>◌,
  answer_if, units, join, market_closed_at,
}
use new_bnbhack.Decide.Budgeting.{why, is_safe, Budget, wait_for_open_if, daily_cap_stop}
use new_bnbhack.Decide.Asset.{Search, nothing_found, excluded_by, candidates, choose}

-- when a closed session is tried again
abbrev pub retry_after_close : ℕ → Option ℕ → ℕ
retry_after_close now none = now + retry_later_ms
retry_after_close now (some next) =
    if ltb now next then next + open_settle_ms else now + retry_later_ms

-- `cap`: a safe plan never has more than its contribution
unfoldable pub cap_limit : CycleInput → ℕ → Flow ℕ
cap_limit input limit =
    if is_safe input.plan.mode
    then (do contribution ← units input.plan.contribution_usd; goes_on (smaller limit contribution))
    else goes_on limit

-- every candidate's minimum, or the lowest of them, is above the planned spend
unfoldable pub venue_minimum_stop : CycleInput → Text → Budget → ℕ → Flow InstrumentMarket
venue_minimum_stop input ticker b venue_minimum = do
  now_cap ← cap_limit input b.max_per_buy
  full_cap ← cap_limit input b.per_buy_limit
  let above_now = ltb now_cap venue_minimum
  wait_for_open_if (if above_now then leb venue_minimum full_cap else false) input.now
      (some (codes "half_limit_below_venue_min"))
  answer_if above_now (
      done (skipped below_min (some (codes "venue_minimum_above_limit"))) (
        why skipped_venue_minimum (
          (codes "ticker", ticker)
          ∷ (codes "min", format_usd (pos venue_minimum))
          ∷ (codes "limit", format_usd (pos full_cap))
          ∷ [])))
  answer_if (ltb b.budget venue_minimum) (
      done (skipped below_min (some (codes "venue_minimum"))) (
        why skipped_below_min (
          (codes "acc", format_usd (pos b.budget))
          ∷ (codes "min", format_usd (pos venue_minimum))
          ∷ [])))
  daily_cap_stop input (some (codes "venue_minimum"))

abbrev pub notes_or : List Text → Text → Text
notes_or [] d = d
notes_or (s ∷ rest) d = join (s ∷ rest)

unfoldable pub nothing_chosen : CycleInput → Text → Budget → Search → Flow InstrumentMarket
nothing_chosen input ticker b s = elim s.session_closed [
  | some (code, next) ↦ answers (market_closed_at (retry_after_close input.now next) (some code))
  | none ↦
      if s.is_status_unavailable
      then answers (
          done (deferred data_unavailable (iso (input.now + retry_later_ms)) (some (join s.notes)))
            (why Why.data_unavailable []))
      else elim s.venue_minimum [
        | some venue_minimum ↦ venue_minimum_stop input ticker b venue_minimum
        | none ↦ answers (
            done
              (skipped no_instrument (some (notes_or s.notes (codes "no registered instrument"))))
              (why skipped_no_liquidity ((codes "ticker", ticker) ∷ [])))
      ]
]

-- ASSET
unfoldable pub asset_stage : CycleInput → Text → Budget → Flow InstrumentMarket
asset_stage input ticker b = do
  let excluded = excluded_by [] input.quotes
  let markets = candidates ticker input.plan.issuer_preference input.markets
  found ← choose ticker excluded b.planned_spend markets nothing_found
  elim found.0 [ some m ↦ goes_on m | none ↦ nothing_chosen input ticker b found.1 ]
