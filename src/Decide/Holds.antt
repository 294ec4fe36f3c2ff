-- ===== src/Decide/Holds.antt =====
-- Why a due cycle does not buy: the guardian comes first, then the session.
use new_bnbhack.Common.{ℕ, ◌+◌, ◌≡◌, true, false, none, some, [], ◌∷◌, ok}
use new_bnbhack.Common.Text.{Text, codes}
use new_bnbhack.Session.{is_regular, us_session, next_regular_open, search_days, open_settle_ms}
use new_bnbhack.Domain.{guardian, skipped}
use new_bnbhack.Why.{skipped_guardian_hold}
use new_bnbhack.Platform.{Platform}
use new_bnbhack.Decide.{
  CycleInput, done, answer, goes_on, why, market_closed_at, is_regular_session, due_stage,
  guardian_stage, window_stage, wait_for_open_if, decide_cycle,
}

module _ {F : Type 0} (p : Platform F) where
  -- A due plan that the guardian blocks is skipped with the guardian's rule, whatever else holds:
  -- the session, the budget, the tokens and the quotes are not looked at.
  decide_cycle-guardian :
      (input : CycleInput) (tick rule : Text)
      → due_stage p input ≡ goes_on tick
      → input.guardian_block ≡ some rule
      → decide_cycle p input
        ≡ ok (
            answer (
              done
                (skipped guardian (some rule))
                (why skipped_guardian_hold ((codes "rule", rule) ∷ []))))
  unfolding decide_cycle guardian_stage
  decide_cycle-guardian input tick rule due block = rw (due, block)

  -- A due plan for the regular session that runs outside it waits for two minutes after the next
  -- regular open.
  decide_cycle-closed :
      (input : CycleInput) (tick : Text) (open_ : ℕ)
      → due_stage p input ≡ goes_on tick
      → input.guardian_block ≡ none
      → is_regular_session input.plan.window ≡ true
      → is_regular (us_session input.now) ≡ false
      → next_regular_open input.now search_days ≡ ok open_
      → decide_cycle p input ≡ ok (answer (market_closed_at (open_ + open_settle_ms) none))
  unfolding decide_cycle guardian_stage window_stage wait_for_open_if
  decide_cycle-closed input tick open_ due block window closed next =
      rw (due, block, window, closed, next)
