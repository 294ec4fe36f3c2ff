-- ===== src/Guardian/Tests.antt =====
-- A tick with Venus paused and no other reading.
use new_bnbhack.Common.{◌≡◌, ◌↔◌, refl, true, false, map, none, some}
use new_bnbhack.Common.Text.{eq_text, codes}
use new_bnbhack.Platform.{Scaled, scaled_platform}
use new_bnbhack.Guardian.{
  GuardianInputs, paused_actions, drop_actions, utilization_actions, depeg_actions,
  evaluate_guardian, guardian_verdict,
}
use new_bnbhack.Guardian.Verdict.{open_of, must_not_buy, guardian_verdict_iff}

abbrev tick : GuardianInputs Scaled
tick = record {
  now = 1_795_789_860_000;
  venus = some record { mint_paused = true; redeem_paused = false; utilization_bps = 9_600 };
  tvl = none;
  usdt = none;
}

blocked :
    guardian_verdict (map open_of (evaluate_guardian scaled_platform tick))
    ≡ some (codes "protocol_paused")
unfolding guardian_verdict evaluate_guardian paused_actions drop_actions utilization_actions
    depeg_actions eq_text
blocked = refl

guardian_verdict_iff_example :
    (guardian_verdict (map open_of (evaluate_guardian scaled_platform tick)) ≡ none)
    ↔ (must_not_buy scaled_platform tick ≡ false)
guardian_verdict_iff_example = guardian_verdict_iff scaled_platform tick
