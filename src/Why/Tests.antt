-- ===== src/Why/Tests.antt =====
-- Display texts of concrete amounts.
use new_bnbhack.Common.{ℕ, ◌+◌, ◌≤◌, ◌<◌, ◌≡◌, refl, ok}
use new_bnbhack.Common.Int.{pos, negsuc}
use new_bnbhack.Common.Text.{codes, to_string, pad_start, drop_end_while}
use new_bnbhack.Amounts.{to_units, from_units, from_magnitude, with_fraction}
use new_bnbhack.Why.{usd_scale, cents_text, format_usd, format_shares}
use new_bnbhack.Why.Formats.{format_usd_truncates}

shown_cents : format_usd (pos 1_239_999_999_999_999_999) ≡ codes "1.23"
unfolding format_usd cents_text pad_start to_string
shown_cents = refl

shown_loss : format_usd (negsuc 49_999_999_999_999_999) ≡ codes "-0.05"
unfolding format_usd cents_text pad_start to_string
shown_loss = refl

shown_dust : format_shares 123_000 ≡ codes "0.000000000000123"
unfolding format_shares from_units from_magnitude with_fraction pad_start drop_end_while to_string
shown_dust = refl

format_usd_truncates_example :
    (shown : ℕ) × (to_units (format_usd (pos 1_239_999_999_999_999_999)) 18 ≡ ok shown)
    × (shown ≤ 1_239_999_999_999_999_999)
    × (1_239_999_999_999_999_999 < shown + usd_scale)
format_usd_truncates_example = format_usd_truncates 1_239_999_999_999_999_999

abbrev some_shares : ℕ
some_shares = 1_234_567_891_234_567_891
