-- ===== src/Guardian.antt =====
-- Guardian rules of packages/core/src/guardian.ts: what a tick's readings fire, and the verdict that
-- the decision engine gets.
pub mod Verdict
pub mod Tests
use new_bnbhack.Common.{
  ℕ, ◌+◌, ◌*◌, Bool, true, false, ◌&&◌, ◌||◌, not, leb, ltb, if◌then◌else◌, List, [], ◌∷◌, ◌++◌,
  Option, none, some,
}
use new_bnbhack.Common.Text.{Text, codes, eq_text}
use new_bnbhack.Platform.{Platform}

pub data GuardianRule : Type 0 where
  protocol_paused tvl_drop utilization_high usdt_depeg : GuardianRule

abbrev pub rule_text : GuardianRule → Text
rule_text protocol_paused = codes "protocol_paused"
rule_text tvl_drop = codes "tvl_drop"
rule_text utilization_high = codes "utilization_high"
rule_text usdt_depeg = codes "usdt_depeg"

pub data ActionKind : Type 0 where
  redeem_all pause_buys stop_deposits warn : ActionKind

abbrev pub action_text : ActionKind → Text
action_text redeem_all = codes "redeem_all"
action_text pause_buys = codes "pause_buys"
action_text stop_deposits = codes "stop_deposits"
action_text warn = codes "warn"

pub record GuardianAction : Type 0 where
  pub rule : GuardianRule
  pub action : ActionKind
  pub detail : List (Text × Text)

pub record VenusReading : Type 0 where
  pub mint_paused : Bool
  pub redeem_paused : Bool
  pub utilization_bps : ℕ

pub record TvlReading (F : Type 0) : Type 0 where
  pub now_usd : F
  pub day_ago_usd : Option F

pub record UsdtReading (F : Type 0) : Type 0 where
  pub price_usd : F
  pub below_peg_since : Option Text

-- a reading that failed is `none`
pub record GuardianInputs (F : Type 0) : Type 0 where
  pub now : ℕ
  pub venus : Option VenusReading
  pub tvl : Option (TvlReading F)
  pub usdt : Option (UsdtReading F)

abbrev pub utilization_limit_bps : ℕ
utilization_limit_bps = 9_500

abbrev pub usdt_depeg_ms : ℕ
usdt_depeg_ms = 30 * 60_000

-- `String(flag)`
abbrev pub flag_text : Bool → Text
flag_text true = codes "true"
flag_text false = codes "false"

abbrev pub if_then : Bool → GuardianAction → List GuardianAction
if_then true a = a ∷ []
if_then false a = []

-- with redemptions paused nothing can be taken out
abbrev pub paused_action : VenusReading → GuardianAction
paused_action v = record {
  rule = protocol_paused;
  action = if v.redeem_paused then pause_buys else redeem_all;
  detail =
      (codes "mintPaused", flag_text v.mint_paused)
      ∷ (codes "redeemPaused", flag_text v.redeem_paused)
      ∷ [];
}

unfoldable pub paused_actions : Option VenusReading → List GuardianAction
paused_actions none = []
paused_actions (some v) = if_then (v.mint_paused || v.redeem_paused) (paused_action v)

abbrev pub is_set : Option Text → Bool
is_set none = false
is_set (some []) = false
is_set (some (c ∷ s)) = true

abbrev pub text_of : Option Text → Text
text_of none = []
text_of (some t) = t

-- `now - since >= USDT_DEPEG_MS`, where NaN compares as false
abbrev pub held_long : ℕ → Option ℕ → Bool
held_long now none = false
held_long now (some since) = leb (since + usdt_depeg_ms) now

module _ {F : Type 0} (p : Platform F) where
  -- a usable positive reading
  unfoldable pub usable : Option F → Bool
  usable none = false
  usable (some x) = p.is_finite x && p.lt (p.hundredths 0) x

  unfoldable pub usable_tvl : Option (TvlReading F) → Bool
  usable_tvl none = false
  usable_tvl (some t) = usable (some t.now_usd) && usable t.day_ago_usd

  unfoldable pub usable_usdt : Option (UsdtReading F) → Bool
  usable_usdt none = false
  usable_usdt (some u) = usable (some u.price_usd)

  abbrev pub rules_if : Bool → List GuardianRule → List GuardianRule
  rules_if true rules = rules
  rules_if false rules = []

  abbrev pub is_read : Option VenusReading → Bool
  is_read none = false
  is_read (some v) = true

  -- `unevaluatedRules`
  unfoldable pub unevaluated_rules : GuardianInputs F → List GuardianRule
  unevaluated_rules inputs =
      rules_if (not (is_read inputs.venus)) (protocol_paused ∷ utilization_high ∷ [])
      ++ rules_if (not (usable_tvl inputs.tvl)) (tvl_drop ∷ [])
      ++ rules_if (not (usable_usdt inputs.usdt)) (usdt_depeg ∷ [])

  -- `(now / dayAgo - 1) * 100`
  abbrev pub change_pct : F → F → F
  change_pct now_usd day_ago =
      p.mul (p.sub (p.div now_usd day_ago) (p.hundredths 100)) (p.hundredths 10_000)

  -- `changePct <= -TVL_DROP_PCT`
  abbrev pub has_dropped : F → F → Bool
  has_dropped now_usd day_ago = p.le (change_pct now_usd day_ago) (p.negate (p.hundredths 3_000))

  abbrev pub drop_action : F → F → GuardianAction
  drop_action now_usd day_ago = record {
    rule = tvl_drop;
    action = redeem_all;
    detail =
        (codes "changePct", p.to_fixed (change_pct now_usd day_ago) 1)
        ∷ (codes "nowUsd", p.show now_usd)
        ∷ (codes "dayAgoUsd", p.show day_ago)
        ∷ [];
  }

  unfoldable pub drop_from : F → Option F → List GuardianAction
  drop_from now_usd none = []
  drop_from now_usd (some day_ago) =
      if_then (usable (some now_usd) && usable (some day_ago) && has_dropped now_usd day_ago)
        (drop_action now_usd day_ago)

  unfoldable pub drop_actions : Option (TvlReading F) → List GuardianAction
  drop_actions none = []
  drop_actions (some t) = drop_from t.now_usd t.day_ago_usd

  unfoldable pub utilization_actions : Option VenusReading → List GuardianAction
  utilization_actions none = []
  utilization_actions (some v) = if_then (ltb utilization_limit_bps v.utilization_bps) (record {
    rule = utilization_high;
    action = stop_deposits;
    detail = (codes "utilizationPct", p.to_fixed (p.hundredths v.utilization_bps) 2) ∷ [];
  })

  -- below the peg floor for long enough
  abbrev pub is_depegged : ℕ → UsdtReading F → Bool
  is_depegged now u =
      usable (some u.price_usd)
      && p.lt u.price_usd (p.hundredths 99)
      && is_set u.below_peg_since
      && held_long now (p.date_parse (text_of u.below_peg_since))

  unfoldable pub depeg_actions : ℕ → Option (UsdtReading F) → List GuardianAction
  depeg_actions now none = []
  depeg_actions now (some u) = if_then (is_depegged now u) (record {
    rule = usdt_depeg;
    action = pause_buys;
    detail =
        (codes "priceUsd", p.show u.price_usd) ∷ (codes "since", text_of u.below_peg_since) ∷ [];
  })

  -- `evaluateGuardian`
  unfoldable pub evaluate_guardian : GuardianInputs F → List GuardianAction
  evaluate_guardian inputs =
      paused_actions inputs.venus
      ++ drop_actions inputs.tvl
      ++ utilization_actions inputs.venus
      ++ depeg_actions inputs.now inputs.usdt

-- an event that is open, by the words it is recorded in
pub record OpenEvent : Type 0 where
  pub rule : Text
  pub action : Text

abbrev pub is_blocking : OpenEvent → Bool
is_blocking a = eq_text a.action (codes "pause_buys") || eq_text a.action (codes "redeem_all")

-- `guardianVerdict`: the rule of the first event that blocks buying, or none
unfoldable pub guardian_verdict : List OpenEvent → Option Text
guardian_verdict [] = none
guardian_verdict (a ∷ open_) = if is_blocking a then some a.rule else guardian_verdict open_
