-- ===== src/Guardian/Verdict.antt =====
-- What fires, and what blocks.
use new_bnbhack.Common.{
  ℕ, ◌+◌, leb, ◌≡◌, refl, sym, ◌↔◌, Bool, true, false, ◌&&◌, ◌||◌, List, [], ◌∷◌, ◌++◌, map, Option,
  none, some, any, arith, if◌then◌else◌,
}
use new_bnbhack.Common.Text.{Text, eq_text}
use new_bnbhack.Platform.{Platform}
use new_bnbhack.Guardian.{
  GuardianRule, protocol_paused, tvl_drop, utilization_high, usdt_depeg, rule_text, action_text,
  GuardianAction, VenusReading, TvlReading, UsdtReading, GuardianInputs, paused_actions, usable,
  usable_tvl, usable_usdt, unevaluated_rules, drop_from, held_long, is_set, text_of, drop_actions,
  utilization_actions, is_depegged, depeg_actions, is_read, evaluate_guardian, OpenEvent,
  is_blocking, guardian_verdict,
}

-- how the worker records a firing
abbrev pub open_of : GuardianAction → OpenEvent
open_of a = record { rule = rule_text a.rule; action = action_text a.action }

abbrev pub same_rule : GuardianRule → GuardianRule → Bool
same_rule protocol_paused protocol_paused = true
same_rule tvl_drop tvl_drop = true
same_rule utilization_high utilization_high = true
same_rule usdt_depeg usdt_depeg = true
same_rule _ _ = false

-- whether one of the events blocks
abbrev pub blocks : List GuardianAction → Bool
blocks = any (λ a. is_blocking (open_of a))

any-append {ℓ} :
    {A : Type ℓ} (p : A → Bool) (xs ys : List A) → any p (xs ++ ys) ≡ (any p xs || any p ys)
any-append p [] ys = refl
any-append p (x ∷ xs) ys = ground (arith, any-append p xs ys)

verdict-blocks :
    (fired : List GuardianAction)
    → (guardian_verdict (map open_of fired) ≡ none) ↔ (blocks fired ≡ false)
unfolding guardian_verdict
verdict-blocks [] = ground arith
verdict-blocks (a ∷ fired) =
    let (down, up) = verdict-blocks fired in first (is_blocking (open_of a)) down up
  where
    first :
        (b : Bool)
        → (guardian_verdict (map open_of fired) ≡ none → blocks fired ≡ false)
        → (blocks fired ≡ false → guardian_verdict (map open_of fired) ≡ none)
        → ((if b then some (rule_text a.rule) else guardian_verdict (map open_of fired)) ≡ none)
          ↔ ((b || blocks fired) ≡ false)
    first true down up = (λ e. absurd (cc), λ e. absurd (cc))
    first false down up = (down, up)

module _ {F : Type 0} (p : Platform F) where
  abbrev pub venus_paused : Option VenusReading → Bool
  venus_paused none = false
  venus_paused (some v) = v.mint_paused || v.redeem_paused

  -- a reading that is a positive number
  abbrev pub is_sound : F → Bool
  is_sound x = p.is_finite x && p.lt (p.hundredths 0) x

  -- the change within a day, in percent, is a fall by 30 or more
  abbrev pub tvl_fell_from : F → Option F → Bool
  tvl_fell_from now_usd none = false
  tvl_fell_from now_usd (some day_ago) =
      is_sound now_usd
      && is_sound day_ago
      && p.le (p.mul (p.sub (p.div now_usd day_ago) (p.hundredths 100)) (p.hundredths 10_000))
          (p.negate (p.hundredths 3_000))

  abbrev pub tvl_fell : Option (TvlReading F) → Bool
  tvl_fell none = false
  tvl_fell (some t) = tvl_fell_from t.now_usd t.day_ago_usd

  -- a time that can be read and is half an hour or more ago
  abbrev pub is_long_ago : ℕ → Option ℕ → Bool
  is_long_ago now none = false
  is_long_ago now (some since) = leb (since + 1_800_000) now

  abbrev pub is_below_long : ℕ → Option Text → Bool
  is_below_long now none = false
  is_below_long now (some []) = false
  is_below_long now (some (c ∷ since)) = is_long_ago now (p.date_parse (c ∷ since))

  -- below 0.99 dollars now, and for half an hour
  abbrev pub depegged : ℕ → Option (UsdtReading F) → Bool
  depegged now none = false
  depegged now (some u) =
      is_sound u.price_usd
      && p.lt u.price_usd (p.hundredths 99)
      && is_below_long now u.below_peg_since

  is_depegged-lem : (now : ℕ) (u : UsdtReading F) → is_depegged p now u ≡ depegged now (some u)
  unfolding usable
  is_depegged-lem now u =
      and_then (is_sound u.price_usd && p.lt u.price_usd (p.hundredths 99))
        (is_set u.below_peg_since) _ (since_lem u.below_peg_since)
    where
      and_then : (x a b : Bool) {c : Bool} → (a && b) ≡ c → (x && a && b) ≡ (x && c)
      and_then true a b e = e
      and_then false a b e = refl

      long_lem : (since : Option ℕ) → held_long now since ≡ is_long_ago now since
      long_lem none = refl
      long_lem (some since) = refl

      since_lem :
          (since : Option Text)
          → (is_set since && held_long now (p.date_parse (text_of since))) ≡ is_below_long now since
      since_lem none = refl
      since_lem (some []) = refl
      since_lem (some (c ∷ s)) = long_lem (p.date_parse (c ∷ s))

  paused_actions-blocks : (v : Option VenusReading) → blocks (paused_actions v) ≡ venus_paused v
  unfolding paused_actions eq_text
  paused_actions-blocks none = refl
  paused_actions-blocks (some v) = ground arith

  drop_from-blocks :
      (now_usd : F) (day_ago : Option F)
      → blocks (drop_from p now_usd day_ago) ≡ tvl_fell_from now_usd day_ago
  unfolding drop_from eq_text usable
  drop_from-blocks now_usd none = refl
  drop_from-blocks now_usd (some day_ago) = ground arith

  drop_actions-blocks : (t : Option (TvlReading F)) → blocks (drop_actions p t) ≡ tvl_fell t
  unfolding drop_actions
  drop_actions-blocks none = refl
  drop_actions-blocks (some t) = drop_from-blocks t.now_usd t.day_ago_usd

  utilization_actions-blocks : (v : Option VenusReading) → blocks (utilization_actions p v) ≡ false
  unfolding utilization_actions eq_text
  utilization_actions-blocks none = refl
  utilization_actions-blocks (some v) = ground arith

  depeg_actions-blocks :
      (now : ℕ) (u : Option (UsdtReading F)) → blocks (depeg_actions p now u) ≡ depegged now u
  unfolding depeg_actions eq_text
  depeg_actions-blocks now none = refl
  depeg_actions-blocks now (some u) = ground (arith, is_depegged-lem now u)

  -- the conditions under which nothing may be bought
  abbrev pub must_not_buy : GuardianInputs F → Bool
  must_not_buy inputs =
      venus_paused inputs.venus || tvl_fell inputs.tvl || depegged inputs.now inputs.usdt

  evaluate_guardian-blocks :
      (inputs : GuardianInputs F) → blocks (evaluate_guardian p inputs) ≡ must_not_buy inputs
  unfolding evaluate_guardian
  evaluate_guardian-blocks inputs =
      rw
        (
          any-append,
          any-append,
          any-append,
          paused_actions-blocks inputs.venus,
          drop_actions-blocks inputs.tvl,
          utilization_actions-blocks inputs.venus,
          depeg_actions-blocks inputs.now inputs.usdt,
        )
        (ground arith)

  -- The events that one tick fires block buying exactly when Venus has mints or redemptions
  -- paused, or the protocol's value, positive now and a day ago, has changed by -30 % or less,
  -- or the stablecoin's positive price is below 0.99 dollars and has been below the peg since a
  -- readable time half an hour or more ago; high utilisation alone never blocks buying.
  pub guardian_verdict_iff :
      (inputs : GuardianInputs F)
      → (guardian_verdict (map open_of (evaluate_guardian p inputs)) ≡ none)
        ↔ (must_not_buy inputs ≡ false)
  guardian_verdict_iff inputs =
      rw (sym (evaluate_guardian-blocks inputs)) (verdict-blocks (evaluate_guardian p inputs))

  -- whether a rule is among the fired ones, and among those that could not be evaluated
  abbrev pub fires : GuardianRule → List GuardianAction → Bool
  fires r = any (λ a. same_rule r a.rule)

  abbrev pub waits : GuardianRule → List GuardianRule → Bool
  waits r = any (same_rule r)

  drop_from-usable :
      (now_usd : F) (day_ago : Option F)
      → (usable p (some now_usd) && usable p day_ago) ≡ false
      → drop_from p now_usd day_ago ≡ []
  unfolding drop_from
  drop_from-usable now_usd none h = refl
  drop_from-usable now_usd (some day_ago) h = ground (arith, h)

  drop_actions-usable : (t : Option (TvlReading F)) → usable_tvl p t ≡ false → drop_actions p t ≡ []
  unfolding drop_actions usable_tvl
  drop_actions-usable none h = refl
  drop_actions-usable (some t) h = drop_from-usable t.now_usd t.day_ago_usd h

  depeg_actions-usable :
      (now : ℕ) (u : Option (UsdtReading F)) → usable_usdt p u ≡ false → depeg_actions p now u ≡ []
  unfolding depeg_actions usable_usdt
  depeg_actions-usable now none h = refl
  depeg_actions-usable now (some u) h = ground (arith, h)

  venus_actions-read :
      (v : Option VenusReading)
      → is_read p v ≡ false
      → (paused_actions v ≡ []) × (utilization_actions p v ≡ [])
  unfolding paused_actions utilization_actions
  venus_actions-read none h = (refl, refl)
  venus_actions-read (some v) h = absurd (cc)

  -- which rules each part of the evaluation fires
  drop_from-rule :
      (r : GuardianRule) (now_usd : F) (day_ago : Option F)
      → same_rule r tvl_drop ≡ false
      → fires r (drop_from p now_usd day_ago) ≡ false
  unfolding drop_from
  drop_from-rule r now_usd none h = refl
  drop_from-rule r now_usd (some day_ago) h = ground (arith, h)

  drop_actions-rule :
      (r : GuardianRule) (t : Option (TvlReading F))
      → same_rule r tvl_drop ≡ false
      → fires r (drop_actions p t) ≡ false
  unfolding drop_actions
  drop_actions-rule r none h = refl
  drop_actions-rule r (some t) h = drop_from-rule r t.now_usd t.day_ago_usd h

  depeg_actions-rule :
      (r : GuardianRule) (now : ℕ) (u : Option (UsdtReading F))
      → same_rule r usdt_depeg ≡ false
      → fires r (depeg_actions p now u) ≡ false
  unfolding depeg_actions
  depeg_actions-rule r now none h = refl
  depeg_actions-rule r now (some u) h = ground (arith, h)

  paused_actions-rule :
      (r : GuardianRule) (v : Option VenusReading)
      → same_rule r protocol_paused ≡ false
      → fires r (paused_actions v) ≡ false
  unfolding paused_actions
  paused_actions-rule r none h = refl
  paused_actions-rule r (some v) h = ground (arith, h)

  utilization_actions-rule :
      (r : GuardianRule) (v : Option VenusReading)
      → same_rule r utilization_high ≡ false
      → fires r (utilization_actions p v) ≡ false
  unfolding utilization_actions
  utilization_actions-rule r none h = refl
  utilization_actions-rule r (some v) h = ground (arith, h)

  fires-evaluate_guardian :
      (r : GuardianRule) (inputs : GuardianInputs F)
      → fires r (evaluate_guardian p inputs) ≡ (
          fires r (paused_actions inputs.venus)
          || fires r (drop_actions p inputs.tvl)
          || fires r (utilization_actions p inputs.venus)
          || fires r (depeg_actions p inputs.now inputs.usdt))
  unfolding evaluate_guardian
  fires-evaluate_guardian r inputs = rw (any-append, any-append, any-append) refl

  -- A rule that could not be evaluated for lack of data fires nothing, so missing data neither fires
  -- nor clears a rule.
  unevaluated_rules-fires :
      (inputs : GuardianInputs F) (r : GuardianRule)
      → waits r (unevaluated_rules p inputs) ≡ true
      → fires r (evaluate_guardian p inputs) ≡ false
  unfolding unevaluated_rules
  unevaluated_rules-fires inputs protocol_paused h =
      let gone = (venus_actions-read inputs.venus (ground (arith, h))).0 in
      rw
        (
          fires-evaluate_guardian,
          gone,
          drop_actions-rule protocol_paused inputs.tvl refl,
          utilization_actions-rule protocol_paused inputs.venus refl,
          depeg_actions-rule protocol_paused inputs.now inputs.usdt refl,
        )
        refl
  unevaluated_rules-fires inputs tvl_drop h =
      let gone = drop_actions-usable inputs.tvl (ground (arith, h)) in
      rw
        (
          fires-evaluate_guardian,
          gone,
          paused_actions-rule tvl_drop inputs.venus refl,
          utilization_actions-rule tvl_drop inputs.venus refl,
          depeg_actions-rule tvl_drop inputs.now inputs.usdt refl,
        )
        refl
  unevaluated_rules-fires inputs utilization_high h =
      let gone = (venus_actions-read inputs.venus (ground (arith, h))).1 in
      rw
        (
          fires-evaluate_guardian,
          gone,
          paused_actions-rule utilization_high inputs.venus refl,
          drop_actions-rule utilization_high inputs.tvl refl,
          depeg_actions-rule utilization_high inputs.now inputs.usdt refl,
        )
        refl
  unevaluated_rules-fires inputs usdt_depeg h =
      let gone = depeg_actions-usable inputs.now inputs.usdt (ground (arith, h)) in
      rw
        (
          fires-evaluate_guardian,
          gone,
          paused_actions-rule usdt_depeg inputs.venus refl,
          drop_actions-rule usdt_depeg inputs.tvl refl,
          utilization_actions-rule usdt_depeg inputs.venus refl,
        )
        refl
