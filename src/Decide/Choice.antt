-- ===== src/Decide/Choice.antt =====
-- What ASSET chooses: a trading token of the plan's ticker that nothing rules out.
use mathlib.Core.Path.{subst}
use mathlib.Core.Option.{some-injective}
use mathlib.Core.List.{Mem, mem-cons_self, mem-cons_of_mem}
use new_bnbhack.Common.{
  ap, ◌∙◌, ℕ, ◌≤◌, ◌≡◌, refl, Bool, true, ltb, List, [], ◌∷◌, Option, none, some, find, All, arith,
  inl, inr, Bool-cases, Option-cases, ok,
}
use new_bnbhack.Common.Text.{Text, codes, eq_text}
use new_bnbhack.Amounts.{to_units}
use new_bnbhack.Domain.{Issuer}
use new_bnbhack.Decide.Flows.{
  bind_goes_on, goes_on-injective, units_goes_on, answer_goes_on, then_goes_on,
}
use new_bnbhack.Decide.{
  CycleInput, InstrumentMarket, Flow, goes_on, is_code, is_true, Budget, Search, Look, chosen,
  rejected, nothing_found, excluded_by, excluded_reason, serves, candidates, halted, below_venue,
  look_at, after_look, prepend, choose, nothing_chosen, venue_minimum_stop, daily_cap_stop,
  cap_limit, wait_for_open_if, asset_stage, has_code, corporate_action_codes, text_or,
}

-- The venue's minimum, when it has one, is met by what is planned.
abbrev pub MeetsVenue : Option Text → ℕ → Type 0
MeetsVenue none planned = Unit
MeetsVenue (some text) planned = (n : ℕ) × (to_units text 18 ≡ ok n) × (n ≤ planned)

-- A market may be bought: its token trades, no quote of the cycle rules it out, and the venue
-- accepts the planned spend.
pub record IsBuyable (excluded : List (Text × Text)) (planned : ℕ) (m : InstrumentMarket)
    : Type 0 where
  pub open_now : is_true m.status.open_state ≡ true
  pub trading : is_code (codes "TRADING") m.status.reason_code ≡ true
  pub not_excluded : excluded_reason m.instrument.id excluded ≡ none
  pub meets_venue : MeetsVenue m.venue_min_usd planned

below_venue-MeetsVenue :
    (planned : ℕ) (m : InstrumentMarket) (s : Search)
    → below_venue planned m s ≡ goes_on chosen
    → MeetsVenue m.venue_min_usd planned
unfolding below_venue
below_venue-MeetsVenue planned m s h = elim (Option-cases m.venue_min_usd) [
  | inl e ↦ rw e tt
  | inr (text, e) ↦
      rw e (units_goes_on text _ (rw (e, below_venue) at h) λ n read rest. (n, read, ground arith))
]

halted-ne-chosen :
    (ticker : Text) (m : InstrumentMarket) (s : Search) → ¬ (halted ticker m s ≡ goes_on chosen)
unfolding halted
halted-ne-chosen ticker m s h =
    answer_goes_on
      (has_code corporate_action_codes (text_or m.status.reason_code (codes "UNKNOWN"))) _ _ h
      λ _ rest. cc

look_at-IsBuyable :
    (ticker : Text) (excluded : List (Text × Text)) (planned : ℕ) (m : InstrumentMarket)
    (s : Search)
    → look_at ticker excluded planned m s ≡ goes_on chosen
    → IsBuyable excluded planned m
unfolding look_at
look_at-IsBuyable ticker excluded planned m s h =
    let refused = halted-ne-chosen ticker m s in
    record {
      open_now = ground (arith, refused);
      trading = ground (arith, refused);
      not_excluded = ground (arith, refused);
      meets_venue = below_venue-MeetsVenue planned m s (ground (arith, refused));
    }

module _ {κ} (P : InstrumentMarket → Type κ) (excluded : List (Text × Text)) (planned : ℕ) where
  -- what a chosen market is known to be
  abbrev Good : InstrumentMarket → Type κ
  Good m = IsBuyable excluded planned m × P m

  after_look-Good :
      (c m : InstrumentMarket) (s s' : Search)
      (rest : Search → Flow (Option InstrumentMarket × Search)) (look : Look)
      → (look ≡ chosen → Good c)
      → ((s'' : Search) → rest s'' ≡ goes_on (some m, s') → Good m)
      → after_look c s rest look ≡ goes_on (some m, s')
      → Good m
  unfolding after_look
  after_look-Good c m s s' rest chosen first later h =
      subst Good
        (some-injective _ _
          (ap (λ (r : Option InstrumentMarket × Search). r.0) (goes_on-injective _ _ h)))
        (first refl)
  after_look-Good c m s s' rest (rejected s'') first later h = later s'' h

  -- The loop chooses a candidate that may be bought, and keeps what holds of all candidates.
  choose-Good :
      (ticker : Text) (ms : List InstrumentMarket) (s s' : Search) (m : InstrumentMarket)
      → All P ms
      → choose ticker excluded planned ms s ≡ goes_on (some m, s')
      → Good m
  unfolding choose
  choose-Good ticker [] s s' m _ h = absurd (ground arith)
  choose-Good ticker (c ∷ cs) s s' m (pc, pcs) h =
      bind_goes_on (look_at ticker excluded planned c s) _ h λ look looked rest.
        after_look-Good c m s s' (choose ticker excluded planned cs) look
          (λ e. (look_at-IsBuyable ticker excluded planned c s (looked ∙ ap goes_on e), pc))
          (λ s''. choose-Good ticker cs s'' s' m pcs) rest

-- what is found passes the test and is one of the list
find-eq-some {ℓ} :
    {A : Type ℓ} (p : A → Bool) (xs : List A) (x : A) → find p xs ≡ some x → (p x ≡ true) × Mem x xs
find-eq-some p [] x h = absurd (cc)
find-eq-some p (y ∷ ys) x h = elim (Bool-cases (p y)) [
  | inl hit ↦
      let same : y ≡ x = some-injective y x (rw hit at h) in
      subst (λ z. (p z ≡ true) × Mem z (y ∷ ys)) same (hit, mem-cons_self)
  | inr miss ↦
      let (passes, there) = find-eq-some p ys x (rw miss at h) in (passes, mem-cons_of_mem y there)
]

All-prepend {ℓ κ} :
    {A : Type ℓ} (P : A → Type κ) (o : Option A) (xs : List A)
    → ((x : A) → o ≡ some x → P x)
    → All P xs
    → All P (prepend o xs)
unfolding prepend
All-prepend P none xs h hs = hs
All-prepend P (some x) xs h hs = (h x refl, hs)

-- one of the markets, of the ticker
abbrev pub IsOf : Text → List InstrumentMarket → InstrumentMarket → Type 0
IsOf ticker markets m = (eq_text m.instrument.ticker ticker ≡ true) × Mem m markets

serves-ticker :
    (ticker : Text) (issuer : Issuer) (m : InstrumentMarket)
    → serves ticker issuer m ≡ true
    → eq_text m.instrument.ticker ticker ≡ true
serves-ticker ticker issuer m h = ground arith

candidates-All :
    (ticker : Text) (issuers : List Issuer) (markets : List InstrumentMarket)
    → All (IsOf ticker markets) (candidates ticker issuers markets)
unfolding candidates
candidates-All ticker [] markets = tt
candidates-All ticker (issuer ∷ issuers) markets =
    All-prepend (IsOf ticker markets) (find (serves ticker issuer) markets)
      (candidates ticker issuers markets)
      (λ m e.
        let (serving, there) = find-eq-some (serves ticker issuer) markets m e in
        (serves-ticker ticker issuer m serving, there))
      (candidates-All ticker issuers markets)

daily_cap_stop-ne-goes_on :
    {A : Type 0} (input : CycleInput) (detail : Option Text) (a : A)
    → ¬ (daily_cap_stop input detail ≡ goes_on a)
unfolding daily_cap_stop
daily_cap_stop-ne-goes_on input detail a h =
    units_goes_on input.daily_limit_usd _ h λ n read rest. cc

venue_minimum_stop-ne-goes_on :
    (input : CycleInput) (ticker : Text) (b : Budget) (venue_minimum : ℕ) (m : InstrumentMarket)
    → ¬ (venue_minimum_stop input ticker b venue_minimum ≡ goes_on m)
unfolding venue_minimum_stop
venue_minimum_stop-ne-goes_on input ticker b venue_minimum m h =
    bind_goes_on (cap_limit input b.max_per_buy) _ h λ now_cap _ h1.
      bind_goes_on (cap_limit input b.per_buy_limit) _ h1 λ full_cap _ h2.
        then_goes_on (wait_for_open_if _ input.now _) _ h2 λ _ h3.
          answer_goes_on (ltb now_cap venue_minimum) _ _ h3 λ _ h4.
            answer_goes_on (ltb b.budget venue_minimum) _ _ h4
              λ _ h5. daily_cap_stop-ne-goes_on input _ m h5

nothing_chosen-ne-goes_on :
    (input : CycleInput) (ticker : Text) (b : Budget) (s : Search) (m : InstrumentMarket)
    → ¬ (nothing_chosen input ticker b s ≡ goes_on m)
unfolding nothing_chosen
nothing_chosen-ne-goes_on input ticker b s m h = elim (Option-cases s.venue_minimum) [
  | inl e ↦ ground arith
  | inr (v, e) ↦ ground (arith, venue_minimum_stop-ne-goes_on input ticker b v m)
]

-- What ASSET goes on with trades, is not ruled out by a quote, meets the venue's minimum, and is a
-- token of the plan's ticker.
pub asset_stage-IsBuyable :
    (input : CycleInput) (ticker : Text) (b : Budget) (m : InstrumentMarket)
    → asset_stage input ticker b ≡ goes_on m
    → IsBuyable (excluded_by [] input.quotes) b.planned_spend m × IsOf ticker input.markets m
unfolding asset_stage
asset_stage-IsBuyable input ticker b m h =
    let excluded = excluded_by [] input.quotes in
    let markets = candidates ticker input.plan.issuer_preference input.markets in
    bind_goes_on (choose ticker excluded b.planned_spend markets nothing_found) _ h
      λ (found, s) chose rest. picked found s chose rest
  where
    picked :
        (found : Option InstrumentMarket) (s : Search)
        → choose ticker
            (excluded_by [] input.quotes)
            b.planned_spend
            (candidates ticker input.plan.issuer_preference input.markets)
            nothing_found
          ≡ goes_on (found, s)
        → elim found [ some n ↦ goes_on n | none ↦ nothing_chosen input ticker b s ] ≡ goes_on m
        → IsBuyable (excluded_by [] input.quotes) b.planned_spend m × IsOf ticker input.markets m
    picked none s chose rest = absurd (nothing_chosen-ne-goes_on input ticker b s m rest)
    picked (some n) s chose rest =
        let same : n ≡ m = goes_on-injective n m rest in
        subst
          (λ x.
            IsBuyable (excluded_by [] input.quotes) b.planned_spend x × IsOf ticker input.markets x)
          same
          (choose-Good (IsOf ticker input.markets) (excluded_by [] input.quotes) b.planned_spend
            ticker (candidates ticker input.plan.issuer_preference input.markets) nothing_found s n
            (candidates-All ticker input.plan.issuer_preference input.markets) chose)
