-- ===== src/Taxonomy/Safety.antt =====
-- `classifyError` of packages/binance/src/taxonomy.ts: which actions it may answer.
use new_bnbhack.Common.{
  ◌≡◌, refl, Bool, true, false, ◌&&◌, ◌||◌, not, if◌then◌else◌, List, [], ◌∷◌, Option, none, some,
  arith,
}
use new_bnbhack.Common.Text.{Text, eq_text}
use new_bnbhack.Taxonomy.{
  ErrorAction, fail, ErrorCategory, request, auth, compliance, rate_limit, server, network, swap,
  Rule, gateway, trading_codes, transaction_codes, defi_codes, ApiModule, portfolio, rwa, trading,
  transaction, wallet, defi_data, defi_transaction, b402, websocket, by_module, ClassifiableError,
  ErrorClass, lookup, or_else, known_rule, by_code, by_config, by_response, is_config, is_status,
  is_server_status, no_response, unknown_class, known_or, classify_error, is_retry,
}

-- calls that the server refused for who asks or for what was asked
abbrev pub is_refusal : ErrorCategory → Bool
is_refusal request = true
is_refusal auth = true
is_refusal compliance = true
is_refusal _ = false

abbrev pub is_fail : ErrorAction → Bool
is_fail fail = true
is_fail _ = false

-- failures that say nothing about the call itself
abbrev pub is_passing : ErrorCategory → Bool
is_passing rate_limit = true
is_passing server = true
is_passing network = true
is_passing swap = true
is_passing _ = false

-- a refusal stops the cycle and alerts, and only a passing failure is retried
abbrev pub is_safe : Rule → Bool
is_safe r =
    (not (is_refusal r.category) || (is_fail r.action && r.alert))
    && (not (is_retry r.action) || is_passing r.category)

abbrev pub all_safe : List (Text × Rule) → Bool
all_safe [] = true
all_safe (entry ∷ entries) = is_safe entry.1 && all_safe entries

-- ... and what the documents do not cover is alerted and never retried
abbrev pub is_sound : ErrorClass → Bool
is_sound c =
    is_safe c.rule_of && (c.documented || (c.rule_of.alert && not (is_retry c.rule_of.action)))

abbrev is_safe_or_none : Option Rule → Bool
is_safe_or_none none = true
is_safe_or_none (some r) = is_safe r

gateway_safe : all_safe gateway ≡ true
unfolding gateway
gateway_safe = refl

by_module_safe : (m : ApiModule) → all_safe (by_module m) ≡ true
unfolding trading_codes transaction_codes defi_codes
by_module_safe new_bnbhack.Taxonomy.Classify.market = refl
by_module_safe portfolio = refl
by_module_safe rwa = refl
by_module_safe trading = refl
by_module_safe transaction = refl
by_module_safe wallet = refl
by_module_safe defi_data = refl
by_module_safe defi_transaction = refl
by_module_safe b402 = refl
by_module_safe websocket = refl

and-true : (a b : Bool) → (a && b) ≡ true → (a ≡ true) × (b ≡ true)
and-true true b h = (refl, h)
and-true false b h = ground arith

if_safe :
    (b : Bool) (r s : Option Rule)
    → is_safe_or_none r ≡ true
    → is_safe_or_none s ≡ true
    → is_safe_or_none (if b then r else s) ≡ true
if_safe true r s left right = left
if_safe false r s left right = right

lookup_safe :
    (t : List (Text × Rule)) (code : Text)
    → all_safe t ≡ true
    → is_safe_or_none (lookup t code) ≡ true
unfolding lookup
lookup_safe [] code safe = refl
lookup_safe (entry ∷ entries) code safe =
    let (here, later) = and-true (is_safe entry.1) _ safe in
    if_safe (eq_text entry.0 code) (some entry.1) _ here (lookup_safe entries code later)

or_else_safe :
    (a b : Option Rule)
    → is_safe_or_none a ≡ true
    → is_safe_or_none b ≡ true
    → is_safe_or_none (or_else a b) ≡ true
or_else_safe (some r) b safe other = safe
or_else_safe none b safe other = other

known_rule_safe : (m : ApiModule) (code : Option Text) → is_safe_or_none (known_rule m code) ≡ true
unfolding known_rule
known_rule_safe m none = refl
known_rule_safe m (some code) =
    or_else_safe (lookup (by_module m) code) (lookup gateway code)
      (lookup_safe (by_module m) code (by_module_safe m)) (lookup_safe gateway code gateway_safe)

if-is_sound :
    (b : Bool) (c d : ErrorClass)
    → is_sound c ≡ true
    → is_sound d ≡ true
    → is_sound (if b then c else d) ≡ true
if-is_sound true c d left right = left
if-is_sound false c d left right = right

by_code-is_sound : (e : ClassifiableError) (code : Option Text) → is_sound (by_code e code) ≡ true
unfolding by_code
by_code-is_sound e (some code) = refl
by_code-is_sound e none = if-is_sound (is_server_status e.http_status) _ _ refl refl

by_config-is_sound : (e : ClassifiableError) → is_sound (by_config e) ≡ true
unfolding by_config
by_config-is_sound e = if-is_sound (is_config e.kind) _ _ refl (by_code-is_sound e e.code)

by_response-is_sound :
    (e : ClassifiableError) (meaning : Option Text) → is_sound (by_response e meaning) ≡ true
unfolding by_response
by_response-is_sound e (some meaning) = refl
by_response-is_sound e none = by_config-is_sound e

unknown_class-is_sound : (e : ClassifiableError) → is_sound (unknown_class e) ≡ true
unfolding unknown_class
unknown_class-is_sound e =
    if-is_sound (is_status 429 e.http_status) _ _ refl (by_response-is_sound e (no_response e.kind))

known_or-is_sound :
    (e : ClassifiableError) (r : Option Rule)
    → is_safe_or_none r ≡ true
    → is_sound (known_or e r) ≡ true
unfolding known_or
known_or-is_sound e none safe = unknown_class-is_sound e
known_or-is_sound e (some r) safe = ground arith

-- A call that classifyError names a refusal (a bad request, a rejected key or a compliance block)
-- stops the cycle and alerts, only a rate limit, a server, network or swap failure is retried, and
-- what the documents do not cover alerts and is not retried.
pub classify_error-is_sound : (e : ClassifiableError) → is_sound (classify_error e) ≡ true
unfolding classify_error
classify_error-is_sound e = known_or-is_sound e _ (known_rule_safe e.api_module e.code)
