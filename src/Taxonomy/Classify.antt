-- ===== src/Taxonomy/Classify.antt =====
-- `classifyError`, `isTransient` and `dxFindingOf` of packages/binance/src/taxonomy.ts, and `isSuccess` of
-- packages/binance/src/metrics.ts.
use new_bnbhack.Common.{
  ℕ, Bool, true, false, ◌&&◌, ◌||◌, ltb, leb, ◌==◌, if◌then◌else◌, List, [], ◌∷◌, ◌++◌, Option,
  none, some,
}
use new_bnbhack.Common.Text.{Text, codes, eq_text, to_string}
use new_bnbhack.Taxonomy.Tables.{
  ErrorAction, retry, defer, fail, rate_limit, network, server, unknown, Rule, rule, our_bug,
  gateway, trading_codes, transaction_codes, defi_codes,
}

-- `network_failure` is the kind 'network'
pub data ErrorKind : Type 0 where
  api http transport network_failure timeout config : ErrorKind

pub data ApiModule : Type 0 where
  market portfolio rwa trading transaction wallet defi_data defi_transaction b402 websocket :
      ApiModule

abbrev pub module_text : ApiModule → Text
module_text market = codes "market"
module_text portfolio = codes "portfolio"
module_text rwa = codes "rwa"
module_text trading = codes "trading"
module_text transaction = codes "transaction"
module_text wallet = codes "wallet"
module_text defi_data = codes "defi-data"
module_text defi_transaction = codes "defi-transaction"
module_text b402 = codes "b402"
module_text websocket = codes "websocket"

-- `BY_MODULE`
abbrev pub by_module : ApiModule → List (Text × Rule)
by_module trading = trading_codes
by_module transaction = transaction_codes
by_module defi_data = defi_codes
by_module defi_transaction = defi_codes
by_module _ = []

-- a code in its text form, which `String(code)` gives to a number
pub record ClassifiableError : Type 0 where
  pub kind : ErrorKind
  pub api_module : ApiModule
  pub http_status : Option ℕ
  pub code : Option Text

pub record ErrorClass : Type 0 where
  pub code : Option Text
  pub documented : Bool
  pub rule_of : Rule

-- the last entry of a code counts, but no table has a code twice
unfoldable pub lookup : List (Text × Rule) → Text → Option Rule
lookup [] code = none
lookup (entry ∷ entries) code = if eq_text entry.0 code then some entry.1 else lookup entries code

abbrev pub or_else {ℓ} : {A : Type ℓ} → Option A → Option A → Option A
or_else (some a) other = some a
or_else none other = other

unfoldable pub known_rule : ApiModule → Option Text → Option Rule
known_rule m none = none
known_rule m (some code) = or_else (lookup (by_module m) code) (lookup gateway code)

abbrev pub is_status : ℕ → Option ℕ → Bool
is_status n none = false
is_status n (some m) = m == n

abbrev pub is_server_status : Option ℕ → Bool
is_server_status none = false
is_server_status (some n) = leb 500 n

abbrev pub no_response : ErrorKind → Option Text
no_response network_failure = some (codes "network: no response")
no_response timeout = some (codes "timeout: no response")
no_response _ = none

abbrev pub is_config : ErrorKind → Bool
is_config config = true
is_config _ = false

abbrev pub is_transport : ErrorKind → Bool
is_transport transport = true
is_transport _ = false

abbrev pub status_text : Option ℕ → Text
status_text none = codes "-"
status_text (some n) = to_string n

abbrev pub internal : Option Text
internal = some (codes "err.internal")

abbrev pub class_of : Option Text → Bool → Rule → ErrorClass
class_of code documented r = record { code = code; documented = documented; rule_of = r }

-- a code that no table lists
abbrev pub unlisted : ApiModule → Text → Rule
unlisted m code = rule unknown fail true internal (
    codes "code " ++ (code ++ (codes " is not in the " ++ (module_text m ++ codes " error table"))))

-- no code at all, and an answer that is no server error
abbrev pub no_envelope : ErrorKind → Option ℕ → Rule
no_envelope kind status = rule unknown defer true internal (
    if is_transport kind
    then codes "a 2xx that is not an envelope (WAF challenge or HTML)"
    else codes "HTTP " ++ (status_text status ++ codes " without an envelope code"))

-- the branches behind the transport checks
unfoldable pub by_code : ClassifiableError → Option Text → ErrorClass
by_code e none =
    if is_server_status e.http_status
    then class_of none true (
        rule server retry false internal
          (codes "HTTP " ++ (status_text e.http_status ++ codes " without an envelope")))
    else class_of none false (no_envelope e.kind e.http_status)
by_code e (some code) = class_of (some code) false (unlisted e.api_module code)

unfoldable pub by_config : ClassifiableError → ErrorClass
by_config e =
    if is_config e.kind
    then class_of e.code true (our_bug (codes "request could not be built (configuration)"))
    else by_code e e.code

unfoldable pub by_response : ClassifiableError → Option Text → ErrorClass
by_response e (some meaning) = class_of e.code true (rule network retry false internal meaning)
by_response e none = by_config e

unfoldable pub unknown_class : ClassifiableError → ErrorClass
unknown_class e =
    if is_status 429 e.http_status
    then class_of e.code true (rule rate_limit retry false none (codes "HTTP 429"))
    else by_response e (no_response e.kind)

unfoldable pub known_or : ClassifiableError → Option Rule → ErrorClass
known_or e (some r) = class_of e.code true r
known_or e none = unknown_class e

-- `classifyError`
unfoldable pub classify_error : ClassifiableError → ErrorClass
classify_error e = known_or e (known_rule e.api_module e.code)

abbrev pub is_retry : ErrorAction → Bool
is_retry retry = true
is_retry _ = false

-- `isTransient`
abbrev pub is_transient : ClassifiableError → Bool
is_transient e = is_retry (classify_error e).rule_of.action

-- the fields of an `ApiCallRecord` that are read
pub record ApiCallRecord : Type 0 where
  pub api_module : ApiModule
  pub http_status : Option ℕ
  pub code : Option Text

abbrev pub is_success_code : Option Text → Bool
is_success_code none = false
is_success_code (some code) = eq_text code (codes "0") || eq_text code (codes "000000000")

-- `isSuccess`
unfoldable pub is_success : ApiCallRecord → Bool
is_success record_ = elim record_.http_status [
  | none ↦ false
  | some status ↦ ltb status 400 && is_success_code record_.code
]

abbrev pub kind_of : ℕ → Option Text → ErrorKind
kind_of status (some code) = api
kind_of status none = if ltb status 300 then transport else http

pub data DxFindingKind : Type 0 where
  unknown_code undocumented_shape : DxFindingKind

abbrev pub finding_kind : Option Text → DxFindingKind
finding_kind none = undocumented_shape
finding_kind (some code) = unknown_code

unfoldable pub finding_of_class : Option Text → ErrorClass → Option (DxFindingKind × Text)
finding_of_class code c = if c.documented then none else some (finding_kind code, c.rule_of.meaning)

unfoldable pub finding_at : ApiCallRecord → Option ℕ → Option (DxFindingKind × Text)
finding_at r none = none
finding_at r (some status) =
    if is_success r
    then none
    else finding_of_class r.code (
        classify_error (record {
          kind = kind_of status r.code;
          api_module = r.api_module;
          http_status = some status;
          code = r.code;
        }))

-- `dxFindingOf`
unfoldable pub dx_finding_of : ApiCallRecord → Option (DxFindingKind × Text)
dx_finding_of r = finding_at r r.http_status
