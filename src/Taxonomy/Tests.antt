-- ===== src/Taxonomy/Tests.antt =====
-- Runs of packages/binance/src/taxonomy.ts on sample errors.
use new_bnbhack.Common.{ℕ, ◌≡◌, refl, true, Option, none, some}
use new_bnbhack.Common.Text.{Text, codes, eq_text}
use new_bnbhack.Taxonomy.{
  defer, reduce_size, api, transport, timeout, trading, rwa, ApiModule, ErrorKind,
  ClassifiableError, classify_error, is_transient, ApiCallRecord, dx_finding_of, gateway,
  trading_codes, lookup, known_rule, known_or, unknown_class, by_response, by_config, by_code,
  is_success, finding_at, finding_of_class,
}
use new_bnbhack.Taxonomy.Safety.{is_sound, classify_error-is_sound}
use new_bnbhack.Taxonomy.Findings.{is_some, is_reported, dx_finding_of-is_reported}

abbrev error_of : ErrorKind → ApiModule → Option ℕ → Option Text → ClassifiableError
error_of kind m status code = record {
  kind = kind;
  api_module = m;
  http_status = status;
  code = code;
}

abbrev impact_error : ClassifiableError
impact_error = error_of api trading (some 400) (some (codes "40463"))

impact_action : (classify_error impact_error).rule_of.action ≡ reduce_size
unfolding classify_error known_rule known_or lookup trading_codes gateway eq_text
impact_action = refl

-- the gateway's codes count in every module
limited_retry : is_transient (error_of api rwa (some 400) (some (codes "42900"))) ≡ true
unfolding classify_error known_rule known_or lookup gateway eq_text
limited_retry = refl

no_answer_retry : is_transient (error_of timeout rwa none none) ≡ true
unfolding classify_error known_rule known_or unknown_class by_response
no_answer_retry = refl

html_defer : (classify_error (error_of transport rwa (some 200) none)).rule_of.action ≡ defer
unfolding classify_error known_rule known_or unknown_class by_response by_config by_code
html_defer = refl

classify_error-is_sound_example : is_sound (classify_error impact_error) ≡ true
classify_error-is_sound_example = classify_error-is_sound impact_error

-- a code that the trading table does not list
abbrev new_code_call : ApiCallRecord
new_code_call = record { api_module = trading; http_status = some 400; code = some (codes "40999") }

new_code_found : is_some (dx_finding_of new_code_call) ≡ true
unfolding dx_finding_of finding_at finding_of_class is_success classify_error known_rule known_or
    lookup gateway trading_codes unknown_class by_response by_config by_code eq_text
new_code_found = refl

dx_finding_of-is_reported_example :
    is_some (dx_finding_of new_code_call) ≡ is_reported new_code_call
dx_finding_of-is_reported_example = dx_finding_of-is_reported new_code_call
