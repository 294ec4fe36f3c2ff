-- ===== src/Taxonomy/Findings.antt =====
-- `dxFindingOf` of packages/binance/src/taxonomy.ts: what enters the log of findings.
use new_bnbhack.Common.{
  ℕ, ◌≡◌, refl, Bool, true, false, ◌&&◌, not, leb, ◌==◌, if◌then◌else◌, Option, none, some, arith,
}
use new_bnbhack.Common.Text.{Text}
use new_bnbhack.Taxonomy.{
  Rule, known_rule, no_response, ErrorKind, api, http, transport, config, network_failure, timeout,
  ApiModule, ClassifiableError, ErrorClass, by_code, by_config, by_response, unknown_class,
  known_or, classify_error, ApiCallRecord, is_success, kind_of, finding_of_class, finding_at,
  dx_finding_of,
}

abbrev pub is_some {ℓ} : {A : Type ℓ} → Option A → Bool
is_some none = false
is_some (some a) = true

-- an answer with a code, or with no code and a status that is no server error
abbrev pub is_undocumented : Option Text → ℕ → Bool
is_undocumented none status = not (leb 500 status)
is_undocumented (some code) status = true

-- what the documents do not promise: an answer that is neither a success nor a rate limit, whose
-- code no table lists
abbrev pub is_reported_at : ApiCallRecord → Option ℕ → Bool
is_reported_at r none = false
is_reported_at r (some status) =
    not (is_success r)
    && (not (is_some (known_rule r.api_module r.code))
        && (not (status == 429) && is_undocumented r.code status))

abbrev pub is_reported : ApiCallRecord → Bool
is_reported r = is_reported_at r r.http_status

-- an error of an answer, which is what `dxFindingOf` classifies
abbrev answer_error : ApiCallRecord → ℕ → ClassifiableError
answer_error r status = record {
  kind = kind_of status r.code;
  api_module = r.api_module;
  http_status = some status;
  code = r.code;
}

-- kinds of an answer, as against no answer or a call that was not made
abbrev is_answer : ErrorKind → Bool
is_answer api = true
is_answer http = true
is_answer transport = true
is_answer _ = false

kind_of-is_answer : (status : ℕ) (code : Option Text) → is_answer (kind_of status code) ≡ true
kind_of-is_answer status (some code) = refl
kind_of-is_answer status none = ground arith

by_code-documented :
    (kind : ErrorKind) (m : ApiModule) (status : ℕ) (code : Option Text)
    → (by_code
        (record { kind = kind; api_module = m; http_status = some status; code = code })
        code).documented
      ≡ not (is_undocumented code status)
unfolding by_code
by_code-documented kind m status (some code) = refl
by_code-documented kind m status none = ground arith

by_response-documented :
    (kind : ErrorKind) (m : ApiModule) (status : ℕ) (code : Option Text)
    → is_answer kind ≡ true
    → (by_response
        (record { kind = kind; api_module = m; http_status = some status; code = code })
        (no_response kind)).documented
      ≡ not (is_undocumented code status)
unfolding by_response by_config
by_response-documented api m status code answer = by_code-documented api m status code
by_response-documented http m status code answer = by_code-documented http m status code
by_response-documented transport m status code answer = by_code-documented transport m status code
by_response-documented network_failure m status code answer = ground arith
by_response-documented timeout m status code answer = ground arith
by_response-documented config m status code answer = ground arith

if-documented :
    (b u : Bool) (c d : ErrorClass)
    → c.documented ≡ true
    → d.documented ≡ not u
    → (if b then c else d).documented ≡ not (not b && u)
if-documented true u c d left right = left
if-documented false u c d left right = right

unknown_class-documented :
    (kind : ErrorKind) (m : ApiModule) (status : ℕ) (code : Option Text)
    → is_answer kind ≡ true
    → (unknown_class
        (record { kind = kind; api_module = m; http_status = some status; code = code })).documented
      ≡ not (not (status == 429) && is_undocumented code status)
unfolding unknown_class
unknown_class-documented kind m status code answer =
    if-documented (status == 429) (is_undocumented code status) _ _ refl
      (by_response-documented kind m status code answer)

finding_of_class-is_some :
    (code : Option Text) (c : ErrorClass) → is_some (finding_of_class code c) ≡ not c.documented
unfolding finding_of_class
finding_of_class-is_some code c = ground arith

known_or-documented :
    (e : ClassifiableError) (r : Option Rule) (u : Bool)
    → (unknown_class e).documented ≡ not u
    → not (known_or e r).documented ≡ not (is_some r) && u
unfolding known_or
known_or-documented e none u h = ground arith
known_or-documented e (some r) u h = refl

if-is_some {ℓ} :
    {A : Type ℓ} (b : Bool) (o : Option A) → is_some (if b then none else o) ≡ not b && is_some o
if-is_some true o = refl
if-is_some false o = refl

finding_at-is_reported :
    (r : ApiCallRecord) (status : Option ℕ)
    → is_some (finding_at r status) ≡ is_reported_at r status
unfolding finding_at classify_error
finding_at-is_reported r none = refl
finding_at-is_reported r (some status) =
    let known = known_rule r.api_module r.code in
    let e = answer_error r status in
    let answer = kind_of-is_answer status r.code in
    let first = if-is_some (is_success r) (finding_of_class r.code (known_or e known)) in
    let second = finding_of_class-is_some r.code (known_or e known) in
    let third =
      known_or-documented e known _
        (unknown_class-documented _ r.api_module status r.code answer) in
    rw (first, second, third) refl

-- DxFindingOf reports a call exactly when it was answered, was no success and no rate limit, no
-- table lists its code, and, if it has no code, its status is below 500.
pub dx_finding_of-is_reported : (r : ApiCallRecord) → is_some (dx_finding_of r) ≡ is_reported r
unfolding dx_finding_of
dx_finding_of-is_reported r = finding_at-is_reported r r.http_status
