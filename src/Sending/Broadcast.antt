-- ===== src/Sending/Broadcast.antt =====
-- `broadcast` and `broadcastByRpc` of apps/agent/src/executor/send.ts: what an answer says of the bytes.
use new_bnbhack.Common.{
  Bool, true, false, ◌&&◌, ◌||◌, ◌==◌, leb, ltb, not, if◌then◌else◌, List, [], ◌∷◌, ◌++◌, Option,
  none, some, any,
}
use new_bnbhack.Common.Text.{Text, codes, to_lower, is_digit, value}
use new_bnbhack.Taxonomy.{
  ErrorKind, api, ClassifiableError, ErrorCategory, compliance, classify_error,
}

abbrev pub starts_with : Text → Text → Bool
starts_with [] text = true
starts_with (c ∷ pattern_) [] = false
starts_with (c ∷ pattern_) (d ∷ text) = (c == d) && starts_with pattern_ text

abbrev pub contains : Text → Text → Bool
contains pattern_ [] = starts_with pattern_ []
contains pattern_ (c ∷ text) = starts_with pattern_ (c ∷ text) || contains pattern_ text

-- a case-insensitive pattern of plain alternatives
unfoldable pub matches : List Text → Text → Bool
matches patterns message = any (λ p. contains p (to_lower message)) patterns

-- `ALREADY_KNOWN`
abbrev pub already_known : List Text
already_known = codes "already known" ∷ codes "known transaction" ∷ codes "nonce too low" ∷ []

-- `INVALID_TX`
abbrev pub invalid_tx : List Text
invalid_tx =
    codes "insufficient funds"
    ∷ codes "intrinsic gas"
    ∷ codes "exceeds block gas limit"
    ∷ codes "invalid sender"
    ∷ codes "invalid signature"
    ∷ []

-- `NODE_POLICY`
abbrev pub node_policy : List Text
node_policy = codes "underpriced" ∷ codes "exceeds the configured cap" ∷ []

-- `message.split('\n')[0]`
unfoldable pub first_line : Text → Text
first_line [] = []
first_line (c ∷ text) = if c == 10 then [] else c ∷ first_line text

-- what `sendRaw` answers or throws
pub data RpcAnswer : Type 0 where
  taken : RpcAnswer
  refused : (message : Text) → RpcAnswer

-- what the Transaction API answers; an error that is not a BinanceApiError is thrown on
pub data ApiAnswer : Type 0 where
  relayed : (tx_hash : Text) → ApiAnswer
  api_failed : ClassifiableError → (msg : Text) → ApiAnswer
  threw : (message : Text) → ApiAnswer

pub data Broadcast : Type 0 where
  sent : (via : Text) → Broadcast
  unsent : (reason : Text) → (definite : Bool) → Broadcast

abbrev pub transaction_api : Text
transaction_api = codes "transaction_api"

abbrev pub rpc : Text
rpc = codes "rpc"

abbrev pub unknown_path : Text
unknown_path = codes "unknown"

-- `broadcastByRpc`
unfoldable pub broadcast_by_rpc : RpcAnswer → Bool → Broadcast
broadcast_by_rpc taken api_answered = sent rpc
broadcast_by_rpc (refused message) api_answered =
    if matches already_known message
    then sent transaction_api
    else unsent (codes "RPC refused: " ++ first_line message)
        (matches invalid_tx message || (api_answered && matches node_policy message))

abbrev pub all_digits : Text → Bool
all_digits [] = true
all_digits (c ∷ text) = is_digit c && all_digits text

abbrev pub is_empty : Text → Bool
is_empty [] = true
is_empty (c ∷ text) = false

-- `refusedByApi`, of a code that is a number or its digits
unfoldable pub refused_by_api : Option Text → Bool
refused_by_api none = false
refused_by_api (some code) =
    all_digits code && not (is_empty code) && leb 40000 (value code) && ltb (value code) 50000

abbrev pub is_api : ErrorKind → Bool
is_api api = true
is_api _ = false

abbrev pub is_compliance : ErrorCategory → Bool
is_compliance compliance = true
is_compliance _ = false

-- the code or kind that the reason names
abbrev pub code_or_kind : ClassifiableError → Text → Text
code_or_kind e kind = elim e.code [ none ↦ kind | some code ↦ code ]

abbrev pub kind_text : ErrorKind → Text
kind_text api = codes "api"
kind_text ErrorKind.http = codes "http"
kind_text ErrorKind.transport = codes "transport"
kind_text ErrorKind.network_failure = codes "network"
kind_text ErrorKind.timeout = codes "timeout"
kind_text ErrorKind.config = codes "config"

-- `broadcast`; the node is asked only where the API failed for another reason than compliance. An
-- exception is what `sendTransaction` makes of it: unclear.
unfoldable pub broadcast : ApiAnswer → RpcAnswer → Broadcast
broadcast (relayed tx_hash) node = sent transaction_api
broadcast (threw message) node = unsent (codes "broadcast: " ++ first_line message) false
broadcast (api_failed e msg) node =
    if is_compliance (classify_error e).rule_of.category
    then unsent
        (codes "Transaction API refused: "
          ++ (code_or_kind e (kind_text e.kind) ++ (codes " " ++ msg)))
        true
    else broadcast_by_rpc node (is_api e.kind && refused_by_api e.code)
