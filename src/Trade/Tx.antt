-- ===== src/Trade/Tx.antt =====
-- Integers from API fields, the bounds of what is signed, and transfers in receipts: packages/chain/src/tx.ts.
use new_bnbhack.Common.{
  ℕ, ◌+◌, ◌-◌, ◌*◌, Bool, true, not, ◌&&◌, ◌||◌, ◌==◌, leb, ltb, if◌then◌else◌, List, [], ◌∷◌, ◌++◌,
  Option, none, some,
}
use new_bnbhack.Common.Text.{Text, codes, eq_text, trim, is_digit, value, to_string}
use new_bnbhack.Sending.{all_digits, is_empty}
use new_bnbhack.Trade.Steps.{Step, threw, goes_on, ◌>>=◌}

-- the functions of viem that the buy path uses; `none` where they throw
pub record Viem : Type 0 where
  -- `isAddressEqual`
  pub is_address_equal : Text → Text → Option Bool
  -- `getAddress`
  pub get_address : Text → Option Text
  -- `decodeFunctionData` with the ERC-20 functions: the function's name, its address and its amount
  pub decode_function_data : Text → Option (Text × (Text × ℕ))

abbrev pub or_throws : {R A : Type 0} → Text → Option A → Step R A
or_throws message none = threw message
or_throws message (some a) = goes_on a

-- `isAddressEqual` where it is called
abbrev pub same_address : {R : Type 0} → Viem → Text → Text → Step R Bool
same_address v a b = or_throws (codes "invalid address") (v.is_address_equal a b)

-- `MAX_GAS_PRICE_WEI`
abbrev pub max_gas_price_wei : ℕ
max_gas_price_wei = 3_000_000_000

-- `MAX_GAS_LIMIT`
abbrev pub max_gas_limit : ℕ
max_gas_limit = 1_500_000

abbrev pub is_hex_digit : ℕ → Bool
is_hex_digit c = is_digit c || (leb b'a' c && leb c b'f') || (leb b'A' c && leb c b'F')

abbrev pub hex_digit : ℕ → ℕ
hex_digit c =
    if is_digit c then c - b'0' else if leb b'a' c then (c - b'a') + 10 else (c - b'A') + 10

abbrev pub hex_value_from : ℕ → Text → ℕ
hex_value_from n [] = n
hex_value_from n (c ∷ text) = hex_value_from (n * 16 + hex_digit c) text

abbrev pub all_hex : Text → Bool
all_hex [] = true
all_hex (c ∷ text) = is_hex_digit c && all_hex text

-- the digits after `0x`
abbrev pub after_0x : Text → Option Text
after_0x [] = none
after_0x (a ∷ []) = none
after_0x (a ∷ b ∷ text) = if (a == b'0') && (b == b'x') then some text else none

abbrev pub int_of_text : Text → Option ℕ
int_of_text text = elim (after_0x text) [
  | some digits ↦
      if all_hex digits && not (is_empty digits) then some (hex_value_from 0 digits) else none
  | none ↦ if all_digits text && not (is_empty text) then some (value text) else none
]

-- `apiInt`, of a field's text or of a number's
unfoldable pub api_int : {R : Type 0} → Option Text → Text → Step R ℕ
api_int none field = threw (field ++ codes " is missing")
api_int (some text) field =
    if is_empty text
    then threw (field ++ codes " is missing")
    else or_throws (field ++ (codes " is not an integer: " ++ trim text)) (int_of_text (trim text))

-- `decodeApprove`
unfoldable pub decode_approve : {R : Type 0} → Viem → Text → Step R (Text × ℕ)
decode_approve v calldata =
    or_throws (codes "cannot decode") (v.decode_function_data calldata) >>= λ decoded.
    if eq_text decoded.0 (codes "approve")
    then goes_on decoded.1
    else threw (codes "expected approve(), got " ++ (decoded.0 ++ codes "()"))

-- the call that is handed to the signer
pub record UnsignedCall : Type 0 where
  pub to : Text
  pub calldata : Text
  pub wei : ℕ
  pub gas : ℕ
  pub gas_price : ℕ
  pub max_priority_fee_per_gas : Option ℕ
  pub nonce : ℕ

pub data TxKind : Type 0 where
  legacy : (gas_price : ℕ) → TxKind
  eip1559 : (max_fee_per_gas max_priority_fee_per_gas : ℕ) → TxKind

pub record Signable : Type 0 where
  pub nonce : ℕ
  pub to : Text
  pub calldata : Text
  pub wei : ℕ
  pub gas : ℕ
  pub kind : TxKind

abbrev pub kind_of_call : {R : Type 0} → UnsignedCall → Step R TxKind
kind_of_call call = elim call.max_priority_fee_per_gas [
  | none ↦ goes_on (legacy call.gas_price)
  | some fee ↦
      if ltb call.gas_price fee
      then threw (codes "priority fee above max fee")
      else goes_on (eip1559 call.gas_price fee)
]

-- `signableTx`
unfoldable pub signable_tx : {R : Type 0} → Viem → UnsignedCall → Step R Signable
signable_tx v call =
    if (call.gas == 0) || ltb max_gas_limit call.gas
    then threw (codes "gas limit " ++ (to_string call.gas ++ codes " is out of bounds"))
    else if (call.gas_price == 0) || ltb max_gas_price_wei call.gas_price
    then threw (codes "gas price " ++ (to_string call.gas_price ++ codes " wei is out of bounds"))
    else or_throws (codes "invalid address") (v.get_address call.to) >>= λ to.
        kind_of_call call >>= λ kind. goes_on record {
          nonce = call.nonce;
          to = to;
          calldata = call.calldata;
          wei = call.wei;
          gas = call.gas;
          kind = kind;
        }

-- a Transfer event of a receipt, decoded
pub record Transfer : Type 0 where
  pub token : Text
  pub from_ : Text
  pub to : Text
  pub amount : ℕ

abbrev pub and_then {κ μ} : {A : Type κ} {B : Type μ} → Option A → (A → Option B) → Option B
and_then none after = none
and_then (some a) after = after a

-- `isAddressEqual(a, getAddress(b))`
abbrev pub is_address : Viem → Text → Text → Option Bool
is_address v a b = and_then (v.get_address b) (v.is_address_equal a)

-- a filter whose test may throw
unfoldable pub keep : {A : Type 0} → (A → Option Bool) → List A → Option (List A)
keep test [] = some []
keep test (a ∷ rest) =
    and_then (test a) λ hit. and_then (keep test rest) λ kept. some (if hit then a ∷ kept else kept)

unfoldable pub sum_of : List Transfer → ℕ
sum_of [] = 0
sum_of (log ∷ logs) = log.amount + sum_of logs

-- `transfers`
abbrev pub transfers : Viem → List Transfer → Text → Option (List Transfer)
transfers v logs token = keep (λ (log : Transfer). is_address v log.token token) logs

-- `transferredTo`
unfoldable pub transferred_to : Viem → List Transfer → Text → Text → Option ℕ
transferred_to v logs token to = and_then (transfers v logs token) λ own.
    and_then (keep (λ (log : Transfer). is_address v log.to to) own)
      λ arrived. some (sum_of arrived)

-- `transferredFrom`
unfoldable pub transferred_from : Viem → List Transfer → Text → Text → Option ℕ
transferred_from v logs token from_ = and_then (transfers v logs token) λ own.
    and_then (keep (λ (log : Transfer). is_address v log.from_ from_) own)
      λ left. some (sum_of left)
