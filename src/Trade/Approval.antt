-- ===== src/Trade/Approval.antt =====
-- `ensureApproval` of apps/agent/src/executor/trade.ts, up to what is sent and after it.
use new_bnbhack.Common.{
  ℕ, Bool, true, false, not, ◌==◌, leb, if◌then◌else◌, List, [], ◌∷◌, ◌++◌, Option, none, some,
}
use new_bnbhack.Common.Text.{Text, codes, to_string}
use new_bnbhack.Taxonomy.{ClassifiableError}
use new_bnbhack.Sending.{SendResult, SendRequest}
use new_bnbhack.Trade.Steps.{
  Step, threw, returns, goes_on, ◌>>=◌, return_if, filled, Reply, replied, api_error, call_threw,
  Failure, fail, api_failure, from_reply, SimulationResult, sim_ok, status_text, Settled, went_out,
  still_pending, came_to_nothing, sent_or_failure,
}
use new_bnbhack.Trade.Tx.{Viem, same_address, api_int, decode_approve, UnsignedCall, Transfer}

pub data TradeMode : Type 0 where
  simulate live : TradeMode

abbrev pub is_live : TradeMode → Bool
is_live simulate = false
is_live live = true

-- the wallet and the signer of the trade's deps
pub record TradeDeps : Type 0 where
  pub mode : TradeMode
  pub house : Text
  pub signer : Option Text

-- what `sendTransaction` is asked to send
pub record SendCall : Type 0 where
  pub request : SendRequest
  pub to : Text
  pub calldata : Text
  pub wei : ℕ
  pub gas : ℕ
  pub gas_price : ℕ
  pub max_priority_fee_per_gas : Option ℕ

-- the call that `sendTransaction` hands to `signableTx`
unfoldable pub unsigned_call : SendCall → ℕ → UnsignedCall
unsigned_call call nonce = record {
  to = call.to;
  calldata = call.calldata;
  wei = call.wei;
  gas = call.gas;
  gas_price = call.gas_price;
  max_priority_fee_per_gas = call.max_priority_fee_per_gas;
  nonce = nonce;
}

-- a call that is simulated
pub record EvmCall : Type 0 where
  pub from_ : Text
  pub to : Text
  pub value : Text
  pub calldata : Text

-- a call from a wallet without BNB
abbrev pub evm_call : Text → Text → Text → EvmCall
evm_call from_ to calldata = record {
  from_ = from_;
  to = to;
  value = codes "0";
  calldata = calldata;
}

-- what comes of a send: an error, or a result with the transfers of its receipt
pub data Sent : Type 0 where
  send_threw : (message : Text) → Sent
  send_result : SendResult → List Transfer → Sent

-- `requireSigner`
unfoldable pub require_signer : {R : Type 0} → Viem → TradeDeps → Step R Text
require_signer v deps = elim deps.mode [
  | simulate ↦ threw (codes "live mode with a signer is required")
  | live ↦ elim deps.signer [
    | none ↦ threw (codes "live mode with a signer is required")
    | some signer ↦ same_address v signer deps.house >>= λ same.
        if same then goes_on signer else threw (codes "signer is not the house wallet")
  ]
]

pub record ApproveTransaction : Type 0 where
  pub calldata : Text
  pub dex_contract_address : Text
  pub gas_limit : Option Text
  pub gas_price : Option Text

pub data Via : Type 0 where
  existing_allowance simulated sent : Via

-- a transaction that went on chain
pub record SentTx : Type 0 where
  pub kind : Text
  pub tx_hash : Text
  pub broadcast_via : Text
  pub receipt : List Transfer
  pub simulated_at : ℕ
  pub amounts : List (Text × Text)

pub data ApprovalResult : Type 0 where
  ready : (spender : Text) → Via → Option SimulationResult → Option SentTx → ApprovalResult
  approval_pending : (tx_hash : Text) → ApprovalResult
  approval_failed : Failure → ApprovalResult

pub record ApprovalArgs : Type 0 where
  pub plan_id : Text
  pub cycle_id : ℕ
  pub token : Text
  pub amount : ℕ

-- What the APIs and the chain answer, each to what it is asked: the approval of a token and an amount,
-- the allowance of a token, an owner and a spender, the simulation and the gas of a call.
pub record ApprovalReplies : Type 0 where
  pub approval : Text → ℕ → Reply ApproveTransaction
  pub allowance : Text → Text → Text → ℕ
  pub simulation : EvmCall → Reply SimulationResult
  pub simulated_at : ℕ
  pub estimate : EvmCall → Reply ℕ

abbrev pub approval_error : Text → ClassifiableError → Text → ApprovalResult
approval_error step e msg = approval_failed (api_failure step e msg)

-- an uncaught error of the API
abbrev pub or_rethrows : {R A : Type 0} → Reply A → Step R A
or_rethrows (replied a) = goes_on a
or_rethrows (api_error e msg) = threw msg
or_rethrows (call_threw message) = threw message

-- what is sent, with its spender and simulation
abbrev pub ApprovalCall : Type 0
ApprovalCall = SendCall × (Text × SimulationResult)

unfoldable pub approve_gas : Option Text → Reply ℕ → Step ApprovalResult ℕ
approve_gas gas_limit estimate = elim (filled gas_limit) [
  | some limit ↦ api_int (some limit) (codes "approve gasLimit")
  | none ↦ or_rethrows estimate
]

-- the part of `ensureApproval` that signs, after the allowance was found too low
unfoldable pub approval_to_send :
    Viem
    → TradeDeps
    → ApprovalArgs
    → ApprovalReplies
    → ApproveTransaction
    → Text
    → Step ApprovalResult ApprovalCall
approval_to_send v deps args replies approval spender =
    from_reply (approval_error (codes "simulate approve"))
      (replies.simulation (evm_call deps.house args.token approval.calldata))
    >>= λ simulation.
        return_if (not (sim_ok simulation)) (
          approval_failed (
            fail (codes "SIM_APPROVE") (
              codes "approve simulation "
              ++ (status_text simulation.status ++ (codes ": " ++ simulation.fail_reason)))))
        >>= λ _.
            return_if (not (is_live deps.mode)) (ready spender simulated (some simulation) none)
            >>= λ _.
                approve_gas approval.gas_limit
                  (replies.estimate (evm_call deps.house args.token approval.calldata))
                >>= λ gas. require_signer v deps >>= λ _.
                    api_int approval.gas_price (codes "approve gasPrice") >>= λ gas_price. goes_on (
                      record {
                        request = record {
                          plan_id = args.plan_id;
                          cycle_id = some args.cycle_id;
                          kind = codes "approve";
                        };
                        to = args.token;
                        calldata = approval.calldata;
                        wei = 0;
                        gas = gas;
                        gas_price = gas_price;
                        max_priority_fee_per_gas = none;
                      },
                      (spender, simulation),
                    )

-- `ensureApproval` up to what is sent
unfoldable pub approval_call :
    Viem → TradeDeps → ApprovalArgs → ApprovalReplies → Step ApprovalResult ApprovalCall
approval_call v deps args replies =
    from_reply (approval_error (codes "approve-transaction"))
      (replies.approval args.token args.amount)
    >>= λ approval. decode_approve v approval.calldata >>= λ decoded.
        same_address v decoded.0 approval.dex_contract_address >>= λ same.
        return_if (not same) (
          approval_failed (
            fail (codes "APPROVE_SPENDER_MISMATCH") (
              codes "calldata spender "
              ++ (decoded.0 ++ (codes " ≠ " ++ approval.dex_contract_address)))))
        >>= λ _.
            return_if (not (decoded.1 == args.amount)) (
              approval_failed (
                fail (codes "APPROVE_NOT_EXACT") (
                  codes "approve-transaction asks for "
                  ++ (to_string decoded.1 ++ (codes ", the spend is " ++ to_string args.amount)))))
            >>= λ _.
                return_if (leb args.amount (replies.allowance args.token deps.house decoded.0))
                  (ready decoded.0 existing_allowance none none)
                >>= λ _. approval_to_send v deps args replies approval decoded.0

abbrev pub approval_sent :
    ApprovalArgs → Text → SimulationResult → ℕ → List Transfer → Settled → ApprovalResult
approval_sent args spender simulation simulated_at receipt (went_out tx_hash via) =
    ready spender sent (some simulation) (
      some record {
        kind = codes "approve";
        tx_hash = tx_hash;
        broadcast_via = via;
        receipt = receipt;
        simulated_at = simulated_at;
        amounts =
            (codes "token", args.token)
            ∷ (codes "spender", spender)
            ∷ (codes "amount", to_string args.amount)
            ∷ [];
      })
approval_sent args spender simulation simulated_at receipt (still_pending tx_hash) =
    approval_pending tx_hash
approval_sent args spender simulation simulated_at receipt (came_to_nothing failure) =
    approval_failed failure

abbrev pub after_approval :
    ApprovalArgs → ℕ → Text → SimulationResult → Sent → Step ApprovalResult ApprovalResult
after_approval args simulated_at spender simulation (send_threw message) = threw message
after_approval args simulated_at spender simulation (send_result result receipt) = returns (
    approval_sent args spender simulation simulated_at receipt
      (sent_or_failure (codes "approve") result))

-- `ensureApproval`
unfoldable pub ensure_approval :
    Viem
    → TradeDeps
    → ApprovalArgs
    → ApprovalReplies
    → (SendCall → Sent)
    → Step ApprovalResult ApprovalResult
ensure_approval v deps args replies send = approval_call v deps args replies >>= λ c.
    after_approval args replies.simulated_at c.1.0 c.1.1 (send c.0)
