-- ===== src/Trade/Exact.antt =====
-- What `ensureApproval` of apps/agent/src/executor/trade.ts hands to `sendTransaction`.
use new_bnbhack.Common.{
  ℕ, ◌≡◌, sym, ap, ap₂, ◌∙◌, true, false, not, ◌==◌, leb, some, arith, Bool-cases, inl, inr,
}
use new_bnbhack.Common.Text.{Text, codes, eq_text, eq_text_iff}
use new_bnbhack.Trade.{
  Step, goes_on, when_on, goes_on-injective, replied, SimulationResult, sim_ok, Viem, api_int,
  decode_approve, is_live, TradeDeps, SendCall, require_signer, ApproveTransaction, ApprovalArgs,
  ApprovalReplies, evm_call, approval_error, approve_gas, approval_to_send, approval_call,
  ApprovalCall,
}
use new_bnbhack.Trade.Past.{
  not-false, past_throw, past_return, past_reply, Signs, require_signer-Signs,
}

-- an approval that is signed: for exactly the spend, by the spender that the API names, of an allowance that
-- does not cover it yet, simulated with success and without BNB
abbrev pub IsExact : Viem → TradeDeps → ApprovalArgs → ApprovalReplies → SendCall → Type 0
IsExact v deps args replies call =
    (approval : ApproveTransaction) × (spender : Text) × (simulation : SimulationResult)
    × (replies.approval args.token args.amount ≡ replied approval)
    × (v.decode_function_data call.calldata ≡ some (codes "approve", (spender, args.amount)))
    × (v.is_address_equal spender approval.dex_contract_address ≡ some true)
    × (leb args.amount (replies.allowance args.token deps.house spender) ≡ false)
    × (replies.simulation
          (record { from_ = deps.house; to = call.to; value = codes "0"; calldata = call.calldata })
        ≡ replied simulation)
    × (sim_ok simulation ≡ true)
    × (call.to ≡ args.token)
    × (call.wei ≡ 0)
    × Signs v deps

decode_approve-approve :
    {R : Type 0} (v : Viem) (calldata : Text) (decoded : Text × ℕ)
    → ◌≡◌ {A = Step R (Text × ℕ)} (decode_approve v calldata) (goes_on decoded)
    → v.decode_function_data calldata ≡ some (codes "approve", decoded)
unfolding decode_approve
decode_approve-approve v calldata decoded h =
    past_throw (codes "cannot decode") (v.decode_function_data calldata) _ h λ got e rest.
      elim (Bool-cases (eq_text got.0 (codes "approve"))) [
        | inl approve ↦
            e
            ∙ ap some (
                ap₂ (λ (name : Text) (d : Text × ℕ). (name, d)) ((eq_text_iff _ _).0 approve)
                  (goes_on-injective (rw approve at rest)))
        | inr other ↦ absurd (cc (rw other at rest))
      ]

approval_to_send-IsSent :
    (v : Viem) (deps : TradeDeps) (args : ApprovalArgs) (replies : ApprovalReplies)
    (approval : ApproveTransaction) (spender : Text) (call : ApprovalCall)
    → approval_to_send v deps args replies approval spender ≡ goes_on call
    → (simulation : SimulationResult) × (replies.simulation
          (evm_call deps.house args.token approval.calldata)
        ≡ replied simulation)
      × (sim_ok simulation ≡ true)
      × (call.0.calldata ≡ approval.calldata)
      × (call.0.to ≡ args.token)
      × (call.0.wei ≡ 0)
      × Signs v deps
unfolding approval_to_send
approval_to_send-IsSent v deps args replies approval spender call h =
    past_reply (approval_error (codes "simulate approve"))
      (replies.simulation (evm_call deps.house args.token approval.calldata)) _ h
      λ simulation e1 h1. past_return (not (sim_ok simulation)) _ _ h1 λ e2 h2.
        past_return (not (is_live deps.mode)) _ _ h2 λ e3 h3.
          when_on
            (approve_gas approval.gas_limit
              (replies.estimate (evm_call deps.house args.token approval.calldata)))
            _ h3
            λ gas e4 h4. when_on (require_signer v deps) _ h4 λ signer e5 h5.
              when_on (api_int approval.gas_price (codes "approve gasPrice")) _ h5
                λ gas_price e6 h6.
                  let same = sym (goes_on-injective h6) in
                  (
                    simulation,
                    e1,
                    not-false _ e2,
                    ap (λ (c : ApprovalCall). c.0.calldata) same,
                    ap (λ (c : ApprovalCall). c.0.to) same,
                    ap (λ (c : ApprovalCall). c.0.wei) same,
                    require_signer-Signs v deps e5,
                  )

-- An approval that ensureApproval hands to sendTransaction is for exactly the spend and for the
-- spender that the API names, is sent to the token without BNB by the house wallet's own signer
-- in live mode, and is needed and simulated: the house wallet's allowance of that token for
-- that spender is below the spend, and that very call, from the house wallet, was simulated
-- with success.
pub approval_call-IsExact :
    (v : Viem) (deps : TradeDeps) (args : ApprovalArgs) (replies : ApprovalReplies)
    (call : ApprovalCall)
    → approval_call v deps args replies ≡ goes_on call
    → IsExact v deps args replies call.0
unfolding approval_call
approval_call-IsExact v deps args replies call h =
    past_reply (approval_error (codes "approve-transaction"))
      (replies.approval args.token args.amount) _ h
      λ approval e1 h1. when_on (decode_approve v approval.calldata) _ h1 λ decoded e2 h2.
        past_throw (codes "invalid address")
          (v.is_address_equal decoded.0 approval.dex_contract_address) _ h2
          λ same e3 h3. past_return (not same) _ _ h3 λ e4 h4.
            past_return (not (decoded.1 == args.amount)) _ _ h4 λ e5 h5.
              past_return (leb args.amount (replies.allowance args.token deps.house decoded.0)) _ _
                h5
                λ e6 h6.
                  let (simulation, e7, e8, e9, e10, e11, signs) =
                    approval_to_send-IsSent v deps args replies approval decoded.0 call h6 in
                  (
                    approval,
                    decoded.0,
                    simulation,
                    e1,
                    ap v.decode_function_data e9
                        ∙ decode_approve-approve v approval.calldata decoded e2
                        ∙ ap (λ n. some (codes "approve", (decoded.0, n)))
                            (eq-of (decoded.1) args.amount (not-false _ e5)),
                    e3 ∙ ap some (not-false same e4),
                    e6,
                    ap₂ (λ to calldata. replies.simulation (evm_call deps.house to calldata)) e10 e9
                        ∙ e7,
                    e8,
                    e10,
                    e11,
                    signs,
                  )
  where
    eq-of : (m n : ℕ) → (m == n) ≡ true → m ≡ n
    eq-of m n e = ground (arith, e)
