-- ===== src/Trade/Swap.antt =====
-- `performSwap` of apps/agent/src/executor/trade.ts, up to what is sent and after it.
use new_bnbhack.Common.{
  ℕ, ◌+◌, Bool, true, false, not, ◌==◌, ltb, if◌then◌else◌, List, [], ◌∷◌, ◌++◌, Option, none, some,
}
use new_bnbhack.Common.Text.{Text, codes, eq_text, to_string}
use new_bnbhack.Platform.{Platform}
use new_bnbhack.Domain.{Instrument}
use new_bnbhack.Decide.{QuoteObservation, max_quote_age_ms}
use new_bnbhack.Taxonomy.{ClassifiableError, classify_error, ErrorAction, requote}
use new_bnbhack.Sending.{confirms, reverts, pends, not_sent}
use new_bnbhack.Trade.Steps.{
  Step, threw, returns, goes_on, ◌>>=◌, return_if, filled, Reply, Failure, fail, api_failure,
  from_reply, SimulationResult, sim_ok, status_text, simulate_after_approval, Settled, went_out,
  still_pending, came_to_nothing, sent_or_failure,
}
use new_bnbhack.Trade.Tx.{
  Viem, or_throws, same_address, api_int, Transfer, transferred_to, transferred_from,
}
use new_bnbhack.Trade.Approval.{
  EvmCall, evm_call, is_live, TradeDeps, SendCall, Sent, send_threw, send_result, require_signer,
  SentTx,
}

-- `BSC_USDT`
abbrev pub bsc_usdt : Text
bsc_usdt = codes "0x55d398326f99059fF775485246999027B3197955"

pub record SwapTx : Type 0 where
  pub from_ : Text
  pub to : Text
  pub calldata : Text
  pub wei : Option Text
  pub gas : Option Text
  pub gas_price : Option Text
  pub max_priority_fee_per_gas : Option Text
  pub min_receive_amount : Option Text

pub record SwapBuild : Type 0 where
  pub tx : SwapTx
  pub execution_mode : Option Text

pub record SwapArgs : Type 0 where
  pub plan_id : Text
  pub cycle_id : ℕ
  pub instrument : Instrument
  pub amount : ℕ
  pub quote : QuoteObservation
  pub approve_target : Option Text
  pub spender : Text
  pub just_approved : Bool

pub data SwapResult : Type 0 where
  quote_again : (reason : Text) → SwapResult
  swap_simulated : SimulationResult → (router : Text) → (min_receive : Option Text) → SwapResult
  bought : (received_tokens spent_units : ℕ) → SentTx → SwapResult
  swap_pending : (tx_hash : Text) → SwapResult
  anomaly : (message : Text) → SentTx → SwapResult
  swap_failed : Failure → SwapResult

-- what `buildSwap` is asked
pub record SwapQuery : Type 0 where
  pub quote_id : Text
  pub from_token : Text
  pub to_token : Text
  pub amount : ℕ
  pub user_wallet_address : Text
  pub slippage_percent : Text

-- `SLIPPAGE_PERCENT`
abbrev pub slippage_percent : Text
slippage_percent = codes "0.5"

abbrev pub swap_query : TradeDeps → SwapArgs → Text → SwapQuery
swap_query deps args quote_id = record {
  quote_id = quote_id;
  from_token = bsc_usdt;
  to_token = args.instrument.address;
  amount = args.amount;
  user_wallet_address = deps.house;
  slippage_percent = slippage_percent;
}

-- What the API answers, each to what it is asked, and the clock: a call may be simulated several times,
-- and each attempt has its own answer.
pub record SwapReplies : Type 0 where
  pub build : SwapQuery → Reply SwapBuild
  pub simulation : EvmCall → ℕ → Reply SimulationResult
  pub simulated_at : ℕ
  pub now : ℕ

abbrev pub is_requote : ErrorAction → Bool
is_requote requote = true
is_requote _ = false

abbrev pub text_or_null : Option Text → Text
text_or_null none = codes "null"
text_or_null (some text) = text

abbrev pub build_error : ClassifiableError → Text → SwapResult
build_error e msg =
    if is_requote (classify_error e).rule_of.action
    then quote_again (text_or_null e.code ++ (codes ": " ++ msg))
    else swap_failed (api_failure (codes "swap") e msg)

abbrev pub simulation_error : ClassifiableError → Text → SwapResult
simulation_error e msg = swap_failed (api_failure (codes "simulate swap") e msg)

-- an execution mode that is not a plain swap
abbrev pub other_mode : Option Text → Option Text
other_mode execution_mode = elim (filled execution_mode) [
  | none ↦ none
  | some mode ↦ if eq_text mode (codes "SWAP") then none else some mode
]

-- `if (x) return …` where the text of `x` is used
abbrev pub return_on : {R : Type 0} → Option Text → (Text → R) → Step R (Unit {0})
return_on none r = goes_on tt
return_on (some text) r = returns (r text)

abbrev pub failing : Text → Text → SwapResult
failing code message = swap_failed (fail code message)

abbrev pub quote_required : Option Text → Step SwapResult Text
quote_required none = returns (failing (codes "QUOTE_INCOMPLETE") (codes "quote has no quoteId"))
quote_required (some quote_id) = goes_on quote_id

-- the route's own spender, where it names one, is the approved one
abbrev pub target_check : Viem → Text → Option Text → Step SwapResult (Unit {0})
target_check v spender none = goes_on tt
target_check v spender (some target) = same_address v target spender >>= λ same.
    return_if (not same) (
      failing (codes "SPENDER_MISMATCH")
        (codes "quote approveTarget " ++ (target ++ (codes " ≠ approved spender " ++ spender))))

-- the checks of the swap that was built
unfoldable pub check_swap : Viem → TradeDeps → Text → SwapBuild → Step SwapResult (Unit {0})
check_swap v deps spender build =
    let tx = build.tx in
    return_on (other_mode build.execution_mode)
      (λ mode. quote_again (codes "swap came back as " ++ mode))
    >>= λ _. same_address v tx.from_ deps.house >>= λ ours.
        return_if (not ours) (
          failing (codes "SWAP_SENDER_MISMATCH")
            (codes "swap tx.from " ++ (tx.from_ ++ codes " is not the house wallet")))
        >>= λ _.
            api_int (some (elim tx.wei [ none ↦ codes "0" | some wei ↦ wei ])) (codes "swap value")
            >>= λ wei.
                return_if (not (wei == 0)) (
                  failing (codes "SWAP_CARRIES_BNB") (
                    codes "swap tx.value "
                    ++ (to_string wei ++ codes " (USDT swaps carry no BNB)")))
                >>= λ _. same_address v tx.to spender >>= λ router. return_if (not router) (
                    failing (codes "SWAP_TARGET_MISMATCH") (
                      codes "swap calls "
                      ++ (tx.to ++ (codes ", not the approved router " ++ spender))))

-- older than the limit; a time that cannot be read is not
abbrev pub is_stale : ℕ → Option ℕ → Bool
is_stale now none = false
is_stale now (some received) = ltb (received + max_quote_age_ms) now

abbrev pub priority_fee : Option Text → Step SwapResult (Option ℕ)
priority_fee fee = elim (filled fee) [
  | none ↦ goes_on none
  | some text ↦ api_int (some text) (codes "swap maxPriorityFeePerGas") >>= λ n. goes_on (some n)
]

module _ {F : Type 0} (p : Platform F) where
  -- the part of `performSwap` from the simulation to what is sent
  unfoldable pub swap_to_send :
      Viem → TradeDeps → SwapArgs → SwapReplies → SwapTx → Step SwapResult SendCall
  swap_to_send v deps args replies tx =
      from_reply simulation_error (
        simulate_after_approval args.just_approved
          (replies.simulation (evm_call deps.house tx.to tx.calldata)))
      >>= λ simulation.
          return_if (not (is_live deps.mode))
            (swap_simulated simulation tx.to tx.min_receive_amount)
          >>= λ _.
              return_if (not (sim_ok simulation)) (
                failing (codes "SIM_SWAP") (
                  codes "swap simulation "
                  ++ (status_text simulation.status ++ (codes ": " ++ simulation.fail_reason))))
              >>= λ _.
                  return_if (is_stale replies.now (p.date_parse args.quote.received_at))
                    (quote_again (codes "quote older than 25 s at signing"))
                  >>= λ _. require_signer v deps >>= λ _.
                      api_int tx.gas (codes "swap gas") >>= λ gas.
                      api_int tx.gas_price (codes "swap gasPrice") >>= λ gas_price.
                      priority_fee tx.max_priority_fee_per_gas >>= λ fee. goes_on record {
                        request = record {
                          plan_id = args.plan_id;
                          cycle_id = some args.cycle_id;
                          kind = codes "swap";
                        };
                        to = tx.to;
                        calldata = tx.calldata;
                        wei = 0;
                        gas = gas;
                        gas_price = gas_price;
                        max_priority_fee_per_gas = fee;
                      }

  -- `performSwap` up to what is sent, with the swap's floor
  unfoldable pub swap_call :
      Viem → TradeDeps → SwapArgs → SwapReplies → Step SwapResult (SendCall × Option Text)
  swap_call v deps args replies = quote_required (filled args.quote.quote_id) >>= λ quote_id.
      target_check v args.spender (filled args.approve_target) >>= λ _.
      from_reply build_error (replies.build (swap_query deps args quote_id)) >>= λ build.
      check_swap v deps args.spender build >>= λ _.
      swap_to_send v deps args replies build.tx >>= λ call.
      goes_on (call, build.tx.min_receive_amount)

abbrev pub swap_tx : SwapArgs → ℕ → Option Text → Text → Text → List Transfer → ℕ → ℕ → SentTx
swap_tx args simulated_at floor tx_hash via receipt received spent = record {
  kind = codes "swap";
  tx_hash = tx_hash;
  broadcast_via = via;
  receipt = receipt;
  simulated_at = simulated_at;
  amounts =
      (codes "instrumentId", args.instrument.id)
      ∷ (codes "spentUsdtUnits", to_string spent)
      ∷ (codes "receivedTokens", to_string received)
      ∷ (codes "minReceive", elim floor [ none ↦ [] | some n ↦ n ])
      ∷ [];
}

abbrev pub nothing_arrived : SwapArgs → Text → ℕ → Text
nothing_arrived args tx_hash spent =
    codes "swap "
    ++ (tx_hash
        ++ (codes " confirmed, "
            ++ (to_string spent
                ++ (codes " USDT units left the wallet, no "
                    ++ (args.instrument.symbol ++ codes " arrived")))))

-- a swap that is confirmed, by its receipt
unfoldable pub swap_confirmed :
    Viem
    → TradeDeps
    → SwapArgs
    → ℕ
    → Option Text
    → Text
    → Text
    → List Transfer
    → Step SwapResult SwapResult
swap_confirmed v deps args simulated_at floor tx_hash via receipt =
    or_throws (codes "invalid address")
      (transferred_to v receipt args.instrument.address deps.house)
    >>= λ received.
        or_throws (codes "invalid address") (transferred_from v receipt bsc_usdt deps.house)
        >>= λ spent.
            let sent_tx = swap_tx args simulated_at floor tx_hash via receipt received spent in
            returns (
              if received == 0
              then anomaly (nothing_arrived args tx_hash spent) sent_tx
              else bought received spent sent_tx)

abbrev pub swap_settled : Settled → Step SwapResult SwapResult
swap_settled (went_out tx_hash via) = threw (codes "unreachable")
swap_settled (still_pending tx_hash) = returns (swap_pending tx_hash)
swap_settled (came_to_nothing failure) = returns (swap_failed failure)

-- `performSwap` after the send
unfoldable pub after_swap :
    Viem → TradeDeps → SwapArgs → ℕ → Option Text → Sent → Step SwapResult SwapResult
after_swap v deps args simulated_at floor (send_threw message) = threw message
after_swap v deps args simulated_at floor (send_result (confirms tx_hash via) receipt) =
    swap_confirmed v deps args simulated_at floor tx_hash via receipt
after_swap v deps args simulated_at floor (send_result (reverts tx_hash via) receipt) =
    swap_settled (sent_or_failure (codes "swap") (reverts tx_hash via))
after_swap v deps args simulated_at floor (send_result (pends tx_hash via) receipt) =
    swap_settled (sent_or_failure (codes "swap") (pends tx_hash via))
after_swap v deps args simulated_at floor (send_result (not_sent tx_hash reason) receipt) =
    swap_settled (sent_or_failure (codes "swap") (not_sent tx_hash reason))

-- `performSwap`
unfoldable pub perform_swap :
    {F : Type 0}
    → Platform F
    → Viem
    → TradeDeps
    → SwapArgs
    → SwapReplies
    → (SendCall → Sent)
    → Step SwapResult SwapResult
perform_swap p v deps args replies send = swap_call p v deps args replies >>= λ c.
    after_swap v deps args replies.simulated_at c.1 (send c.0)
