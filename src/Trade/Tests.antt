-- ===== src/Trade/Tests.antt =====
-- A buy of 50 units: its approval, its swap, and what is signed.
use new_bnbhack.Common.{
  ℕ, zero, suc, ◌≡◌, ◌⊎◌, refl, true, if◌then◌else◌, List, [], ◌∷◌, Option, none, some,
}
use new_bnbhack.Common.Text.{
  Text, codes, eq_text, to_string, span_digits, big_int, pad_end, to_lower, trim, drop_while,
  drop_end_while, is_space,
}
use new_bnbhack.Amounts.{to_units, match_decimal}
use new_bnbhack.Platform.{scaled_platform}
use new_bnbhack.Domain.{Instrument, bstocks}
use new_bnbhack.Decide.{QuoteObservation}
use new_bnbhack.Sending.{confirms, matches}
use new_bnbhack.Trade.{
  Step, returns, goes_on, Reply, replied, call_threw, SimulationResult, sim_success, sim_failed,
  resimulate, simulate_after_approval, Viem, api_int, decode_approve, keep, sum_of, transferred_to,
  transferred_from, signable_tx, Signable, legacy, Transfer, live, TradeDeps, SendCall,
  unsigned_call, Sent, send_result, require_signer, ApprovalArgs, ApprovalReplies, approve_gas,
  approval_to_send, approval_call, approval_failed, fail, SwapBuild, SwapArgs, SwapReplies,
  SwapResult, bought, check_swap, swap_to_send, swap_call, swap_tx, swap_confirmed, after_swap,
  perform_swap, bsc_usdt,
}
use new_bnbhack.Trade.Exact.{IsExact, approval_call-IsExact}
use new_bnbhack.Trade.Safe.{IsSafeSwap, swap_call-IsSafe}
use new_bnbhack.Trade.Early.{IsEarly}
use new_bnbhack.Trade.Accounted.{
  IsSettled, perform_swap-IsAccounted, IsPayable, signable_tx-IsPayable,
}

-- addresses that differ only in case are equal, and one text is an approval of 50 units
abbrev viem : Viem
viem = record {
  is_address_equal = λ a b. some (eq_text (to_lower a) (to_lower b));
  get_address = λ a. some a;
  decode_function_data = λ calldata.
      if eq_text calldata (codes "0xapprove50")
      then some (codes "approve", (codes "0xR", 50))
      else none;
}

abbrev house_deps : TradeDeps
house_deps = record { mode = live; house = codes "0xH"; signer = some (codes "0xh") }

abbrev good : SimulationResult
good = record { status = sim_success; fail_reason = [] }

abbrev args : ApprovalArgs
args = record { plan_id = codes "p1"; cycle_id = 3; token = bsc_usdt; amount = 50 }

abbrev approval_replies : ApprovalReplies
approval_replies = record {
  approval = λ token amount. replied record {
    calldata = codes "0xapprove50";
    dex_contract_address = codes "0xr";
    gas_limit = some (codes "50000");
    gas_price = some (codes "0x3B9ACA00");
  };
  allowance = λ token owner spender. if eq_text spender (codes "0xR") then 49 else 100;
  simulation =
      λ call. if eq_text call.calldata (codes "0xapprove50") then replied good else call_threw [];
  simulated_at = 1000;
  estimate = λ call. replied 60000;
}

abbrev sent_approval : SendCall
sent_approval = record {
  request = record { plan_id = codes "p1"; cycle_id = some 3; kind = codes "approve" };
  to = bsc_usdt;
  calldata = codes "0xapprove50";
  wei = 0;
  gas = 50000;
  gas_price = 1_000_000_000;
  max_priority_fee_per_gas = none;
}

approves :
    approval_call viem house_deps args approval_replies
    ≡ goes_on (sent_approval, (codes "0xR", good))
unfolding approval_call approval_to_send approve_gas require_signer decode_approve api_int trim
    drop_while drop_end_while is_space eq_text to_lower
approves = refl

approval_call-IsExact_example : IsExact viem house_deps args approval_replies sent_approval
approval_call-IsExact_example =
    approval_call-IsExact viem house_deps args approval_replies (sent_approval, (codes "0xR", good))
      approves

-- an approval of another amount than the spend
not_exact :
    approval_call viem house_deps (record args { amount = 49 }) approval_replies
    ≡ returns (
        approval_failed (
          fail
            (codes "APPROVE_NOT_EXACT")
            (codes "approve-transaction asks for 50, the spend is 49")))
unfolding approval_call decode_approve eq_text to_lower to_string
not_exact = refl

abbrev signed_approval : Signable
signed_approval = record {
  nonce = 7;
  to = bsc_usdt;
  calldata = codes "0xapprove50";
  wei = 0;
  gas = 50000;
  kind = legacy 1_000_000_000;
}

signs_approval :
    ◌≡◌ {A = Step Text Signable}
      (signable_tx viem (unsigned_call sent_approval 7))
      (goes_on signed_approval)
unfolding signable_tx unsigned_call
signs_approval = refl

signable_tx-IsPayable_example : IsPayable viem (unsigned_call sent_approval 7) signed_approval
signable_tx-IsPayable_example =
    signable_tx-IsPayable viem (unsigned_call sent_approval 7) signed_approval signs_approval

abbrev nvda : Instrument
nvda = record {
  id = codes "NVDA:bstocks";
  ticker = codes "NVDA";
  issuer = bstocks;
  address = codes "0xN";
  symbol = codes "NVDAB";
  decimals = 18;
  multiplier = codes "1";
  verified_at = codes "0";
}

abbrev quote_now : QuoteObservation
quote_now = record {
  instrument_id = codes "NVDA:bstocks";
  spend_usd = codes "50";
  received_at = codes "1000";
  quote_id = some (codes "q1");
  to_token_amount = some (codes "4");
  price_impact_pct = some (codes "0.1");
  execution_mode = none;
  error_code = none;
  error_msg = none;
  error_action = none;
}

abbrev swap_args : SwapArgs
swap_args = record {
  plan_id = codes "p1";
  cycle_id = 3;
  instrument = nvda;
  amount = 50;
  quote = quote_now;
  approve_target = none;
  spender = codes "0xR";
  just_approved = true;
}

abbrev built : SwapBuild
built = record {
  tx = record {
    from_ = codes "0xh";
    to = codes "0xr";
    calldata = codes "0xswap";
    wei = some (codes "0");
    gas = some (codes "450000");
    gas_price = some (codes "58339710");
    max_priority_fee_per_gas = none;
    min_receive_amount = some (codes "4");
  };
  execution_mode = some (codes "SWAP");
}

-- the node behind the API does not know the approval yet, and knows it at the second attempt
abbrev attempts : ℕ → Reply SimulationResult
attempts zero =
    replied record { status = sim_failed; fail_reason = codes "ERC20: insufficient allowance" }
attempts (suc n) = replied good

abbrev refused : ℕ → Reply SimulationResult
refused attempt = call_threw []

abbrev swap_replies : SwapReplies
swap_replies = record {
  build = λ query. if eq_text query.quote_id (codes "q1") then replied built else call_threw [];
  simulation = λ call. if eq_text call.calldata (codes "0xswap") then attempts else refused;
  simulated_at = 20000;
  now = 26000;
}

abbrev sent_swap : SendCall
sent_swap = record {
  request = record { plan_id = codes "p1"; cycle_id = some 3; kind = codes "swap" };
  to = codes "0xr";
  calldata = codes "0xswap";
  wei = 0;
  gas = 450000;
  gas_price = 58339710;
  max_priority_fee_per_gas = none;
}

swaps :
    swap_call scaled_platform viem house_deps swap_args swap_replies
    ≡ goes_on (sent_swap, some (codes "4"))
unfolding swap_call check_swap swap_to_send simulate_after_approval resimulate matches
    require_signer api_int trim drop_while drop_end_while is_space eq_text to_lower to_units
    match_decimal span_digits big_int pad_end
swaps = refl

swap_call-IsSafe_example :
    IsSafeSwap scaled_platform viem house_deps swap_args swap_replies sent_swap
swap_call-IsSafe_example =
    swap_call-IsSafe scaled_platform viem house_deps swap_args swap_replies
      (sent_swap, some (codes "4")) swaps

abbrev receipt : List Transfer
receipt =
    record { token = bsc_usdt; from_ = codes "0xh"; to = codes "0xR"; amount = 50 }
    ∷ record { token = codes "0xn"; from_ = codes "0xR"; to = codes "0xH"; amount = 4 }
    ∷ []

abbrev chain : SendCall → Sent
chain call = send_result (confirms (codes "0xh2") (codes "rpc")) receipt

abbrev result : SwapResult
result =
    bought 4 50
      (swap_tx swap_args 20000 (some (codes "4")) (codes "0xh2") (codes "rpc") receipt 4 50)

buys : perform_swap scaled_platform viem house_deps swap_args swap_replies chain ≡ returns result
unfolding perform_swap after_swap swap_confirmed transferred_to transferred_from keep sum_of
    swap_call check_swap swap_to_send simulate_after_approval resimulate matches require_signer
    api_int trim drop_while drop_end_while is_space eq_text to_lower to_units match_decimal
    span_digits big_int pad_end
buys = refl

perform_swap-IsAccounted_example :
    ((swap_call scaled_platform viem house_deps swap_args swap_replies ≡ returns result)
      × IsEarly house_deps result)
    ⊎ ((call : SendCall) × (floor : Option Text) × (swap_call scaled_platform viem house_deps
            swap_args swap_replies
          ≡ goes_on (call, floor))
        × IsSettled viem house_deps swap_args (chain call) result)
perform_swap-IsAccounted_example =
    perform_swap-IsAccounted scaled_platform viem house_deps swap_args swap_replies chain result
      buys
