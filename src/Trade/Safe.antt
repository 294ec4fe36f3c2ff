-- ===== src/Trade/Safe.antt =====
-- What `performSwap` of apps/agent/src/executor/trade.ts hands to `sendTransaction`.
use mathlib.Core.Path.{subst, subst₂}
use new_bnbhack.Common.{
  ℕ, zero, suc, ◌+◌, ◌≤◌, ◌≡◌, refl, sym, ap, ◌∙◌, Bool, true, false, not, ◌==◌, [], ◌∷◌, Option,
  none, some, arith, Bool-cases, inl, inr,
}
use new_bnbhack.Common.Text.{Text, codes}
use new_bnbhack.Platform.{Platform}
use new_bnbhack.Trade.{
  goes_on, return_if, when_on, goes_on-injective, filled, Reply, replied, api_error, call_threw,
  SimulationResult, sim_ok, runs_again, resimulate, simulate_after_approval, Viem, api_int, is_live,
  TradeDeps, SendCall, require_signer, SwapTx, SwapBuild, SwapArgs, SwapReplies, build_error,
  simulation_error, other_mode, quote_required, target_check, check_swap, is_stale, priority_fee,
  swap_to_send, swap_call, evm_call, swap_query, bsc_usdt,
}
use new_bnbhack.Trade.Past.{
  not-false, past_throw, past_return, past_return_on, past_reply, Signs, require_signer-Signs,
}

replied-injective : {A : Type 0} {a b : A} → replied a ≡ replied b → a ≡ b
replied-injective h = cc

-- an attempt at the simulation, of the three at most
abbrev Attempted : (ℕ → Reply SimulationResult) → SimulationResult → Type 0
Attempted run result = (n : ℕ) × (n ≤ 2) × (run n ≡ replied result)

resimulate-Attempted :
    (just_approved : Bool) (run : ℕ → Reply SimulationResult) (left attempt : ℕ)
    (result r : SimulationResult)
    → attempt + left ≤ 3
    → Attempted run result
    → resimulate just_approved run left attempt result ≡ replied r
    → Attempted run r
unfolding resimulate
resimulate-Attempted just_approved run zero attempt result r le a h =
    subst (Attempted run) (replied-injective h) a
resimulate-Attempted just_approved run (suc left) attempt result r le a h =
    elim (Bool-cases (runs_again just_approved result)) [
      | inl again ↦
          answered (run attempt) refl (rw again at h)
            (λ more. resimulate-Attempted just_approved run left (suc attempt) more r (omega arith))
      | inr stands ↦ subst (Attempted run) (replied-injective (rw stands at h)) a
    ]
  where
    answered :
        (reply : Reply SimulationResult)
        → run attempt ≡ reply
        → (elim reply [
          | replied more ↦ resimulate just_approved run left (suc attempt) more
          | api_error e msg ↦ api_error e msg
          | call_threw message ↦ call_threw message
        ])
          ≡ replied r
        → ((more : SimulationResult)
            → Attempted run more
            → resimulate just_approved run left (suc attempt) more ≡ replied r
            → Attempted run r)
        → Attempted run r
    answered (replied more) e h ih = ih more (attempt, omega arith, e) h
    answered (api_error _ msg) e h ih = absurd (cc)
    answered (call_threw message) e h ih = absurd (cc)

simulate_after_approval-Attempted :
    (just_approved : Bool) (run : ℕ → Reply SimulationResult) (r : SimulationResult)
    → simulate_after_approval just_approved run ≡ replied r
    → Attempted run r
unfolding simulate_after_approval
simulate_after_approval-Attempted just_approved run r h = answered (run 0) refl h
  where
    answered :
        (reply : Reply SimulationResult)
        → run 0 ≡ reply
        → (elim reply [
          | replied result ↦ resimulate just_approved run 2 1 result
          | api_error e msg ↦ api_error e msg
          | call_threw message ↦ call_threw message
        ])
          ≡ replied r
        → Attempted run r
    answered (replied first) e h =
        resimulate-Attempted just_approved run 2 1 first r (omega arith) (0, omega arith, e) h
    answered (api_error _ msg) e h = absurd (cc)
    answered (call_threw message) e h = absurd (cc)

-- a swap that is signed: of the quote, built as a plain swap from the house wallet without BNB to the
-- approved router, simulated with success, of a quote that is still fresh
abbrev pub IsSafeSwap :
    {F : Type 0} → Platform F → Viem → TradeDeps → SwapArgs → SwapReplies → SendCall → Type 0
IsSafeSwap p v deps args replies call =
    (quote_id : Text) × (build : SwapBuild) × (simulation : SimulationResult) × (args.quote.quote_id
      ≡ some quote_id)
    × (replies.build (record {
      quote_id = quote_id;
      from_token = bsc_usdt;
      to_token = args.instrument.address;
      amount = args.amount;
      user_wallet_address = deps.house;
      slippage_percent = codes "0.5";
    })
        ≡ replied build)
    × (other_mode build.execution_mode ≡ none)
    × (v.is_address_equal build.tx.from_ deps.house ≡ some true)
    × (call.to ≡ build.tx.to)
    × (v.is_address_equal call.to args.spender ≡ some true)
    × (call.calldata ≡ build.tx.calldata)
    × (call.wei ≡ 0)
    × Attempted
        (replies.simulation (record {
          from_ = deps.house;
          to = call.to;
          value = codes "0";
          calldata = call.calldata;
        }))
        simulation
    × (sim_ok simulation ≡ true)
    × (is_stale replies.now (p.date_parse args.quote.received_at) ≡ false)
    × Signs v deps

check_swap-IsChecked :
    (v : Viem) (deps : TradeDeps) (spender : Text) (build : SwapBuild) {u : Unit {0}}
    → check_swap v deps spender build ≡ goes_on u
    → (other_mode build.execution_mode ≡ none)
      × (v.is_address_equal build.tx.from_ deps.house ≡ some true)
      × (v.is_address_equal build.tx.to spender ≡ some true)
unfolding check_swap
check_swap-IsChecked v deps spender build h =
    past_return_on (other_mode build.execution_mode) _ _ h λ e1 h1.
      past_throw (codes "invalid address") (v.is_address_equal build.tx.from_ deps.house) _ h1
        λ ours e2 h2. past_return (not ours) _ _ h2 λ e3 h3.
          when_on
            (api_int (some (elim build.tx.wei [ none ↦ codes "0" | some wei ↦ wei ]))
              (codes "swap value"))
            _ h3
            λ wei e4 h4. past_return (not (wei == 0)) _ _ h4 λ e5 h5.
              past_throw (codes "invalid address") (v.is_address_equal build.tx.to spender) _ h5
                λ router e6 h6. (
                  e1,
                  e2 ∙ ap some (not-false _ e3),
                  e6 ∙ ap some (not-false _ (return_if-false (not router) _ h6)),
                )
  where
    return_if-false : {R : Type 0} (bad : Bool) (r : R) → return_if bad r ≡ goes_on tt → bad ≡ false
    return_if-false true r h = absurd (cc)
    return_if-false false r h = refl

named_quote :
    (given : Option Text) (quote_id : Text)
    → quote_required (filled given) ≡ goes_on quote_id
    → given ≡ some quote_id
named_quote none quote_id h = absurd (cc)
named_quote (some []) quote_id h = absurd (cc)
named_quote (some (c ∷ rest)) quote_id h = ap some (goes_on-injective h)

module _ {F : Type 0} (p : Platform F) (v : Viem) (deps : TradeDeps) (args : SwapArgs)
    (replies : SwapReplies) where
  swap_to_send-IsSent :
      (tx : SwapTx) (call : SendCall)
      → swap_to_send p v deps args replies tx ≡ goes_on call
      → (simulation : SimulationResult) × Attempted
          (replies.simulation (evm_call deps.house tx.to tx.calldata))
          simulation
        × (sim_ok simulation ≡ true)
        × (is_stale replies.now (p.date_parse args.quote.received_at) ≡ false)
        × (call.to ≡ tx.to)
        × (call.calldata ≡ tx.calldata)
        × (call.wei ≡ 0)
        × Signs v deps
  unfolding swap_to_send
  swap_to_send-IsSent tx call h =
      past_reply simulation_error
        (simulate_after_approval args.just_approved
          (replies.simulation (evm_call deps.house tx.to tx.calldata)))
        _ h
        λ simulation e1 h1. past_return (not (is_live deps.mode)) _ _ h1 λ e2 h2.
          past_return (not (sim_ok simulation)) _ _ h2 λ e3 h3.
            past_return (is_stale replies.now (p.date_parse args.quote.received_at)) _ _ h3 λ e4 h4.
              when_on (require_signer v deps) _ h4 λ signer e5 h5.
                when_on (api_int tx.gas (codes "swap gas")) _ h5 λ gas e6 h6.
                  when_on (api_int tx.gas_price (codes "swap gasPrice")) _ h6 λ gas_price e7 h7.
                    when_on (priority_fee tx.max_priority_fee_per_gas) _ h7 λ fee e8 h8.
                      let same = sym (goes_on-injective h8) in
                      (
                        simulation,
                        simulate_after_approval-Attempted args.just_approved
                            (replies.simulation (evm_call deps.house tx.to tx.calldata)) simulation
                            e1,
                        not-false _ e3,
                        e4,
                        ap (λ (c : SendCall). c.to) same,
                        ap (λ (c : SendCall). c.calldata) same,
                        ap (λ (c : SendCall). c.wei) same,
                        require_signer-Signs v deps e5,
                      )

  safe_swap :
      (call : SendCall × Option Text)
      → swap_call p v deps args replies ≡ goes_on call
      → IsSafeSwap p v deps args replies call.0
  unfolding swap_call
  safe_swap call h = when_on (quote_required (filled args.quote.quote_id)) _ h λ quote_id named h0.
      when_on (target_check v args.spender (filled args.approve_target)) _ h0 λ _ e1 h1.
        past_reply build_error (replies.build (swap_query deps args quote_id)) _ h1 λ build e2 h2.
          when_on (check_swap v deps args.spender build) _ h2 λ _ e3 h3.
            when_on (swap_to_send p v deps args replies build.tx) _ h3 λ sent_call e4 h4.
              let (plain, ours, router) = check_swap-IsChecked v deps args.spender build e3 in
              let (simulation, tried, good, fresh, to, data_, wei, signs) =
                swap_to_send-IsSent build.tx sent_call e4 in
              let same : sent_call ≡ call.0 =
                ap (λ (c : SendCall × Option Text). c.0) (goes_on-injective h4) in
              subst (IsSafeSwap p v deps args replies) same (
                quote_id,
                build,
                simulation,
                named_quote args.quote.quote_id quote_id named,
                e2,
                plain,
                ours,
                to,
                ap (λ a. v.is_address_equal a args.spender) to ∙ router,
                data_,
                wei,
                subst₂ (λ t d. Attempted (replies.simulation (evm_call deps.house t d)) simulation)
                    (sym to) (sym data_) tried,
                good,
                fresh,
                signs,
              )

-- A swap that performSwap hands to sendTransaction was built for the quote's id and the plan's
-- amount of USDT, as a plain swap from the house wallet, calls the approved router without BNB,
-- and that very call (from the house wallet, with the same address and calldata) succeeded in
-- one of at most three simulations; it is signed by the house wallet's own signer in live mode,
-- with no readable time of the quote more than 25 seconds old.
pub swap_call-IsSafe :
    {F : Type 0} (p : Platform F) (v : Viem) (deps : TradeDeps) (args : SwapArgs)
    (replies : SwapReplies) (call : SendCall × Option Text)
    → swap_call p v deps args replies ≡ goes_on call
    → IsSafeSwap p v deps args replies call.0
swap_call-IsSafe p v deps args replies call h = safe_swap p v deps args replies call h
