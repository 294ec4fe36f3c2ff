-- ===== src/Trade/Early.antt =====
-- The early returns of `performSwap` of apps/agent/src/executor/trade.ts: what it may return before a send.
use mathlib.Core.Path.{subst}
use new_bnbhack.Common.{
  ◌==◌, ◌≡◌, refl, ◌++◌, Bool, true, false, not, if◌then◌else◌, Option, none, some, Bool-cases, inl,
  inr,
}
use new_bnbhack.Common.Text.{Text, codes, trim}
use new_bnbhack.Platform.{Platform}
use new_bnbhack.Domain.{nothing}
use new_bnbhack.Sending.{is_empty}
use new_bnbhack.Taxonomy.{ClassifiableError, classify_error}
use new_bnbhack.Trade.{
  Step, threw, returns, goes_on, ◌>>=◌, return_if, filled, Reply, replied, api_error, call_threw,
  from_reply, Viem, or_throws, api_int, int_of_text, TradeMode, simulate, live, is_live, TradeDeps,
  require_signer, SwapBuild, SwapTx, SwapArgs, SwapReplies, SwapResult, quote_again, swap_simulated,
  bought, swap_pending, anomaly, swap_failed, is_requote, build_error, simulation_error, other_mode,
  return_on, failing, quote_required, target_check, check_swap, sim_ok, is_stale, priority_fee,
  swap_to_send, swap_call,
}

-- what may be returned before anything is sent: a new quote, a simulation in simulate mode, or a
-- failure that moved nothing
abbrev pub IsEarly : TradeDeps → SwapResult → Type 0
IsEarly deps (quote_again reason) = Unit {0}
IsEarly deps (swap_simulated simulation router floor) = deps.mode ≡ simulate
IsEarly deps (swap_failed failure) = failure.funds_moved ≡ nothing
IsEarly deps (bought received spent tx) = ⊥
IsEarly deps (swap_pending tx_hash) = ⊥
IsEarly deps (anomaly message tx) = ⊥

-- a step that returns only results that satisfy `P`
abbrev Returns : {A : Type 0} → (SwapResult → Type 0) → Step SwapResult A → Type 0
Returns P s = (r : SwapResult) → s ≡ returns r → P r

module _ (P : SwapResult → Type 0) where
  goes_on-Returns : {A : Type 0} (a : A) → Returns P (goes_on a)
  goes_on-Returns a r h = absurd (cc)

  returns-Returns : {A : Type 0} (r : SwapResult) → P r → Returns {A = A} P (returns r)
  returns-Returns r holds r' h = subst P (same h) holds
    where
      same :
          {A : Type 0} {r r' : SwapResult}
          → ◌≡◌ {A = Step SwapResult A} (returns r) (returns r')
          → r ≡ r'
      same h = cc

  then-Returns :
      {A B : Type 0} (s : Step SwapResult A) (after : A → Step SwapResult B)
      → Returns P s
      → ((a : A) → Returns P (after a))
      → Returns P (s >>= after)
  then-Returns (threw message) after first rest r h = absurd (cc)
  then-Returns (returns r') after first rest r h = first r (cc)
  then-Returns (goes_on a) after first rest r h = rest a r h

  or_throws-Returns : {A : Type 0} (message : Text) (o : Option A) → Returns P (or_throws message o)
  or_throws-Returns message none r h = absurd (cc)
  or_throws-Returns message (some a) r h = absurd (cc)

  return_if-Returns :
      (bad : Bool) (r : SwapResult) → (bad ≡ true → P r) → Returns P (return_if bad r)
  return_if-Returns true r holds = returns-Returns r (holds refl)
  return_if-Returns false r holds = goes_on-Returns tt

  return_on-Returns :
      (text : Option Text) (r : Text → SwapResult)
      → ((t : Text) → P (r t))
      → Returns P (return_on text r)
  return_on-Returns none r holds = goes_on-Returns tt
  return_on-Returns (some text) r holds = returns-Returns (r text) (holds text)

  from_reply-Returns :
      {A : Type 0} (on_error : ClassifiableError → Text → SwapResult) (reply : Reply A)
      → ((e : ClassifiableError) (msg : Text) → P (on_error e msg))
      → Returns P (from_reply on_error reply)
  from_reply-Returns on_error (replied a) holds r h = absurd (cc)
  from_reply-Returns on_error (api_error e msg) holds r h =
      returns-Returns (on_error e msg) (holds e msg) r h
  from_reply-Returns on_error (call_threw message) holds r h = absurd (cc)

  api_int-Returns : (o : Option Text) (field : Text) → Returns P (api_int {R = SwapResult} o field)
  unfolding api_int
  api_int-Returns none field r h = absurd (cc)
  api_int-Returns (some text) field r h = elim (Bool-cases (is_empty text)) [
    | inl empty ↦ absurd (cc (rw empty at h))
    | inr full ↦
        or_throws-Returns (field ++ (codes " is not an integer: " ++ trim text))
          (int_of_text (trim text)) r (rw full at h)
  ]

  require_signer-Returns :
      (v : Viem) (mode : TradeMode) (house : Text) (signer : Option Text)
      → Returns P (
          require_signer {R = SwapResult} v
            (record { mode = mode; house = house; signer = signer }))
  unfolding require_signer
  require_signer-Returns v simulate house signer r h = absurd (cc)
  require_signer-Returns v live house none r h = absurd (cc)
  require_signer-Returns v live house (some signer) r h =
      then-Returns _ _
        (or_throws-Returns (codes "invalid address") (v.is_address_equal signer house)) signs r h
    where
      signs :
          (same : Bool)
          → Returns P
              (if same then goes_on signer else threw (codes "signer is not the house wallet"))
      signs true r h = absurd (cc)
      signs false r h = absurd (cc)

  priority_fee-Returns : (fee : Option Text) → Returns P (priority_fee fee)
  priority_fee-Returns fee = asked (filled fee)
    where
      asked :
          (fee : Option Text)
          → Returns P (elim fee [
            | none ↦ goes_on none
            | some text ↦
                api_int {R = SwapResult} (some text) (codes "swap maxPriorityFeePerGas") >>= λ n.
                goes_on (some n)
          ])
      asked none = goes_on-Returns none
      asked (some text) =
          then-Returns (api_int (some text) (codes "swap maxPriorityFeePerGas")) _
            (api_int-Returns (some text) _) λ n. goes_on-Returns (some n)

module _ (v : Viem) (deps : TradeDeps) (args : SwapArgs) where
  -- a step of the swap that returns early results only
  abbrev Early : {A : Type 0} → Step SwapResult A → Type 0
  Early s = Returns (IsEarly deps) s

  quote_required-Early : (quote_id : Option Text) → Early (quote_required quote_id)
  quote_required-Early none = returns-Returns (IsEarly deps) _ refl
  quote_required-Early (some quote_id) = goes_on-Returns (IsEarly deps) quote_id

  target_check-Early :
      (spender : Text) (target : Option Text) → Early (target_check v spender target)
  target_check-Early spender none = goes_on-Returns (IsEarly deps) tt
  target_check-Early spender (some target) =
      then-Returns (IsEarly deps)
        (or_throws (codes "invalid address") (v.is_address_equal target spender)) _
        (or_throws-Returns (IsEarly deps) _ _)
        λ same.
          return_if-Returns (IsEarly deps) (not same)
            (failing (codes "SPENDER_MISMATCH") (
              codes "quote approveTarget "
              ++ (target ++ (codes " ≠ approved spender " ++ spender))))
            λ bad. refl

  build_error-IsEarly : (e : ClassifiableError) (msg : Text) → IsEarly deps (build_error e msg)
  build_error-IsEarly e msg = elim (Bool-cases (is_requote (classify_error e).rule_of.action)) [
    | inl again ↦ rw again tt
    | inr fails ↦ rw fails refl
  ]

  check_swap-Early : (spender : Text) (build : SwapBuild) → Early (check_swap v deps spender build)
  unfolding check_swap
  check_swap-Early spender build =
      let P = IsEarly deps in
      then-Returns P _ _ (return_on-Returns P (other_mode build.execution_mode) _ λ mode. tt) λ _.
        then-Returns P _ _ (or_throws-Returns P _ _) λ ours.
          then-Returns P _ _ (return_if-Returns P (not ours) _ λ bad. refl) λ _.
            then-Returns P _ _ (api_int-Returns P _ _) λ wei.
              then-Returns P _ _ (return_if-Returns P (not (wei == 0)) _ λ bad. refl) λ _.
                then-Returns P _ _ (or_throws-Returns P _ _)
                  λ router. return_if-Returns P (not router) _ λ bad. refl

  not_live : (mode : TradeMode) → not (is_live mode) ≡ true → mode ≡ simulate
  not_live simulate h = refl
  not_live live h = absurd (cc)

  module _ {F : Type 0} (p : Platform F) (replies : SwapReplies) where
    swap_to_send-Early : (tx : SwapTx) → Early (swap_to_send p v deps args replies tx)
    unfolding swap_to_send
    swap_to_send-Early tx =
        let P = IsEarly deps in
        then-Returns P _ _ (from_reply-Returns P simulation_error _ λ e msg. refl) λ simulation.
          then-Returns P _ _
            (return_if-Returns P (not (is_live deps.mode)) _ λ off. not_live deps.mode off)
            λ _.
              then-Returns P _ _ (return_if-Returns P (not (sim_ok simulation)) _ λ bad. refl) λ _.
                then-Returns P _ _
                  (return_if-Returns P (is_stale replies.now (p.date_parse args.quote.received_at))
                    _ λ bad. tt)
                  λ _.
                    then-Returns P _ _ (require_signer-Returns P v deps.mode deps.house deps.signer)
                      λ _. then-Returns P _ _ (api_int-Returns P _ _) λ gas.
                        then-Returns P _ _ (api_int-Returns P _ _) λ gas_price.
                          then-Returns P _ _ (priority_fee-Returns P _) λ fee. goes_on-Returns P _

    pub swap_call-IsEarly :
        (r : SwapResult) → swap_call p v deps args replies ≡ returns r → IsEarly deps r
    unfolding swap_call
    swap_call-IsEarly r h =
        let P = IsEarly deps in
        let early : Early (swap_call p v deps args replies) =
          then-Returns P _ _ (quote_required-Early (filled args.quote.quote_id)) λ quote_id.
            then-Returns P _ _ (target_check-Early args.spender (filled args.approve_target)) λ _.
              then-Returns P _ _ (from_reply-Returns P build_error _ build_error-IsEarly) λ build.
                then-Returns P _ _ (check_swap-Early args.spender build) λ _.
                  then-Returns P _ _ (swap_to_send-Early build.tx) λ call. goes_on-Returns P _ in
        early r h
