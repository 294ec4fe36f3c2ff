-- ===== src/Trade/Accounted.antt =====
-- What `performSwap` of apps/agent/src/executor/trade.ts reports of a swap, and what a signed transaction
-- may cost at most.
use mathlib.Core.Path.{subst}
use new_bnbhack.Common.{
  ◌≢◌, ℕ, ◌+◌, ◌-◌, ◌*◌, ◌≤◌, ◌≡◌, refl, sym, ap, ◌==◌, ◌||◌, ltb, if◌then◌else◌, List, Option,
  none, some, arith, Bool-cases, Option-cases, ◌⊎◌, inl, inr,
}
use new_bnbhack.Common.Text.{Text, codes}
use new_bnbhack.Platform.{Platform}
use new_bnbhack.Domain.{nothing, gas_only}
use new_bnbhack.Sending.{confirms, reverts, pends, not_sent}
use new_bnbhack.Trade.{
  Step, threw, returns, goes_on, ◌>>=◌, sent_or_failure, Viem, or_throws, UnsignedCall, TxKind,
  legacy, eip1559, Signable, kind_of_call, max_gas_limit, max_gas_price_wei, goes_on-injective,
  when_on, signable_tx, Transfer, transferred_to, transferred_from, TradeDeps, SendCall, Sent,
  send_threw, send_result, SentTx, bsc_usdt, SwapArgs, SwapReplies, SwapResult, quote_again,
  swap_simulated, bought, swap_pending, anomaly, swap_failed, swap_call, swap_tx, nothing_arrived,
  swap_confirmed, after_swap, perform_swap,
}
use new_bnbhack.Trade.Past.{past_throw}
use new_bnbhack.Trade.Early.{IsEarly, swap_call-IsEarly}

either_returns :
    {R A B : Type 0} (s : Step R A) (after : A → Step R B) {r : R}
    → (s >>= after) ≡ returns r
    → (s ≡ returns r) ⊎ ((a : A) × (s ≡ goes_on a) × (after a ≡ returns r))
either_returns (threw message) after h = absurd (cc)
either_returns (returns r) after h = inl (cc)
either_returns (goes_on a) after h = inr (a, refl, h)

throws_then :
    {R A B : Type 0} (message : Text) (o : Option A) (after : A → Step R B) {r : R}
    → (or_throws message o >>= after) ≡ returns r
    → (a : A) × (o ≡ some a) × (after a ≡ returns r)
throws_then message none after h = absurd (cc)
throws_then message (some a) after h = (a, refl, h)

returns-injective : {R A : Type 0} {a b : R} → ◌≡◌ {A = Step R A} (returns a) (returns b) → a ≡ b
returns-injective h = cc

-- what arrived at the house wallet and what left it, by the receipt of a confirmed swap
abbrev pub ShowsTransfers : Viem → TradeDeps → SwapArgs → Sent → SentTx → ℕ → ℕ → Type 0
ShowsTransfers v deps args s tx received spent =
    (s ≡ send_result (confirms tx.tx_hash tx.broadcast_via) tx.receipt)
    × (transferred_to v tx.receipt args.instrument.address deps.house ≡ some received)
    × (transferred_from v tx.receipt bsc_usdt deps.house ≡ some spent)

-- a result that says what came of the send
abbrev pub IsSettled : Viem → TradeDeps → SwapArgs → Sent → SwapResult → Type 0
IsSettled v deps args s (bought received spent tx) =
    ShowsTransfers v deps args s tx received spent × (received ≢ 0)
IsSettled v deps args s (anomaly message tx) = (spent : ℕ) × ShowsTransfers v deps args s tx 0 spent
IsSettled v deps args s (swap_pending tx_hash) =
    (via : Text) × (logs : List Transfer) × (s ≡ send_result (pends tx_hash via) logs)
IsSettled v deps args s (swap_failed failure) =
    ((tx_hash : Text) × (via : Text) × (logs : List Transfer) × (s
        ≡ send_result (reverts tx_hash via) logs)
      × (failure.funds_moved ≡ gas_only))
    ⊎ ((tx_hash : Text) × (reason : Text) × (logs : List Transfer) × (s
          ≡ send_result (not_sent tx_hash reason) logs)
        × (failure.funds_moved ≡ nothing))
IsSettled v deps args s (quote_again reason) = ⊥
IsSettled v deps args s (swap_simulated simulation router floor) = ⊥

module _ (v : Viem) (deps : TradeDeps) (args : SwapArgs) (at : ℕ) (floor : Option Text) where
  bought_or_anomaly :
      (received spent : ℕ) (tx : SentTx) (message : Text) (s : Sent)
      → ShowsTransfers v deps args s tx received spent
      → IsSettled v deps args s
          (if received == 0 then anomaly message tx else bought received spent tx)
  bought_or_anomaly received spent tx message s shows = elim (Bool-cases (received == 0)) [
    | inl none_came ↦
        let zero : received ≡ 0 = ground (arith, none_came) in
        rw none_came (spent, rw zero at shows)
    | inr some_came ↦ rw some_came (shows, ground (arith, some_came))
  ]

  swap_confirmed-IsSettled :
      (tx_hash via : Text) (receipt : List Transfer) (r : SwapResult)
      → swap_confirmed v deps args at floor tx_hash via receipt ≡ returns r
      → IsSettled v deps args (send_result (confirms tx_hash via) receipt) r
  unfolding swap_confirmed
  swap_confirmed-IsSettled tx_hash via receipt r h =
      let (received, came, h1) =
        throws_then (codes "invalid address")
          (transferred_to v receipt args.instrument.address deps.house) _ h in
      let (spent, left, h2) =
        throws_then (codes "invalid address") (transferred_from v receipt bsc_usdt deps.house) _
          h1 in
      subst (IsSettled v deps args (send_result (confirms tx_hash via) receipt))
        (returns-injective h2)
        (bought_or_anomaly received spent (swap_tx args at floor tx_hash via receipt received spent)
          (nothing_arrived args tx_hash spent) _ (refl, came, left))

  after_swap-IsSettled :
      (s : Sent) (r : SwapResult)
      → after_swap v deps args at floor s ≡ returns r
      → IsSettled v deps args s r
  unfolding after_swap sent_or_failure
  after_swap-IsSettled (send_threw message) r h = absurd (cc)
  after_swap-IsSettled (send_result (confirms tx_hash via) receipt) r h =
      swap_confirmed-IsSettled tx_hash via receipt r h
  after_swap-IsSettled (send_result (reverts tx_hash via) receipt) r h =
      subst (IsSettled v deps args (send_result (reverts tx_hash via) receipt))
        (returns-injective h) (inl (tx_hash, via, receipt, refl, refl))
  after_swap-IsSettled (send_result (pends tx_hash via) receipt) r h =
      subst (IsSettled v deps args (send_result (pends tx_hash via) receipt)) (returns-injective h)
        (via, receipt, refl)
  after_swap-IsSettled (send_result (not_sent tx_hash reason) receipt) r h =
      subst (IsSettled v deps args (send_result (not_sent tx_hash reason) receipt))
        (returns-injective h) (inr (tx_hash, reason, receipt, refl, refl))

-- A result that performSwap returns without a send asks for a new quote, is a simulation in
-- simulate mode, or is a failure that moved nothing; after a send it says what came of it:
-- bought, or an anomaly where no token arrived, only when it is confirmed, with the amounts
-- that the receipt's transfers show, pending only while the send is, and a failure that cost
-- gas exactly when the swap was reverted.
pub perform_swap-IsAccounted :
    {F : Type 0} (p : Platform F) (v : Viem) (deps : TradeDeps) (args : SwapArgs)
    (replies : SwapReplies) (send : SendCall → Sent) (r : SwapResult)
    → perform_swap p v deps args replies send ≡ returns r
    → ((swap_call p v deps args replies ≡ returns r) × IsEarly deps r)
      ⊎ ((call : SendCall) × (floor : Option Text) × (swap_call p v deps args replies
            ≡ goes_on (call, floor))
          × IsSettled v deps args (send call) r)
unfolding perform_swap
perform_swap-IsAccounted p v deps args replies send r h =
    elim (either_returns (swap_call p v deps args replies) _ h) [
      | inl early ↦ inl (early, swap_call-IsEarly v deps args p replies r early)
      | inr ((call, floor), e, rest) ↦ inr (
        call,
        floor,
        e,
        after_swap-IsSettled v deps args replies.simulated_at floor (send call) r rest,
      )
    ]

-- the most that a unit of gas may cost, and what of it goes to the validator
abbrev pub max_fee : TxKind → ℕ
max_fee (legacy gas_price) = gas_price
max_fee (eip1559 fee priority) = fee

abbrev pub tip : TxKind → ℕ
tip (legacy gas_price) = 0
tip (eip1559 fee priority) = priority

kind_of_call-fees :
    {R : Type 0} (call : UnsignedCall) (kind : TxKind)
    → ◌≡◌ {A = Step R TxKind} (kind_of_call call) (goes_on kind)
    → (max_fee kind ≡ call.gas_price) × (tip kind ≤ max_fee kind)
kind_of_call-fees call kind h = elim (Option-cases call.max_priority_fee_per_gas) [
  | inl missing ↦ subst Fees (goes_on-injective (rw missing at h)) (refl, omega arith)
  | inr (fee, there) ↦ elim (Bool-cases (ltb call.gas_price fee)) [
    | inl above ↦ absurd (cc (rw (there, above) at h))
    | inr below ↦
        subst Fees (goes_on-injective (rw (there, below) at h)) (refl, ground (arith, below))
  ]
]
  where
    Fees : TxKind → Type 0
    Fees kind = (max_fee kind ≡ call.gas_price) × (tip kind ≤ max_fee kind)

at_most :
    (gas price : ℕ) → gas ≤ 1_500_000 → price ≤ 3_000_000_000 → gas * price ≤ 4_500_000_000_000_000
at_most gas price g p = filled_up gas price (3_000_000_000 - price) g (omega arith)
  where
    filled_up :
        (gas price rest : ℕ)
        → gas ≤ 1_500_000
        → price + rest ≡ 3_000_000_000
        → gas * price ≤ 4_500_000_000_000_000
    filled_up gas price rest g e = let product = ap (λ n. gas * n) e in omega arith

-- a transaction that costs at most 0.0045 BNB besides what it carries
abbrev pub IsPayable : Viem → UnsignedCall → Signable → Type 0
IsPayable v call tx =
    (tx.gas * max_fee tx.kind ≤ 4_500_000_000_000_000)
    × (tip tx.kind ≤ max_fee tx.kind)
    × (tx.wei ≡ call.wei)
    × (v.get_address call.to ≡ some tx.to)

-- A transaction that signableTx makes costs at most 0.0045 BNB of gas, with a tip within its
-- price, and carries the value and the address that it was asked for.
pub signable_tx-IsPayable :
    {R : Type 0} (v : Viem) (call : UnsignedCall) (tx : Signable)
    → ◌≡◌ {A = Step R Signable} (signable_tx v call) (goes_on tx)
    → IsPayable v call tx
unfolding signable_tx
signable_tx-IsPayable v call tx h =
    elim (Bool-cases ((call.gas == 0) || ltb max_gas_limit call.gas)) [
      | inl bad ↦ absurd (cc (rw bad at h))
      | inr gas_ok ↦
          elim (Bool-cases ((call.gas_price == 0) || ltb max_gas_price_wei call.gas_price)) [
            | inl bad ↦ absurd (cc (rw (gas_ok, bad) at h))
            | inr price_ok ↦
                past_throw (codes "invalid address") (v.get_address call.to) _
                  (rw (gas_ok, price_ok) at h)
                  λ to e1 h1. when_on (kind_of_call call) _ h1 λ kind e2 h2.
                    let (fee, above) = kind_of_call-fees call kind e2 in
                    subst (IsPayable v call) (goes_on-injective h2) (
                      subst (λ n. call.gas * n ≤ 4_500_000_000_000_000) (sym fee)
                          (at_most call.gas call.gas_price (ground (arith, gas_ok))
                            (ground (arith, price_ok))),
                      above,
                      refl,
                      e1,
                    )
          ]
    ]
