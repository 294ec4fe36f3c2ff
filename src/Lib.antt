-- ===== src/Lib.antt =====
-- Verification of YieldVest, a service that buys tokenized US stocks on a schedule.
--
-- Parts of the program and where they are modelled:
--   packages/core/src/amounts.ts   Amounts.antt. Decimal text to exact integers and back, vToken
--       conversions, utilisation and interest. A bigint is a natural number where the source
--       never makes it negative, and Common.Int.ℤ where it can be. A `throw` is `err`.
--   packages/core/src/types.ts     Domain.antt. Plans, instruments and outcomes; an absent or
--       null field is an Option.
--   packages/core/src/why.ts       Why.antt. Copy keys, and `formatUsd`, `formatShares`,
--       `formatPct`.
--   packages/core/src/session.ts, packages/core/src/schedule.ts   Session.antt. The NYSE
--       calendar, the session of an instant, the next open, and when a plan is due next.
--       Calendar.antt writes out the dates and the New York time zone that the runtime supplies.
--   packages/core/src/holdings.ts  Holdings.antt. Shares from tokens and multipliers.
--   packages/core/src/decide.ts    Decide.antt. `decideCycle`, one stage for each step in the
--       source's order (due_stage, guardian_stage, window_stage, budget_stage, asset_stage,
--       price_stage, quote_stage, execution), and `boughtOutcome` (Decide/Bought.antt). A stage
--       is a Flow: it throws, answers early or goes on, so an early `return` is an answer that
--       later stages never see.
--   packages/core/src/guardian.ts  Guardian.antt. The rules over one tick of readings, the rules
--       that could not be evaluated, and the verdict that `decideCycle` gets.
--   packages/core/src/limits.ts, packages/core/src/venues.ts   PlanLimits.antt.
--       `changePlanSettings` with its messages, and the venues' minimum orders.
--   packages/db/src/ledger.ts      Ledger.antt. The spend ledger: usage, remaining spend,
--       reservation under the advisory lock and settlement. Tables are lists of rows, and one
--       transaction is one step, since the lock makes reservations sequential.
--   packages/db/src/queue.ts       Queue.antt. Jobs (Queue/Jobs.antt) and the transaction outbox
--       (Queue/Outbox.antt); a statement that a constraint refuses gives no new table.
--   packages/binance/src/rate-limit.ts   RateLimit.antt. The token bucket, the sliding windows,
--       and the limiter's `acquire` and `pause`.
--   packages/binance/src/taxonomy.ts   Taxonomy.antt. The tables of error codes
--       (Taxonomy/Tables.antt), `classifyError` and `dxFindingOf`, with `isSuccess` of
--       packages/binance/src/metrics.ts.
--   packages/db/src/plans.ts, apps/agent/src/plan-lock.ts   Plans.antt. The table of plans with its
--       checks and the plan lock (Plans/Tables.antt, Plans/Locks.antt), cycles (Plans/Cycles.antt)
--       and the inserts that are limited per code or wallet (Plans/Inserts.antt). Workers that share
--       the table are a step relation (Plans/Exclusion/Workers.antt).
--   packages/db/src/record.ts      Record.antt. Receipts and their effects on plans, holdings and the
--       ledger: the transaction (Record/Effects.antt) and a reported swap (Record/Skill.antt).
--   apps/agent/src/executor/send.ts   Sending.antt. What an answer to a broadcast says of the bytes
--       (Sending/Broadcast.antt), `sendTransaction` up to the broadcast and after it, and `settle`
--       (Sending/Send.antt), and one turn of `reconcileOutbox` and its loop (Sending/Reconcile.antt).
--       Each step gets the outbox as it finds it, since other processes write it in between.
--   apps/agent/src/executor/trade.ts, packages/chain/src/tx.ts   Trade.antt. `ensureApproval`
--       (Trade/Approval.antt) and `performSwap` (Trade/Swap.antt) as chains of steps that throw, return
--       early or go on, up to what `sendTransaction` gets and after it, and what may be signed
--       (Trade/Tx.antt). The record `Viem` stands for the functions of the viem package.
--
-- The engine reads amounts through Amounts, the clock through Session and names outcomes with
-- Domain and Why. The worker calls it again with each quote it asked for, reserves the spend in
-- the ledger before it executes, and settles the reservation when the receipt is in. It claims
-- jobs from the queue, records each signed transaction in the outbox before it broadcasts it,
-- and asks the limiter for a slot before each call of the exchange's API, whose failures
-- Taxonomy classifies. A worker runs a plan while it holds the plan's lock, and what settles on
-- chain is written down by Record once for each transaction. Trade checks what the APIs built
-- before Sending signs and sends it; Sending writes the outbox of the queue, and reads the
-- plan's lock before it settles what another process may be sending. What the guardian fires
-- becomes open events, whose verdict is an input of the engine; the limits that the engine
-- reads are those that PlanLimits checks.
--
-- Parameters: Platform.antt names the double-precision operations and `Date.parse` that the
-- source uses; every theorem about the engine holds for all of them, and the runs use a concrete
-- one. Bounds: nothing of the engine needs fuel. Printing a number in decimal takes more steps
-- than the number has digits (Common/Text.antt), and `nextRegularOpen` searches the 14 days of
-- the source. Dollar columns count units of 10^-18 without the bound of numeric(38,18), and a report
-- of a skill wallet tries the ten slots of the source.
--
-- Not modelled: the display-only yield estimate in doubles, the `Retry-After` header, the HTTP
-- clients, the viem package and the signer, the database driver, the web pages and the operator scripts.
pub mod Common
pub mod Amounts
pub mod Calendar
pub mod Domain
pub mod Platform
pub mod Why
pub mod Session
pub mod Holdings
pub mod Guardian
pub mod Decide
pub mod PlanLimits
pub mod Ledger
pub mod RateLimit
pub mod Queue
pub mod Taxonomy
pub mod Plans
pub mod Record
pub mod Sending
pub mod Trade
