-- ===== src/Trade.antt =====
-- The buy path of the worker: apps/agent/src/executor/trade.ts, with the transaction helpers of
-- packages/chain/src/tx.ts. What the APIs, the chain and the signer answer are arguments; `Viem` names the
-- functions that the source takes from the viem package.
mod Steps
mod Tx
mod Approval
mod Swap
pub mod Past
pub mod Exact
pub mod Safe
pub mod Early
pub mod Accounted
unfoldable pub use Steps.*
unfoldable pub use Tx.*
unfoldable pub use Approval.*
unfoldable pub use Swap.*
pub mod Tests
