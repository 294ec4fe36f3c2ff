-- ===== src/Sending.antt =====
-- Signing, sending and reconciling the house wallet's transactions: apps/agent/src/executor/send.ts. What
-- the chain and the API answer are arguments, and so is the outbox as each step finds it, since other
-- processes may write it in between.
mod Broadcast
mod Send
mod Reconcile
unfoldable pub use Broadcast.*
unfoldable pub use Send.*
unfoldable pub use Reconcile.*
pub mod Marks
pub mod Justified
pub mod Resends
pub mod Tracked
pub mod Tests
pub mod Nonces
