-- ===== src/Queue.antt =====
-- The worker's job queue and the transaction outbox of packages/db/src/queue.ts. A table is the list of
-- its rows and a statement is one step. `before` stands for the database's order on ids, which breaks
-- ties; JSON values are opaque texts.
mod Jobs
mod Outbox
pub mod Selection
pub mod Claims
pub mod Settled
pub mod Marked
pub mod Tests
unfoldable pub use Jobs.*
unfoldable pub use Outbox.*
