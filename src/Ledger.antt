-- ===== src/Ledger.antt =====
-- The spend ledger of packages/db/src/ledger.ts: reservations under the daily caps, and what becomes
-- of them. A table is the list of its rows, the newest first; a transaction under the advisory lock
-- is one step. Amounts are `numeric(38, 18)`, here numbers of their last place.
mod Tables
mod Ops
pub mod Caps
pub mod Held
pub mod Runs
pub mod Tests
unfoldable pub use Tables.*
unfoldable pub use Ops.*
