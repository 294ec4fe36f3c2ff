-- ===== src/Plans.antt =====
-- Plans and cycles of packages/db/src/plans.ts, and the lease of apps/agent/src/plan-lock.ts. A table
-- is the list of its rows, a statement is one step, and a statement that a constraint refuses gives
-- `none`. Times are milliseconds, and dollar columns count units of 10^-18.
mod Tables
mod Locks
mod Cycles
mod Inserts
unfoldable pub use Tables.*
unfoldable pub use Locks.*
unfoldable pub use Cycles.*
unfoldable pub use Inserts.*
pub mod Exclusion
pub mod Hourly
pub mod Once
pub mod Tests
