-- ===== src/Record/Once.antt =====
-- The effects of packages/db/src/record.ts as one family, and reports of them in any order.
mod Claims
mod Each
mod Runs
pub use Claims.*
pub use Each.*
pub use Runs.*
