-- ===== src/Plans/Exclusion.antt =====
-- The plan lock of packages/db/src/plans.ts under workers that take, renew and release it.
mod Leases
mod Effects
mod Writes
mod Workers
pub use Leases.*
pub use Effects.*
pub use Writes.*
pub use Workers.*
