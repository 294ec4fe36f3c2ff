-- ===== src/Taxonomy.antt =====
-- The error taxonomy of packages/binance/src/taxonomy.ts: what becomes of a failed API call, with
-- `isSuccess` of packages/binance/src/metrics.ts.
mod Tables
mod Classify
pub mod Safety
pub mod Findings
pub mod Tests
unfoldable pub use Tables.*
unfoldable pub use Classify.*
