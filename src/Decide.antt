-- ===== src/Decide.antt =====
-- `decideCycle` of packages/core/src/decide.ts, one stage for each of its steps, in its order:
-- DUE, GUARDIAN, WINDOW, BUDGET, ASSET, PRICE, QUOTE, EXECUTE.
mod Input
mod Budgeting
mod Asset
mod Unavailable
mod Quoting
pub mod Flows
pub mod Choice
pub mod Limits
pub mod Gates
pub mod Execution
pub mod Redeem
pub mod Holds
pub mod Quiet
pub mod QuietStages
pub mod Asks
pub mod Bought
pub mod Tests
unfoldable pub use Input.*
unfoldable pub use Budgeting.*
unfoldable pub use Asset.*
unfoldable pub use Unavailable.*
unfoldable pub use Quoting.*
