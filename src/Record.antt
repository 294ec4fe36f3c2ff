-- ===== src/Record.antt =====
-- What packages/db/src/record.ts writes down of the chain: a receipt and its effect on the plan, in one
-- transaction. A transaction is one step on the tables, and one that throws gives `none` and changes
-- nothing. A decimal text of an argument is taken as its number of units of 10^-18 dollars.
mod Tables
mod Effects
mod Skill
unfoldable pub use Tables.*
unfoldable pub use Effects.*
unfoldable pub use Skill.*
pub mod Applied
pub mod Redeems
pub mod Once
pub mod Swaps
pub mod Tests
