-- ===== src/Validity.antt =====
-- The invariant of a game's state, across the operations of src/game/engine/.
mod Defs
pub mod Store
pub mod Payments
pub mod Properties
pub mod Turns
pub mod Charges
pub mod Cards
pub mod Jail
pub mod Moves
pub mod Debts
pub mod Trades
pub mod Engine
pub mod Start
pub use Defs.*
