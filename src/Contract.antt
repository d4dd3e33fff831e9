-- ===== src/Contract.antt =====
-- The contract of the points (blockchain/contracts).
mod Manager
mod Calls
pub mod Nonces
pub mod Payments
pub mod Replay
pub mod Rounding
unfoldable pub use Manager.*
unfoldable pub use Calls.*
