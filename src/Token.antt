-- ===== src/Token.antt =====
-- `TokenService` (backend/src/modules/token/token.service.ts) and the methods of `SwapService`
-- (backend/src/modules/swap/swap.service.ts) that it shares a cycle with.
mod Records
mod Swaps
mod Process
pub mod Steps
pub mod Direct
pub mod Settle
pub mod Mint
pub mod Burn
pub mod Atomic
pub mod Pending
pub mod Twice
unfoldable pub use Records.*
unfoldable pub use Swaps.*
unfoldable pub use Process.*
