-- ===== src/Point.antt =====
-- `PointService` (backend/src/modules/point/point.service.ts), method by method.
mod Dto
mod Balance
mod Exchange
mod Histories
mod Accounts
pub mod Steps
pub mod Reads
pub mod Deposit
pub mod Withdraw
pub mod Consume
pub mod Grant
pub mod Progress
pub mod Solvency
pub mod Hazards
pub mod AccountLaws
pub mod Conservation
pub mod Increase
pub mod Creation
unfoldable pub use Dto.*
unfoldable pub use Balance.*
unfoldable pub use Exchange.*
unfoldable pub use Histories.*
unfoldable pub use Accounts.*
