-- ===== src/Polling.antt =====
-- The script that polls the chain for events and passes them on to the backend
-- (blockchain/scripts/eventPollingToPointServer.ts).
mod Network
mod Events
mod Deliver
mod Loop
pub mod Groups
pub mod Jobs
pub mod Delivery
pub mod Ranges
pub mod Requests
pub mod Coverage
pub mod AtLeastOnce
pub mod CatchUp
pub mod Backend
pub mod Skipped
unfoldable pub use Network.*
unfoldable pub use Events.*
unfoldable pub use Deliver.*
unfoldable pub use Loop.*
