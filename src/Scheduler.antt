-- ===== src/Scheduler.antt =====
-- `SchedulerService` (backend/src/modules/scheduler/scheduler.service.ts): the batch of swaps that it
-- takes from the queue, signs and sends to the chain.
mod Machine
mod Messages
mod Rounds
mod Handler
pub mod Steps
pub mod Nonces
pub mod Pushes
pub mod Batches
pub mod Loop
pub mod Ends
unfoldable pub use Machine.*
unfoldable pub use Messages.*
unfoldable pub use Rounds.*
unfoldable pub use Handler.*
