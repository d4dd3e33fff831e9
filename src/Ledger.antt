-- ===== src/Ledger.antt =====
-- What PointService (backend/src/modules/point/point.service.ts) promises of balances: an account book,
-- in which each call that succeeds makes one entry.
pub mod Book
pub mod Calls
pub mod Rows
pub mod Refines
pub mod Runs
pub mod Agreement
pub mod Steady
