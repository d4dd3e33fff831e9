-- ===== src/Gateway.antt =====
-- The routes of frontend/app/api/point/v1, and their call of the backend
-- (frontend/app/utils/api-config.ts).
pub mod Texts
pub mod Routes
pub mod Queries
pub mod Amounts
pub mod Decimal
pub mod Posts
pub mod Backend
pub mod Guarded
