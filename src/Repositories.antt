-- ===== src/Repositories.antt =====
-- The repositories of backend/src/modules/{point,swap,token}/repositories. A read goes through the
-- connection pool; a write goes through the connection that it is handed.
pub mod Query
pub mod Users
pub mod UserPoints
pub mod ConsumptionHistories
pub mod GrantHistories
pub mod UserSwapHistories
pub mod PointToTokenTransactions
pub mod TokenToPointTransactions
