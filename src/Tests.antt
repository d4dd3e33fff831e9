-- ===== src/Tests.antt =====
-- Runs of the model on concrete worlds.
pub mod Sample
pub mod Data
pub mod PointRuns
pub mod BalanceRuns
pub mod TokenRuns
pub mod SchedulerRuns
pub mod ApiRuns
mod PollingRuns
mod FrontendRuns
mod RedisRuns
pub mod GatewayRuns
mod LedgerRuns
pub mod GuardedRuns
mod PointHookRuns
mod ContractRuns
