-- ===== src/Frontend.antt =====
-- The hooks of the frontend (frontend/app/components/hooks) and its storage
-- (frontend/app/utils/storage/local-storage.ts).
mod Web
mod Hooks
mod Swap
mod Storage
mod User
mod Points
pub mod PointLaws
pub mod PointRoutes
pub mod Paid
pub mod Accounts
pub mod Backed
pub mod Posts
pub mod Signed
unfoldable pub use Web.*
unfoldable pub use Hooks.*
unfoldable pub use Swap.*
unfoldable pub use Storage.*
unfoldable pub use User.*
unfoldable pub use Points.*
