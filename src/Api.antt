-- ===== src/Api.antt =====
-- The HTTP interface of the backend: the routes of the controllers of backend/src/modules/point, swap,
-- token, blockchain and scheduler, and the health route of backend/src/app.controller.ts.
mod Routes
mod Controllers
pub mod Shadow
pub mod Reachable
pub mod Serve
unfoldable pub use Routes.*
unfoldable pub use Controllers.*
