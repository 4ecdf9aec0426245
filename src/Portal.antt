-- ===== src/Portal.antt =====
-- `SSEHandler` of build-pipeline/common.py: the requests of the dashboard.
mod Requests
mod Post
mod Get
pub mod Cleared
pub mod Strangers
pub mod Rebuild
pub mod Access
pub mod Frame
unfoldable pub use Requests.*
unfoldable pub use Post.*
unfoldable pub use Get.*
