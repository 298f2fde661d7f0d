-- ===== src/Farm.antt =====
-- experiments/: the farm that flies episodes on several workers, and the supervisor of one worker.
pub mod Supervisor
pub mod Manifest
mod Defs
mod Run
pub mod Levels
pub mod Once
pub mod Reach
pub mod Exactly
pub mod Books
pub mod Rate
pub mod Loop
pub mod Child
pub mod Create
pub mod New
pub mod Closing
unfoldable pub use Defs.*
unfoldable pub use Run.*
