-- ===== src/Runner.antt =====
-- experiments/episode_runner.py: one episode, from its reset to its record, and the fault it flies with.
mod Drive
mod Defs
pub mod Onset
mod Commands
pub mod Profile
pub mod Honest
pub mod Site
pub mod Rested
unfoldable pub use Drive.*
unfoldable pub use Defs.*
