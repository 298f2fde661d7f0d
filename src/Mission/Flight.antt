-- ===== src/Mission/Flight.antt =====
-- ros2_ws/src/aero_bridge/aero_bridge/mission_executor.py: fly_mission.
mod Defs
mod Loops
mod Run
mod Records
mod Polls
pub mod Books
mod Legs
pub mod Completed
pub mod Returns
pub mod Rate
unfoldable pub use Defs.*
unfoldable pub use Loops.*
unfoldable pub use Run.*
