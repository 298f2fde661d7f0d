-- ===== src/Mission.antt =====
-- rl/mission_tracker.py and ros2_ws/src/aero_bridge/aero_bridge/mission_executor.py: a mission's file,
-- its tracker and its flight. Metres are in millionths; simulated time is in microseconds.
mod Geometry
mod Tracker
mod New
pub mod Validate
pub mod Accepted
mod Steps
pub mod Holds
pub mod Complete
pub mod Fence
pub mod Flight
unfoldable pub use Geometry.*
unfoldable pub use Tracker.*
