-- ===== src/Bridge.antt =====
-- ros2_ws/src/aero_bridge/aero_bridge: the sequences that arm, hold and land a vehicle.
mod Arming
pub mod Ends
pub mod Cadence
unfoldable pub use Arming.*
