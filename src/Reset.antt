-- ===== src/Reset.antt =====
-- ros2_ws/src/aero_bridge/aero_bridge/reset.py: the three resets of a vehicle between episodes.
mod Defs
pub mod Settled
pub mod Ends
unfoldable pub use Defs.*
