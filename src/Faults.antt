-- ===== src/Faults.antt =====
-- experiments/fault_schedule.py: the ground truth of the injected rotor faults.
mod Defs
pub mod Profile
pub mod Schedule
unfoldable pub use Defs.*
