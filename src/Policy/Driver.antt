-- ===== src/Policy/Driver.antt =====
-- rl/policy_driver.py: runs the detector on every row and the policy at its decision rate.
mod Defs
pub mod Latch
pub mod Cadence
pub mod Policies
unfoldable pub use Defs.*
